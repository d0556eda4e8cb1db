-- ===== src/Router/Register/Reached.antt =====
-- Where the loop of `Route` (web/router.go) ends: at the node of the pattern's places, which then
-- holds the handler and the route that was registered.
use go_web.Prelude.{
  Option, none, some, List, [], ◌∷◌, ◌++◌, ◌≡◌, refl, sym, ap, subst, maybe, maybe_case, ◌∙◌,
}
use go_web.Strings.{Bytes}
use go_web.Router.Node.{NodeFields, load, store, load-store, Place, child_at, set_child}
use go_web.Router.Register.{Result, ok, panic, ◌>>=◌, RegexpLib, child_or_create, at_child, insert}
use go_web.Router.Register.Handlers.{place_of, places_of, child_at-set_child_self}
use go_web.Router.Register.Insert.{InPlace, child_or_create-InPlace}

-- The route of a node at the end of segments, below a node with a route of its own.
abbrev pub routed : Bytes → List Bytes → Bytes
routed routepath [] = routepath
routed routepath (seg ∷ segs) = routed (routepath ++ (b'/' ∷ seg)) segs

module _ {H : Type 0} where
  -- The node at the end of a list of places.
  unfoldable pub node_at : NodeFields H → List Place → Option (NodeFields H)
  node_at n [] = some n
  node_at n (p ∷ ps) = maybe none (λ c. node_at (load c) ps) (child_at n p)

  -- After a registration that does not panic the places lead to a node with the handler and route.
  abbrev pub Reached :
      Result (List Place) → Option H → Bytes → NodeFields H × Result (Unit {0}) → Type 0
  Reached places h r (n', ok _) =
      (ps : List Place) × (m : NodeFields H) × (places ≡ ok ps)
      × (node_at n' ps ≡ some m)
      × (m.handlefunc ≡ h)
      × (m.route ≡ r)
  Reached places h r (n', panic e) = Unit

  Reached-below :
      (n : NodeFields H) (p : Place) (places : Result (List Place)) (h : Option H) (r : Bytes)
      (out : NodeFields H × Result (Unit {0}))
      → Reached places h r out
      → Reached (do ps ← places; ok (p ∷ ps)) h r (set_child n p (store out.0), out.1)
  unfolding node_at
  Reached-below n p places h r (c', ok _) (ps, m, e, at, set, has_route) = (
    p ∷ ps,
    m,
    rw e refl,
    rw (child_at-set_child_self n p (store c')) (ap (λ c. node_at c ps) (load-store c') ∙ at),
    set,
    has_route,
  )
  Reached-below n p places h r (c', panic e) u = tt

  Reached-at_child :
      (n : NodeFields H) (place : Result Place) (places : Result (List Place)) (h : Option H)
      (r : Bytes) (made : Result (Place × NodeFields H))
      (next : NodeFields H → NodeFields H × Result (Unit {0}))
      → InPlace n place made
      → ((c : NodeFields H) → Reached places h r (next c))
      → Reached (do p ← place; ps ← places; ok (p ∷ ps)) h r (at_child n made next)
  Reached-at_child n place places h r (panic e) next in_place reached = tt
  Reached-at_child n place places h r (ok (p, c)) next (e, child) reached =
      subst (λ x. Reached (do p ← x; ps ← places; ok (p ∷ ps)) h r (at_child n (ok (p, c)) next))
        (sym e) (Reached-below n p places h r (next c) (reached c))

  -- A registration that does not panic leaves the handler and the whole route at the places of the
  -- pattern.
  pub insert-Reached :
      (lib : RegexpLib) (segs : List Bytes) (routepath : Bytes) (h : Option H) (n : NodeFields H)
      → (segs ≡ [] → n.route ≡ routepath)
      → Reached (places_of lib segs) h (routed routepath segs) (insert lib segs routepath h n)
  unfolding insert places_of node_at
  insert-Reached lib [] routepath h n e =
      maybe_case (Reached (ok []) h routepath) n.handlefunc (λ _. ([], _, refl, refl, refl, e refl))
        (λ _ _. tt)
  insert-Reached lib ([] ∷ segs) routepath h n e = tt
  insert-Reached lib ((c ∷ s) ∷ segs) routepath h n e =
      Reached-at_child n (place_of lib (c ∷ s)) (places_of lib segs) h _
        (child_or_create lib n (c ∷ s)) _ (child_or_create-InPlace lib n (c ∷ s))
        (λ child. insert-Reached lib segs _ h (record child { route = _ }) (λ _. refl))
