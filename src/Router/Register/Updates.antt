-- ===== src/Router/Register/Updates.antt =====
-- The loop of `Route` (web/router.go) sets exactly one handler, or panics and sets none.
use go_web.Prelude.{Option, none, List, [], ◌∷◌, ◌≡◌, ◌≢◌, refl, sym, subst, maybe_case, ◌∙◌}
use go_web.Strings.{Bytes}
use go_web.Router.Node.{
  Node, NodeFields, store, Place, Place-discrete, at_static, at_regexp, at_param, at_star, child_at,
  set_child,
}
use go_web.Router.Register.{Result, ok, panic, ◌>>=◌, RegexpLib, child_or_create, at_child, insert}
use go_web.Router.Register.Handlers.{
  place_of, places_of, handler_at, handler_at-set_child_self, handler_at-set_child_ne, IsChild,
}
use go_web.Router.Register.Insert.{InPlace, child_or_create-InPlace}

module _ {H : Type 0} where
  pub child_at-with_handler :
      (n : NodeFields H) (h : Option H) (q : Place)
      → child_at (record n { handlefunc = h }) q ≡ child_at n q
  unfolding child_at
  child_at-with_handler n h (at_static k) = refl
  child_at-with_handler n h (at_regexp e) = refl
  child_at-with_handler n h at_param = refl
  child_at-with_handler n h at_star = refl

  pub child_at-with_route :
      (n : NodeFields H) (r : Bytes) (q : Place)
      → child_at (record n { route = r }) q ≡ child_at n q
  unfolding child_at
  child_at-with_route n r (at_static k) = refl
  child_at-with_route n r (at_regexp e) = refl
  child_at-with_route n r at_param = refl
  child_at-with_route n r at_star = refl

  pub handler_at-with_route :
      (n : NodeFields H) (r : Bytes) (qs : List Place)
      → handler_at (record n { route = r }) qs ≡ handler_at n qs
  unfolding handler_at
  handler_at-with_route n r [] = refl
  handler_at-with_route n r (q ∷ qs) = rw (child_at-with_route n r q) refl

  handler_at-set_child_nil :
      (n : NodeFields H) (p : Place) (c : Node H)
      → handler_at (set_child n p c) [] ≡ handler_at n []
  unfolding handler_at set_child
  handler_at-set_child_nil n (at_static k) c = refl
  handler_at-set_child_nil n (at_regexp e) c = refl
  handler_at-set_child_nil n at_param c = refl
  handler_at-set_child_nil n at_star c = refl

  -- No handler changes.
  abbrev pub Same : NodeFields H → NodeFields H → Type 0
  Same n n' = (qs : List Place) → handler_at n' qs ≡ handler_at n qs

  -- The handler at one list of places, which had none, is set, and no other changes.
  abbrev pub Sets : NodeFields H → List Place → Option H → NodeFields H → Type 0
  Sets n ps h n' =
      (handler_at n ps ≡ none)
      × (handler_at n' ps ≡ h)
      × ((qs : List Place) → qs ≢ ps → handler_at n' qs ≡ handler_at n qs)

  -- What a registration does to the handlers, for the places of its pattern.
  abbrev pub Effect :
      NodeFields H → Result (List Place) → Option H → NodeFields H × Result (Unit {0}) → Type 0
  Effect n places h (n', ok _) = (ps : List Place) × (places ≡ ok ps) × Sets n ps h n'
  Effect n places h (n', panic e) = Same n n'

  pub Sets-here :
      (n : NodeFields H) (h : Option H)
      → n.handlefunc ≡ none
      → Sets n [] h (record n { handlefunc = h })
  unfolding handler_at
  Sets-here n h e = (e, refl, others)
    where
      others :
          (qs : List Place)
          → qs ≢ []
          → handler_at (record n { handlefunc = h }) qs ≡ handler_at n qs
      others [] ne = absurd (ne refl)
      others (q ∷ qs) ne = rw (child_at-with_handler n h q) refl

  Same-below :
      (n c c' : NodeFields H) (p : Place)
      → IsChild n p c
      → Same c c'
      → Same n (set_child n p (store c'))
  Same-below n c c' p child same [] = handler_at-set_child_nil n p (store c')
  Same-below n c c' p child same (q ∷ qs) = elim (Place-discrete q p) [
    | yes e ↦
        subst (λ x. handler_at (set_child n p (store c')) (x ∷ qs) ≡ handler_at n (x ∷ qs)) (sym e)
          (handler_at-set_child_self n c' p qs ∙ same qs ∙ child qs)
    | no e ↦ handler_at-set_child_ne n (store c') p q qs e
  ]

  Sets-below :
      (n c c' : NodeFields H) (p : Place) (ps : List Place) (h : Option H)
      → IsChild n p c
      → Sets c ps h c'
      → Sets n (p ∷ ps) h (set_child n p (store c'))
  Sets-below n c c' p ps h child (unset, set, others) =
      (sym (child ps) ∙ unset, handler_at-set_child_self n c' p ps ∙ set, keeps)
    where
      keeps :
          (qs : List Place)
          → qs ≢ (p ∷ ps)
          → handler_at (set_child n p (store c')) qs ≡ handler_at n qs
      keeps [] ne = handler_at-set_child_nil n p (store c')
      keeps (q ∷ qs) ne = elim (Place-discrete q p) [
        | yes e ↦
            subst (λ x. handler_at (set_child n p (store c')) (x ∷ qs) ≡ handler_at n (x ∷ qs))
              (sym e)
              (handler_at-set_child_self n c' p qs
                ∙ others qs (λ same. ne (λ i. e i ∷ same i))
                ∙ child qs)
        | no e ↦ handler_at-set_child_ne n (store c') p q qs e
      ]

  Effect-below :
      (n c : NodeFields H) (p : Place) (places : Result (List Place)) (h : Option H)
      (out : NodeFields H × Result (Unit {0}))
      → IsChild n p c
      → Effect c places h out
      → Effect n (do ps ← places; ok (p ∷ ps)) h (set_child n p (store out.0), out.1)
  Effect-below n c p places h (c', ok _) child (ps, e, sets) =
      (p ∷ ps, rw e refl, Sets-below n c c' p ps h child sets)
  Effect-below n c p places h (c', panic e) child same = Same-below n c c' p child same

  Effect-at_child :
      (n : NodeFields H) (place : Result Place) (places : Result (List Place)) (h : Option H)
      (r : Result (Place × NodeFields H)) (next : NodeFields H → NodeFields H × Result (Unit {0}))
      → InPlace n place r
      → ((c : NodeFields H) → Effect c places h (next c))
      → Effect n (do p ← place; ps ← places; ok (p ∷ ps)) h (at_child n r next)
  Effect-at_child n place places h (panic e) next in_place effect = λ qs. refl
  Effect-at_child n place places h (ok (p, c)) next (e, child) effect =
      subst (λ x. Effect n (do p ← x; ps ← places; ok (p ∷ ps)) h (at_child n (ok (p, c)) next))
        (sym e) (Effect-below n c p places h (next c) child (effect c))

  Effect-of_route :
      (c : NodeFields H) (r : Bytes) (places : Result (List Place)) (h : Option H)
      (out : NodeFields H × Result (Unit {0}))
      → Effect (record c { route = r }) places h out
      → Effect c places h out
  Effect-of_route c r places h (c', ok _) (ps, e, (unset, set, others)) = (
    ps,
    e,
    (
      sym (handler_at-with_route c r ps) ∙ unset,
      set,
      λ qs ne. others qs ne ∙ handler_at-with_route c r qs,
    ),
  )
  Effect-of_route c r places h (c', panic e) same = λ qs. same qs ∙ handler_at-with_route c r qs

  -- Registering a pattern below a node either sets the handler at the places of the pattern, which
  -- had none, and changes no other, or panics and changes no handler at all.
  pub insert-Effect :
      (lib : RegexpLib) (segs : List Bytes) (routepath : Bytes) (h : Option H) (n : NodeFields H)
      → Effect n (places_of lib segs) h (insert lib segs routepath h n)
  unfolding insert places_of
  insert-Effect lib [] routepath h n =
      maybe_case (Effect n (ok []) h) n.handlefunc (λ e. ([], refl, Sets-here n h e))
        (λ _ _ qs. refl)
  insert-Effect lib ([] ∷ segs) routepath h n = λ qs. refl
  insert-Effect lib ((c ∷ s) ∷ segs) routepath h n =
      Effect-at_child n (place_of lib (c ∷ s)) (places_of lib segs) h
        (child_or_create lib n (c ∷ s)) _ (child_or_create-InPlace lib n (c ∷ s))
        (λ child.
          Effect-of_route child _ (places_of lib segs) h _
            (insert-Effect lib segs _ h (record child { route = _ })))
