-- ===== src/Router/Register/Handlers.antt =====
-- What registration (web/router.go) does to the handlers of the tree: a tree is read as the map
-- from lists of places to handlers, and `insert` sets one entry of it or none.
use mathlib.Core.Logic.{ite}
use go_web.Prelude.{
  Option, none, some, List, [], ◌∷◌, ◌≡◌, ◌≢◌, refl, ap, maybe, get-put_self, get-put_ne,
  ℕ_discrete,
}
use go_web.Strings.{Bytes, Bytes-discrete}
use go_web.Router.Node.{
  Node, NodeFields, load, store, load-store, Place, Place-discrete, at_static, at_regexp, at_param,
  at_star, child_at, set_child,
}
use go_web.Router.Register.{out_of_range, Result, ok, panic, ◌>>=◌, RegexpLib, parse_param}

-- The place of a segment of a pattern, which depends on the segment alone.
abbrev pub place_for : Bytes × Option Bytes → Place
place_for (name, none) = at_param
place_for (name, some expr) = at_regexp expr

unfoldable pub place_of : RegexpLib → Bytes → Result Place
place_of lib [] = panic out_of_range
place_of lib (c ∷ s) =
    ite (ℕ_discrete c b':') (do found ← parse_param lib (c ∷ s); ok (place_for found))
      (ite (Bytes-discrete (c ∷ s) (b'*' ∷ [])) (ok at_star) (ok (at_static (c ∷ s))))

unfoldable pub places_of : RegexpLib → List Bytes → Result (List Place)
places_of lib [] = ok []
places_of lib (seg ∷ segs) = do p ← place_of lib seg; ps ← places_of lib segs; ok (p ∷ ps)

pub Places-discrete : Discrete (List Place)
Places-discrete = hlevel Place-discrete

module _ {H : Type 0} where
  -- The handler at the end of a list of places.
  unfoldable pub handler_at : NodeFields H → List Place → Option H
  handler_at n [] = n.handlefunc
  handler_at n (p ∷ ps) = maybe none (λ c. handler_at (load c) ps) (child_at n p)

  pub child_at-set_child_self :
      (n : NodeFields H) (p : Place) (c : Node H) → child_at (set_child n p c) p ≡ some c
  unfolding child_at set_child
  child_at-set_child_self n (at_static k) c = get-put_self Bytes-discrete k c n.children
  child_at-set_child_self n (at_regexp e) c = get-put_self Bytes-discrete e c n.regexp_child
  child_at-set_child_self n at_param c = refl
  child_at-set_child_self n at_star c = refl

  pub child_at-set_child_ne :
      (n : NodeFields H) (p q : Place) (c : Node H)
      → q ≢ p
      → child_at (set_child n p c) q ≡ child_at n q
  unfolding child_at set_child
  child_at-set_child_ne n (at_static k) (at_static j) c h =
      get-put_ne Bytes-discrete k j c n.children (λ e. h (ap at_static e))
  child_at-set_child_ne n (at_regexp k) (at_regexp j) c h =
      get-put_ne Bytes-discrete k j c n.regexp_child (λ e. h (ap at_regexp e))
  child_at-set_child_ne n at_param at_param c h = absurd (h refl)
  child_at-set_child_ne n at_star at_star c h = absurd (h refl)
  child_at-set_child_ne n (at_static k) _ c h = refl
  child_at-set_child_ne n (at_regexp k) _ c h = refl
  child_at-set_child_ne n at_param _ c h = refl
  child_at-set_child_ne n at_star _ c h = refl

  -- Below a place that is set the handlers are those of the new child.
  pub handler_at-set_child_self :
      (n c : NodeFields H) (p : Place) (qs : List Place)
      → handler_at (set_child n p (store c)) (p ∷ qs) ≡ handler_at c qs
  unfolding handler_at
  handler_at-set_child_self n c p qs =
      rw (child_at-set_child_self n p (store c)) (ap (λ m. handler_at m qs) (load-store c))

  pub handler_at-set_child_ne :
      (n : NodeFields H) (c : Node H) (p q : Place) (qs : List Place)
      → q ≢ p
      → handler_at (set_child n p c) (q ∷ qs) ≡ handler_at n (q ∷ qs)
  unfolding handler_at
  handler_at-set_child_ne n c p q qs h = rw (child_at-set_child_ne n p q c h) refl

  -- A child as it is found, or new and with no handler below it.
  abbrev pub IsChild : NodeFields H → Place → NodeFields H → Type 0
  IsChild n p c = (qs : List Place) → handler_at c qs ≡ handler_at n (p ∷ qs)

  pub IsChild-found :
      (n : NodeFields H) (p : Place) (c : Node H) → child_at n p ≡ some c → IsChild n p (load c)
  unfolding handler_at
  IsChild-found n p c e qs = rw e refl
