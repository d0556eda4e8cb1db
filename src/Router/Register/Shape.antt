-- ===== src/Router/Register/Shape.antt =====
-- The shape of the routing tree (web/router.go): each child is of the type of its place, has the name
-- and the expression of its path, and the route from the root to it.
use go_web.Prelude.{Option, none, some, List, [], ◌∷◌, ◌++◌, ◌≡◌, sym, subst, maybe}
use go_web.Strings.{Bytes}
use go_web.Router.Node.{
  Node, NodeFields, static, regexp, param, star, load, store, load-store, Place, Place-discrete,
  at_static, at_regexp, at_param, at_star, child_at, set_child,
}
use go_web.Router.Register.{ok, RegexpLib, parse_param}
use go_web.Router.Register.Handlers.{place_of, child_at-set_child_self, child_at-set_child_ne}
use go_web.Router.Register.Insert.{IsBare, child_at_bare}

module _ (lib : RegexpLib) {H : Type 0} where
  -- The type of a child, with its path, parameter name and expression, as its place wants them.
  abbrev pub Named : Place → NodeFields H → Type 0
  Named (at_static k) c = (c.typ ≡ static) × (c.path ≡ k)
  Named (at_regexp e) c =
      (c.typ ≡ regexp)
      × (c.reg_expr ≡ some e)
      × (parse_param lib c.path ≡ ok (c.param_name, some e))
  Named at_param c = (c.typ ≡ param) × (parse_param lib c.path ≡ ok (c.param_name, none))
  Named at_star c = (c.typ ≡ star) × (c.path ≡ b'*' ∷ [])

  -- A child below a node with the route `r`.
  abbrev pub IsPlaced : Bytes → Place → NodeFields H → Type 0
  IsPlaced r p c = Named p c × (place_of lib c.path ≡ ok p) × (c.route ≡ r ++ (b'/' ∷ c.path))

  -- All children on the way along places, below a node with the route `r`.
  unfoldable pub WellAt : Bytes → NodeFields H → List Place → Type 0
  WellAt r n [] = Unit
  WellAt r n (p ∷ ps) =
      maybe Unit (λ c. IsPlaced r p (load c) × WellAt (load c).route (load c) ps) (child_at n p)

  abbrev pub IsWell : Bytes → NodeFields H → Type 0
  IsWell r n = (ps : List Place) → WellAt r n ps

  abbrev Below : Bytes → Place → List Place → Option (Node H) → Type 0
  Below r p ps o = maybe Unit (λ c. IsPlaced r p (load c) × WellAt (load c).route (load c) ps) o

  -- A child that is found is placed, and the tree below it is well-formed.
  pub found_child :
      (r : Bytes) (n : NodeFields H) (p : Place) (c : Node H)
      → IsWell r n
      → child_at n p ≡ some c
      → IsPlaced r p (load c) × IsWell (load c).route (load c)
  unfolding WellAt
  found_child r n p c h e =
      let at = λ (ps : List Place). subst (Below r p ps) e (h (p ∷ ps)) in
      ((at []).0, λ ps. (at ps).1)

  pub IsWell-IsBare : (r : Bytes) (f : NodeFields H) → IsBare f → IsWell r f
  unfolding WellAt
  IsWell-IsBare r f b [] = tt
  IsWell-IsBare r f b (p ∷ ps) = subst (Below r p ps) (sym (child_at_bare f b p)) tt

  -- A tree with the same children is well-formed too.
  pub IsWell-same :
      (r : Bytes) (n n' : NodeFields H)
      → ((p : Place) → child_at n' p ≡ child_at n p)
      → IsWell r n
      → IsWell r n'
  unfolding WellAt
  IsWell-same r n n' same h [] = tt
  IsWell-same r n n' same h (p ∷ ps) = subst (Below r p ps) (sym (same p)) (h (p ∷ ps))

  -- So is a tree in which a child that is placed and well-formed is hung.
  pub IsWell-set_child :
      (r : Bytes) (n c : NodeFields H) (p : Place)
      → IsWell r n
      → IsPlaced r p c
      → IsWell c.route c
      → IsWell r (set_child n p (store c))
  unfolding WellAt
  IsWell-set_child r n c p h placed well [] = tt
  IsWell-set_child r n c p h placed well (q ∷ ps) = elim (Place-discrete q p) [
    | yes e ↦
        subst (λ x. WellAt r (set_child n p (store c)) (x ∷ ps)) (sym e)
          (subst (Below r p ps) (sym (child_at-set_child_self n p (store c))) (
            subst (λ (d : NodeFields H). IsPlaced r p d × WellAt d.route d ps) (sym (load-store c))
              (placed, well ps)))
    | no ne ↦ subst (Below r q ps) (sym (child_at-set_child_ne n p q (store c) ne)) (h (q ∷ ps))
  ]
