-- ===== src/Router/Dispatch/Routed.antt =====
-- `Route` (web/router.go) on the routes of the nodes: it adds that of its pattern and keeps the others.
use mathlib.Core.List.{tail}
use go_web.Prelude.{
  Option, some, List, [], ◌∷◌, ◌≡◌, refl, sym, ap, subst, ◌∙◌, get, put, get-put, maybe_case,
  ite_case, ite_related, arith,
}
use go_web.Strings.{Bytes, Bytes-discrete, split}
use go_web.Strings.Split.{split-ne-nil}
use go_web.Router.Node.{Node, NodeFields, load, store, load-store, Place}
use go_web.Router.Register.{
  RegexpLib, Result, ok, Router, new_root, root_of, set_root, register, insert, route,
  check_pattern,
}
use go_web.Router.Register.Handlers.{places_of}
use go_web.Router.Register.Reached.{node_at, routed, Reached, insert-Reached}
use go_web.Router.Register.Routes.{pattern_places}
use go_web.Router.Register.Shape.{IsWell}
use go_web.Router.Register.Updates.{child_at-with_handler}
use go_web.Router.Register.Valid.{
  IsWellRouter, register-KeepsWell, root_of-IsWell, route-IsWellRouter,
}
use go_web.Router.Register.Kept.{
  KeepsRoutes, KeepsRoutes-same, KeepsRoutes-refl, insert-KeepsRoutes,
}
use go_web.Router.RoundTrip.{after_guards_ok, tree_of_route, check_pattern_ok, routed-split}

module _ {H : Type 0} where
  -- The places of a tree of the router lead to a node with the route.
  abbrev pub HasRoute : Router H → Bytes → List Place → Bytes → Type 0
  HasRoute ro method ps r =
      (root : Node H) × (m : NodeFields H) × (get Bytes-discrete method ro.trees ≡ some root)
      × (node_at (load root) ps ≡ some m)
      × (m.route ≡ r)

  -- The roots have the route `/`.
  abbrev pub IsRooted : Router H → Type 0
  IsRooted ro =
      (method : Bytes) (root : Node H)
      → get Bytes-discrete method ro.trees ≡ some root
      → (load root).route ≡ b'/' ∷ []

  pub root_of_there :
      (ro : Router H) (method : Bytes) (root : Node H)
      → get Bytes-discrete method ro.trees ≡ some root
      → root_of ro method ≡ load root
  unfolding root_of
  root_of_there ro method root e = rw e refl

  root_of-route :
      (ro : Router H) (method : Bytes) → IsRooted ro → (root_of ro method).route ≡ b'/' ∷ []
  unfolding root_of new_root
  root_of-route ro method h =
      maybe_case (λ (n : NodeFields H). n.route ≡ b'/' ∷ []) (get Bytes-discrete method ro.trees)
        (λ _. refl) (λ root e. h method root e)

  HasRoute-put :
      (ro : Router H) (method other : Bytes) (n : NodeFields H) (ps : List Place) (r : Bytes)
      → KeepsRoutes (root_of ro method) n
      → HasRoute ro other ps r
      → HasRoute (record ro { trees = put Bytes-discrete method (store n) ro.trees }) other ps r
  HasRoute-put ro method other n ps r kept (root, m, tree, at, is_r) =
      let changed = get-put Bytes-discrete method other (store n) ro.trees in
      elim (Bytes-discrete other method) [
        | yes same ↦
            let is_root =
              root_of_there ro method root
                (subst (λ x. get Bytes-discrete x ro.trees ≡ some root) same tree) in
            let (m', at', is_r') =
              kept ps m (subst (λ x. node_at x ps ≡ some m) (sym is_root) at) in
            (
              store n,
              m',
              ground (arith, changed),
              ap (λ x. node_at x ps) (load-store n) ∙ at',
              is_r' ∙ is_r,
            )
        | no ne ↦ (root, m, ground (arith, changed), at, is_r)
      ]

  IsRooted-put :
      (ro : Router H) (method : Bytes) (n : NodeFields H)
      → IsRooted ro
      → n.route ≡ b'/' ∷ []
      → IsRooted (record ro { trees = put Bytes-discrete method (store n) ro.trees })
  IsRooted-put ro method n h is j root e =
      let changed = get-put Bytes-discrete method j (store n) ro.trees in
      elim (Bytes-discrete j method) [
        | yes same ↦
            subst (λ (x : NodeFields H). x.route ≡ b'/' ∷ [])
              (sym (load-store n) ∙ ap load (ground (arith, changed))) is
        | no ne ↦ h j root (ground (arith, changed))
      ]

module _ {H : Type 0} (lib : RegexpLib) where
  register-KeepsRoutes :
      (pattern : Bytes) (h : Option H) (root : NodeFields H)
      → IsWell lib [] root
      → KeepsRoutes root (register lib pattern h root).0
  unfolding register
  register-KeepsRoutes pattern h root well =
      ite_case (λ (x : NodeFields H × Result (Unit {0})). KeepsRoutes root x.0)
        (Bytes-discrete pattern (b'/' ∷ []))
        (λ _.
          maybe_case (λ (x : NodeFields H × Result (Unit {0})). KeepsRoutes root x.0)
            root.handlefunc
            (λ _.
              KeepsRoutes-same root (record root { handlefunc = h }) (child_at-with_handler root h)
                refl)
            (λ _ _. KeepsRoutes-refl root))
        (λ _. insert-KeepsRoutes lib (split b'/' (tail pattern)) [] h root well)

  -- A pattern that passes the guards is the route of the node that it is registered at.
  register-Reached :
      (pattern : Bytes) (h : Option H) (root : NodeFields H)
      → check_pattern pattern ≡ ok tt
      → root.route ≡ b'/' ∷ []
      → Reached (pattern_places lib pattern) h pattern (register lib pattern h root)
  unfolding register pattern_places node_at
  register-Reached pattern h root checked rooted =
      ite_related (λ places out. Reached places h pattern out) (Bytes-discrete pattern (b'/' ∷ []))
        (λ same.
          maybe_case (Reached (ok []) h pattern) root.handlefunc
            (λ _. ([], _, refl, refl, refl, rooted ∙ sym same)) (λ _ _. tt))
        (λ ne.
          let (s, is_s, _) = check_pattern_ok pattern checked ne in
          let whole : routed [] (split b'/' (tail pattern)) ≡ pattern =
            routed-split (tail pattern) ∙ subst (λ p. (b'/' ∷ tail p) ≡ p) (sym is_s) refl in
          subst
            (λ r.
              Reached (places_of lib (split b'/' (tail pattern))) h r
                (insert lib (split b'/' (tail pattern)) [] h root))
            whole
            (insert-Reached lib (split b'/' (tail pattern)) [] h root
              (λ nil. absurd (split-ne-nil b'/' (tail pattern) nil))))

  -- A well-formed router whose roots have the route `/`.
  abbrev pub IsGood : Router H → Type 0
  IsGood ro = IsWellRouter lib ro × IsRooted ro

  -- A call of `Route` that does not panic: what it makes of the router.
  pub route_ok :
      (ro ro' : Router H) (method pattern : Bytes) (h : Option H)
      → route lib ro method pattern h ≡ (ro', ok tt)
      → (check_pattern pattern ≡ ok tt)
        × (set_root ro method (register lib pattern h (root_of ro method)) ≡ (ro', ok tt))
  unfolding route
  route_ok ro ro' method pattern h e = after_guards_ok ro ro' (check_pattern pattern) _ e

  pub route-IsGood :
      (ro ro' : Router H) (method pattern : Bytes) (h : Option H)
      → route lib ro method pattern h ≡ (ro', ok tt)
      → IsGood ro
      → IsGood ro'
  route-IsGood ro ro' method pattern h e (well, rooted) =
      let (_, done) = route_ok ro ro' method pattern h e in
      let (_, same, _) =
        register-KeepsWell lib pattern h (root_of ro method) (root_of-IsWell lib ro method well) in
      (
        subst (λ x. IsWellRouter lib x.0) e (route-IsWellRouter lib ro method pattern h well).0,
        subst (λ x. IsRooted x.0) done
            (IsRooted-put ro method (register lib pattern h (root_of ro method)).0 rooted
              (same.route ∙ root_of-route ro method rooted)),
      )

  -- It keeps the routes that are there,
  pub route-HasRoute :
      (ro ro' : Router H) (method pattern other : Bytes) (h : Option H) (ps : List Place)
      (r : Bytes)
      → route lib ro method pattern h ≡ (ro', ok tt)
      → IsGood ro
      → HasRoute ro other ps r
      → HasRoute ro' other ps r
  route-HasRoute ro ro' method pattern other h ps r e (well, _) has =
      let (_, done) = route_ok ro ro' method pattern h e in
      subst (λ x. HasRoute x.0 other ps r) done
        (HasRoute-put ro method other (register lib pattern h (root_of ro method)).0 ps r
          (register-KeepsRoutes pattern h (root_of ro method) (root_of-IsWell lib ro method well))
          has)

  -- and adds that of its pattern.
  pub route_new_HasRoute :
      (ro ro' : Router H) (method pattern : Bytes) (h : Option H) (ps : List Place)
      → route lib ro method pattern h ≡ (ro', ok tt)
      → IsGood ro
      → pattern_places lib pattern ≡ ok ps
      → HasRoute ro' method ps pattern
  route_new_HasRoute ro ro' method pattern h ps e (_, rooted) places =
      let (checked, done) = route_ok ro ro' method pattern h e in
      let (root, m, tree, at, _, is_r) =
        tree_of_route ro ro' method (pattern_places lib pattern) h pattern ps
          (register lib pattern h (root_of ro method))
          (register-Reached pattern h (root_of ro method) checked (root_of-route ro method rooted))
          places done in
      (store root, m, tree, ap (λ x. node_at x ps) (load-store root) ∙ at, is_r)
