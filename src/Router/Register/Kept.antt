-- ===== src/Router/Register/Kept.antt =====
-- `Route` (web/router.go) keeps the route of every node that is there.
use go_web.Prelude.{
  Option, none, some, List, [], ◌∷◌, ◌++◌, ◌≡◌, refl, sym, ap, subst, get, maybe, maybe-eq-some,
  ◌∙◌, ℕ_discrete, maybe_case, ite_case,
}
use go_web.Strings.{Bytes, Bytes-discrete}
use go_web.Router.Node.{
  Node, NodeFields, load, store, load-store, Place, Place-discrete, child_at, set_child,
}
use go_web.Router.Register.{
  Result, ok, panic, ◌>>=◌, RegexpLib, parse_param, check_reg, for_param, child_or_create_reg,
  child_or_create_param, child_or_create_star, child_or_create_static, child_or_create, at_child,
  insert,
}
use go_web.Router.Register.Handlers.{child_at-set_child_self, child_at-set_child_ne}
use go_web.Router.Register.Reached.{node_at}
use go_web.Router.Register.Updates.{child_at-with_route, child_at-with_handler}
use go_web.Router.Register.Shape.{IsWell, IsWell-same, found_child}
use go_web.Router.Register.Made.{Makes, child_or_create-Makes}
use go_web.Router.Register.Valid.{SameNode-set_child}

module _ {H : Type 0} where
  -- The child that `ChildOrCreate` returns is the one in its place, if there is one.
  abbrev pub IsOld : NodeFields H → Result (Place × NodeFields H) → Type 0
  IsOld n (ok (p, c)) = (d : Node H) → child_at n p ≡ some d → load d ≡ c
  IsOld n (panic e) = Unit

  absent :
      {o : Option (Node H)} {c : NodeFields H} (d : Node H) → o ≡ none → o ≡ some d → load d ≡ c
  absent d e f = cc

  present : {o : Option (Node H)} (c d : Node H) → o ≡ some c → o ≡ some d → load d ≡ load c
  present c d e f = cc

  static-IsOld : (n : NodeFields H) (k : Bytes) → IsOld n (ok (child_or_create_static n k))
  unfolding child_or_create_static child_at
  static-IsOld n k =
      maybe_case (λ c. (d : Node H) → get Bytes-discrete k n.children ≡ some d → load d ≡ c)
        (get Bytes-discrete k n.children) (λ e d. absent d e) (λ c e d. present c d e)

  star-IsOld : (n : NodeFields H) → IsOld n (ok (child_or_create_star n))
  unfolding child_or_create_star child_at
  star-IsOld n =
      maybe_case (λ c. (d : Node H) → n.star_child ≡ some d → load d ≡ c) n.star_child
        (λ e d. absent d e) (λ c e d. present c d e)

  param-IsOld :
      (n : NodeFields H) (pattern name : Bytes) → IsOld n (child_or_create_param n pattern name)
  unfolding child_or_create_param child_at
  param-IsOld n pattern name =
      maybe_case (IsOld n) n.param_child (λ e d. absent d e)
        (λ c e.
          ite_case (IsOld n) (Bytes-discrete (load c).path pattern) (λ _ d. present c d e)
            (λ _. tt))

  check_reg-IsOld :
      (n : NodeFields H) (c : Node H) (pattern expr : Bytes)
      → get Bytes-discrete expr n.regexp_child ≡ some c
      → IsOld n (check_reg (load c) pattern expr)
  unfolding check_reg child_at
  check_reg-IsOld n c pattern expr e =
      ite_case (IsOld n) (Bytes-discrete (load c).path pattern)
        (λ _.
          maybe_case (IsOld n) (load c).reg_expr (λ _. tt)
            (λ x _. ite_case (IsOld n) (Bytes-discrete x expr) (λ _ d. present c d e) (λ _. tt)))
        (λ _. tt)

  reg-IsOld :
      (n : NodeFields H) (pattern expr name : Bytes)
      → IsOld n (child_or_create_reg n pattern expr name)
  unfolding child_or_create_reg child_at
  reg-IsOld n pattern expr name =
      maybe_case (IsOld n) (get Bytes-discrete expr n.regexp_child) (λ e d. absent d e)
        (λ c e. check_reg-IsOld n c pattern expr e)

  for_param-IsOld :
      (n : NodeFields H) (pattern : Bytes) (found : Result (Bytes × Option Bytes))
      → IsOld n (do f ← found; for_param n pattern f)
  for_param-IsOld n pattern (panic e) = tt
  for_param-IsOld n pattern (ok (name, none)) = param-IsOld n pattern name
  for_param-IsOld n pattern (ok (name, some expr)) = reg-IsOld n pattern expr name

  pub child_or_create-IsOld :
      (lib : RegexpLib) (n : NodeFields H) (seg : Bytes) → IsOld n (child_or_create lib n seg)
  unfolding child_or_create
  child_or_create-IsOld lib n [] = tt
  child_or_create-IsOld lib n (c ∷ s) =
      ite_case (IsOld n) (ℕ_discrete c b':')
        (λ _. for_param-IsOld n (c ∷ s) (parse_param lib (c ∷ s)))
        (λ _.
          ite_case (IsOld n) (Bytes-discrete (c ∷ s) (b'*' ∷ [])) (λ _. star-IsOld n)
            (λ _. static-IsOld n (c ∷ s)))

  -- Every node that is there stays, with its route.
  abbrev pub KeepsRoutes : NodeFields H → NodeFields H → Type 0
  KeepsRoutes n n' =
      (qs : List Place) (m : NodeFields H)
      → node_at n qs ≡ some m
      → (m' : NodeFields H) × (node_at n' qs ≡ some m') × (m'.route ≡ m.route)

  same_route :
      {n m : NodeFields H} → ◌≡◌ {A = Option (NodeFields H)} (some n) (some m) → n.route ≡ m.route
  same_route e = ap (λ o. maybe [] (λ (x : NodeFields H). x.route) o) e

  pub KeepsRoutes-refl : (n : NodeFields H) → KeepsRoutes n n
  KeepsRoutes-refl n qs m e = (m, e, refl)

  pub KeepsRoutes-same :
      (n n' : NodeFields H)
      → ((p : Place) → child_at n' p ≡ child_at n p)
      → n'.route ≡ n.route
      → KeepsRoutes n n'
  unfolding node_at
  KeepsRoutes-same n n' same route [] m e = (n', refl, route ∙ same_route e)
  KeepsRoutes-same n n' same route (q ∷ qs) m e = (m, rw (same q) e, refl)

  KeepsRoutes-set_child :
      (lib : RegexpLib) (r seg : Bytes) (n d c' : NodeFields H) (p : Place)
      → IsWell lib r n
      → IsOld n (ok (p, d))
      → d.path ≡ seg
      → KeepsRoutes (record d { route = r ++ (b'/' ∷ seg) }) c'
      → KeepsRoutes n (set_child n p (store c'))
  unfolding node_at
  KeepsRoutes-set_child lib r seg n d c' p well old path kept [] m e =
      (set_child n p (store c'), refl, (SameNode-set_child lib n p (store c')).route ∙ same_route e)
  KeepsRoutes-set_child lib r seg n d c' p well old path kept (q ∷ qs) m e =
      elim (Place-discrete q p) [
        | yes same ↦
            let (d₀, at, below) =
              maybe-eq-some (λ (c : Node H). node_at (load c) qs) (child_at n q) e in
            let at' : child_at n p ≡ some d₀ = subst (λ x. child_at n x ≡ some d₀) same at in
            let is_d = old d₀ at' in
            let ((_, _, routed), _) = found_child lib r n p d₀ well at' in
            let here : d.route ≡ r ++ (b'/' ∷ seg) =
              subst (λ (x : NodeFields H). x.route ≡ r ++ (b'/' ∷ x.path)) is_d routed
              ∙ ap (λ x. r ++ (b'/' ∷ x)) path in
            let (m₁, e₁, r₁) =
              KeepsRoutes-same d (record d { route = r ++ (b'/' ∷ seg) })
                (child_at-with_route d (r ++ (b'/' ∷ seg))) (sym here) qs m
                (subst (λ x. node_at x qs ≡ some m) is_d below) in
            let (m₂, e₂, r₂) = kept qs m₁ e₁ in
            (
              m₂,
              subst (λ x. node_at (set_child n p (store c')) (x ∷ qs) ≡ some m₂) (sym same)
                  (rw (child_at-set_child_self n p (store c'))
                    (ap (λ c. node_at c qs) (load-store c') ∙ e₂)),
              r₂ ∙ r₁,
            )
        | no ne ↦ (m, rw (child_at-set_child_ne n p q (store c') ne) e, refl)
      ]

  KeepsRoutes-at_child :
      (lib : RegexpLib) (r seg : Bytes) (n : NodeFields H) (made : Result (Place × NodeFields H))
      (next : NodeFields H → NodeFields H × Result (Unit {0}))
      → IsWell lib r n
      → Makes lib r seg made
      → IsOld n made
      → ((d : NodeFields H)
          → IsWell lib (r ++ (b'/' ∷ seg)) d
          → KeepsRoutes (record d { route = r ++ (b'/' ∷ seg) }) (next d).0)
      → KeepsRoutes n (at_child n made next).0
  KeepsRoutes-at_child lib r seg n (panic e) next well makes old go = KeepsRoutes-refl n
  KeepsRoutes-at_child lib r seg n (ok (p, d)) next well (named, path, below) old go =
      KeepsRoutes-set_child lib r seg n d (next d).0 p well old path (go d below)

  pub insert-KeepsRoutes :
      (lib : RegexpLib) (segs : List Bytes) (r : Bytes) (h : Option H) (n : NodeFields H)
      → IsWell lib r n
      → KeepsRoutes n (insert lib segs r h n).0
  unfolding insert
  insert-KeepsRoutes lib [] r h n well =
      maybe_case (λ (x : NodeFields H × Result (Unit {0})). KeepsRoutes n x.0) n.handlefunc
        (λ _. KeepsRoutes-same n (record n { handlefunc = h }) (child_at-with_handler n h) refl)
        (λ _ _. KeepsRoutes-refl n)
  insert-KeepsRoutes lib ([] ∷ segs) r h n well = KeepsRoutes-refl n
  insert-KeepsRoutes lib ((c ∷ s) ∷ segs) r h n well =
      let here = r ++ (b'/' ∷ c ∷ s) in
      KeepsRoutes-at_child lib r (c ∷ s) n (child_or_create lib n (c ∷ s)) _ well
        (child_or_create-Makes lib r n c s well) (child_or_create-IsOld lib n (c ∷ s))
        (λ d below.
          insert-KeepsRoutes lib segs here h (record d { route = here })
            (IsWell-same lib here d (record d { route = here }) (child_at-with_route d here) below))
