-- ===== src/Router/Register/Valid.antt =====
-- Registration (web/router.go) keeps the shape of the tree, and ends in no panic of Go's runtime.
use go_web.Prelude.{
  arith, Option, none, some, List, [], ◌∷◌, ◌++◌, ◌≡◌, refl, sym, ap, subst, maybe_case, ite_case,
  ◌∙◌, get, put, get-put,
}
use mathlib.Core.List.{tail}
use go_web.Strings.{Bytes, Bytes-discrete, split}
use go_web.Router.Node.{
  Node, NodeFields, load, store, load-store, Place, at_static, at_regexp, at_param, at_star,
  set_child,
}
use go_web.Router.Register.{
  Result, ok, panic, RegexpLib, parse_param, child_or_create, at_child, insert, Router, new_root,
  root_of, register, route, check_pattern, after_guards, set_root,
}
use go_web.Router.Register.Handlers.{place_of}
use go_web.Router.Register.Insert.{InPlace, child_or_create-InPlace}
use go_web.Router.Register.Updates.{child_at-with_route, child_at-with_handler}
use go_web.Router.Register.Shape.{
  Named, IsPlaced, IsWell, IsWell-IsBare, IsWell-same, IsWell-set_child,
}
use go_web.Router.Register.Made.{Makes, SafeResult, child_or_create-Makes}

pub new_root-IsWell : (lib : RegexpLib) (H : Type 0) → IsWell lib [] (new_root {H = H})
unfolding new_root
new_root-IsWell lib H = IsWell-IsBare lib [] new_root (record {
  handlefunc = refl;
  children = refl;
  regexp_child = refl;
  param_child = refl;
  star_child = refl;
})

check_pattern-SafeResult : (pattern : Bytes) → SafeResult (check_pattern pattern)
unfolding SafeResult
check_pattern-SafeResult [] = ((λ y. cc), (λ y. cc))
check_pattern-SafeResult (c ∷ s) = ground (arith)

module _ (lib : RegexpLib) {H : Type 0} where
  -- A node that stays the same but for its handler and what hangs in it.
  pub record SameNode (n n' : NodeFields H) : Type 0 where
    pub typ : n'.typ ≡ n.typ
    pub path : n'.path ≡ n.path
    pub route : n'.route ≡ n.route
    pub reg_expr : n'.reg_expr ≡ n.reg_expr
    pub param_name : n'.param_name ≡ n.param_name

  pub SameNode-set_child :
      (n : NodeFields H) (p : Place) (c : Node H) → SameNode n (set_child n p c)
  unfolding set_child
  SameNode-set_child n (at_static k) c = record {
    typ = refl;
    path = refl;
    route = refl;
    reg_expr = refl;
    param_name = refl;
  }
  SameNode-set_child n (at_regexp e) c = record {
    typ = refl;
    path = refl;
    route = refl;
    reg_expr = refl;
    param_name = refl;
  }
  SameNode-set_child n at_param c = record {
    typ = refl;
    path = refl;
    route = refl;
    reg_expr = refl;
    param_name = refl;
  }
  SameNode-set_child n at_star c = record {
    typ = refl;
    path = refl;
    route = refl;
    reg_expr = refl;
    param_name = refl;
  }

  SameNode-refl : (n : NodeFields H) → SameNode n n
  SameNode-refl n = record {
    typ = refl;
    path = refl;
    route = refl;
    reg_expr = refl;
    param_name = refl;
  }

  Named-same : (p : Place) (n n' : NodeFields H) → SameNode n n' → Named lib p n → Named lib p n'
  Named-same (at_static k) n n' same (t, q) = (same.typ ∙ t, same.path ∙ q)
  Named-same (at_regexp e) n n' same (t, x, q) = (
    same.typ ∙ t,
    same.reg_expr ∙ x,
    ap (parse_param lib) same.path ∙ q ∙ ap (λ m. ok (m, some e)) (sym same.param_name),
  )
  Named-same at_param n n' same (t, q) = (
    same.typ ∙ t,
    ap (parse_param lib) same.path ∙ q ∙ ap (λ m. ok (m, none)) (sym same.param_name),
  )
  Named-same at_star n n' same (t, q) = (same.typ ∙ t, same.path ∙ q)

  Named-with_route :
      (p : Place) (c : NodeFields H) (r : Bytes)
      → Named lib p c
      → Named lib p (record c { route = r })
  Named-with_route (at_static k) c r h = h
  Named-with_route (at_regexp e) c r h = h
  Named-with_route at_param c r h = h
  Named-with_route at_star c r h = h

  -- A node that stays the same, with a well-formed tree, and an end that is no panic of the runtime.
  abbrev pub KeepsWell : Bytes → NodeFields H → NodeFields H × Result (Unit {0}) → Type 0
  KeepsWell r n (n', res) = IsWell lib r n' × SameNode n n' × SafeResult res

  KeepsWell-at_child :
      (r seg : Bytes) (n : NodeFields H) (made : Result (Place × NodeFields H))
      (next : NodeFields H → NodeFields H × Result (Unit {0}))
      → IsWell lib r n
      → Makes lib r seg made
      → InPlace n (place_of lib seg) made
      → ((c : NodeFields H)
          → IsWell lib (r ++ (b'/' ∷ seg)) c
          → KeepsWell (r ++ (b'/' ∷ seg)) (record c { route = r ++ (b'/' ∷ seg) }) (next c))
      → KeepsWell r n (at_child n made next)
  unfolding SafeResult
  KeepsWell-at_child r seg n (panic e) next h safe place go = (h, SameNode-refl n, safe)
  KeepsWell-at_child r seg n (ok (p, c)) next h (named, path, well) (place, _) go =
      let (well', same, safe) = go c well in
      let c' = (next c).0 in
      let same_path : c'.path ≡ seg = same.path ∙ path in
      let named' =
        Named-same p (record c { route = r ++ (b'/' ∷ seg) }) c' same
          (Named-with_route p c (r ++ (b'/' ∷ seg)) named) in
      let placed : IsPlaced lib r p c' = (
        named',
        ap (place_of lib) same_path ∙ place,
        same.route ∙ ap (λ x. r ++ (b'/' ∷ x)) (sym same_path),
      ) in
      (
        IsWell-set_child lib r n c' p h placed
            (subst (λ x. IsWell lib x c') (sym same.route) well'),
        SameNode-set_child n p (store c'),
        safe,
      )

  pub insert-KeepsWell :
      (segs : List Bytes) (r : Bytes) (f : Option H) (n : NodeFields H)
      → IsWell lib r n
      → KeepsWell r n (insert lib segs r f n)
  unfolding insert SafeResult
  insert-KeepsWell [] r f n h =
      maybe_case (KeepsWell r n) n.handlefunc
        (λ _. (
          IsWell-same lib r n (record n { handlefunc = f }) (child_at-with_handler n f) h,
          record { typ = refl; path = refl; route = refl; reg_expr = refl; param_name = refl },
          tt,
        ))
        (λ _ _. (h, SameNode-refl n, ((λ y. cc), (λ y. cc))))
  insert-KeepsWell ([] ∷ segs) r f n h = (h, SameNode-refl n, ((λ y. cc), (λ y. cc)))
  insert-KeepsWell ((c ∷ s) ∷ segs) r f n h =
      let here = r ++ (b'/' ∷ c ∷ s) in
      KeepsWell-at_child r (c ∷ s) n (child_or_create lib n (c ∷ s)) _ h
        (child_or_create-Makes lib r n c s h) (child_or_create-InPlace lib n (c ∷ s))
        (λ d well.
          insert-KeepsWell segs here f (record d { route = here })
            (IsWell-same lib here d (record d { route = here }) (child_at-with_route d here) well))

  -- Every tree of a router is well-formed.
  abbrev pub IsWellRouter : Router H → Type 0
  IsWellRouter ro =
      (method : Bytes) (root : Node H)
      → get Bytes-discrete method ro.trees ≡ some root
      → IsWell lib [] (load root)

  pub root_of-IsWell :
      (ro : Router H) (method : Bytes) → IsWellRouter ro → IsWell lib [] (root_of ro method)
  unfolding root_of
  root_of-IsWell ro method h =
      maybe_case (IsWell lib []) (get Bytes-discrete method ro.trees) (λ _. new_root-IsWell lib H)
        (λ root e. h method root e)

  pub register-KeepsWell :
      (pattern : Bytes) (f : Option H) (root : NodeFields H)
      → IsWell lib [] root
      → KeepsWell [] root (register lib pattern f root)
  unfolding register SafeResult
  register-KeepsWell pattern f root h =
      ite_case (KeepsWell [] root) (Bytes-discrete pattern (b'/' ∷ []))
        (λ _.
          maybe_case (KeepsWell [] root) root.handlefunc
            (λ _. (
              IsWell-same lib [] root (record root { handlefunc = f })
                  (child_at-with_handler root f) h,
              record { typ = refl; path = refl; route = refl; reg_expr = refl; param_name = refl },
              tt,
            ))
            (λ _ _. (h, SameNode-refl root, ((λ y. cc), (λ y. cc)))))
        (λ _. insert-KeepsWell (split b'/' (tail pattern)) [] f root h)

  IsWellRouter-put :
      (ro : Router H) (method : Bytes) (n : NodeFields H)
      → IsWellRouter ro
      → IsWell lib [] n
      → IsWellRouter (record ro { trees = put Bytes-discrete method (store n) ro.trees })
  IsWellRouter-put ro method n h well j root e =
      let changed = get-put Bytes-discrete method j (store n) ro.trees in
      elim (Bytes-discrete j method) [
        | yes same ↦
            subst (IsWell lib []) (sym (load-store n) ∙ ap load (ground (arith, changed))) well
        | no ne ↦ h j root (ground (arith, changed))
      ]

  -- If every tree of a router is well-formed then, whatever is registered, and whether Route panics
  -- or not, every tree is well-formed after it: a child is of the type of its place, with the name
  -- and the expression of its path, its path leads to its place, and its route is that of its parent
  -- with its path. Route never follows a nil pointer and never indexes out of range.
  pub route-IsWellRouter :
      (ro : Router H) (method pattern : Bytes) (f : Option H)
      → IsWellRouter ro
      → IsWellRouter (route lib ro method pattern f).0
        × SafeResult (route lib ro method pattern f).1
  unfolding route SafeResult
  route-IsWellRouter ro method pattern f h =
      guarded (check_pattern pattern) (check_pattern-SafeResult pattern)
    where
      guarded :
          (g : Result (Unit {0}))
          → SafeResult g
          → IsWellRouter
              (after_guards ro g
                (set_root ro method (register lib pattern f (root_of ro method)))).0
            × SafeResult
                (after_guards ro g
                  (set_root ro method (register lib pattern f (root_of ro method)))).1
      guarded (panic e) safe = (h, safe)
      guarded (ok _) safe =
          let (well, _, ends) =
            register-KeepsWell pattern f (root_of ro method) (root_of-IsWell ro method h) in
          (IsWellRouter-put ro method (register lib pattern f (root_of ro method)).0 h well, ends)
