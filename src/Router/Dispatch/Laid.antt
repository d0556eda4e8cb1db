-- ===== src/Router/Dispatch/Laid.antt =====
-- `Route` (web/router.go) on the paths of the nodes: it lays those of its pattern and keeps the
-- others.
use mathlib.Core.List.{Memᴰ, tail}
use mathlib.Core.Logic.{ite}
use go_web.Prelude.{
  Option, some, List, [], ◌∷◌, ◌≡◌, refl, sym, subst, ◌∙◌, get, put, get-put, get-put_self,
  maybe_case, arith,
}
use go_web.Strings.{Bytes, Bytes-discrete, split}
use go_web.Router.Node.{Node, NodeFields, load, store, load-store, Place}
use go_web.Router.Register.{
  RegexpLib, Result, ok, panic, Router, root_of, set_root, set_root_handler, insert, register,
  route,
}
use go_web.Router.Register.Handlers.{places_of}
use go_web.Router.Register.Routes.{pattern_places}
use go_web.Router.Register.Shape.{IsWell}
use go_web.Router.Register.Updates.{child_at-with_handler}
use go_web.Router.Register.Valid.{IsWellRouter, root_of-IsWell, route-IsWellRouter}
use go_web.Router.Register.Paths.{
  Along, KeepsPaths, KeepsPaths-same, KeepsPaths-refl, Laid, insert-Laid,
}
use go_web.Router.Dispatch.{Registration, route_all}
use go_web.Router.Dispatch.Registered.{route_all-cons}
use go_web.Router.Dispatch.Routed.{root_of_there, route_ok}

-- The segments of a pattern, of which `/` has none.
unfoldable pub pattern_segments : Bytes → List Bytes
pattern_segments pattern = ite (Bytes-discrete pattern (b'/' ∷ [])) [] (split b'/' (tail pattern))

module _ {H : Type 0} where
  -- The places of a tree of the router lead along nodes with the paths.
  abbrev pub HasPaths : Router H → Bytes → List Place → List Bytes → Type 0
  HasPaths ro method ps ss =
      (root : Node H) × (get Bytes-discrete method ro.trees ≡ some root) × Along (load root) ps ss

  HasPaths-put :
      (ro : Router H) (method other : Bytes) (n : NodeFields H) (ps : List Place) (ss : List Bytes)
      → KeepsPaths (root_of ro method) n
      → HasPaths ro other ps ss
      → HasPaths (record ro { trees = put Bytes-discrete method (store n) ro.trees }) other ps ss
  HasPaths-put ro method other n ps ss kept (root, tree, along) =
      let changed = get-put Bytes-discrete method other (store n) ro.trees in
      elim (Bytes-discrete other method) [
        | yes same ↦
            let is_root =
              root_of_there ro method root
                (subst (λ x. get Bytes-discrete x ro.trees ≡ some root) same tree) in
            (
              store n,
              ground (arith, changed),
              subst (λ x. Along x ps ss) (sym (load-store n))
                  (kept ps ss (subst (λ x. Along x ps ss) (sym is_root) along)),
            )
        | no ne ↦ (root, ground (arith, changed), along)
      ]

  -- A registration that succeeds, by what it has laid in its tree.
  set_root-HasPaths :
      (ro ro' : Router H) (method : Bytes) (places : Result (List Place)) (ss : List Bytes)
      (out : NodeFields H × Result (Unit {0}))
      → Laid (root_of ro method) places ss out
      → set_root ro method out ≡ (ro', ok tt)
      → ((other : Bytes) (qs : List Place) (ts : List Bytes)
          → HasPaths ro other qs ts
          → HasPaths ro' other qs ts)
        × ((ps : List Place) → places ≡ ok ps → HasPaths ro' method ps ss)
  set_root-HasPaths ro ro' method places ss (n, panic p) laid e = cc
  set_root-HasPaths ro ro' method places ss (n, ok _) (kept, ps, is_ps, along) e = (
    λ other qs ts has.
        subst (λ x. HasPaths x.0 other qs ts) e (HasPaths-put ro method other n qs ts kept has),
    λ qs is_qs.
        subst (λ x. HasPaths x.0 method qs ss) e
          (
            store n,
            get-put_self Bytes-discrete method (store n) ro.trees,
            subst (λ x. Along x qs ss) (sym (load-store n))
                (subst (λ x. Along n x ss) (same_places (sym is_ps ∙ is_qs)) along),
          ),
  )
    where
      same_places : {xs ys : List Place} → ◌≡◌ {A = Result (List Place)} (ok xs) (ok ys) → xs ≡ ys
      same_places e = cc

module _ {H : Type 0} (lib : RegexpLib) where
  register-Laid :
      (pattern : Bytes) (h : Option H) (root : NodeFields H)
      → IsWell lib [] root
      → Laid root
          (pattern_places lib pattern)
          (pattern_segments pattern)
          (register lib pattern h root)
  unfolding register pattern_places pattern_segments
  register-Laid pattern h root well =
      let segs = split b'/' (tail pattern) in
      elim (Bytes-discrete pattern (b'/' ∷ []))
        as (λ d.
          Laid root (ite d (ok []) (places_of lib segs)) (ite d [] segs)
            (ite d (set_root_handler h root) (insert lib segs [] h root))) [
              | yes _ ↦
                  maybe_case (Laid root (ok []) []) root.handlefunc
                    (λ _. (
                      KeepsPaths-same root (record root { handlefunc = h })
                          (child_at-with_handler root h),
                      [],
                      refl,
                      tt,
                    ))
                    (λ _ _. KeepsPaths-refl root)
              | no _ ↦ insert-Laid lib (split b'/' (tail pattern)) [] h root well
            ]

  route-HasPaths :
      (ro ro' : Router H) (method pattern : Bytes) (h : Option H)
      → route lib ro method pattern h ≡ (ro', ok tt)
      → IsWellRouter lib ro
      → ((other : Bytes) (qs : List Place) (ts : List Bytes)
          → HasPaths ro other qs ts
          → HasPaths ro' other qs ts)
        × ((ps : List Place)
            → pattern_places lib pattern ≡ ok ps
            → HasPaths ro' method ps (pattern_segments pattern))
  route-HasPaths ro ro' method pattern h e well =
      set_root-HasPaths ro ro' method (pattern_places lib pattern) (pattern_segments pattern)
        (register lib pattern h (root_of ro method))
        (register-Laid pattern h (root_of ro method) (root_of-IsWell lib ro method well))
        (route_ok lib ro ro' method pattern h e).1

  route-well :
      (ro ro' : Router H) (g : Registration H)
      → route lib ro g.method g.pattern (some g.handler) ≡ (ro', ok tt)
      → IsWellRouter lib ro
      → IsWellRouter lib ro'
  route-well ro ro' g e well =
      subst (λ x. IsWellRouter lib x.0) e
        (route-IsWellRouter lib ro g.method g.pattern (some g.handler) well).0

  route_all-HasPaths :
      (gs : List (Registration H)) (ro ro' : Router H) (method : Bytes) (ps : List Place)
      (ss : List Bytes)
      → route_all lib ro gs ≡ (ro', ok tt)
      → IsWellRouter lib ro
      → HasPaths ro method ps ss
      → HasPaths ro' method ps ss
  unfolding route_all
  route_all-HasPaths [] ro ro' method ps ss e well has =
      subst (λ x. HasPaths x.0 method ps ss) e has
  route_all-HasPaths (g ∷ gs) ro ro'' method ps ss e well has =
      let (ro', _, first, e') = route_all-cons lib ro ro'' g gs e in
      route_all-HasPaths gs ro' ro'' method ps ss e' (route-well ro ro' g first well)
        ((route-HasPaths ro ro' g.method g.pattern (some g.handler) first well).0 method ps ss has)

  -- Every registration that has been accepted has its paths in the tree of its method.
  pub route_all_new_HasPaths :
      (gs : List (Registration H)) (ro ro' : Router H) (g : Registration H) (ps : List Place)
      → route_all lib ro gs ≡ (ro', ok tt)
      → IsWellRouter lib ro
      → Memᴰ g gs
      → pattern_places lib g.pattern ≡ ok ps
      → HasPaths ro' g.method ps (pattern_segments g.pattern)
  route_all_new_HasPaths [] ro ro' g ps e well m places = elim m [ ]
  route_all_new_HasPaths (x ∷ gs) ro ro'' g ps e well (Memᴰ.head q) places =
      let (ro', _, first, e') = route_all-cons lib ro ro'' x gs e in
      route_all-HasPaths gs ro' ro'' g.method ps (pattern_segments g.pattern) e'
        (route-well ro ro' x first well)
        (subst
          (λ (y : Registration H).
            pattern_places lib y.pattern ≡ ok ps
            → HasPaths ro' y.method ps (pattern_segments y.pattern))
          (sym q) ((route-HasPaths ro ro' x.method x.pattern (some x.handler) first well).1 ps)
          places)
  route_all_new_HasPaths (x ∷ gs) ro ro'' g ps e well (Memᴰ.tail m) places =
      let (ro', _, first, e') = route_all-cons lib ro ro'' x gs e in
      route_all_new_HasPaths gs ro' ro'' g ps e' (route-well ro ro' x first well) m places
