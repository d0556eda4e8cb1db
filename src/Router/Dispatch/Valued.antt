-- ===== src/Router/Dispatch/Valued.antt =====
-- The parameters that `findRouter` (web/router.go) returns, by the pattern that was registered.
use mathlib.Core.List.{Memᴰ}
use mathlib.Core.Logic.{ite}
use go_web.Prelude.{
  Option, none, some, List, [], ◌∷◌, ◌++◌, ◌≡◌, ◌≢◌, refl, sym, ap, ap₂, subst, ◌∙◌, get,
  maybe-eq-some, length, inl, inr, append-nil,
}
use go_web.Strings.{Bytes, Bytes-discrete, split, trim}
use go_web.Router.Node.{Node, load, Place, at_static, at_regexp, at_param, at_star}
use go_web.Router.Register.{RegexpLib, Result, ok, panic, Router, new_router, parse_param}
use go_web.Router.Register.Handlers.{place_of}
use go_web.Router.Register.Paths.{Along}
use go_web.Router.Register.Routes.{handler_of}
use go_web.Router.Register.Shape.{IsWell, IsPlaced, found_child}
use go_web.Router.Search.{Params, back_search, matched, find_router}
use go_web.Router.Search.Bindings.{DistinctNames}
use go_web.Router.Search.Leads.{IsRange, binds_at, Leads, here, step, rest}
use go_web.Router.Search.Matching.{back_search-binds}
use go_web.Router.Dispatch.{
  Registration, Matches, path_segments, route_all, Hangs-child_at, Leads-FitsPath, Leads-handler_at,
  Leads-node_at,
}
use go_web.Router.Dispatch.Registered.{
  route_all-origin, route_all-IsWellRouter, handler_of-new_router, new_router-IsWellRouter,
}
use go_web.Router.Dispatch.Found.{route_all_new_HasRoute, new_router-IsGood, same_node}
use go_web.Router.Dispatch.Routed.{HasRoute}
use go_web.Router.Dispatch.Laid.{pattern_segments, HasPaths, route_all_new_HasPaths}

-- The value of a segment of a pattern: that of its parameter, if it is one.
abbrev pub named : Result (Bytes × Option Bytes) → Bytes → Params
named (ok (name, _)) x = (name, x) ∷ []
named (panic e) x = []

abbrev pub value_at : Result Place → Params → Params
value_at (ok at_param) v = v
value_at (ok (at_regexp e)) v = v
value_at (ok (at_static k)) v = []
value_at (ok at_star) v = []
value_at (panic e) v = []

-- The values of the parameters of a pattern in a path.
unfoldable pub values : RegexpLib → List Bytes → List Bytes → Params
values lib [] xs = []
values lib (s ∷ ss) [] = []
values lib (s ∷ ss) (x ∷ xs) =
    value_at (place_of lib s) (named (parse_param lib s) x) ++ values lib ss xs

module _ {H : Type 0} (lib : RegexpLib) where
  value_at-binds :
      (r : Bytes) (p : Place) (c : Node H) (x : Bytes)
      → IsPlaced lib r p (load c)
      → value_at (place_of lib (load c).path) (named (parse_param lib (load c).path) x)
        ≡ binds_at p c x
  value_at-binds r (at_static k) c x (named_k, place, _) = rw place refl
  value_at-binds r (at_regexp e) c x ((_, _, parsed), place, _) = rw place (rw parsed refl)
  value_at-binds r at_param c x ((_, parsed), place, _) = rw place (rw parsed refl)
  value_at-binds r at_star c x (named_s, place, _) = rw place refl

  -- What is bound on the way is the values of the pattern whose paths lie along it.
  Leads-values :
      {n m : Node H} {ps : List Place} {segs : List Bytes} {b : Params}
      → Leads lib n ps segs m b
      → (r : Bytes) (ss : List Bytes) → Along (load n) ps ss
      → IsWell lib r (load n)
      → b ≡ values lib ss segs
  unfolding values
  Leads-values here r [] along well = refl
  Leads-values here r (s ∷ ss) along well = absurd along
  Leads-values (step hangs fits l) r [] along well = absurd along
  Leads-values (step {n = n} {c = c} {p = p} {seg = seg} {ps = ps} {segs = segs} hangs fits l) r
        (s ∷ ss) (c', at, path, below) well =
      let there = Hangs-child_at lib (load n) p c hangs in
      let same : c' ≡ c = some_same (sym at ∙ there) in
      let (placed, well') = found_child lib r (load n) p c well there in
      let is_s : (load c).path ≡ s = subst (λ x. (load x).path ≡ s) same path in
      ap₂ (λ u v. u ++ v)
        (sym (value_at-binds r p c seg placed)
          ∙ ap (λ x. value_at (place_of lib x) (named (parse_param lib x) seg)) is_s)
        (Leads-values l (load c).route ss (subst (λ x. Along (load x) ps ss) same below) well')
    where
      some_same : {x y : Node H} → ◌≡◌ {A = Option (Node H)} (some x) (some y) → x ≡ y
      some_same e = cc
  Leads-values (rest hangs ends) r [] along well = absurd along
  Leads-values (rest {n = n} {c = c} {seg = seg} {segs = segs} hangs ends) r (s ∷ [])
        (c', at, path, below) well =
      let (placed, _) = found_child lib r (load n) at_star c' well at in
      sym (
        append-nil _
        ∙ ap (λ x. value_at (place_of lib x) (named (parse_param lib x) seg)) (sym path)
        ∙ value_at-binds r at_star c' seg placed)
  Leads-values (rest hangs ends) r (s ∷ t ∷ ss) (c', at, path, below) well = absurd below

  module _ (order : Node H → List (Bytes × Node H)) (ranges : IsRange order) where
    matched_whole :
        (x : Option (Node H) × Params) (c : Node H) (mi : Params)
        → matched lib order x ≡ some (c, mi)
        → x ≡ (some c, mi)
    matched_whole (none, mi) c mi' e = cc
    matched_whole (some d, mi) c mi' e = cc

    get_nil : (k : Bytes) → get {V = Bytes} Bytes-discrete k [] ≡ none
    unfolding get
    get_nil k = refl

    root_only :
        {root c : Node H} {mi : Params}
        → ◌≡◌ {A = Option (Node H × Params)} (some (root, [])) (some (c, mi))
        → (root ≡ c) × (mi ≡ [])
    root_only e = (cc, cc)

    find_router-binds :
        (ro : Router H) (method path : Bytes) (c : Node H) (mi : Params)
        → ((root : Node H)
            → get Bytes-discrete method ro.trees ≡ some root
            → DistinctNames [] (length (path_segments path)) root)
        → find_router lib order ro method path ≡ some (c, mi)
        → (root : Node H) × (ps : List Place) × (get Bytes-discrete method ro.trees ≡ some root)
          × Leads lib root ps (path_segments path) c mi
    unfolding find_router path_segments
    find_router-binds ro method path c mi distinct e =
        let segs = split b'/' (trim b'/' path) in
        let (root, tree, found) = maybe-eq-some _ (get Bytes-discrete method ro.trees) e in
        let (ps, l) =
          (elim (Bytes-discrete path (b'/' ∷ []))
              as (λ d.
                DistinctNames [] (length (ite d [] segs)) root
                → ite d (some (root, [])) (matched lib order (back_search lib order segs root []))
                  ≡ some (c, mi)
                → (ps : List Place) × Leads lib root ps (ite d [] segs) c mi) [
                  | yes _ ↦ λ dn q.
                      let (same, none_bound) = root_only q in
                      (
                        [],
                        subst (λ x. Leads lib root [] [] x mi) same
                            (subst (Leads lib root [] [] root) (sym none_bound) here),
                      )
                  | no _ ↦ λ dn q.
                      let (ps, b, l, same) =
                        back_search-binds lib order ranges segs root c [] mi [] dn
                          (λ k new. get_nil k)
                          (matched_whole (back_search lib order segs root []) c mi q) in
                      (ps, subst (Leads lib root ps segs c) (sym same) l)
                ])
            (distinct root tree) found in
        (root, ps, tree, l)

    -- The registration behind a node that is found: its method, handler and pattern, the route of the
    -- node, and the values of its parameters.
    pub find_router-served :
        (gs : List (Registration H)) (ro : Router H) (method path : Bytes) (c : Node H)
        (mi : Params) (h : H)
        → route_all lib new_router gs ≡ (ro, ok tt)
        → ((root : Node H)
            → get Bytes-discrete method ro.trees ≡ some root
            → DistinctNames [] (length (path_segments path)) root)
        → find_router lib order ro method path ≡ some (c, mi)
        → (load c).handlefunc ≡ some h
        → (g : Registration H) × Memᴰ g gs
          × (g.method ≡ method)
          × Matches lib g.pattern path
          × (g.handler ≡ h)
          × ((load c).route ≡ g.pattern)
          × (mi ≡ values lib (pattern_segments g.pattern) (path_segments path))
    unfolding handler_of
    find_router-served gs ro method path c mi h accepted distinct e is_h =
        let (root, ps, tree, l) = find_router-binds ro method path c mi distinct e in
        let held : handler_of ro method ps ≡ some h = rw tree (Leads-handler_at lib l ∙ is_h) in
        let well =
          route_all-IsWellRouter lib gs new_router ro accepted (new_router-IsWellRouter lib) in
        elim (route_all-origin lib gs new_router ro method ps h accepted held) [
          | inl before ↦ absurd (none_some (sym (handler_of-new_router lib method ps) ∙ before))
          | inr (g, m, is_method, places, same) ↦
              let (root', tree', along) =
                subst (λ x. HasPaths ro x ps (pattern_segments g.pattern)) is_method
                  (route_all_new_HasPaths lib gs new_router ro g ps accepted
                    (new_router-IsWellRouter lib) m places) in
              (
                g,
                m,
                is_method,
                (ps, places, Leads-FitsPath lib l),
                same,
                same_node lib ro method root c ps g.pattern tree (Leads-node_at lib l) (
                    subst (λ x. HasRoute ro x ps g.pattern) is_method
                      (route_all_new_HasRoute lib gs new_router ro g ps accepted
                        (new_router-IsGood lib) m places)),
                Leads-values l [] (pattern_segments g.pattern)
                    (subst (λ x. Along (load x) ps (pattern_segments g.pattern))
                      (some_root (sym tree' ∙ tree)) along)
                    (well method root tree),
              )
        ]
      where
        none_some : {k : H} → ◌≢◌ {A = Option H} none (some k)
        none_some = cc

        some_root : {x y : Node H} → ◌≡◌ {A = Option (Node H)} (some x) (some y) → x ≡ y
        some_root e = cc

    -- Once Route has accepted the routes of a program, whatever the order in which maps are visited,
    -- and where no parameter name stands twice on a path of the tree of the method: the parameters
    -- that `findRouter` returns with a node that has a handler are the values of the parameters of a
    -- registered pattern in the path, that of a registration with the method and the handler, whose
    -- pattern fits the path.
    pub find_router-values :
        (gs : List (Registration H)) (ro : Router H) (method path : Bytes) (c : Node H)
        (mi : Params) (h : H)
        → route_all lib new_router gs ≡ (ro, ok tt)
        → ((root : Node H)
            → get Bytes-discrete method ro.trees ≡ some root
            → DistinctNames [] (length (path_segments path)) root)
        → find_router lib order ro method path ≡ some (c, mi)
        → (load c).handlefunc ≡ some h
        → (g : Registration H) × Memᴰ g gs
          × (g.method ≡ method)
          × Matches lib g.pattern path
          × (g.handler ≡ h)
          × (mi ≡ values lib (pattern_segments g.pattern) (path_segments path))
    find_router-values gs ro method path c mi h accepted distinct e is_h =
        let (g, m, is_method, fits, same, _, bound) =
          find_router-served gs ro method path c mi h accepted distinct e is_h in
        (g, m, is_method, fits, same, bound)
