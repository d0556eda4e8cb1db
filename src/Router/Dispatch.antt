-- ===== src/Router/Dispatch.antt =====
-- From all registrations to all requests (web/router.go): `Route` called once for each route of a
-- program, and what `findRouter` then returns.
pub mod Registered
pub mod Routed
pub mod Found
pub mod Laid
pub mod Valued
mod Tests
use mathlib.Core.List.Memᴰ
use mathlib.Core.List.{Memᴰ}
use mathlib.Core.Logic.{ite}
use go_web.Prelude.{
  true, Option, none, some, List, [], ◌∷◌, ◌≡◌, ◌≢◌, ◌⊎◌, inl, inr, refl, sym, ap, subst, ◌∙◌, get,
  maybe, ite_case, maybe_case, maybe-eq-some, Option-cases,
}
use go_web.Strings.{Bytes, Bytes-discrete, split, trim}
use go_web.Router.Node.{
  Node, NodeFields, NodeType-discrete, star, load, Place, child_at, at_static, at_regexp, at_param,
  at_star,
}
use go_web.Router.Register.{RegexpLib, Result, Panic, ok, panic, Router, new_router, route}
use go_web.Router.Register.Handlers.{handler_at, Places-discrete}
use go_web.Router.Register.Reached.{node_at}
use go_web.Router.Register.Routes.{pattern_places, handler_of, RouteEffect, route-RouteEffect}
use go_web.Router.Register.Shape.{IsWell, found_child}
use go_web.Router.Register.Valid.{IsWellRouter, route-IsWellRouter}
use go_web.Router.Search.{Params, ends_with_star, back_search, matched, find_router}
use go_web.Router.Search.Leads.{IsRange, Hangs, Fits, Leads, here, step, rest}
use go_web.Router.Search.Matching.{back_search_sound, back_search_complete}

-- The segments of a path, of which `/` has none.
unfoldable pub path_segments : Bytes → List Bytes
path_segments path = ite (Bytes-discrete path (b'/' ∷ [])) [] (split b'/' (trim b'/' path))

-- Places fit the segments of a path one by one, and a `*` at the end fits all that is left.
abbrev pub FitsPath : RegexpLib → List Place → List Bytes → Type 0
FitsPath lib [] [] = Unit
FitsPath lib [] (seg ∷ segs) = ⊥
FitsPath lib (p ∷ ps) [] = ⊥
FitsPath lib (p ∷ ps) (seg ∷ segs) =
    (Fits lib p seg × FitsPath lib ps segs) ⊎ ((p ∷ ps) ≡ (at_star ∷ []))

-- A pattern fits a path.
abbrev pub Matches : RegexpLib → Bytes → Bytes → Type 0
Matches lib pattern path =
    (ps : List Place) × (pattern_places lib pattern ≡ ok ps) × FitsPath lib ps (path_segments path)

pub record Registration (H : Type 0) : Type 0 where
  pub method : Bytes
  pub pattern : Bytes
  pub handler : H

module _ {H : Type 0} (lib : RegexpLib) where
  abbrev pub and_route :
      Router H × Result (Unit {0})
      → (Router H → Router H × Result (Unit {0}))
      → Router H × Result (Unit {0})
  and_route (ro, ok _) next = next ro
  and_route (ro, panic p) next = (ro, panic p)

  -- The calls of `Route` of a program, which a panic ends.
  unfoldable pub route_all : Router H → List (Registration H) → Router H × Result (Unit {0})
  route_all ro [] = (ro, ok tt)
  route_all ro (g ∷ gs) =
      and_route (route lib ro g.method g.pattern (some g.handler)) (λ ro'. route_all ro' gs)

  pub Hangs-child_at :
      (n : NodeFields H) (p : Place) (c : Node H) → Hangs n p c → child_at n p ≡ some c
  unfolding child_at
  Hangs-child_at n (at_static k) c h = h
  Hangs-child_at n (at_regexp e) c h = h
  Hangs-child_at n at_param c h = h
  Hangs-child_at n at_star c h = h

  child_at-Hangs : (n : NodeFields H) (p : Place) (c : Node H) → child_at n p ≡ some c → Hangs n p c
  unfolding child_at
  child_at-Hangs n (at_static k) c h = h
  child_at-Hangs n (at_regexp e) c h = h
  child_at-Hangs n at_param c h = h
  child_at-Hangs n at_star c h = h

  pub Leads-FitsPath :
      {n m : Node H} {ps : List Place} {segs : List Bytes} {b : Params}
      → Leads lib n ps segs m b
      → FitsPath lib ps segs
  Leads-FitsPath here = tt
  Leads-FitsPath (step hangs fits l) = inl (fits, Leads-FitsPath l)
  Leads-FitsPath (rest hangs ends) = inr refl

  -- The handler of the node to which places lead.
  pub Leads-handler_at :
      {n m : Node H} {ps : List Place} {segs : List Bytes} {b : Params}
      → Leads lib n ps segs m b
      → handler_at (load n) ps ≡ (load m).handlefunc
  unfolding handler_at
  Leads-handler_at here = refl
  Leads-handler_at (step {n = n} {c = c} {p = p} hangs fits l) =
      rw (Hangs-child_at (load n) p c hangs) (Leads-handler_at l)
  Leads-handler_at (rest {n = n} {c = c} hangs ends) =
      rw (Hangs-child_at (load n) at_star c hangs) refl

  -- The node to which places lead.
  pub Leads-node_at :
      {n m : Node H} {ps : List Place} {segs : List Bytes} {b : Params}
      → Leads lib n ps segs m b
      → node_at (load n) ps ≡ some (load m)
  unfolding node_at
  Leads-node_at here = refl
  Leads-node_at (step {n = n} {c = c} {p = p} hangs fits l) =
      rw (Hangs-child_at (load n) p c hangs) (Leads-node_at l)
  Leads-node_at (rest {n = n} {c = c} hangs ends) =
      rw (Hangs-child_at (load n) at_star c hangs) refl

  star_ends :
      (c : NodeFields H) (h : H) → c.typ ≡ star → c.handlefunc ≡ some h → ends_with_star c ≡ true
  unfolding NodeType-discrete
  star_ends c h is_star set = rw is_star (rw set refl)

  -- Places with a handler that fit the segments lead to its node.
  pub handled-Leads :
      (ps : List Place) (segs : List Bytes) (n : Node H) (r : Bytes) (h : H)
      → IsWell lib r (load n)
      → handler_at (load n) ps ≡ some h
      → FitsPath lib ps segs
      → (m : Node H) × (b : Params) × Leads lib n ps segs m b
  unfolding handler_at child_at
  handled-Leads [] [] n r h well set fits = (n, [], here)
  handled-Leads [] (seg ∷ segs) n r h well set fits = absurd fits
  handled-Leads (p ∷ ps) [] n r h well set fits = absurd fits
  handled-Leads (p ∷ ps) (seg ∷ segs) n r h well set (inl (fits, more)) =
      let (c, at, below) =
        maybe-eq-some (λ (c : Node H). handler_at (load c) ps) (child_at (load n) p) set in
      let (_, well') = found_child lib r (load n) p c well at in
      let (m, b, l) = handled-Leads ps segs c (load c).route h well' below more in
      (m, _, step (child_at-Hangs (load n) p c at) fits l)
  handled-Leads (p ∷ ps) (seg ∷ segs) n r h well set (inr last) =
      let (c, at, below) =
        maybe-eq-some (λ (c : Node H). (load c).handlefunc) (child_at (load n) at_star)
          (subst (λ qs. handler_at (load n) qs ≡ some h) last set) in
      let (placed, _) = found_child lib r (load n) at_star c well at in
      (
        c,
        [],
        subst (λ qs. Leads lib n qs (seg ∷ segs) c []) (sym last)
            (rest at (star_ends (load c) h placed.0.0 below)),
      )

  -- What `findRouter` returns, by the places that lead to it.
  module _ (order : Node H → List (Bytes × Node H)) (ranges : IsRange order) where
    matched_node :
        (x : Option (Node H) × Params) (c : Node H) (mi : Params)
        → matched lib order x ≡ some (c, mi)
        → x.0 ≡ some c
    matched_node (none, mi) c mi' e = cc
    matched_node (some d, mi) c mi' e = cc

    root_same :
        {root c : Node H} {mi : Params}
        → ◌≡◌ {A = Option (Node H × Params)} (some (root, [])) (some (c, mi))
        → root ≡ c
    root_same e = cc

    matched_of :
        (x : Option (Node H) × Params) (c : Node H)
        → x.0 ≡ some c
        → (mi : Params) × (matched lib order x ≡ some (c, mi))
    matched_of (none, mi) c e = cc
    matched_of (some d, mi) c e = (mi, cc)

    pub find_router-Leads :
        (ro : Router H) (method path : Bytes) (c : Node H) (mi : Params)
        → find_router lib order ro method path ≡ some (c, mi)
        → (root : Node H) × (ps : List Place) × (b : Params) × (get Bytes-discrete method ro.trees
            ≡ some root)
          × Leads lib root ps (path_segments path) c b
    unfolding find_router path_segments
    find_router-Leads ro method path c mi e =
        let segs = split b'/' (trim b'/' path) in
        let (root, tree, found) = maybe-eq-some _ (get Bytes-discrete method ro.trees) e in
        let (ps, b, l) =
          elim (Bytes-discrete path (b'/' ∷ []))
              as (λ d.
                ite d (some (root, [])) (matched lib order (back_search lib order segs root []))
                  ≡ some (c, mi)
                → (ps : List Place) × (b : Params) × Leads lib root ps (ite d [] segs) c b) [
                  | yes _ ↦ λ q. ([], [], subst (λ x. Leads lib root [] [] x []) (root_same q) here)
                  | no _ ↦ λ q.
                      back_search_sound lib order ranges segs root c []
                        (matched_node (back_search lib order segs root []) c mi q)
                ]
            found in
        (root, ps, b, tree, l)

    pub find_router_of_Leads :
        (ro : Router H) (method path : Bytes) (root m : Node H) (ps : List Place) (b : Params)
        → get Bytes-discrete method ro.trees ≡ some root
        → Leads lib root ps (path_segments path) m b
        → (c : Node H) × (mi : Params) × (find_router lib order ro method path ≡ some (c, mi))
    unfolding find_router path_segments
    find_router_of_Leads ro method path root m ps b tree l =
        let segs = split b'/' (trim b'/' path) in
        rw tree (
          elim (Bytes-discrete path (b'/' ∷ []))
              as (λ d.
                Leads lib root ps (ite d [] segs) m b
                → (c : Node H) × (mi : Params) × (ite d (some (root, []))
                      (matched lib order (back_search lib order segs root []))
                    ≡ some (c, mi))) [
                      | yes _ ↦ λ _. (root, [], refl)
                      | no _ ↦ λ l'.
                          let (c, e) =
                            back_search_complete lib order ranges segs root m [] ps b l' in
                          let (mi, e') = matched_of (back_search lib order segs root []) c e in
                          (c, mi, e')
                    ]
            l)
