-- ===== src/Router/Dispatch/Found.antt =====
-- The handler and the route that `findRouter` returns, after the routes of a program have been
-- registered (web/router.go).
use mathlib.Core.List.{Memᴰ}
use go_web.Prelude.{
  Option, none, some, List, [], ◌∷◌, ◌≡◌, ◌≢◌, sym, ap, subst, ◌∙◌, get, maybe, arith, inl, inr,
}
use go_web.Strings.{Bytes, Bytes-discrete}
use go_web.Router.Node.{Node, NodeFields, load, Place}
use go_web.Router.Register.{RegexpLib, ok, Router, new_router}
use go_web.Router.Register.Reached.{node_at}
use go_web.Router.Register.Routes.{pattern_places, handler_of}
use go_web.Router.Search.{Params, find_router}
use go_web.Router.Search.Leads.{IsRange}
use go_web.Router.Dispatch.{
  Registration, Matches, route_all, Leads-FitsPath, Leads-handler_at, Leads-node_at,
  find_router-Leads,
}
use go_web.Router.Dispatch.Registered.{
  route_all-cons, route_all-origin, handler_of-new_router, new_router-IsWellRouter,
}
use go_web.Router.Dispatch.Routed.{
  HasRoute, IsGood, route-IsGood, route-HasRoute, route_new_HasRoute,
}

module _ {H : Type 0} (lib : RegexpLib) where
  route_all-HasRoute :
      (gs : List (Registration H)) (ro ro' : Router H) (method : Bytes) (ps : List Place)
      (r : Bytes)
      → route_all lib ro gs ≡ (ro', ok tt)
      → IsGood lib ro
      → HasRoute ro method ps r
      → HasRoute ro' method ps r
  unfolding route_all
  route_all-HasRoute [] ro ro' method ps r e good has = subst (λ x. HasRoute x.0 method ps r) e has
  route_all-HasRoute (g ∷ gs) ro ro'' method ps r e good has =
      let (ro', _, first, e') = route_all-cons lib ro ro'' g gs e in
      route_all-HasRoute gs ro' ro'' method ps r e'
        (route-IsGood lib ro ro' g.method g.pattern (some g.handler) first good)
        (route-HasRoute lib ro ro' g.method g.pattern method (some g.handler) ps r first good has)

  pub route_all_new_HasRoute :
      (gs : List (Registration H)) (ro ro' : Router H) (g : Registration H) (ps : List Place)
      → route_all lib ro gs ≡ (ro', ok tt)
      → IsGood lib ro
      → Memᴰ g gs
      → pattern_places lib g.pattern ≡ ok ps
      → HasRoute ro' g.method ps g.pattern
  route_all_new_HasRoute [] ro ro' g ps e good m places = elim m [ ]
  route_all_new_HasRoute (x ∷ gs) ro ro'' g ps e good (Memᴰ.head q) places =
      let (ro', _, first, e') = route_all-cons lib ro ro'' x gs e in
      route_all-HasRoute gs ro' ro'' g.method ps g.pattern e'
        (route-IsGood lib ro ro' x.method x.pattern (some x.handler) first good)
        (subst
          (λ (y : Registration H).
            pattern_places lib y.pattern ≡ ok ps → HasRoute ro' y.method ps y.pattern)
          (sym q) (route_new_HasRoute lib ro ro' x.method x.pattern (some x.handler) ps first good)
          places)
  route_all_new_HasRoute (x ∷ gs) ro ro'' g ps e good (Memᴰ.tail m) places =
      let (ro', _, first, e') = route_all-cons lib ro ro'' x gs e in
      route_all_new_HasRoute gs ro' ro'' g ps e'
        (route-IsGood lib ro ro' x.method x.pattern (some x.handler) first good) m places

  pub new_router-IsGood : IsGood lib (new_router {H = H})
  unfolding new_router get
  new_router-IsGood = (new_router-IsWellRouter lib, λ method root e. cc)

  -- The node to which the places of a registration lead has its pattern as its route.
  pub same_node :
      (ro : Router H) (method : Bytes) (root c : Node H) (ps : List Place) (r : Bytes)
      → get Bytes-discrete method ro.trees ≡ some root
      → node_at (load root) ps ≡ some (load c)
      → HasRoute ro method ps r
      → (load c).route ≡ r
  same_node ro method root c ps r tree at (root', m, tree', at', is_r) =
      let same : root' ≡ root = ground (arith) in
      let is_m : ◌≡◌ {A = Option (NodeFields H)} (some (load c)) (some m) =
        sym at ∙ subst (λ x. node_at (load x) ps ≡ some m) same at' in
      ap (λ o. maybe [] (λ (x : NodeFields H). x.route) o) is_m ∙ is_r

  module _ (order : Node H → List (Bytes × Node H)) (ranges : IsRange order)
      (gs : List (Registration H)) (ro : Router H)
      (accepted : route_all lib new_router gs ≡ (ro, ok tt)) where
    -- Once Route has accepted the routes of a program, whatever the order in which maps are visited, a
    -- handler that `findRouter` returns is that of a registration with the method, whose pattern fits
    -- the path and is the route of the node.
    pub find_router_registered :
        (method path : Bytes) (c : Node H) (mi : Params) (h : H)
        → find_router lib order ro method path ≡ some (c, mi)
        → (load c).handlefunc ≡ some h
        → (g : Registration H) × Memᴰ g gs
          × (g.method ≡ method)
          × Matches lib g.pattern path
          × (g.handler ≡ h)
          × ((load c).route ≡ g.pattern)
    unfolding handler_of
    find_router_registered method path c mi h e is_h =
        let (root, ps, b, tree, l) = find_router-Leads lib order ranges ro method path c mi e in
        let held : handler_of ro method ps ≡ some h = rw tree (Leads-handler_at lib l ∙ is_h) in
        elim (route_all-origin lib gs new_router ro method ps h accepted held) [
          | inl before ↦ absurd (none_some (sym (handler_of-new_router lib method ps) ∙ before))
          | inr (g, m, is_method, places, same) ↦ (
            g,
            m,
            is_method,
            (ps, places, Leads-FitsPath lib l),
            same,
            same_node ro method root c ps g.pattern tree (Leads-node_at lib l) (
                subst (λ x. HasRoute ro x ps g.pattern) is_method
                  (route_all_new_HasRoute gs new_router ro g ps accepted new_router-IsGood m
                    places)),
          )
        ]
      where
        none_some : {k : H} → ◌≢◌ {A = Option H} none (some k)
        none_some = cc
