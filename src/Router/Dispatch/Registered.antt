-- ===== src/Router/Dispatch/Registered.antt =====
-- What `findRouter` returns after the routes of a program have been registered (web/router.go).
use mathlib.Core.List.{Memᴰ}
use go_web.Prelude.{
  none, some, List, [], ◌∷◌, ◌≡◌, ◌⊎◌, inl, inr, refl, sym, ap, subst, ◌∙◌, get, maybe-eq-some,
}
use go_web.Strings.{Bytes, Bytes-discrete}
use go_web.Router.Node.{Node, load, Place}
use go_web.Router.Register.{RegexpLib, Result, ok, panic, Router, new_router, route}
use go_web.Router.Register.Handlers.{handler_at, Places-discrete}
use go_web.Router.Register.Routes.{pattern_places, handler_of, RouteEffect, route-RouteEffect}
use go_web.Router.Register.Valid.{IsWellRouter, route-IsWellRouter}
use go_web.Router.Search.{Params, find_router}
use go_web.Router.Search.Leads.{IsRange}
use go_web.Router.Dispatch.{
  Registration, Matches, path_segments, and_route, route_all, handled-Leads, find_router_of_Leads,
}

module _ {H : Type 0} (lib : RegexpLib) where
  -- What a call of `Route` that does not panic does to the handlers.
  unfoldable pub Adds : Router H → Bytes → Bytes → H → Router H → Type 0
  Adds ro method pattern h ro' =
      RouteEffect ro method (pattern_places lib pattern) (some h) (ro', ok tt)

  Adds-keeps :
      (ro ro' : Router H) (method pattern other : Bytes) (h k : H) (qs : List Place)
      → Adds ro method pattern h ro'
      → handler_of ro other qs ≡ some k
      → handler_of ro' other qs ≡ some k
  unfolding Adds
  Adds-keeps ro ro' method pattern other h k qs (ps, _, unset, set, others, methods) held =
      elim (Bytes-discrete other method) [
        | yes same ↦ elim (Places-discrete qs ps) [
          | yes at ↦ cc
          | no ne ↦
              ap (λ m. handler_of ro' m qs) same
              ∙ others qs ne
              ∙ ap (λ m. handler_of ro m qs) (sym same)
              ∙ held
        ]
        | no ne ↦ methods other qs ne ∙ held
      ]

  Adds-origin :
      (ro ro' : Router H) (method pattern other : Bytes) (h k : H) (qs : List Place)
      → Adds ro method pattern h ro'
      → handler_of ro' other qs ≡ some k
      → (handler_of ro other qs ≡ some k)
        ⊎ ((method ≡ other) × (pattern_places lib pattern ≡ ok qs) × (h ≡ k))
  unfolding Adds
  Adds-origin ro ro' method pattern other h k qs (ps, places, unset, set, others, methods) held =
      elim (Bytes-discrete other method) [
        | yes same ↦ elim (Places-discrete qs ps) [
          | yes at ↦ inr (sym same, places ∙ ap ok (sym at), cc)
          | no ne ↦ inl (
              ap (λ m. handler_of ro m qs) same
              ∙ sym (others qs ne)
              ∙ ap (λ m. handler_of ro' m qs) (sym same)
              ∙ held)
        ]
        | no ne ↦ inl (sym (methods other qs ne) ∙ held)
      ]

  -- Some registration of the list is of the method, has the places, and the handler.
  abbrev pub Registered : List (Registration H) → Bytes → List Place → H → Type 0
  Registered gs method ps h =
      (g : Registration H) × Memᴰ g gs
      × (g.method ≡ method)
      × (pattern_places lib g.pattern ≡ ok ps)
      × (g.handler ≡ h)

  -- Registrations that all succeed begin with one that does.
  pub route_all-cons :
      (ro ro'' : Router H) (g : Registration H) (gs : List (Registration H))
      → route_all lib ro (g ∷ gs) ≡ (ro'', ok tt)
      → (ro' : Router H) × Adds ro g.method g.pattern g.handler ro'
        × (route lib ro g.method g.pattern (some g.handler) ≡ (ro', ok tt))
        × (route_all lib ro' gs ≡ (ro'', ok tt))
  unfolding route_all Adds
  route_all-cons ro ro'' g gs e =
      first (route lib ro g.method g.pattern (some g.handler))
        (route-RouteEffect lib ro g.method g.pattern (some g.handler)) e
    where
      first :
          (out : Router H × Result (Unit {0}))
          → RouteEffect ro g.method (pattern_places lib g.pattern) (some g.handler) out
          → and_route lib out (λ ro'. route_all lib ro' gs) ≡ (ro'', ok tt)
          → (ro' : Router H) × RouteEffect ro g.method
              (pattern_places lib g.pattern)
              (some g.handler)
              (ro', ok tt)
            × (out ≡ (ro', ok tt))
            × (route_all lib ro' gs ≡ (ro'', ok tt))
      first (ro', ok _) effect e' = (ro', effect, refl, e')
      first (ro', panic p) effect e' = cc

  -- The handlers after registrations that all succeed: those there were and those registered.
  route_all-keeps :
      (gs : List (Registration H)) (ro ro' : Router H) (other : Bytes) (qs : List Place) (k : H)
      → route_all lib ro gs ≡ (ro', ok tt)
      → handler_of ro other qs ≡ some k
      → handler_of ro' other qs ≡ some k
  unfolding route_all
  route_all-keeps [] ro ro' other qs k e held =
      subst (λ x. handler_of x other qs ≡ some k) (cc) held
  route_all-keeps (g ∷ gs) ro ro'' other qs k e held =
      let (ro', adds, _, e') = route_all-cons ro ro'' g gs e in
      route_all-keeps gs ro' ro'' other qs k e'
        (Adds-keeps ro ro' g.method g.pattern other g.handler k qs adds held)

  pub route_all-origin :
      (gs : List (Registration H)) (ro ro' : Router H) (other : Bytes) (qs : List Place) (k : H)
      → route_all lib ro gs ≡ (ro', ok tt)
      → handler_of ro' other qs ≡ some k
      → (handler_of ro other qs ≡ some k) ⊎ Registered gs other qs k
  unfolding route_all
  route_all-origin [] ro ro' other qs k e held =
      inl (subst (λ x. handler_of x other qs ≡ some k) (cc) held)
  route_all-origin (g ∷ gs) ro ro'' other qs k e held =
      let (ro', adds, _, e') = route_all-cons ro ro'' g gs e in
      elim (route_all-origin gs ro' ro'' other qs k e' held) [
        | inr (g', m, of_method, placed, is_k) ↦ inr (g', Memᴰ.tail m, of_method, placed, is_k)
        | inl before ↦
            elim (Adds-origin ro ro' g.method g.pattern other g.handler k qs adds before) [
              | inl earlier ↦ inl earlier
              | inr (is_method, places, is_h) ↦ inr (g, Memᴰ.head refl, is_method, places, is_h)
            ]
      ]

  route_all-Registered :
      (gs : List (Registration H)) (ro ro' : Router H) (method : Bytes) (ps : List Place)
      (g : Registration H)
      → route_all lib ro gs ≡ (ro', ok tt)
      → Memᴰ g gs
      → g.method ≡ method
      → pattern_places lib g.pattern ≡ ok ps
      → handler_of ro' method ps ≡ some g.handler
  unfolding Adds
  route_all-Registered [] ro ro' method ps g e m is_method places = elim m [ ]
  route_all-Registered (x ∷ gs) ro ro'' method ps g e (Memᴰ.head q) is_method places =
      let (ro', (qs, is_qs, _, set, _, _), _, e') = route_all-cons ro ro'' x gs e in
      route_all-keeps gs ro' ro'' method ps g.handler e' (cc)
  route_all-Registered (x ∷ gs) ro ro'' method ps g e (Memᴰ.tail m) is_method places =
      let (ro', _, _, e') = route_all-cons ro ro'' x gs e in
      route_all-Registered gs ro' ro'' method ps g e' m is_method places

  -- The trees stay well-formed.
  pub route_all-IsWellRouter :
      (gs : List (Registration H)) (ro ro' : Router H)
      → route_all lib ro gs ≡ (ro', ok tt)
      → IsWellRouter lib ro
      → IsWellRouter lib ro'
  unfolding route_all
  route_all-IsWellRouter [] ro ro' e well = subst (IsWellRouter lib) (cc) well
  route_all-IsWellRouter (g ∷ gs) ro ro'' e well =
      let (ro', _, first, e') = route_all-cons ro ro'' g gs e in
      route_all-IsWellRouter gs ro' ro'' e' (
        subst (λ x. IsWellRouter lib x.0) first
          (route-IsWellRouter lib ro g.method g.pattern (some g.handler) well).0)

  pub new_router-IsWellRouter : IsWellRouter lib (new_router {H = H})
  unfolding new_router get
  new_router-IsWellRouter method root e = cc

  pub handler_of-new_router :
      (method : Bytes) (ps : List Place) → handler_of (new_router {H = H}) method ps ≡ none
  unfolding new_router get handler_of
  handler_of-new_router method ps = refl

  module _ (order : Node H → List (Bytes × Node H)) (ranges : IsRange order)
      (gs : List (Registration H)) (ro : Router H)
      (accepted : route_all lib new_router gs ≡ (ro, ok tt)) where
    -- Once Route has accepted the routes of a program, whatever the order in which maps are visited,
    -- `findRouter` returns a node for each path that the pattern of a registration with the method
    -- fits.
    pub find_router_fits :
        (g : Registration H) (path : Bytes)
        → Memᴰ g gs
        → Matches lib g.pattern path
        → (c : Node H) × (mi : Params) × (find_router lib order ro g.method path ≡ some (c, mi))
    unfolding handler_of
    find_router_fits g path m (ps, places, fits) =
        let held = route_all-Registered gs new_router ro g.method ps g accepted m refl places in
        let (root, tree, at) =
          maybe-eq-some (λ (n : Node H). handler_at (load n) ps)
            (get Bytes-discrete g.method ro.trees) held in
        let well = route_all-IsWellRouter gs new_router ro accepted new_router-IsWellRouter in
        let (n, b, l) =
          handled-Leads lib ps (path_segments path) root [] g.handler (well g.method root tree) at
            fits in
        find_router_of_Leads lib order ranges ro g.method path root n ps b tree l
