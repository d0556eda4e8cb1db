-- ===== src/Server/Dispatched.antt =====
-- Which handler the server runs for a request, once the routes of a program have been registered
-- (web/server.go on web/router.go).
mod Tests
use mathlib.Core.List.{Memᴰ}
use go_web.Prelude.{
  Option, none, some, List, [], ◌≡◌, ◌⊎◌, inl, inr, refl, sym, ap, ap₂, ◌∙◌, get, length,
  Option-cases,
}
use go_web.Strings.{Bytes, Bytes-discrete}
use go_web.Http.{Context, Run, returned, HandleFunc}
use go_web.Router.Node.{Node, load}
use go_web.Router.Register.{RegexpLib, ok, new_router}
use go_web.Router.Search.{Params, find_router}
use go_web.Router.Search.Leads.{IsRange}
use go_web.Router.Search.Bindings.{DistinctNames}
use go_web.Router.Dispatch.{Registration, Matches, path_segments, route_all}
use go_web.Router.Dispatch.Laid.{pattern_segments}
use go_web.Router.Dispatch.Valued.{values, find_router-served}
use go_web.Server.{ServerEngine, call_found, serve}

module _ {S : Type 0} (lib : RegexpLib)
    (order : Node (HandleFunc S) → List (Bytes × Node (HandleFunc S))) (ranges : IsRange order)
    (gs : List (Registration (HandleFunc S))) (s : ServerEngine S)
    (accepted : route_all lib new_router gs ≡ (s.router, ok tt)) where
  -- Status 404 and no handler called, as the path leads to no node with a handler.
  abbrev pub IsMissed : Context S → Type 0
  IsMissed ctx =
      (serve lib order s ctx ≡ returned (record ctx { resp_status_code = 404 }))
      × ((c : Node (HandleFunc S)) (mi : Params)
          → find_router lib order s.router ctx.r.method ctx.r.path ≡ some (c, mi)
          → (load c).handlefunc ≡ none)

  -- The handler of a registration of the request's method and path runs, with the values of the
  -- parameters of its pattern in the path.
  pub record Handled (ctx : Context S) : Type 0 where
    pub g : Registration (HandleFunc S)
    pub registered : Memᴰ g gs
    pub of_method : g.method ≡ ctx.r.method
    pub fits : Matches lib g.pattern ctx.r.path
    pub runs :
        serve lib order s ctx
        ≡ g.handler (record ctx {
          path_params = values lib (pattern_segments g.pattern) (path_segments ctx.r.path);
          match_route = g.pattern;
        })

  -- Once the routes of a program are accepted, and where no parameter name stands twice on a path of
  -- the tree of the request's method, the server answers the request in one of two ways: it sets
  -- status 404 and calls no handler, where findRouter returns no node with a handler, or it runs the
  -- handler of a registration with the request's method, whose pattern fits the path, on the context
  -- with the values of the pattern's parameters in the path and with the pattern as the matched route.
  pub serve-Handled :
      (ctx : Context S)
      → ((root : Node (HandleFunc S))
          → get Bytes-discrete ctx.r.method s.router.trees ≡ some root
          → DistinctNames [] (length (path_segments ctx.r.path)) root)
      → IsMissed ctx ⊎ Handled ctx
  unfolding serve call_found
  serve-Handled ctx distinct =
      elim (Option-cases (find_router lib order s.router ctx.r.method ctx.r.path)) [
        | inl e ↦ inl ((rw e refl), λ c mi e'. cc)
        | inr ((c, mi), e) ↦ elim (Option-cases (load c).handlefunc) [
          | inl no_handler ↦ inl ((rw e (rw no_handler refl)), λ c' mi' e'. cc)
          | inr (h, is_h) ↦
              let (g, m, is_method, fits, same, routed, bound) =
                find_router-served lib order ranges gs s.router ctx.r.method ctx.r.path c mi h
                  accepted distinct e is_h in
              inr (record {
                g = g;
                registered = m;
                of_method = is_method;
                fits = fits;
                runs =
                    rw e (rw is_h refl)
                    ∙ ap₂
                        (λ (f : HandleFunc S) r.
                          f (record ctx { path_params = mi; match_route = r }))
                        (sym same) routed
                    ∙ ap (λ v. g.handler (record ctx { path_params = v; match_route = g.pattern }))
                        bound;
              })
        ]
      ]
