-- ===== src/Server/Grouped/Tests.antt =====
-- A route of a group at a concrete engine (web/group.go).
use mathlib.Core.List.{Memᴰ}
use go_web.Prelude.{some, List, [], ◌∷◌, ◌++◌, ◌≡◌, refl, arith, get, put, ℕ_discrete}
use go_web.Strings.{Bytes-discrete, bytes, split, cut, trim_right}
use go_web.Http.{Context, HandleFunc, new_context, and_then, flash_resp}
use go_web.Router.Node.{load, store, set_child}
use go_web.Router.Register.{new_router, root_of, route, parse_param, child_or_create}
use go_web.Server.{
  Group, ServerEngine, new_group, new_server_engine, group_route, server_route, serve_http,
}
use go_web.Server.Chain.{chain, mdls_of}
use go_web.Server.Grouped.{serve_http-group_route}
use go_web.Server.Sort.{sort_groups, sort_groups-Perm}
use go_web.Server.Tests.{Trace, literals, in_order, mark, marking, grouped, request, no_response}

-- The group `/a` of the engine.
abbrev group_a : Group Trace
group_a = record { prefix = bytes "/a"; mdls = marking 2 ∷ [] }

abbrev engine : ServerEngine Trace
engine = (group_route literals grouped group_a (bytes "GET") (bytes "/x") (some (mark 4))).0

serve_http-group_route_example :
    (gs : List (Group Trace)) × (root : HandleFunc Trace) × Memᴰ group_a gs
    × (serve_http literals in_order sort_groups engine no_response (request (bytes "/a/x")) []
        ≡ and_then
            (chain
              (engine.mdls ++ mdls_of gs)
              root
              (new_context no_response (request (bytes "/a/x")) []))
            flash_resp)
    × ((c : Context Trace)
        → c.r ≡ request (bytes "/a/x")
        → root c ≡ mark 4 (record c { path_params = []; match_route = bytes "/a/x" }))
unfolding route get put split cut trim_right Bytes-discrete ℕ_discrete load store new_router
    child_or_create parse_param set_child root_of server_route group_route new_group
    new_server_engine
serve_http-group_route_example =
    serve_http-group_route literals in_order sort_groups sort_groups-Perm grouped engine group_a
      (bytes "GET") (bytes "/x") (mark 4) no_response (request (bytes "/a/x")) []
      (Memᴰ.tail (Memᴰ.head refl)) (λ e. cc)
      (((λ e. omega (arith, e)), (λ e. cc)), (((λ e. omega (arith, e)), (λ e. cc)), tt)) refl refl
      refl
