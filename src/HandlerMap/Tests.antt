-- ===== src/HandlerMap/Tests.antt =====
-- The map of handlers at a concrete input.
use go_web.Prelude.{ℕ, ◌≡◌, refl, some, get, put}
use go_web.Strings.{bytes, Bytes-discrete}
use go_web.HandlerMap.{HandlerBasedonMap, new_handler_map, map_route, map_find_router, key_gen}

abbrev routes : HandlerBasedonMap ℕ
routes = map_route new_handler_map (bytes "GET") (bytes "/a") 1

-- A second registration under one method and path takes the place of the first.
replaced :
    map_find_router (map_route routes (bytes "GET") (bytes "/a") 2) (bytes "GET") (bytes "/a")
    ≡ some (bytes "GET#/a", 2)
unfolding map_find_router map_route new_handler_map key_gen get put Bytes-discrete
replaced = refl
