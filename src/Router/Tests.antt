-- ===== src/Router/Tests.antt =====
-- Runs of the router, and the theorems at concrete inputs.
use go_web.Prelude.{
  ℕ, true, Option, none, some, List, [], ◌∷◌, ◌≡◌, refl, holds, get, put, delete, arith, ℕ_discrete,
}
use go_web.Strings.{Bytes, Bytes-discrete, bytes, split, cut, trim_right, trim}
use go_web.Router.Node.{
  Node, NodeType, static, star, param, load, store, Place, set_child, NodeType-discrete,
}
use go_web.Router.Register.{
  RegexpLib, Router, new_router, root_of, route, ok, panic, param_conflict, parse_param,
  child_or_create,
}
use go_web.Router.Register.Routes.{pattern_places, Refines, route-Refines}
use go_web.Router.Search.Candidates.{found, candidates, back_search-found}
use go_web.Router.Range.{visit_all, visits, visit_all-IsRange}
use go_web.Router.Search.Leads.{Leads}
use go_web.Router.Search.Matching.{back_search_sound, back_search_complete}
use go_web.Router.Search.{find_router, back_search, Params}
use go_web.Router.RoundTrip.{find_router-route}

router : Unit {0}
unfolding visits route find_router back_search get put delete split trim cut trim_right
    Bytes-discrete ℕ_discrete load store new_router child_or_create parse_param NodeType-discrete
    set_child root_of
router = tt

-- A library whose expressions match themselves alone.
abbrev literals : RegexpLib
literals = record { compiles = λ e. true; match_string = λ e s. holds (Bytes-discrete e s) }

abbrev in_order : Node ℕ → List (Bytes × Node ℕ)
in_order n = (load n).regexp_child

abbrev add : Router ℕ → Bytes → ℕ → Router ℕ
add ro pattern h = (route literals ro (bytes "GET") pattern (some h)).0

abbrev users : Router ℕ
users =
    add (add (add new_router (bytes "/user/me") 1) (bytes "/user/:id/posts") 2) (bytes "/user/*") 3

-- What a request finds: the handler, the route and the parameters.
abbrev seen : Option (Node ℕ × Params) → Option (Option ℕ × Bytes × Params)
seen none = none
seen (some (n, mi)) = some ((load n).handlefunc, (load n).route, mi)

abbrev ask : Bytes → Option (Option ℕ × Bytes × Params)
ask path = seen (find_router literals in_order users (bytes "GET") path)

found_static : ask (bytes "/user/me") ≡ some (some 1, bytes "/user/me", [])
unfolding router
found_static = refl

found_param :
    ask (bytes "/user/7/posts/")
    ≡ some (some 2, bytes "/user/:id/posts", (bytes "id", bytes "7") ∷ [])
unfolding router
found_param = refl

found_star : ask (bytes "/user/7/friends/x") ≡ some (some 3, bytes "/user/*", [])
unfolding router
found_star = refl

-- A repeated name: the search of `/:id/:id/x` fails below the second `:id`, and what it removes is
-- the value of the first, so the route `/:id/*` is returned with no parameter.
abbrev repeated : Router ℕ
repeated = add (add new_router (bytes "/:id/:id/x") 1) (bytes "/:id/*") 2

lost_binding :
    seen (find_router literals in_order repeated (bytes "GET") (bytes "/1/2/y"))
    ≡ some (some 2, bytes "/:id/*", [])
unfolding router
lost_binding = refl

-- The expression of `:x((a|b))` ends in a parenthesis, which is stripped with the closing one.
stripped : parse_param literals (bytes ":x((a|b))") ≡ ok (bytes "x", some (bytes "(a|b"))
unfolding router
stripped = refl

conflict :
    (route literals
      (add new_router (bytes "/user/:id") 1)
      (bytes "GET")
      (bytes "/user/:name")
      (some 2)).1
    ≡ panic param_conflict
unfolding router
conflict = refl

find_router-route_example :
    (c : Node ℕ) × (find_router literals in_order
        (add new_router (bytes "/user/me") 1)
        (bytes "GET")
        (bytes "/user/me")
      ≡ some (c, []))
    × ((load c).handlefunc ≡ some 1)
    × ((load c).route ≡ bytes "/user/me")
unfolding router
find_router-route_example =
    find_router-route literals in_order new_router (add new_router (bytes "/user/me") 1)
      (bytes "GET") (bytes "/user/me") 1 (ground arith) (ground arith) refl

route-Refines_example :
    Refines users
      (bytes "GET")
      (pattern_places literals (bytes "/user/:name"))
      (some 4)
      (route literals users (bytes "GET") (bytes "/user/:name") (some 4))
route-Refines_example = route-Refines literals users (bytes "GET") (bytes "/user/:name") (some 4)

-- `/:id/x` and `/:id/*` below a root.
abbrev leaf : NodeType → Bytes → ℕ → Node ℕ
leaf t path h = store (record {
  typ = t;
  path = path;
  route = [];
  handlefunc = some h;
  children = [];
  star_child = none;
  param_child = none;
  regexp_child = [];
  reg_expr = none;
  param_name = [];
})

abbrev id_node : Node ℕ
id_node = store (record {
  typ = param;
  path = bytes ":id";
  route = [];
  handlefunc = none;
  children = (bytes "x", leaf static (bytes "x") 1) ∷ [];
  star_child = some (leaf star (bytes "*") 2);
  param_child = none;
  regexp_child = [];
  reg_expr = none;
  param_name = bytes "id";
})

abbrev sample : Node ℕ
sample = store (record {
  typ = static;
  path = bytes "/";
  route = bytes "/";
  handlefunc = none;
  children = [];
  star_child = none;
  param_child = some id_node;
  regexp_child = [];
  reg_expr = none;
  param_name = [];
})

abbrev request : List Bytes
request = bytes "1" ∷ bytes "y" ∷ []

sample_search :
    back_search literals visit_all request sample []
    ≡ (some (leaf star (bytes "*") 2), (bytes "id", bytes "1") ∷ [])
unfolding router
sample_search = refl

back_search_sound_example :
    (ps : List Place) × (b : Params) × Leads literals sample ps request (leaf star (bytes "*") 2) b
unfolding router
back_search_sound_example =
    back_search_sound literals visit_all visit_all-IsRange request sample (leaf star (bytes "*") 2)
      [] refl

back_search_complete_example :
    (found_node : Node ℕ) × ((back_search literals visit_all request sample []).0 ≡ some found_node)
back_search_complete_example =
    back_search_complete literals visit_all visit_all-IsRange request sample
      (leaf star (bytes "*") 2) [] back_search_sound_example.0 back_search_sound_example.1
      back_search_sound_example.2

back_search-found_example :
    (back_search literals in_order request sample []).0
    ≡ found (candidates literals in_order request sample)
back_search-found_example = back_search-found literals in_order request sample []
