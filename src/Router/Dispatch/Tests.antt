-- ===== src/Router/Dispatch/Tests.antt =====
-- The dispatch of requests at a concrete router (web/router.go).
use mathlib.Core.List.Memᴰ
use mathlib.Core.List.{Memᴰ}
use go_web.Prelude.{
  ℕ, subst, true, Option, none, some, List, [], ◌∷◌, ◌≡◌, refl, inl, inr, holds, get, put, delete,
  ℕ_discrete, maybe,
}
use go_web.Strings.{Bytes, Bytes-discrete, bytes, split, cut, trim_right, trim}
use go_web.Router.Node.{Node, NodeType-discrete, load, store, set_child, at_static, at_star}
use go_web.Router.Register.{
  RegexpLib, Router, new_router, new_root, root_of, route, ok, parse_param, child_or_create,
}
use go_web.Router.Register.Handlers.{place_of, places_of}
use go_web.Router.Register.Routes.{pattern_places}
use go_web.Router.Range.{visit_all, visits, visit_all-IsRange}
use go_web.Router.Search.{Params, find_router, back_search}
use go_web.Router.Dispatch.{Registration, Matches, route_all, path_segments}
use go_web.Router.Dispatch.Found.{find_router_registered}
use go_web.Router.Dispatch.Registered.{find_router_fits}
use go_web.Router.Dispatch.Laid.{pattern_segments}
use go_web.Router.Dispatch.Valued.{values, find_router-values}
use go_web.Router.Search.Bindings.{DistinctNames}
use mathlib.Core.Option.{some-injective}

all : Unit {0}
unfolding visits route find_router back_search get put delete split trim cut trim_right
    Bytes-discrete ℕ_discrete load store new_router child_or_create parse_param NodeType-discrete
    set_child root_of route_all path_segments place_of places_of pattern_places
all = tt

-- A library whose expressions match themselves alone.
abbrev literals : RegexpLib
literals = record { compiles = λ e. true; match_string = λ e s. holds (Bytes-discrete e s) }

abbrev got : Bytes → ℕ → Registration ℕ
got pattern h = record { method = bytes "GET"; pattern = pattern; handler = h }

abbrev program : List (Registration ℕ)
program =
    got (bytes "/user/me") 1
    ∷ got (bytes "/user/:id/posts") 2
    ∷ got (bytes "/user/*") 3
    ∷ got (bytes "/:x") 4
    ∷ []

abbrev ro : Router ℕ
ro = (route_all literals new_router program).0

abbrev found : Bytes → Option (Node ℕ × Params)
found path = find_router literals visit_all ro (bytes "GET") path

abbrev node : Option (Node ℕ × Params) → Node ℕ
node o = maybe (store new_root) (λ x. x.0) o

program_accepted : route_all literals new_router program ≡ (ro, ok tt)
unfolding all
program_accepted = refl

find_router_registered_example :
    (g : Registration ℕ) × Memᴰ g program
    × (g.method ≡ bytes "GET")
    × Matches literals g.pattern (bytes "/user/7/posts")
    × (g.handler ≡ 2)
    × ((load (node (found (bytes "/user/7/posts")))).route ≡ g.pattern)
unfolding all
find_router_registered_example =
    find_router_registered literals visit_all visit_all-IsRange program ro program_accepted
      (bytes "GET") (bytes "/user/7/posts") (node (found (bytes "/user/7/posts")))
      ((bytes "id", bytes "7") ∷ []) 2 refl refl

find_router_fits_example :
    (c : Node ℕ) × (mi : Params) × (find_router literals visit_all ro
        (bytes "GET")
        (bytes "/user/7/friends")
      ≡ some (c, mi))
unfolding all
find_router_fits_example =
    find_router_fits literals visit_all visit_all-IsRange program ro program_accepted
      (got (bytes "/user/*") 3) (bytes "/user/7/friends") (Memᴰ.tail (Memᴰ.tail (Memᴰ.head refl)))
      (at_static (bytes "user") ∷ at_star ∷ [], refl, inl (refl, inr refl))

-- The pattern `/:x` fits `/user`, but the node that is found is that of the longer routes, which has
-- no handler.
shadowed :
    maybe none (λ (x : Node ℕ × Params). some (load x.0).handlefunc) (found (bytes "/user"))
    ≡ some none
unfolding all
shadowed = refl

abbrev posts : List (Registration ℕ)
posts = got (bytes "/:id/posts") 5 ∷ []

abbrev posts_router : Router ℕ
posts_router = (route_all literals new_router posts).0

abbrev posts_root : Node ℕ
posts_root =
    maybe (store new_root) (λ root. root) (get Bytes-discrete (bytes "GET") posts_router.trees)

posts_root-DistinctNames : DistinctNames [] 2 posts_root
unfolding all
posts_root-DistinctNames = (
  λ k c e. absurd (cc),
  λ k c e. absurd (cc),
  λ c e.
      subst (λ x. (¬ Memᴰ (load x).param_name []) × DistinctNames ((load x).param_name ∷ []) 1 x)
        (some-injective _ _ e)
        (
          Memᴰ.not-nil,
          ((λ k c' e'. tt), (λ k c' e'. absurd (cc)), (λ c' e'. absurd (cc)), (λ c' e'. tt)),
        ),
  λ c e. absurd (cc),
)

posts_trees-DistinctNames :
    (root : Node ℕ)
    → get Bytes-discrete (bytes "GET") posts_router.trees ≡ some root
    → DistinctNames [] 2 root
unfolding all
posts_trees-DistinctNames root e =
    subst (DistinctNames [] 2) (some-injective _ _ e) posts_root-DistinctNames

find_router-values_example :
    (g : Registration ℕ) × Memᴰ g posts
    × (g.method ≡ bytes "GET")
    × Matches literals g.pattern (bytes "/7/posts")
    × (g.handler ≡ 5)
    × (((bytes "id", bytes "7") ∷ [])
        ≡ values literals (pattern_segments g.pattern) (path_segments (bytes "/7/posts")))
unfolding all
find_router-values_example =
    find_router-values literals visit_all visit_all-IsRange posts posts_router (bytes "GET")
      (bytes "/7/posts")
      (node (find_router literals visit_all posts_router (bytes "GET") (bytes "/7/posts")))
      ((bytes "id", bytes "7") ∷ []) 5 refl posts_trees-DistinctNames refl refl
