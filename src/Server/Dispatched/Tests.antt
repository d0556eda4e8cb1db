-- ===== src/Server/Dispatched/Tests.antt =====
-- The handler that the server runs, at a concrete engine (web/server.go).
use mathlib.Core.List.Memᴰ
use mathlib.Core.List.{Memᴰ}
use mathlib.Core.Option.{some-injective}
use go_web.Prelude.{subst, some, maybe, List, [], ◌∷◌, ◌≡◌, ◌⊎◌, refl, get, put, ℕ_discrete}
use go_web.Strings.{Bytes-discrete, bytes, split, cut, trim, trim_right}
use go_web.Http.{HandleFunc, new_context}
use go_web.Router.Node.{Node, load, store, set_child}
use go_web.Router.Register.{new_router, new_root, root_of, route, ok, parse_param, child_or_create}
use go_web.Router.Range.{visit_all, visit_all-IsRange}
use go_web.Router.Dispatch.{Registration, route_all, path_segments}
use go_web.Router.Search.Bindings.{DistinctNames}
use go_web.Server.{ServerEngine, new_server_engine}
use go_web.Server.Dispatched.{IsMissed, Handled, serve-Handled}
use go_web.Server.Tests.{Trace, literals, mark, request, no_response}

abbrev routes : List (Registration (HandleFunc Trace))
routes = record { method = bytes "GET"; pattern = bytes "/:id/posts"; handler = mark 4 } ∷ []

abbrev engine : ServerEngine Trace
engine = record (new_server_engine []) { router = (route_all literals new_router routes).0 }

accepted : route_all literals new_router routes ≡ (engine.router, ok tt)
unfolding route_all route get put split cut trim_right Bytes-discrete ℕ_discrete load store
    new_router child_or_create parse_param set_child root_of
accepted = refl

abbrev tree : Node (HandleFunc Trace)
tree = maybe (store new_root) (λ root. root) (get Bytes-discrete (bytes "GET") engine.router.trees)

all : Unit {0}
unfolding route_all route get put split cut trim trim_right Bytes-discrete ℕ_discrete load store
    new_router child_or_create parse_param set_child root_of path_segments
all = tt

tree-DistinctNames : DistinctNames [] 2 tree
unfolding all
tree-DistinctNames = (
  λ k c e. absurd (cc),
  λ k c e. absurd (cc),
  λ c e.
      subst (λ x. (¬ Memᴰ (load x).param_name []) × DistinctNames ((load x).param_name ∷ []) 1 x)
        (some-injective _ _ e)
        (
          Memᴰ.not-nil,
          ((λ k c' e'. tt), (λ k c' e'. absurd (cc)), (λ c' e'. absurd (cc)), (λ c' e'. tt)),
        ),
  λ c e. absurd (cc),
)

distinct :
    (root : Node (HandleFunc Trace))
    → get Bytes-discrete (bytes "GET") engine.router.trees ≡ some root
    → DistinctNames [] 2 root
unfolding all
distinct root e = subst (DistinctNames [] 2) (some-injective _ _ e) tree-DistinctNames

serve-Handled_example :
    IsMissed literals visit_all visit_all-IsRange routes engine accepted
      (new_context no_response (request (bytes "/7/posts")) [])
    ⊎ Handled literals visit_all visit_all-IsRange routes engine accepted
        (new_context no_response (request (bytes "/7/posts")) [])
unfolding all new_context
serve-Handled_example =
    serve-Handled literals visit_all visit_all-IsRange routes engine accepted
      (new_context no_response (request (bytes "/7/posts")) []) distinct
