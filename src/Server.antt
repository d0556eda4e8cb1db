-- ===== src/Server.antt =====
-- The server engine and its groups: web/server.go and web/group.go. A group is named by its place
-- in `Groups`; the first is the engine's own.
pub mod Chain
pub mod Served
pub mod Nested
pub mod Grouped
pub mod Dispatched
pub mod Sort
pub mod Tests
use go_web.Prelude.{
  ℕ, zero, suc, Bool, true, false, Option, none, some, List, [], ◌∷◌, ◌++◌, ◌≡◌, length, maybe,
  if◌then◌else◌, get_elem?, set_elem,
}
use go_web.Strings.{Bytes, bytes, has_prefix}
use go_web.Http.{
  Context, Request, Response, Run, returned, panicked, HandleFunc, Middleware, new_context,
  and_then, flash_resp,
}
use go_web.Router.Node.{Node, load}
use go_web.Router.Register.{RegexpLib, Router, Result, new_router, route}
use go_web.Router.Search.{Params, find_router}

-- `Group`, less the pointers to its parent and its engine.
pub record Group (S : Type 0) : Type 0 where
  pub prefix : Bytes
  pub mdls : List (Middleware S)

-- `ServerEngine`, less its name and its template engine.
pub record ServerEngine (S : Type 0) : Type 0 where
  pub router : Router (HandleFunc S)
  pub mdls : List (Middleware S)
  pub groups : List (Group S)

module _ {S : Type 0} where
  -- `NewServerEngine` with `ServeWithMiddleware`.
  unfoldable pub new_server_engine : List (Middleware S) → ServerEngine S
  unfolding new_router
  new_server_engine mdls = record {
    router = new_router;
    mdls = mdls;
    groups = record { prefix = []; mdls = [] } ∷ [];
  }

  -- `ServerEngine.Use`.
  unfoldable pub use_all : ServerEngine S → List (Middleware S) → ServerEngine S
  use_all s mdls = record s { mdls = s.mdls ++ mdls }

  -- `Group.NewGroup` with `GroupWithMiddleware`: the engine and the place of the new group.
  unfoldable pub new_group : ServerEngine S → ℕ → Bytes → List (Middleware S) → ServerEngine S × ℕ
  new_group s parent prefix mdls =
      maybe (s, parent)
        (λ g. (
          record s {
            groups = s.groups ++ record { prefix = g.prefix ++ prefix; mdls = mdls } ∷ [];
          },
          length s.groups,
        ))
        (get_elem? s.groups parent)

  -- `Group.Use`.
  unfoldable pub group_use : ServerEngine S → ℕ → List (Middleware S) → ServerEngine S
  group_use s i mdls =
      maybe s (λ g. record s { groups = set_elem s.groups i (record g { mdls = g.mdls ++ mdls }) })
        (get_elem? s.groups i)

  -- `for i := len(mdls) - 1; i >= 0; i--`, with `i` steps to go.
  unfoldable pub wrap_from : ℕ → List (Middleware S) → HandleFunc S → HandleFunc S
  wrap_from zero mdls root = root
  wrap_from (suc i) mdls root = wrap_from i mdls (maybe root (λ m. m root) (get_elem? mdls i))

  unfoldable pub wrap : List (Middleware S) → HandleFunc S → HandleFunc S
  unfolding wrap_from
  wrap mdls root = wrap_from (length mdls) mdls root

  -- The groups whose prefix the path has.
  unfoldable pub middle_group : Bytes → List (Group S) → List (Group S)
  unfolding has_prefix
  middle_group path [] = []
  middle_group path (g ∷ gs) =
      let rest = middle_group path gs in if has_prefix path g.prefix then g ∷ rest else rest

  unfoldable pub wrap_groups : List (Group S) → HandleFunc S → HandleFunc S
  unfolding wrap
  wrap_groups [] root = root
  wrap_groups (g ∷ gs) root = wrap_groups gs (wrap g.mdls root)

module _ {S : Type 0} (lib : RegexpLib) where
  -- `ServerEngine.Route`.
  unfoldable pub server_route :
      ServerEngine S → Bytes → Bytes → Option (HandleFunc S) → ServerEngine S × Result (Unit {0})
  unfolding route
  server_route s method pattern h =
      let (router, r) = route lib s.router method pattern h in (record s { router = router }, r)

  -- `ServerEngine.Get` and `ServerEngine.Post`.
  unfoldable pub get_route :
      ServerEngine S → Bytes → Option (HandleFunc S) → ServerEngine S × Result (Unit {0})
  unfolding server_route
  get_route s pattern h = server_route s (bytes "GET") pattern h

  unfoldable pub post_route :
      ServerEngine S → Bytes → Option (HandleFunc S) → ServerEngine S × Result (Unit {0})
  unfolding server_route
  post_route s pattern h = server_route s (bytes "POST") pattern h

  -- `Group.Route`; `Get` and `Post` are it with a method.
  unfoldable pub group_route :
      ServerEngine S
      → Group S
      → Bytes
      → Bytes
      → Option (HandleFunc S)
      → ServerEngine S × Result (Unit {0})
  unfolding server_route
  group_route s g method pattern h = server_route s method (g.prefix ++ pattern) h

  module _ (order : Node (HandleFunc S) → List (Bytes × Node (HandleFunc S))) where
    -- A node that was found, and what is done with it.
    unfoldable pub call_found : Context S → Option (Node (HandleFunc S) × Params) → Run S
    call_found ctx found =
        let not_found = returned (record ctx { resp_status_code = 404 }) in
        maybe not_found
          (λ mi.
            maybe not_found
              (λ h. h (record ctx { path_params = mi.1; match_route = (load mi.0).route }))
              (load mi.0).handlefunc)
          found

    -- `ServerEngine.findRouter`.
    abbrev pub server_find : ServerEngine S → Bytes → Bytes → Option (Node (HandleFunc S) × Params)
    server_find s method pattern = find_router lib order s.router method pattern

    unfoldable pub serve : ServerEngine S → HandleFunc S
    unfolding call_found find_router
    serve s ctx = call_found ctx (server_find s ctx.r.method ctx.r.path)

    -- `sorted` is what `sort.Slice` makes of the groups.
    module _ (sorted : List (Group S) → List (Group S)) where
      unfoldable pub serve_http : ServerEngine S → Response → Request → S → Run S
      unfolding serve wrap_groups wrap middle_group new_context flash_resp
      serve_http s w r st =
          let grouped = wrap_groups (sorted (middle_group r.path s.groups)) (serve s) in
          and_then (wrap s.mdls grouped (new_context w r st)) flash_resp
