-- ===== src/Server/Served.antt =====
-- From the registration of a route to its handler (web/server.go).
use go_web.Prelude.{Option, some, List, [], ◌∷◌, ◌≡◌, ◌≢◌, ap, ◌∙◌, All}
use mathlib.Core.List.{tail}
use go_web.Strings.{Bytes, split}
use go_web.Http.{Context, HandleFunc}
use go_web.Router.Node.{Node, load}
use go_web.Router.Register.{RegexpLib, Result, ok, route}
use go_web.Router.RoundTrip.{IsStatic, find_router-route}
use go_web.Router.Search.{Params, find_router}
use go_web.Server.{ServerEngine, server_route, call_found, serve}

module _ {S : Type 0} (lib : RegexpLib)
    (order : Node (HandleFunc S) → List (Bytes × Node (HandleFunc S))) where
  call_found_handler :
      (ctx : Context S) (c : Node (HandleFunc S)) (h : HandleFunc S) (pattern : Bytes)
      (found : Option (Node (HandleFunc S) × Params))
      → found ≡ some (c, [])
      → (load c).handlefunc ≡ some h
      → (load c).route ≡ pattern
      → call_found lib order ctx found ≡ h (record ctx { path_params = []; match_route = pattern })
  unfolding call_found
  call_found_handler ctx c h pattern found e f g =
      rw e (rw f (ap (λ x. h (record ctx { path_params = []; match_route = x })) g))

  -- Once the engine has accepted a handler for a pattern of static segments other than `/`, a
  -- request with that method and path runs the handler, with no path parameters and the pattern as
  -- the matched route.
  pub serve-server_route :
      (s s' : ServerEngine S) (method pattern : Bytes) (h : HandleFunc S) (ctx : Context S)
      → pattern ≢ (b'/' ∷ [])
      → All IsStatic (split b'/' (tail pattern))
      → server_route lib s method pattern (some h) ≡ (s', ok tt)
      → ctx.r.method ≡ method
      → ctx.r.path ≡ pattern
      → serve lib order s' ctx ≡ h (record ctx { path_params = []; match_route = pattern })
  unfolding server_route serve
  serve-server_route s s' method pattern h ctx ne statics e is_method is_path =
      let accepted : route lib s.router method pattern (some h) ≡ (s'.router, ok tt) =
        ap (λ (x : ServerEngine S × Result (Unit {0})). (x.0.router, x.1)) e in
      let (c, found, is_h, is_pattern) =
        find_router-route lib order s.router s'.router method pattern h ne statics accepted in
      call_found_handler ctx c h pattern (find_router lib order s'.router ctx.r.method ctx.r.path)
        (ap (λ m. find_router lib order s'.router m ctx.r.path) is_method
          ∙ ap (λ p. find_router lib order s'.router method p) is_path
          ∙ found)
        is_h is_pattern
