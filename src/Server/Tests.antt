-- ===== src/Server/Tests.antt =====
-- Runs of the server and of the middlewares, and the theorems at concrete inputs.
use go_web.Prelude.{
  ℕ, ◌≡◌, refl, true, holds, none, some, List, [], ◌∷◌, ◌++◌, ◌||◌, ◌⊎◌, get, put, delete,
  backwards, ℕ_discrete,
}
use go_web.Strings.{Bytes, Bytes-discrete, bytes, split, cut, trim, has_prefix}
use go_web.Http.{
  Context, Request, Response, Run, returned, panicked, HandleFunc, Middleware, new_context,
  and_then, flash_resp,
}
use go_web.Int64.{lt64}
use go_web.Router.Node.{Node, load, store, set_child, NodeType-discrete}
use go_web.Router.Register.{RegexpLib, new_router, route, root_of, child_or_create, parse_param}
use go_web.Router.Search.{find_router, back_search}
use go_web.Server.{
  Group, ServerEngine, new_server_engine, new_group, server_route, serve, serve_http, middle_group,
}
use go_web.Server.Chain.{chain, mdls_of, serve_http-chain}
use go_web.Middlewares.{build_recover}
use go_web.Middlewares.Recovered.{serve_http_recovers}

-- The state that handlers share is the order in which they were called.
abbrev pub Trace : Type 0
Trace = List ℕ

abbrev pub literals : RegexpLib
literals = record { compiles = λ e. true; match_string = λ e s. holds (Bytes-discrete e s) }

abbrev pub in_order : Node (HandleFunc Trace) → List (Bytes × Node (HandleFunc Trace))
in_order n = (load n).regexp_child

abbrev pub mark : ℕ → HandleFunc Trace
mark n c = returned (record c { shared = c.shared ++ n ∷ [] })

abbrev pub marking : ℕ → Middleware Trace
marking n next c = next (record c { shared = c.shared ++ n ∷ [] })

abbrev failing : HandleFunc Trace
failing c = panicked (record c { shared = c.shared ++ 9 ∷ [] })

-- Two groups, `/a` below the engine and `/a/b` below `/a`, each with a middleware.
abbrev pub grouped : ServerEngine Trace
grouped =
    (new_group (new_group (new_server_engine (marking 1 ∷ [])) 0 (bytes "/a") (marking 2 ∷ [])).0 1
      (bytes "/b") (marking 3 ∷ [])).0

-- The groups that match `/a/b/c`, longest prefix first.
abbrev longest_first : List (Group Trace) → List (Group Trace)
longest_first gs = backwards gs

abbrev pub request : Bytes → Request
request path = record {
  method = bytes "GET";
  path = path;
  request_uri = path;
  host = [];
  url = path;
  scheme = bytes "http";
  remote_addr = [];
  proto = bytes "HTTP/1.1";
  body = none;
}

abbrev pub no_response : Response
no_response = record {
  status = none;
  headers = [];
  sent_headers = [];
  content_length = none;
  body = [];
}

abbrev routed_to : HandleFunc Trace → ServerEngine Trace → ServerEngine Trace
routed_to h s = (server_route literals s (bytes "GET") (bytes "/a/b/c") (some h)).0

abbrev trace_of : Run Trace → Trace
trace_of (returned c) = c.shared
trace_of (panicked c) = c.shared

server : Unit {0}
unfolding route find_router back_search get put delete split trim cut Bytes-discrete ℕ_discrete load
    store new_router child_or_create parse_param NodeType-discrete set_child root_of server_route
    new_group new_server_engine has_prefix
server = tt

-- The engine's middleware, that of `/a`, that of `/a/b`, the handler.
middlewares_in_order :
    trace_of (
      serve_http literals in_order longest_first
        (routed_to (mark 4) grouped)
        no_response
        (request (bytes "/a/b/c"))
        [])
    ≡ 1 ∷ 2 ∷ 3 ∷ 4 ∷ []
unfolding server serve_http
middlewares_in_order = refl

serve_http-chain_example :
    serve_http literals in_order longest_first grouped no_response (request (bytes "/a/b")) []
    ≡ and_then
        (chain
          (grouped.mdls
            ++ mdls_of (backwards (longest_first (middle_group (bytes "/a/b") grouped.groups))))
          (serve literals in_order grouped)
          (new_context no_response (request (bytes "/a/b")) []))
        flash_resp
serve_http-chain_example =
    serve_http-chain literals in_order longest_first grouped no_response (request (bytes "/a/b")) []

-- An engine whose first middleware recovers, with a handler that panics.
abbrev recovering : ServerEngine Trace
recovering = routed_to failing (new_server_engine (build_recover 500 (bytes "oops") (mark 7) ∷ []))

serve_http_recovers_example :
    ((d : Context Trace) × (status : ℕ) × (serve_http literals in_order longest_first recovering
          no_response
          (request (bytes "/a/b/c"))
          []
        ≡ returned d)
      × (d.w.status ≡ some status))
    ⊎ ((d : Context Trace) × (serve_http literals in_order longest_first recovering no_response
            (request (bytes "/a/b/c"))
            []
          ≡ panicked d)
        × (d.w.status ≡ none)
        × (lt64 0 d.resp_status_code ≡ true)
        × ((lt64 d.resp_status_code 100 || lt64 999 d.resp_status_code) ≡ true))
unfolding server
serve_http_recovers_example =
    serve_http_recovers literals in_order longest_first recovering [] 500 (bytes "oops") (mark 7)
      no_response (request (bytes "/a/b/c")) [] refl (λ c. (_, refl))
