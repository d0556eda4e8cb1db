-- ===== src/Middlewares/Tracing.antt =====
-- The tracing middleware of middlewares/opentelemetry/trace.go. The opentelemetry packages are a
-- parameter.
pub mod Events
use go_web.Prelude.{ℕ, Option, List, [], ◌∷◌, maybe}
use mathlib.Core.Logic.{ite}
use go_web.Strings.{Bytes, Bytes-discrete, bytes}
use go_web.Http.{
  Context, Request, Run, returned, panicked, HandleFunc, Middleware, and_then, deferred,
}

-- Contexts `Cx`, spans `Sp` and tracers `Tr`. The context of a request stands in the state.
pub record Otel (Cx Sp Tr S : Type 0) : Type 0 where
  pub global_tracer : Bytes → Tr
  pub request_context : Request → S → Cx
  pub with_context : Request → Cx → S → S
  pub extract : Cx → Request → Cx
  pub start : Tr → Cx → Bytes → S → S × Cx × Sp
  pub set_attribute : Sp → Bytes → Bytes → S → S
  pub set_int_attribute : Sp → Bytes → ℕ → S → S
  pub set_name : Sp → Bytes → S → S
  pub end_span : Sp → S → S

-- `Middlewarebuilder`; `none` is a nil tracer.
pub record TraceBuilder (Tr : Type 0) : Type 0 where
  pub tracer : Option Tr

abbrev pub new_trace_middleware_builder : {Tr : Type 0} → Option Tr → TraceBuilder Tr
new_trace_middleware_builder t = record { tracer = t }

-- The tags of a span, from the request.
abbrev pub tags_of : Request → List (Bytes × Bytes)
tags_of r =
    (bytes "http.method", r.method)
    ∷ (bytes "peer.hostname", r.host)
    ∷ (bytes "http.url", r.url)
    ∷ (bytes "http.scheme", r.scheme)
    ∷ (bytes "span.kind", bytes "server")
    ∷ (bytes "component", bytes "web")
    ∷ (bytes "peer.address", r.remote_addr)
    ∷ (bytes "http.proto", r.proto)
    ∷ []

module _ {Cx Sp Tr S : Type 0} (lib : Otel Cx Sp Tr S) where
  abbrev pub set_attributes : Sp → List (Bytes × Bytes) → S → S
  set_attributes span [] s = s
  set_attributes span ((key, val) ∷ tags) s =
      set_attributes span tags (lib.set_attribute span key val s)

  -- The span of a request, with the state and the context that come with it.
  unfoldable pub start_span : TraceBuilder Tr → Context S → S × Cx × Sp
  start_span m ctx =
      let tracer =
        maybe (lib.global_tracer (bytes "go_web/middlewares/opentelementry")) (λ t. t) m.tracer in
      let cx = lib.extract (lib.request_context ctx.r ctx.shared) ctx.r in
      lib.start tracer cx (bytes "middleware_0") ctx.shared

  -- What is recorded when `next` has returned: the matched route as the name, and the status.
  unfoldable pub record_route : Sp → HandleFunc S
  record_route span c =
      let s =
        ite (Bytes-discrete c.match_route []) c.shared (lib.set_name span c.match_route c.shared) in
      returned (record c {
        shared = lib.set_int_attribute span (bytes "http.status") c.resp_status_code s;
      })

  -- `Build`.
  unfoldable pub build_trace : TraceBuilder Tr → Middleware S
  unfolding start_span record_route
  build_trace m next ctx =
      let (s, cx, span) = start_span m ctx in
      let s' = lib.with_context ctx.r cx (set_attributes span (tags_of ctx.r) s) in
      deferred (λ c. returned (record c { shared = lib.end_span span c.shared }))
        (and_then (next (record ctx { shared = s' })) (record_route span))
