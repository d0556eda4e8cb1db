-- ===== src/Middlewares/Tracing/Events.antt =====
-- What a traced request leaves on its span, in order (middlewares/opentelemetry/trace.go).
use go_web.Prelude.{
  ℕ, List, [], ◌∷◌, ◌++◌, ◌≡◌, sym, ap, ◌∙◌, ◌⊎◌, inl, inr, append_assoc, append-nil,
}
use mathlib.Core.Logic.{ite}
use go_web.Strings.{Bytes, Bytes-discrete, bytes}
use go_web.Http.{
  Context, Request, Run, returned, panicked, HandleFunc, and_then, deferred, Run-cases,
}
use go_web.Middlewares.Tracing.{
  Otel, TraceBuilder, set_attributes, start_span, record_route, build_trace, tags_of,
}

-- What happens to spans: a start below a context, a tag, a name, an end.
pub data SpanEvent (Cx Sp : Type 0) : Type 0 where
  began : Sp → Cx → Bytes → SpanEvent Cx Sp
  tagged : Sp → Bytes → Bytes → SpanEvent Cx Sp
  tagged_int : Sp → Bytes → ℕ → SpanEvent Cx Sp
  named : Sp → Bytes → SpanEvent Cx Sp
  ended : Sp → SpanEvent Cx Sp

-- The state holds the events so far: each call on a span adds its own, and a new context for the
-- request adds none.
pub record LogsEvents {Cx Sp Tr S : Type 0} (lib : Otel Cx Sp Tr S)
    (events : S → List (SpanEvent Cx Sp)) : Type 0 where
  pub on_start :
      (t : Tr) (cx : Cx) (name : Bytes) (s : S)
      → events (lib.start t cx name s).0 ≡ events s ++ began (lib.start t cx name s).2 cx name ∷ []
  pub on_attribute :
      (span : Sp) (key val : Bytes) (s : S)
      → events (lib.set_attribute span key val s) ≡ events s ++ tagged span key val ∷ []
  pub on_int_attribute :
      (span : Sp) (key : Bytes) (n : ℕ) (s : S)
      → events (lib.set_int_attribute span key n s) ≡ events s ++ tagged_int span key n ∷ []
  pub on_name :
      (span : Sp) (name : Bytes) (s : S)
      → events (lib.set_name span name s) ≡ events s ++ named span name ∷ []
  pub on_end : (span : Sp) (s : S) → events (lib.end_span span s) ≡ events s ++ ended span ∷ []
  pub on_context : (r : Request) (cx : Cx) (s : S) → events (lib.with_context r cx s) ≡ events s

module _ {Cx Sp : Type 0} where
  -- What stands on the span before the next handler runs.
  abbrev pub opening : Sp → Cx → Request → List (SpanEvent Cx Sp)
  opening span cx r =
      began span cx (bytes "middleware_0")
      ∷ tagged span (bytes "http.method") r.method
      ∷ tagged span (bytes "peer.hostname") r.host
      ∷ tagged span (bytes "http.url") r.url
      ∷ tagged span (bytes "http.scheme") r.scheme
      ∷ tagged span (bytes "span.kind") (bytes "server")
      ∷ tagged span (bytes "component") (bytes "web")
      ∷ tagged span (bytes "peer.address") r.remote_addr
      ∷ tagged span (bytes "http.proto") r.proto
      ∷ []

  -- The matched route as the name of the span, if there is one, then the status, then the end.
  abbrev pub closing : Sp → Bytes → ℕ → List (SpanEvent Cx Sp)
  closing span [] status = tagged_int span (bytes "http.status") status ∷ ended span ∷ []
  closing span (b ∷ route) status =
      named span (b ∷ route) ∷ tagged_int span (bytes "http.status") status ∷ ended span ∷ []

  abbrev tag_events : Sp → List (Bytes × Bytes) → List (SpanEvent Cx Sp)
  tag_events span [] = []
  tag_events span ((key, val) ∷ tags) = tagged span key val ∷ tag_events span tags

module _ {Cx Sp Tr S : Type 0} (lib : Otel Cx Sp Tr S) (events : S → List (SpanEvent Cx Sp))
    (laws : LogsEvents lib events) where
  events-set_attributes :
      (span : Sp) (tags : List (Bytes × Bytes)) (s : S)
      → events (set_attributes lib span tags s) ≡ events s ++ tag_events span tags
  events-set_attributes span [] s = sym (append-nil (events s))
  events-set_attributes span ((key, val) ∷ tags) s =
      events-set_attributes span tags (lib.set_attribute span key val s)
      ∙ ap (λ l. l ++ tag_events span tags) (laws.on_attribute span key val s)
      ∙ append_assoc (events s) (tagged span key val ∷ []) (tag_events span tags)

  -- The context that comes with the request, as the propagator extracts it.
  abbrev parent : Context S → Cx
  parent ctx = lib.extract (lib.request_context ctx.r ctx.shared) ctx.r

  -- The context that the next handler gets.
  abbrev traced : TraceBuilder Tr → Context S → Context S
  traced m ctx =
      let (s, cx, span) = start_span lib m ctx in
      record ctx { shared = lib.with_context ctx.r cx (set_attributes lib span (tags_of ctx.r) s) }

  events-traced :
      (m : TraceBuilder Tr) (ctx : Context S)
      → events (traced m ctx).shared
        ≡ events ctx.shared ++ opening (start_span lib m ctx).2 (parent ctx) ctx.r
  unfolding start_span
  events-traced m ctx =
      let (s, cx, span) = start_span lib m ctx in
      laws.on_context ctx.r cx (set_attributes lib span (tags_of ctx.r) s)
      ∙ events-set_attributes span (tags_of ctx.r) s
      ∙ ap (λ l. l ++ tag_events span (tags_of ctx.r))
          (laws.on_start _ (parent ctx) (bytes "middleware_0") ctx.shared)
      ∙ append_assoc (events ctx.shared) (began span (parent ctx) (bytes "middleware_0") ∷ [])
          (tag_events span (tags_of ctx.r))

  -- The state behind the status and the end.
  abbrev status_and_end : Sp → ℕ → S → S
  status_and_end span status s =
      lib.end_span span (lib.set_int_attribute span (bytes "http.status") status s)

  events-status_and_end :
      (span : Sp) (status : ℕ) (s : S)
      → events (status_and_end span status s) ≡ events s ++ closing span [] status
  events-status_and_end span status s =
      laws.on_end span _
      ∙ ap (λ l. l ++ ended span ∷ []) (laws.on_int_attribute span (bytes "http.status") status s)
      ∙ append_assoc (events s) (tagged_int span (bytes "http.status") status ∷ [])
          (ended span ∷ [])

  events-closing :
      (span : Sp) (route : Bytes) (status : ℕ) (s : S)
      → events
          (status_and_end span status (ite (Bytes-discrete route []) s (lib.set_name span route s)))
        ≡ events s ++ closing span route status
  unfolding Bytes-discrete
  events-closing span [] status s = events-status_and_end span status s
  events-closing span (b ∷ route) status s =
      events-status_and_end span status (lib.set_name span (b ∷ route) s)
      ∙ ap (λ l. l ++ closing span [] status) (laws.on_name span (b ∷ route) s)
      ∙ append_assoc (events s) (named span (b ∷ route) ∷ []) (closing span [] status)

  -- A span is started below the context that comes with the request and gets its tags before the
  -- next handler runs, on a context that is else as it was. If that returns, the span gets the
  -- matched route as its name, if there is one, then the status, and is then ended, and the
  -- middleware returns; if it panics, the span is ended, and the panic goes on.
  pub build_trace_ends :
      (m : TraceBuilder Tr) (next : HandleFunc S) (ctx : Context S)
      → (span : Sp) × (before : S) × (events before
          ≡ events ctx.shared ++ opening span (parent ctx) ctx.r)
        × (((c : Context S) × (after : S) × (next (record ctx { shared = before }) ≡ returned c)
              × (build_trace lib m next ctx ≡ returned (record c { shared = after }))
              × (events after ≡ events c.shared ++ closing span c.match_route c.resp_status_code))
            ⊎ ((c : Context S) × (after : S) × (next (record ctx { shared = before }) ≡ panicked c)
                × (build_trace lib m next ctx ≡ panicked (record c { shared = after }))
                × (events after ≡ events c.shared ++ ended span ∷ [])))
  unfolding build_trace record_route
  build_trace_ends m next ctx =
      let span = (start_span lib m ctx).2 in
      let rest = λ (r : Run S).
        deferred (λ c. returned (record c { shared = lib.end_span span c.shared }))
          (and_then r (record_route lib span)) in
      (
        span,
        (traced m ctx).shared,
        events-traced m ctx,
        elim (Run-cases (next (traced m ctx))) [
          | inl (c, e) ↦
              inl
                (c, _, e, ap rest e, events-closing span c.match_route c.resp_status_code c.shared)
          | inr (c, e) ↦ inr (c, _, e, ap rest e, laws.on_end span c.shared)
        ],
      )
