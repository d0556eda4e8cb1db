-- ===== src/Middlewares/Tests.antt =====
-- The theorems on the limiter and on tracing at concrete inputs.
use go_web.Prelude.{get, dec_lt, ℕ, suc, none, List, [], ◌∷◌, ◌++◌, ◌≡◌, ◌⊎◌, refl, ◌+◌, ◌-◌}
use go_web.Strings.{bytes, Bytes-discrete}
use go_web.Http.{Context, returned, panicked, HandleFunc}
use go_web.Middlewares.{Ratelimit, build_limiter, limiter_key}
use go_web.Middlewares.Passed.{
  IsMetered, refilled, one_of, granted, requests, state_of, limiter-granted,
}
use go_web.Middlewares.Tracing.{Otel, TraceBuilder, new_trace_middleware_builder, build_trace}
use go_web.Middlewares.Tracing.Events.{
  SpanEvent, began, tagged, tagged_int, named, ended, LogsEvents, opening, closing,
  build_trace_ends,
}

-- Spans are numbers, and the state is a list of what was recorded.
abbrev Log : Type 0
Log = List (SpanEvent (Unit {0}) ℕ)

abbrev logging : Otel (Unit {0}) ℕ (Unit {0}) Log
logging = record {
  global_tracer = λ name. tt;
  request_context = λ r s. tt;
  with_context = λ r cx s. s;
  extract = λ cx r. cx;
  start = λ t cx name s. (s ++ began 0 cx name ∷ [], tt, 0);
  set_attribute = λ span key val s. s ++ tagged span key val ∷ [];
  set_int_attribute = λ span key n s. s ++ tagged_int span key n ∷ [];
  set_name = λ span name s. s ++ named span name ∷ [];
  end_span = λ span s. s ++ ended span ∷ [];
}

logging-LogsEvents : LogsEvents logging (λ l. l)
logging-LogsEvents = record {
  on_start = λ t cx name s. refl;
  on_attribute = λ span key val s. refl;
  on_int_attribute = λ span key n s. refl;
  on_name = λ span name s. refl;
  on_end = λ span s. refl;
  on_context = λ r cx s. refl;
}

abbrev asked : Context Log
asked = record {
  r = record {
    method = bytes "GET";
    path = bytes "/a";
    request_uri = bytes "/a";
    host = [];
    url = bytes "/a";
    scheme = [];
    remote_addr = [];
    proto = [];
    body = none;
  };
  path_params = [];
  cache_query_values = none;
  match_route = [];
  w = record { status = none; headers = []; sent_headers = []; content_length = none; body = [] };
  resp_status_code = 0;
  resp_data = [];
  shared = [];
}

-- A handler that panics after it has set a status.
abbrev breaking : HandleFunc Log
breaking c = panicked (record c { resp_status_code = 201 })

abbrev builder : TraceBuilder (Unit {0})
builder = new_trace_middleware_builder none

build_trace_ends_example :
    (span : ℕ) × (before : Log) × (before ≡ opening span tt asked.r)
    × (((c : Context Log) × (after : Log) × (breaking (record asked { shared = before })
            ≡ returned c)
          × (build_trace logging builder breaking asked ≡ returned (record c { shared = after }))
          × (after ≡ c.shared ++ closing span c.match_route c.resp_status_code))
        ⊎ ((c : Context Log) × (after : Log) × (breaking (record asked { shared = before })
              ≡ panicked c)
            × (build_trace logging builder breaking asked ≡ panicked (record c { shared = after }))
            × (after ≡ c.shared ++ ended span ∷ [])))
build_trace_ends_example =
    build_trace_ends logging (λ l. l) logging-LogsEvents builder breaking asked

-- A bucket of at most two tokens; the state is its tokens, and the requests that were handled.
abbrev Metered : Type 0
Metered = ℕ × ℕ

abbrev metered : Ratelimit (Unit {0}) Metered
metered = record {
  new_bucket_with_quantum = λ interval capacity quantum. tt;
  take_available = λ bucket s. ((s.0 - 1, s.1), one_of s.0);
}

abbrev pass : ℕ → Metered → Metered
pass k s = (refilled 2 (s.0 + k), s.1)

abbrev counted : HandleFunc Metered
counted c = returned (record c { shared = (c.shared.0, suc c.shared.1) })

metered-IsMetered : IsMetered metered pass counted tt 2 (λ s. s.0) (λ s. s.1)
unfolding state_of
metered-IsMetered = record {
  wait_tokens = λ k s. refl;
  wait_calls = λ k s. refl;
  taken = λ s. refl;
  taken_tokens = λ s. refl;
  taken_calls = λ s. refl;
  next_tokens = λ c. refl;
  next_calls = λ c. refl;
}

abbrev paid : Context Metered
paid = record {
  r = record {
    method = bytes "GET";
    path = bytes "/a";
    request_uri = bytes "/a?x=1";
    host = [];
    url = bytes "/a";
    scheme = [];
    remote_addr = [];
    proto = [];
    body = none;
  };
  path_params = [];
  cache_query_values = none;
  match_route = [];
  w = record { status = none; headers = []; sent_headers = []; content_length = none; body = [] };
  resp_status_code = 0;
  resp_data = [];
  shared = (0, 0);
}

-- Of five requests, three at once, find two tokens, and of the last two one that time has added.
abbrev five : List (ℕ × Context Metered)
five = (0, paid) ∷ (0, paid) ∷ (0, paid) ∷ (1, paid) ∷ (0, paid) ∷ []

limiter-granted_example :
    (requests pass (build_limiter metered ((bytes "/a", tt) ∷ []) counted) five (2, 7)).1 ≡ 3 + 7
unfolding granted limiter_key one_of refilled get Bytes-discrete dec_lt
limiter-granted_example =
    limiter-granted metered pass counted tt 2 (λ s. s.0) (λ s. s.1) metered-IsMetered
      ((bytes "/a", tt) ∷ []) five (2, 7) (refl, (refl, (refl, (refl, (refl, tt)))))
