-- ===== src/Http.antt =====
-- The request context of web/context.go, and handlers and middlewares (web/router.go,
-- web/middleware.go) as functions on it.
pub mod Values
pub mod Template
use go_web.Prelude.{
  ℕ, Bool, true, false, Option, none, some, List, [], ◌∷◌, ◌++◌, ◌≡◌, refl, ◌⊎◌, inl, inr, length,
  if◌then◌else◌, put, maybe, ◌||◌, ◌&&◌, not, ◌==◌,
}
use go_web.Strings.{Bytes, Bytes-discrete}
use go_web.Int64.{lt64}

-- The parts of `*http.Request` that the framework reads. `url` is the URL as a string, and `body`
-- is `none` where it is nil.
pub record Request : Type 0 where
  pub method : Bytes
  pub path : Bytes
  pub request_uri : Bytes
  pub host : Bytes
  pub url : Bytes
  pub scheme : Bytes
  pub remote_addr : Bytes
  pub proto : Bytes
  pub body : Option Bytes

-- What has been given to the `http.ResponseWriter`: `headers` is its header map, less the content
-- length, and `sent_headers` what stood in it when the status was written.
pub record Response : Type 0 where
  pub status : Option ℕ
  pub headers : List (Bytes × Bytes)
  pub sent_headers : List (Bytes × Bytes)
  pub content_length : Option ℕ
  pub body : Bytes

-- `Context`, less the template engine and the user values. `cache_query_values` is `none` where it
-- is nil; `shared` is the state that handlers and middlewares keep outside of it.
pub record Context (S : Type 0) : Type 0 where
  pub r : Request
  pub path_params : List (Bytes × Bytes)
  pub cache_query_values : Option (List (Bytes × List Bytes))
  pub match_route : Bytes
  pub w : Response
  pub resp_status_code : ℕ
  pub resp_data : Bytes
  pub shared : S

-- How a handler ends, with the context as it leaves it.
pub data Run (S : Type 0) : Type 0 where
  returned : Context S → Run S
  panicked : Context S → Run S

abbrev pub HandleFunc : Type 0 → Type 0
HandleFunc S = Context S → Run S

abbrev pub Middleware : Type 0 → Type 0
Middleware S = HandleFunc S → HandleFunc S

-- `w.WriteHeader(code)` for a code from 200 to 999: the first code counts, and the headers go out
-- with it.
abbrev pub write_header : ℕ → Response → Response
write_header code w = elim w.status [
  | none ↦ record w { status = some code; sent_headers = w.headers }
  | some _ ↦ w
]

-- `code < 100 || code > 999`, which net/http refuses.
abbrev pub is_refused : ℕ → Bool
is_refused code = lt64 code 100 || lt64 999 code

-- `code >= 100 && code <= 199 && code != 101`, which net/http sends ahead of the status.
abbrev pub is_informational : ℕ → Bool
is_informational code = lt64 code 200 && not (code == 101)

-- `w.WriteHeader(code)` for any code: `none` is the panic of net/http, which comes only where no
-- status was sent.
unfoldable pub checked_header : ℕ → Response → Option Response
checked_header code w = elim w.status [
  | none ↦
      if is_refused code
      then none
      else (if is_informational code then some w else some (write_header code w))
  | some _ ↦ some w
]

-- `w.Header().Set(key, val)`
abbrev pub set_header : Bytes → Bytes → Response → Response
set_header key val w = record w { headers = put Bytes-discrete key val w.headers }

-- `w.Write(data)`, which succeeds: the first write sends status 200 if none was sent.
abbrev pub write : Bytes → Response → Response
write data_ w = let w' = write_header 200 w in record w' { body = w'.body ++ data_ }

module _ {S : Type 0} where
  unfoldable pub new_context : Response → Request → S → Context S
  new_context w r s = record {
    r = r;
    path_params = [];
    cache_query_values = none;
    match_route = [];
    w = w;
    resp_status_code = 0;
    resp_data = [];
    shared = s;
  }

  -- Statement after statement.
  abbrev pub and_then : Run S → HandleFunc S → Run S
  and_then (returned c) next = next c
  and_then (panicked c) next = panicked c

  -- The rest of `flashResp` behind `WriteHeader`: the length, and the write, which succeeds.
  abbrev pub write_data : Context S → Response → Context S
  write_data c w = record c {
    w = write c.resp_data (record w { content_length = some (length c.resp_data) });
  }

  -- `flashResp`.
  unfoldable pub flash_resp : HandleFunc S
  unfolding checked_header
  flash_resp c =
      maybe (panicked c) (λ w. returned (write_data c w))
        (if lt64 0 c.resp_status_code then checked_header c.resp_status_code c.w else some c.w)

  abbrev pub panics_on : Run S → Run S
  panics_on (returned c) = panicked c
  panics_on (panicked c) = panicked c

  -- `defer`: run at the end of the function, however it ends; a panic goes on after it.
  abbrev pub deferred : HandleFunc S → Run S → Run S
  deferred f (returned c) = f c
  deferred f (panicked c) = panics_on (f c)

  pub Run-cases :
      (r : Run S) → ((c : Context S) × (r ≡ returned c)) ⊎ ((c : Context S) × (r ≡ panicked c))
  Run-cases (returned c) = inl (c, refl)
  Run-cases (panicked c) = inr (c, refl)
