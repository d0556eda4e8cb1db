-- ===== src/Middlewares.antt =====
-- The middlewares of middlewares/: recover, accesslog, errhandle and limiter.
pub mod Recovered
pub mod Limited
pub mod Passed
pub mod Metrics
pub mod Tracing
pub mod Tests
use go_web.Prelude.{
  ℕ, Bool, true, false, Option, none, some, List, [], ◌∷◌, ◌++◌, ◌≡◌, get, put, maybe, ◌==◌,
  if◌then◌else◌, ℕ_discrete,
}
use go_web.Strings.{Bytes, bytes, Bytes-discrete, cut}
use go_web.Http.{Context, Run, returned, panicked, HandleFunc, Middleware, and_then, deferred}

-- `AccessLog` of middlewares/accesslog/accesslog.go.
pub record AccessLog : Type 0 where
  pub host : Bytes
  pub route : Bytes
  pub http_method : Bytes
  pub path : Bytes

-- `RegisterError`.
unfoldable pub register_error : List (ℕ × Bytes) → ℕ → Bytes → List (ℕ × Bytes)
register_error resp code page = put ℕ_discrete code page resp

module _ {S : Type 0} where
  -- middlewares/accesslog/accesslog.go.
  unfoldable pub build_accesslog : HandleFunc S → Middleware S
  build_accesslog log_func next ctx = deferred log_func (next ctx)

  -- `WithDefaultLogFunc`: `marshal` is json.Marshal, whose error is dropped with the bytes nil, and
  -- `println` is log.Println on the state.
  unfoldable pub default_log_func : (AccessLog → Option Bytes) → (Bytes → S → S) → HandleFunc S
  default_log_func marshal println ctx =
      let l : AccessLog = record {
        host = ctx.r.host;
        route = ctx.match_route;
        http_method = ctx.r.method;
        path = ctx.r.path;
      } in
      returned (record ctx { shared = println (maybe [] (λ val. val) (marshal l)) ctx.shared })

  -- middlewares/recover/recover.go: `recover()` in a deferred function ends the panic.
  abbrev pub recovered : HandleFunc S → Run S → Run S
  recovered f (returned c) = returned c
  recovered f (panicked c) = f c

  unfoldable pub build_recover : ℕ → Bytes → HandleFunc S → Middleware S
  build_recover status_code err_msg log_func next ctx =
      recovered (λ c. log_func (record c { resp_status_code = status_code; resp_data = err_msg }))
        (next ctx)

  -- middlewares/errhandle/errhandle.go.
  unfoldable pub build_errhandle : List (ℕ × Bytes) → Middleware S
  build_errhandle resp next ctx = and_then (next ctx) λ c.
      returned
        (maybe c (λ page. record c { resp_data = page }) (get ℕ_discrete c.resp_status_code resp))

-- middlewares/limiter/limiter.go: `LimiterBucketRule`.
pub record LimiterBucketRule : Type 0 where
  pub key : Bytes
  pub fill_interval : ℕ
  pub capacity : ℕ
  pub quantum : ℕ

-- The bucket package: `NewBucketWithQuantum`, and `TakeAvailable(1)` with the tokens it took. The
-- time that passes between calls is part of the state `S`.
pub record Ratelimit (Bucket S : Type 0) : Type 0 where
  pub new_bucket_with_quantum : ℕ → ℕ → ℕ → Bucket
  pub take_available : Bucket → S → S × ℕ

-- `MethodLimiter.Key`: the part of the URI before `?`.
unfoldable pub limiter_key : Bytes → Bytes
unfolding cut
limiter_key uri = maybe uri (λ p. p.0) (cut b'?' uri)

module _ {Bucket S : Type 0} (lib : Ratelimit Bucket S) where
  abbrev pub add_bucket : LimiterBucketRule → List (Bytes × Bucket) → List (Bytes × Bucket)
  add_bucket rule m =
      maybe
        (put Bytes-discrete rule.key
          (lib.new_bucket_with_quantum rule.fill_interval rule.capacity rule.quantum) m)
        (λ _. m) (get Bytes-discrete rule.key m)

  unfoldable pub add_buckets :
      List LimiterBucketRule → List (Bytes × Bucket) → List (Bytes × Bucket)
  add_buckets [] m = m
  add_buckets (rule ∷ rules) m = add_buckets rules (add_bucket rule m)

  -- `GetBucket`.
  abbrev pub get_bucket : List (Bytes × Bucket) → Bytes → Option Bucket
  get_bucket buckets key = get Bytes-discrete key buckets

  abbrev busy : Context S → Context S
  busy c = record c { resp_data = bytes "Serve is busy"; resp_status_code = 429 }

  unfoldable pub build_limiter : List (Bytes × Bucket) → Middleware S
  unfolding limiter_key
  build_limiter buckets next ctx =
      maybe (next ctx)
        (λ bucket.
          let (s, count) = lib.take_available bucket ctx.shared in
          let ctx' = record ctx { shared = s } in
          if count == 0 then returned (busy ctx') else next ctx')
        (get Bytes-discrete (limiter_key ctx.r.request_uri) buckets)
