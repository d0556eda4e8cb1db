-- ===== src/Middlewares/Passed.antt =====
-- How many requests the limiter lets through (middlewares/limiter/limiter.go), against a bucket of
-- tokens.
use mathlib.Core.Logic.{ite}
use go_web.Prelude.{
  ℕ, zero, suc, some, List, [], ◌∷◌, ◌≡◌, ap, ap₂, ◌∙◌, ◌+◌, ◌-◌, arith, get, dec_lt, All, ◌==◌,
  if◌then◌else◌, map,
}
use go_web.Strings.{Bytes, Bytes-discrete}
use go_web.Http.{Context, Run, returned, panicked, HandleFunc}
use go_web.Middlewares.{Ratelimit, limiter_key, build_limiter, busy}

-- A bucket of `capacity` tokens as numbers only. What `k` more tokens make of it:
unfoldable pub refilled : ℕ → ℕ → ℕ
refilled capacity tokens = ite (dec_lt capacity tokens) capacity tokens

-- The tokens that a request takes:
unfoldable pub one_of : ℕ → ℕ
one_of zero = 0
one_of (suc n) = 1

-- The requests that get a token, where each comes after that many new ones.
unfoldable pub granted : ℕ → List ℕ → ℕ → ℕ
granted capacity [] tokens = 0
granted capacity (k ∷ ks) tokens =
    let there = refilled capacity (tokens + k) in one_of there + granted capacity ks (there - 1)

module _ {S : Type 0} where
  -- The state that a request leaves, also by a panic.
  unfoldable pub state_of : Run S → S
  state_of (returned c) = c.shared
  state_of (panicked c) = c.shared

  -- Requests one after another, each after `wait` of the time before it.
  unfoldable pub requests : (ℕ → S → S) → HandleFunc S → List (ℕ × Context S) → S → S
  unfolding state_of
  requests wait handler [] s = s
  requests wait handler ((k, ctx) ∷ rest) s =
      requests wait handler rest (state_of (handler (record ctx { shared = wait k s })))

-- What the limiter relies on of a bucket, as juju/ratelimit documents it, with a handler that is
-- counted: time adds tokens up to the capacity, TakeAvailable(1) takes the token that is there, if
-- there is one, and the handler takes none.
pub record IsMetered {Bucket S : Type 0} (lib : Ratelimit Bucket S) (wait : ℕ → S → S)
    (next : HandleFunc S) (bucket : Bucket) (capacity : ℕ) (tokens calls : S → ℕ) : Type 0 where
  pub wait_tokens : (k : ℕ) (s : S) → tokens (wait k s) ≡ refilled capacity (tokens s + k)
  pub wait_calls : (k : ℕ) (s : S) → calls (wait k s) ≡ calls s
  pub taken : (s : S) → (lib.take_available bucket s).1 ≡ one_of (tokens s)
  pub taken_tokens : (s : S) → tokens (lib.take_available bucket s).0 ≡ tokens s - 1
  pub taken_calls : (s : S) → calls (lib.take_available bucket s).0 ≡ calls s
  pub next_tokens : (c : Context S) → tokens (state_of (next c)) ≡ tokens c.shared
  pub next_calls : (c : Context S) → calls (state_of (next c)) ≡ suc (calls c.shared)

module _ {Bucket S : Type 0} (lib : Ratelimit Bucket S) (wait : ℕ → S → S) (next : HandleFunc S)
    (bucket : Bucket) (capacity : ℕ) (tokens calls : S → ℕ)
    (lawful : IsMetered lib wait next bucket capacity tokens calls)
    (buckets : List (Bytes × Bucket)) where
  -- What the request leaves, by the tokens that were there and the count that was taken.
  passed_or_busy :
      (t count : ℕ) (c : Context S)
      → count ≡ one_of t
      → tokens c.shared ≡ t - 1
      → (tokens (state_of (if count == 0 then returned (busy lib c) else next c)) ≡ t - 1)
        × (calls (state_of (if count == 0 then returned (busy lib c) else next c))
            ≡ one_of t + calls c.shared)
  unfolding one_of state_of
  passed_or_busy zero count c e left = rw e (left, omega arith)
  passed_or_busy (suc n) count c e left =
      rw e (lawful.next_tokens c ∙ left, lawful.next_calls c ∙ omega arith)

  -- The state after a request of the bucket's key.
  limited_once :
      (c : Context S)
      → get Bytes-discrete (limiter_key c.r.request_uri) buckets ≡ some bucket
      → (tokens (state_of (build_limiter lib buckets next c)) ≡ tokens c.shared - 1)
        × (calls (state_of (build_limiter lib buckets next c))
            ≡ one_of (tokens c.shared) + calls c.shared)
  unfolding build_limiter
  limited_once c here =
      let (s, count) = lib.take_available bucket c.shared in
      let (left, passed) =
        passed_or_busy (tokens c.shared) count (record c { shared = s }) (lawful.taken c.shared)
          (lawful.taken_tokens c.shared) in
      rw here (left, passed ∙ ap (λ n. one_of (tokens c.shared) + n) (lawful.taken_calls c.shared))

  -- If all requests have the key of the bucket, the limiter passes on as many of them as the bucket
  -- of numbers grants: each that finds a token, and no other.
  pub limiter-granted :
      (rest : List (ℕ × Context S)) (s : S)
      → All (λ r. get Bytes-discrete (limiter_key r.1.r.request_uri) buckets ≡ some bucket) rest
      → calls (requests wait (build_limiter lib buckets next) rest s)
        ≡ granted capacity (map (λ r. r.0) rest) (tokens s) + calls s
  unfolding requests granted
  limiter-granted [] s here = omega arith
  limiter-granted ((k, ctx) ∷ rest) s (here, all) =
      let c = record ctx { shared = wait k s } in
      let (left, passed) = limited_once c here in
      let fuller = lawful.wait_tokens k s in
      let later =
        limiter-granted rest (state_of (build_limiter lib buckets next c)) all
        ∙ ap₂ (λ t n. granted capacity (map (λ r. r.0) rest) t + n) (left ∙ ap (λ n. n - 1) fuller)
            (passed ∙ ap₂ (λ t n. one_of t + n) fuller (lawful.wait_calls k s)) in
      omega (arith, later)
