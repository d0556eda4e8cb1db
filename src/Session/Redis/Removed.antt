-- ===== src/Session/Redis/Removed.antt =====
-- A session of the redis store before and after Remove (session/redis/store_noLua.go).
use go_web.Prelude.{
  ℕ, ◌≤◌, Bool, true, false, Option, none, some, [], ◌∷◌, ◌≡◌, ◌≢◌, refl, sym, ap, ◌∙◌, arith,
}
use mathlib.Core.Logic.{ite}
use go_web.Strings.{Bytes, Bytes-discrete, bytes}
use go_web.Int64.{lt64}
use go_web.Session.{Result, ok, err, client_error}
use go_web.Session.Redis.{
  RedisClient, on_reply, redis_key, session_of, redis_generate, redis_get, redis_remove,
  redis_session_get,
}

-- The client on a server that answers: `held` is the value of a field of the hash at a key. HSET
-- sets a field, EXPIRE with a positive duration takes nothing away
-- before its time, DEL takes the key away, EXISTS counts
-- one key, and HGET reads a field, or fails where there is none.
pub record IsRedis {R : Type 0} (client : RedisClient R) (held : R → Bytes → Bytes → Option Bytes)
    : Type 0 where
  pub hset :
      (k f v : Bytes) (r : R)
      → (r' : R) × (n : ℕ) × (client.hset k f v r ≡ (r', some n))
        × ((k' f' : Bytes)
            → held r' k' f'
              ≡ ite
                  (Bytes-discrete k' k)
                  (ite (Bytes-discrete f' f) (some v) (held r k' f'))
                  (held r k' f'))
  pub expire :
      (k : Bytes) (d : ℕ) (r : R)
      → lt64 0 d ≡ true
      → (r' : R) × (b : Bool) × (client.expire k d r ≡ (r', some b))
        × ((k' f' : Bytes) → held r' k' f' ≡ held r k' f')
  pub del :
      (k : Bytes) (r : R)
      → (r' : R) × (n : ℕ) × (client.del k r ≡ (r', some n))
        × ((k' f' : Bytes) → held r' k' f' ≡ ite (Bytes-discrete k' k) none (held r k' f'))
  pub exists :
      (k : Bytes) (r : R)
      → (r' : R) × (n : ℕ) × (client.exists k r ≡ (r', some n))
        × (n ≤ 1)
        × ((k' f' : Bytes) → held r' k' f' ≡ held r k' f')
  pub hget : (k f : Bytes) (r : R) → (client.hget k f r).1 ≡ held r k f

redis_key-injective : (prefix a b : Bytes) → redis_key prefix a ≡ redis_key prefix b → a ≡ b
unfolding redis_key
redis_key-injective [] a b e = cc
redis_key-injective (x ∷ prefix) a b e = redis_key-injective prefix a b (cc)

not_negative : (n : ℕ) → n ≤ 1 → lt64 n 0 ≡ false
not_negative n p = ground arith

module _ {R : Type 0} (client : RedisClient R) (prefix : Bytes) (expiration : ℕ)
    (held : R → Bytes → Bytes → Option Bytes) (laws : IsRedis client held) where
  -- What `Get` of a session with an identifier reads from a field.
  abbrev pub reads : R → Bytes → Bytes → Result Bytes
  reads r id field =
      (redis_session_get client prefix expiration (session_of client prefix expiration id) field
        r).1

  abbrev reading : Option Bytes → Result Bytes
  reading none = err client_error
  reading (some v) = ok v

  on_reply-reading :
      (x : R × Option Bytes)
      → (on_reply client prefix expiration x (λ r v. (r, ok v))).1 ≡ reading x.1
  on_reply-reading (r, none) = refl
  on_reply-reading (r, some v) = refl

  reads-held :
      (r : R) (id field : Bytes) → reads r id field ≡ reading (held r (redis_key prefix id) field)
  unfolding redis_session_get
  reads-held r id field =
      on_reply-reading (client.hget (redis_key prefix id) field r)
      ∙ ap reading (laws.hget (redis_key prefix id) field r)

  -- What the server holds after Generate.
  redis_generate-held :
      (r : R) (id : Bytes)
      → lt64 0 expiration ≡ true
      → (r' : R) × (redis_generate client prefix expiration id r
          ≡ (r', ok (session_of client prefix expiration id)))
        × ((k' f' : Bytes)
            → held r' k' f'
              ≡ ite
                  (Bytes-discrete k' (redis_key prefix id))
                  (ite (Bytes-discrete f' (bytes "_session_id")) (some id) (held r k' f'))
                  (held r k' f'))
  unfolding redis_generate
  redis_generate-held r id lasting =
      let (r₁, _, set, held₁) = laws.hset (redis_key prefix id) (bytes "_session_id") id r in
      let (r₂, _, expires, held₂) = laws.expire id expiration r₁ lasting in
      (r₂, rw set (rw expires refl), λ k' f'. held₂ k' f' ∙ held₁ k' f')

  -- What the server holds after Remove.
  redis_remove-held :
      (r : R) (id : Bytes)
      → (r' : R) × (redis_remove client prefix expiration id r ≡ (r', ok tt))
        × ((k' f' : Bytes)
            → held r' k' f' ≡ ite (Bytes-discrete k' (redis_key prefix id)) none (held r k' f'))
  unfolding redis_remove
  redis_remove-held r id =
      let (r₁, _, deletes, held₁) = laws.del (redis_key prefix id) r in (r₁, rw deletes refl, held₁)

  -- Get succeeds for every identifier, and the server holds what it held.
  redis_get-held :
      (r : R) (id : Bytes)
      → (r' : R) × (redis_get client prefix expiration id r
          ≡ (r', ok (session_of client prefix expiration id)))
        × ((k' f' : Bytes) → held r' k' f' ≡ held r k' f')
  unfolding redis_get
  redis_get-held r id =
      let (r₁, n, counts, small, held₁) = laws.exists (redis_key prefix id) r in
      (r₁, rw counts (rw (not_negative n small) refl), held₁)

  -- With a client that keeps its laws and a positive expiration: after Generate the session reads its identifier from the
  -- field `_session_id`. After Remove, Get still returns the session, with no error, but reading any
  -- of its fields fails; the fields of the sessions of other identifiers read as before both.
  pub redis_get-redis_remove :
      (r : R) (id : Bytes)
      → lt64 0 expiration ≡ true
      → (r₁ : R) × (r₂ : R) × (r₃ : R) × (redis_generate client prefix expiration id r
          ≡ (r₁, ok (session_of client prefix expiration id)))
        × (reads r₁ id (bytes "_session_id") ≡ ok id)
        × (redis_remove client prefix expiration id r₁ ≡ (r₂, ok tt))
        × (redis_get client prefix expiration id r₂
            ≡ (r₃, ok (session_of client prefix expiration id)))
        × ((field : Bytes) → reads r₃ id field ≡ err client_error)
        × ((other field : Bytes) → other ≢ id → reads r₃ other field ≡ reads r other field)
  redis_get-redis_remove r id lasting =
      let (r₁, made, held₁) = redis_generate-held r id lasting in
      let named : held r₁ (redis_key prefix id) (bytes "_session_id") ≡ some id =
        ground (arith, held₁ (redis_key prefix id) (bytes "_session_id")) in
      let (r₂, removed, held₂) = redis_remove-held r₁ id in
      let gone : (f : Bytes) → held r₂ (redis_key prefix id) f ≡ none =
        λ f. ground (arith, held₂ (redis_key prefix id) f) in
      let kept : (other f : Bytes)
          → other ≢ id
          → held r₂ (redis_key prefix other) f ≡ held r (redis_key prefix other) f =
        λ other f ne.
          let apart : redis_key prefix other ≢ redis_key prefix id =
            λ e. ne (redis_key-injective prefix other id e) in
          ground
            (arith, apart, held₂ (redis_key prefix other) f, held₁ (redis_key prefix other) f) in
      let (r₃, got, held₃) = redis_get-held r₂ id in
      (
        r₁,
        r₂,
        r₃,
        made,
        reads-held r₁ id (bytes "_session_id") ∙ ap reading named,
        removed,
        got,
        λ field.
            reads-held r₃ id field ∙ ap reading (held₃ (redis_key prefix id) field ∙ gone field),
        λ other field ne.
            reads-held r₃ other field
            ∙ ap reading (held₃ (redis_key prefix other) field ∙ kept other field ne)
            ∙ sym (reads-held r other field),
      )
