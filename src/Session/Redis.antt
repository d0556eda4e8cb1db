-- ===== src/Session/Redis.antt =====
-- The redis store of session/redis/store_noLua.go. The client is a parameter on a state `R`; a
-- count is an int64.
pub mod Removed
use go_web.Prelude.{ℕ, Bool, Option, none, some, List, [], ◌∷◌, ◌++◌, if◌then◌else◌}
use go_web.Strings.{Bytes, bytes}
use go_web.Int64.{lt64}
use go_web.Session.{Result, ok, err, session_not_found, client_error}

-- The commands: a result, or `none` for an error of the client.
pub record RedisClient (R : Type 0) : Type 0 where
  pub hset : Bytes → Bytes → Bytes → R → R × Option ℕ
  pub expire : Bytes → ℕ → R → R × Option Bool
  pub del : Bytes → R → R × Option ℕ
  pub exists : Bytes → R → R × Option ℕ
  pub hget : Bytes → Bytes → R → R × Option Bytes
  pub eval_set : Bytes → Bytes → Bytes → R → R × Option ℕ

-- `Session`, less the client.
pub record RedisSession : Type 0 where
  pub id : Bytes
  pub key : Bytes

-- `Store`, less the client.
pub record RedisStore : Type 0 where
  pub prefix : Bytes
  pub expiration : ℕ

abbrev pub apply_store_options : List (RedisStore → RedisStore) → RedisStore → RedisStore
apply_store_options [] s = s
apply_store_options (opt ∷ opts) s = apply_store_options opts (opt s)

-- `NewStore`: a prefix, and fifteen minutes in nanoseconds.
unfoldable pub new_redis_store : List (RedisStore → RedisStore) → RedisStore
new_redis_store opts =
    apply_store_options opts (record { prefix = bytes "session"; expiration = 900000000000 })

-- `key`: `fmt.Sprintf("%s_%s", prefix, id)`
unfoldable pub redis_key : Bytes → Bytes → Bytes
redis_key prefix id = prefix ++ b'_' ∷ id

module _ {R : Type 0} (client : RedisClient R) (prefix : Bytes) (expiration : ℕ) where
  abbrev pub session_of : Bytes → RedisSession
  session_of id = record { id = id; key = redis_key prefix id }

  abbrev pub on_reply : {A B : Type 0} → R × Option A → (R → A → R × Result B) → R × Result B
  on_reply (r, none) next = (r, err client_error)
  on_reply (r, some a) next = next r a

  unfoldable pub redis_generate : Bytes → R → R × Result RedisSession
  unfolding redis_key
  redis_generate id r =
      on_reply (client.hset (redis_key prefix id) (bytes "_session_id") id r)
        λ r₁ _. on_reply (client.expire id expiration r₁) λ r₂ _. (r₂, ok (session_of id))

  unfoldable pub redis_refresh : Bytes → R → R × Result (Unit {0})
  unfolding redis_key
  redis_refresh id r =
      on_reply (client.expire (redis_key prefix id) expiration r)
        λ r₁ found. if found then (r₁, ok tt) else (r₁, err session_not_found)

  unfoldable pub redis_remove : Bytes → R → R × Result (Unit {0})
  unfolding redis_key
  redis_remove id r = on_reply (client.del (redis_key prefix id) r) λ r₁ cnt. (r₁, ok tt)

  -- `cnt < 0`
  unfoldable pub redis_get : Bytes → R → R × Result RedisSession
  unfolding redis_key
  redis_get id r =
      on_reply (client.exists (redis_key prefix id) r)
        λ r₁ cnt. if lt64 cnt 0 then (r₁, err session_not_found) else (r₁, ok (session_of id))

  unfoldable pub redis_session_get : RedisSession → Bytes → R → R × Result Bytes
  redis_session_get s field r = on_reply (client.hget s.key field r) λ r₁ val. (r₁, ok val)

  unfoldable pub redis_session_set : RedisSession → Bytes → Bytes → R → R × Result (Unit {0})
  redis_session_set s field val r =
      on_reply (client.eval_set s.key field val r)
        λ r₁ res. if lt64 res 0 then (r₁, err session_not_found) else (r₁, ok tt)
