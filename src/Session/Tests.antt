-- ===== src/Session/Tests.antt =====
-- The theorems on sessions at concrete inputs, with the memory store behind a cookie.
use go_web.Prelude.{
  some, ℕ, ◌≡◌, ◌≢◌, ◌≤◌, Option, maybe, refl, none, List, [], ◌∷◌, get, put, get-put, get-delete,
  delete, arith, ℕ_discrete, true, false, Bool,
}
use mathlib.Core.Logic.{ite}
use go_web.Strings.{Bytes, Bytes-discrete, bytes}
use go_web.Session.{
  Store, Propagator, SessionContext, Result, ok, err, client_error, init_session, remove_session,
  get_session, fetch_session,
}
use go_web.Session.Cookie.{new_propagator, as_propagator, inject, extract}
use go_web.Session.Memory.{GoCache, MemoryStore, as_store, generate, find}
use go_web.Session.Redis.{RedisClient, session_of, redis_generate, redis_get, redis_remove}
use go_web.Session.Redis.Removed.{IsRedis, reads, redis_get-redis_remove}
use go_web.Session.Laws.{IsStore, IsGoCache, IsLinked, held_in, generate-IsLinked, as_store-IsStore}
use go_web.Session.Life.{Life, session-Life}

-- A cache without expiry.
abbrev lasting : GoCache (List (Bytes × ℕ))
lasting = record {
  set = λ k p d c. put Bytes-discrete k p c;
  lookup = λ k c. get Bytes-discrete k c;
  drop = λ k c. delete Bytes-discrete k c;
}

abbrev empty_store : MemoryStore (List (Bytes × ℕ))
empty_store = record { cache = []; expiration = 60; sessions = []; next = 0 }

abbrev sessions : Store (MemoryStore (List (Bytes × ℕ))) ℕ
sessions = as_store lasting

-- Names that are not empty are valid.
abbrev is_token : Bytes → Bool
is_token [] = false
is_token (b ∷ bs) = true

abbrev cookies : Propagator
cookies = as_propagator is_token (new_propagator (bytes "sid") [])

abbrev visit :
    List (Bytes × Bytes)
    → MemoryStore (List (Bytes × ℕ))
    → SessionContext (MemoryStore (List (Bytes × ℕ))) ℕ
visit cs s = record { cookies = cs; w = []; user_values = none; store = s }

-- The context after a first visit has made a session, and after a second has brought its cookie.
abbrev first_visit : SessionContext (MemoryStore (List (Bytes × ℕ))) ℕ
first_visit = (init_session sessions cookies (bytes "_sess") (visit [] empty_store) (bytes "x")).0

abbrev second_visit : SessionContext (MemoryStore (List (Bytes × ℕ))) ℕ
second_visit =
    (get_session sessions cookies (bytes "_sess")
      (visit ((bytes "sid", bytes "x") ∷ []) first_visit.store)).0

all : Unit {0}
unfolding init_session get_session fetch_session as_propagator new_propagator inject extract
    generate find get put Bytes-discrete ℕ_discrete
all = tt

-- The context after the session has been removed.
abbrev removed : SessionContext (MemoryStore (List (Bytes × ℕ))) ℕ
removed = (remove_session sessions cookies (bytes "_sess") second_visit).0

-- A server of hashes, each of which exists with its field `_session_id`.
abbrev Hashes : Type 0
Hashes = Bytes → Bytes → Option Bytes

abbrev hashes : RedisClient Hashes
hashes = record {
  hset = λ k f v r. (
    λ k' f'. ite (Bytes-discrete k' k) (ite (Bytes-discrete f' f) (some v) (r k' f')) (r k' f'),
    some 1,
  );
  expire = λ k d r. (r, some true);
  del = λ k r. (λ k' f'. ite (Bytes-discrete k' k) none (r k' f'), some 1);
  exists = λ k r. (r, some (maybe 0 (λ _. 1) (r k (bytes "_session_id"))));
  hget = λ k f r. (r, r k f);
  eval_set = λ k f v r. (r, some 0);
}

one_at_most : (o : Option Bytes) → maybe 0 (λ _. 1) o ≤ 1
one_at_most none = omega arith
one_at_most (some v) = omega arith

hashes-IsRedis : IsRedis hashes (λ r. r)
hashes-IsRedis = record {
  hset = λ k f v r. (_, _, refl, λ k' f'. refl);
  expire = λ k d r p. (_, _, refl, λ k' f'. refl);
  del = λ k r. (_, _, refl, λ k' f'. refl);
  exists = λ k r. (_, _, refl, one_at_most (r k (bytes "_session_id")), λ k' f'. refl);
  hget = λ k f r. refl;
}

abbrev read : Hashes → Bytes → Bytes → Result Bytes
read = reads hashes (bytes "session") 900 (λ r. r) hashes-IsRedis

redis_get-redis_remove_example :
    (r₁ : Hashes) × (r₂ : Hashes) × (r₃ : Hashes) × (redis_generate hashes
        (bytes "session")
        900
        (bytes "x")
        (λ k f. none)
      ≡ (r₁, ok (session_of hashes (bytes "session") 900 (bytes "x"))))
    × (read r₁ (bytes "x") (bytes "_session_id") ≡ ok (bytes "x"))
    × (redis_remove hashes (bytes "session") 900 (bytes "x") r₁ ≡ (r₂, ok tt))
    × (redis_get hashes (bytes "session") 900 (bytes "x") r₂
        ≡ (r₃, ok (session_of hashes (bytes "session") 900 (bytes "x"))))
    × ((field : Bytes) → read r₃ (bytes "x") field ≡ err client_error)
    × ((other field : Bytes)
        → other ≢ bytes "x"
        → read r₃ other field ≡ read (λ k f. none) other field)
redis_get-redis_remove_example =
    redis_get-redis_remove hashes (bytes "session") 900 (λ r. r) hashes-IsRedis (λ k f. none)
      (bytes "x") refl

lasting-IsGoCache : IsGoCache lasting
lasting-IsGoCache = record {
  lookup-set = λ k j p d c. get-put Bytes-discrete k j p c;
  lookup-drop = λ k j c. get-delete Bytes-discrete k j c;
}

as_store-IsStore_example : IsStore sessions (IsLinked lasting) (held_in lasting)
as_store-IsStore_example = as_store-IsStore lasting lasting-IsGoCache

empty_store-IsLinked : IsLinked lasting empty_store
unfolding get
empty_store-IsLinked k p at = cc

-- The store in which another session is held.
abbrev one_session : MemoryStore (List (Bytes × ℕ))
one_session = (generate lasting (bytes "y") empty_store).0

one_session-IsLinked : IsLinked lasting one_session
one_session-IsLinked =
    generate-IsLinked lasting lasting-IsGoCache (bytes "y") empty_store empty_store-IsLinked

session-Life_example :
    Life sessions
      (IsLinked lasting)
      (held_in lasting)
      as_store-IsStore_example
      is_token
      (new_propagator (bytes "sid") [])
      (bytes "_sess")
      []
      ((bytes "sid", bytes "x") ∷ [])
      (bytes "x")
      one_session
unfolding new_propagator get Bytes-discrete
session-Life_example =
    session-Life sessions (IsLinked lasting) (held_in lasting) as_store-IsStore_example is_token
      (new_propagator (bytes "sid") []) (bytes "_sess") [] ((bytes "sid", bytes "x") ∷ [])
      (bytes "x") one_session refl one_session-IsLinked
