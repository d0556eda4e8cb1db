-- ===== src/Session/Memory.antt =====
-- The memory store of session/memory/store.go. The cache package with its expiry is a parameter; it
-- keeps pointers, and the sessions they point to are in a store of their own.
use go_web.Prelude.{ℕ, suc, Option, List, [], ◌∷◌, get, put, maybe, ℕ_discrete}
use go_web.Strings.{Bytes, Bytes-discrete}
use go_web.Session.{Store, Result, ok, err, panic, session_not_found, key_not_found}

-- `Set`, `Get` and `Delete` of the cache package; the time is part of `C`.
pub record GoCache (C : Type 0) : Type 0 where
  pub set : Bytes → ℕ → ℕ → C → C
  pub lookup : Bytes → C → Option ℕ
  pub drop : Bytes → C → C

-- `memorySession`.
pub record MemorySession : Type 0 where
  pub id : Bytes
  pub data_ : List (Bytes × Bytes)
  pub expiration : ℕ

-- `Store`, with the sessions behind the pointers and the next new pointer.
pub record MemoryStore (C : Type 0) : Type 0 where
  pub cache : C
  pub expiration : ℕ
  pub sessions : List (ℕ × MemorySession)
  pub next : ℕ

-- Options, applied one after the other.
abbrev pub apply_time_options :
    {C : Type 0} → List (MemoryStore C → MemoryStore C) → MemoryStore C → MemoryStore C
apply_time_options [] s = s
apply_time_options (opt ∷ opts) s = apply_time_options opts (opt s)

-- `NewStore`, and its option; `new_cache` is `cache.New` with the expiry and the interval.
module _ {C : Type 0} (new_cache : ℕ → ℕ → C) where
  unfoldable pub new_memory_store : ℕ → List (MemoryStore C → MemoryStore C) → MemoryStore C
  new_memory_store expiration opts = apply_time_options opts (record {
    cache = new_cache expiration 1000000000;
    expiration = expiration;
    sessions = [];
    next = 0;
  })

  abbrev pub with_cache_time : ℕ → ℕ → MemoryStore C → MemoryStore C
  with_cache_time expiration t s = record s { cache = new_cache expiration t }

module _ {C : Type 0} (lib : GoCache C) where
  unfoldable pub generate : Bytes → MemoryStore C → MemoryStore C × Result ℕ
  generate id s =
      let sess : MemorySession = record { id = id; data_ = []; expiration = s.expiration } in
      (
        record s {
          cache = lib.set id s.next s.expiration s.cache;
          sessions = put ℕ_discrete s.next sess s.sessions;
          next = suc s.next;
        },
        ok s.next,
      )

  unfoldable pub find : Bytes → MemoryStore C → MemoryStore C × Result ℕ
  find id s = (s, maybe (err session_not_found) ok (lib.lookup id s.cache))

  unfoldable pub remove : Bytes → MemoryStore C → MemoryStore C × Result (Unit {0})
  remove id s = (record s { cache = lib.drop id s.cache }, ok tt)

  -- `sess.ID()` of a pointer.
  abbrev pub id_at : MemoryStore C → ℕ → Result Bytes
  id_at s p = maybe panic (λ sess. ok sess.id) (get ℕ_discrete p s.sessions)

  abbrev pub renew : MemoryStore C → ℕ → Result Bytes → MemoryStore C × Result (Unit {0})
  renew s p (ok id) = (record s { cache = lib.set id p s.expiration s.cache }, ok tt)
  renew s p (err e) = (s, err e)
  renew s p panic = (s, panic)

  unfoldable pub refresh : Bytes → MemoryStore C → MemoryStore C × Result (Unit {0})
  refresh id s =
      maybe (s, err session_not_found) (λ p. renew s p (id_at s p)) (lib.lookup id s.cache)

  -- The store as the manager sees it; `ID` of a pointer to a session.
  abbrev pub memory_id : ℕ → MemoryStore C → Bytes
  memory_id p s = maybe [] (λ (sess : MemorySession). sess.id) (get ℕ_discrete p s.sessions)

  abbrev pub as_store : Store (MemoryStore C) ℕ
  as_store = record {
    generate = generate;
    remove = remove;
    find = find;
    refresh = refresh;
    id_of = memory_id;
  }

module _ {C : Type 0} where
  -- `memorySession.Get` and `memorySession.Set`, through a pointer.
  unfoldable pub session_get : ℕ → Bytes → MemoryStore C → Result Bytes
  session_get p key s =
      maybe panic (λ sess. maybe (err key_not_found) ok (get Bytes-discrete key sess.data_))
        (get ℕ_discrete p s.sessions)

  abbrev pub write_entry : ℕ → Bytes → Bytes → MemorySession → MemoryStore C → MemoryStore C
  write_entry p key val sess s =
      let sess' = record sess { data_ = put Bytes-discrete key val sess.data_ } in
      record s { sessions = put ℕ_discrete p sess' s.sessions }

  unfoldable pub session_set : ℕ → Bytes → Bytes → MemoryStore C → MemoryStore C × Result (Unit {0})
  session_set p key val s =
      maybe (s, panic) (λ sess. (write_entry p key val sess s, ok tt)) (get ℕ_discrete p s.sessions)
