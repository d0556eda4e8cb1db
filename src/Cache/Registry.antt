-- ===== src/Cache/Registry.antt =====
-- The registry of cache groups in cache/Group.go: `groups` behind the lock `locker`.
use go_web.Prelude.{
  ℕ, suc, Bool, true, false, Option, some, List, [], ◌∷◌, ◌≡◌, refl, get, put, maybe, ℕ_discrete,
  if◌then◌else◌, ◌==◌, ◌-◌,
}
use go_web.Strings.{Bytes, Bytes-discrete}
use go_web.Cache.Group.{CacheGroup, new_group}

-- `sync.RWMutex`: whether a writer holds it, and how many readers do.
pub record RwLock : Type 0 where
  pub writer : Bool
  pub readers : ℕ

abbrev pub unlocked : RwLock
unlocked = record { writer = false; readers = 0 }

-- How a call ends. `fatal` is the unlock of a lock that is not held, which ends the process.
pub data Ends (A : Type 0) : Type 0 where
  done : A → Ends A
  nil_getter : Ends A
  blocked : Ends A
  fatal : Ends A

-- `groups`, with the groups that its pointers point to, the next new pointer, and `locker`.
pub record Registry (S : Type 0) : Type 0 where
  pub groups : List (Bytes × ℕ)
  pub heap : List (ℕ × CacheGroup S)
  pub next : ℕ
  pub locker : RwLock

-- `locker.Lock()`
abbrev pub lock : RwLock → Ends RwLock
lock l =
    if l.writer
    then blocked
    else if l.readers == 0
    then done (record l { writer = true })
    else blocked

-- `locker.Unlock()` and `locker.RUnlock()`
abbrev pub unlock : RwLock → Ends RwLock
unlock l = if l.writer then done (record l { writer = false }) else fatal

abbrev pub r_unlock : RwLock → Ends RwLock
r_unlock l = if l.readers == 0 then fatal else done (record l { readers = l.readers - 1 })

abbrev pub then_do : {A B : Type 0} → Ends A → (A → Ends B) → Ends B
then_do (done a) f = f a
then_do nil_getter f = nil_getter
then_do blocked f = blocked
then_do fatal f = fatal

module _ {S : Type 0} where
  abbrev pub no_groups : Registry S
  no_groups = record { groups = []; heap = []; next = 0; locker = unlocked }

  -- `NewGroup`; `source` is the state of the getter, or `none` for a nil getter.
  unfoldable pub new_named_group : Registry S → Bytes → ℕ → Option S → Ends (Registry S × ℕ)
  unfolding new_group
  new_named_group reg name cache_bytes source =
      maybe nil_getter
        (λ s. then_do (lock reg.locker) λ held. then_do (unlock held) λ free. done (
          record {
            groups = put Bytes-discrete name reg.next reg.groups;
            heap = put ℕ_discrete reg.next (new_group cache_bytes s) reg.heap;
            next = suc reg.next;
            locker = free;
          },
          reg.next,
        ))
        source

  -- `GetGroup`: `locker.RLocker()` returns a lock and takes none.
  unfoldable pub get_group : Registry S → Bytes → Ends (Registry S × Option ℕ)
  get_group reg name =
      let g = get Bytes-discrete name reg.groups in
      then_do (r_unlock reg.locker) λ free. done (record reg { locker = free }, g)

  -- Registrations one after the other.
  unfoldable pub register_all : Registry S → List (Bytes × ℕ × S) → Ends (Registry S)
  unfolding new_named_group
  register_all reg [] = done reg
  register_all reg ((name, cache_bytes, s) ∷ gs) =
      then_do (new_named_group reg name cache_bytes (some s)) λ r. register_all r.0 gs

  -- However many groups have been registered, GetGroup of any name ends the process.
  pub get_group_fatal :
      (gs : List (Bytes × ℕ × S)) (reg : Registry S) (name : Bytes)
      → reg.locker ≡ unlocked
      → (reg' : Registry S) × (register_all reg gs ≡ done reg')
        × (reg'.locker ≡ unlocked)
        × (get_group reg' name ≡ fatal)
  unfolding register_all new_named_group get_group
  get_group_fatal [] reg name free = (reg, refl, free, rw free refl)
  get_group_fatal ((n, b, s) ∷ gs) reg name free = rw free (get_group_fatal gs _ name refl)
