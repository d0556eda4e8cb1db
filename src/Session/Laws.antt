-- ===== src/Session/Laws.antt =====
-- What the manager of sessions relies on of a store (session/session_type.go), as a map from
-- identifiers to sessions, and that the memory store (session/memory/store.go) provides it.
use go_web.Prelude.{
  ℕ, ◌<◌, ◌≡◌, refl, sym, ◌∙◌, Option, none, some, [], get, maybe, get-put, ℕ_discrete, arith,
}
use mathlib.Core.Logic.{ite}
use go_web.Strings.{Bytes, Bytes-discrete}
use go_web.Session.{Store, ok, err, session_not_found}
use go_web.Session.Memory.{
  GoCache, MemoryStore, MemorySession, as_store, generate, remove, find, refresh,
}

-- A store whose state `held` reads as a map, where `IsOk` holds of the state.
pub record IsStore {T Sess : Type 0} (st : Store T Sess) (IsOk : T → Type 0)
    (held : T → Bytes → Option Sess) : Type 0 where
  pub generates :
      (id : Bytes) (t : T)
      → IsOk t
      → (t' : T) × (s : Sess) × (st.generate id t ≡ (t', ok s))
        × IsOk t'
        × ((j : Bytes) → held t' j ≡ ite (Bytes-discrete j id) (some s) (held t j))
  pub finds :
      (id : Bytes) (t : T) → st.find id t ≡ (t, maybe (err session_not_found) ok (held t id))
  pub removes :
      (id : Bytes) (t : T)
      → IsOk t
      → (t' : T) × (st.remove id t ≡ (t', ok tt))
        × IsOk t'
        × ((j : Bytes) → held t' j ≡ ite (Bytes-discrete j id) none (held t j))
  pub refreshes :
      (id : Bytes) (t : T) (s : Sess)
      → IsOk t
      → held t id ≡ some s
      → (t' : T) × (st.refresh id t ≡ (t', ok tt)) × IsOk t' × ((j : Bytes) → held t' j ≡ held t j)
  pub misses :
      (id : Bytes) (t : T) → held t id ≡ none → st.refresh id t ≡ (t, err session_not_found)
  pub identifies : (id : Bytes) (t : T) (s : Sess) → IsOk t → held t id ≡ some s → st.id_of s t ≡ id

-- What the memory store relies on of the cache package: a value that is set is found until it is
-- deleted or expires, and no time passes in between here.
pub record IsGoCache {C : Type 0} (lib : GoCache C) : Type 0 where
  pub lookup-set :
      (k j : Bytes) (p d : ℕ) (c : C)
      → lib.lookup j (lib.set k p d c) ≡ ite (Bytes-discrete j k) (some p) (lib.lookup j c)
  pub lookup-drop :
      (k j : Bytes) (c : C)
      → lib.lookup j (lib.drop k c) ≡ ite (Bytes-discrete j k) none (lib.lookup j c)

module _ {C : Type 0} (lib : GoCache C) where
  -- Every pointer in the cache points to a session with the identifier it stands under.
  abbrev pub IsLinked : MemoryStore C → Type 0
  IsLinked s =
      (k : Bytes) (p : ℕ)
      → lib.lookup k s.cache ≡ some p
      → (p < s.next)
        × (sess : MemorySession) × (get ℕ_discrete p s.sessions ≡ some sess)
        × (sess.id ≡ k)

  abbrev pub held_in : MemoryStore C → Bytes → Option ℕ
  held_in s k = lib.lookup k s.cache

  module _ (laws : IsGoCache lib) where
    pub generate-IsLinked :
        (id : Bytes) (s : MemoryStore C) → IsLinked s → IsLinked (generate lib id s).0
    unfolding generate
    generate-IsLinked id s h k p at =
        let sess : MemorySession = record { id = id; data_ = []; expiration = s.expiration } in
        let stored = get-put ℕ_discrete s.next p sess s.sessions in
        let set = laws.lookup-set id k s.next s.expiration s.cache in
        elim (Bytes-discrete k id) [
          | yes e ↦ (ground (arith, set), sess, ground (arith, set, stored), sym e)
          | no ne ↦
              let (below, old, is_old, key) = h k p (ground (arith, set)) in
              (ground arith, old, ground (arith, stored), key)
        ]

    remove-IsLinked : (id : Bytes) (s : MemoryStore C) → IsLinked s → IsLinked (remove lib id s).0
    unfolding remove
    remove-IsLinked id s h k p at = h k p (ground (arith, laws.lookup-drop id k s.cache))

    -- `Refresh` sets the pointer that stands there again.
    refresh_linked :
        (id : Bytes) (s : MemoryStore C) (p : ℕ)
        → IsLinked s
        → lib.lookup id s.cache ≡ some p
        → refresh lib id s ≡ (record s { cache = lib.set id p s.expiration s.cache }, ok tt)
    unfolding refresh
    refresh_linked id s p h at =
        let (_, sess, is_sess, key) = h id p at in rw at (rw is_sess (rw key refl))

    refreshed_same :
        (id : Bytes) (s : MemoryStore C) (p : ℕ)
        → lib.lookup id s.cache ≡ some p
        → (j : Bytes) → lib.lookup j (lib.set id p s.expiration s.cache) ≡ lib.lookup j s.cache
    refreshed_same id s p at j = ground (arith, laws.lookup-set id j p s.expiration s.cache)

    -- The memory store is a store of sessions by their identifiers.
    pub as_store-IsStore : IsStore (as_store lib) IsLinked held_in
    unfolding generate remove find refresh
    as_store-IsStore = record {
      generates = λ id s h. (
        _,
        s.next,
        refl,
        generate-IsLinked id s h,
        λ j. laws.lookup-set id j s.next s.expiration s.cache,
      );
      finds = λ id s. refl;
      removes = λ id s h. (_, refl, remove-IsLinked id s h, λ j. laws.lookup-drop id j s.cache);
      refreshes = λ id s p h at.
          let same = refreshed_same id s p at in
          (_, refresh_linked id s p h at, λ k q is_q. h k q (sym (same k) ∙ is_q), same);
      misses = λ id s at. rw at refl;
      identifies = λ id s p h at. let (_, sess, is_sess, key) = h id p at in rw is_sess key;
    }
