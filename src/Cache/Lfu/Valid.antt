-- ===== src/Cache/Lfu/Valid.antt =====
-- The invariant of the LFU cache (cache/LFU.go): keys, entries and lists are linked, no list is empty
-- or holds an entry twice, and minFreq is the least frequency of the lists there are.
pub mod Steps
pub mod Removal
pub mod Dropped
pub mod Sets
use go_web.Prelude.{
  ℕ, suc, ◌+◌, ◌<◌, ◌≤◌, Bool, true, false, ◌&&◌, Option, none, some, List, [], ◌∷◌, ◌≡◌, ◌≢◌, refl,
  sym, ap, ◌∙◌, get, put, delete, ℕ_discrete, arith, get-put, get-delete, inl, inr, Bool-cases,
  if◌then◌else◌, ◌==◌, All,
}
use mathlib.Core.Logic.{ite}
use go_web.Int64.{add64, half}
use go_web.Strings.{Bytes, Bytes-discrete}
use go_web.Cache.Lfu.{LfuCache, LfuEntry, unlink, is_empty, without, promote, push_to, max_int64}
use go_web.Cache.Lfu.Links.{Linked, kept, list_or_new, has, Linked-detach, Linked-attach}

module _ {V : Type 0} where
  -- The maps of the cache as functions.
  abbrev pub keys : LfuCache V → Bytes → Option ℕ
  keys c k = get Bytes-discrete k c.key_to_entry

  abbrev pub lists : LfuCache V → ℕ → Option (List ℕ)
  lists c f = get ℕ_discrete f c.freq_to_list

  abbrev pub entries : LfuCache V → ℕ → Option (LfuEntry V)
  entries c p = get ℕ_discrete p c.entries

  pub record IsValid (c : LfuCache V) : Type 0 where
    pub linked : Linked (keys c) (lists c) (entries c) c.next
    pub used : (k : Bytes) (p : ℕ) → keys c k ≡ some p → p < c.next
    pub positive : (f : ℕ) (l : List ℕ) → lists c f ≡ some l → 1 ≤ f
    pub least : (f : ℕ) (l : List ℕ) → lists c f ≡ some l → c.min_freq ≤ f
    pub present :
        (f : ℕ) (l : List ℕ) → lists c f ≡ some l → (m : List ℕ) × (lists c c.min_freq ≡ some m)

  -- What taking an entry out of its list changes.
  pub without-lists :
      (c : LfuCache V) (f p : ℕ) (l : List ℕ) (x : ℕ)
      → lists (without c f p l).0 x ≡ ite (ℕ_discrete x f) (kept (unlink p l)) (lists c x)
  without-lists c f p l x = elim (Bool-cases (is_empty (unlink p l))) [
    | inl e ↦ rw e (get-delete ℕ_discrete f x c.freq_to_list)
    | inr e ↦ rw e (get-put ℕ_discrete f x (unlink p l) c.freq_to_list)
  ]

  pub without-fields :
      (c : LfuCache V) (f p : ℕ) (l : List ℕ)
      → ((without c f p l).1 ≡ is_empty (unlink p l))
        × ((without c f p l).0.key_to_entry ≡ c.key_to_entry)
        × ((without c f p l).0.entries ≡ c.entries)
        × ((without c f p l).0.min_freq ≡ c.min_freq)
        × ((without c f p l).0.next ≡ c.next)
  without-fields c f p l = elim (Bool-cases (is_empty (unlink p l))) [
    | inl e ↦ rw e (refl, refl, refl, refl, refl)
    | inr e ↦ rw e (refl, refl, refl, refl, refl)
  ]

  -- What `GetEntry` changes where it finds an entry.
  abbrev pub promoted_min : LfuCache V → ℕ → LfuEntry V → List ℕ → ℕ
  promoted_min c p e l =
      if is_empty (unlink p l) && (c.min_freq == e.freq) then add64 c.min_freq 1 else c.min_freq

  pub promote-fields :
      (c : LfuCache V) (p : ℕ) (e : LfuEntry V) (l : List ℕ)
      → ((promote c p e l).key_to_entry ≡ c.key_to_entry)
        × ((promote c p e l).entries
            ≡ put ℕ_discrete p (record e { freq = add64 e.freq 1 }) c.entries)
        × ((promote c p e l).min_freq ≡ promoted_min c p e l)
        × ((promote c p e l).next ≡ c.next)
  unfolding promote
  promote-fields c p e l = elim (Bool-cases (is_empty (unlink p l))) [
    | inl e₁ ↦ elim (Bool-cases (c.min_freq == e.freq)) [
      | inl m ↦ rw e₁ (rw m (refl, refl, refl, refl))
      | inr m ↦ rw e₁ (rw m (refl, refl, refl, refl))
    ]
    | inr e₁ ↦ rw e₁ (refl, refl, refl, refl)
  ]

  pub promote-lists :
      (c : LfuCache V) (p : ℕ) (e : LfuEntry V) (l : List ℕ) (x : ℕ)
      → lists (promote c p e l) x
        ≡ ite
            (ℕ_discrete x (add64 e.freq 1))
            (some (p ∷ list_or_new (lists (without c e.freq p l).0 (add64 e.freq 1))))
            (lists (without c e.freq p l).0 x)
  unfolding promote
  promote-lists c p e l x =
      let f = add64 e.freq 1 in
      elim (Bool-cases (is_empty (unlink p l))) [
        | inl e₁ ↦ elim (Bool-cases (c.min_freq == e.freq)) [
          | inl m ↦
              rw e₁ (rw m (get-put ℕ_discrete f x _ (delete ℕ_discrete e.freq c.freq_to_list)))
          | inr m ↦
              rw e₁ (rw m (get-put ℕ_discrete f x _ (delete ℕ_discrete e.freq c.freq_to_list)))
        ]
        | inr e₁ ↦
            rw e₁ (get-put ℕ_discrete f x _ (put ℕ_discrete e.freq (unlink p l) c.freq_to_list))
      ]
