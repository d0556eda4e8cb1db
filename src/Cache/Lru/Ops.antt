-- ===== src/Cache/Lru/Ops.antt =====
-- What the reads and writes of the LRU cache (cache/LRU.go) do to its entries: the cache implements
-- an association list whose first entry is the one used last.
use go_web.Prelude.{
  ℕ, Option, none, some, List, [], ◌∷◌, ◌≡◌, refl, sym, ap, get, delete, maybe, arith, ◌∙◌, ◌⊎◌,
  inl, inr, Option-cases,
}
use go_web.Strings.{Bytes, Bytes-discrete}
use go_web.Cache.Linked.{remove, value_of}
use go_web.Cache.Lru.{Entry, LruCache, get_entry, get_value}
use go_web.Cache.Lru.Contents.{
  contents, holder, Distinct, holder-value_of, contents-absent, contents-remove,
}
use go_web.Cache.Lru.Valid.{IsValid, touch-IsValid}

module _ {V : Type 0} where
  -- Using a key brings its entry to the front.
  abbrev pub used : Bytes → List (Bytes × V) → List (Bytes × V)
  used k m = maybe m (λ v. (k, v) ∷ delete Bytes-discrete k m) (get Bytes-discrete k m)

  pub contents-held :
      (k : Bytes) (i : ℕ) (e : Entry V) (l : List (ℕ × Entry V))
      → Distinct l
      → holder k l ≡ some i
      → value_of i l ≡ some e
      → get Bytes-discrete k (contents l) ≡ some e.value
  unfolding get
  contents-held k i e [] d h at = cc
  contents-held k i e ((j, f) ∷ l) d h at =
      ground (arith, contents-held k i e l d.2, holder-value_of k i l d.2)

  some_or_none : {v : V} → some v ≡ none → ⊥
  some_or_none e = cc

  module _ (length_of : V → ℕ) where
    -- The two outcomes of `GetEntry`.
    pub get_entry-cases :
        (c : LruCache V) (k : Bytes)
        → IsValid length_of c
        → ((get_entry c k ≡ (c, none)) × (holder k c.ll ≡ none))
          ⊎ ((i : ℕ) × (e : Entry V) × (e.key ≡ k)
              × (value_of i c.ll ≡ some e)
              × (holder k c.ll ≡ some i)
              × (get_entry c k ≡ (record c { ll = (i, e) ∷ remove i c.ll }, some (i, e))))
    unfolding get_entry
    get_entry-cases c k h = elim (Option-cases (get Bytes-discrete k c.key_to_entry)) [
      | inl p ↦ inl (rw p, sym (h.holders k) ∙ p)
      | inr (i, p) ↦
          let held = sym (h.holders k) ∙ p in
          let (e, at, same) = holder-value_of k i c.ll h.distinct held in
          inr (i, e, same, at, held, rw (p, at))
    ]

    -- `Get` returns what is held under the key and brings the entry to the front.
    pub get_value-Refines :
        (c : LruCache V) (k : Bytes)
        → IsValid length_of c
        → IsValid length_of (get_value c k).0
          × ((get_value c k).1 ≡ get Bytes-discrete k (contents c.ll))
          × (contents (get_value c k).0.ll ≡ used k (contents c.ll))
    unfolding get_value
    get_value-Refines c k h = elim (get_entry-cases c k h) [
      | inl (p, gone) ↦ rw p (rw (contents-absent k c.ll gone) (h, refl, refl))
      | inr (i, e, same, at, held, p) ↦ rw p (
          rw (contents-held k i e c.ll h.distinct held at) (
            touch-IsValid length_of c i e h at,
            refl,
            ap (λ m. (e.key, e.value) ∷ m) (contents-remove i e c.ll h.distinct at)
                ∙ ap (λ x. (x, e.value) ∷ delete Bytes-discrete x (contents c.ll)) same,
          ))
    ]

    -- A miss leaves the cache as it is.
    pub get_value-miss :
        (c : LruCache V) (k : Bytes)
        → IsValid length_of c
        → (get_value c k).1 ≡ none
        → (get_value c k).0 ≡ c
    unfolding get_value
    get_value-miss c k h e = elim (get_entry-cases c k h) [
      | inl (p, _) ↦ ap (λ (x : LruCache V × Option (ℕ × Entry V)). x.0) p
      | inr (i, f, _, _, _, p) ↦ absurd (
          some_or_none (
            sym (
              ap (λ (x : LruCache V × Option (ℕ × Entry V)). maybe none (λ ie. some ie.1.value) x.1)
                p)
            ∙ e))
    ]
