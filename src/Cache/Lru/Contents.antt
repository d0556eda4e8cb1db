-- ===== src/Cache/Lru/Contents.antt =====
-- The entries of the LRU cache (cache/LRU.go) as an association list, latest used first, and what
-- the operations on the linked list do to it.
use go_web.Prelude.{
  ℕ, suc, ◌+◌, ◌<◌, Option, none, some, List, [], ◌∷◌, ◌≡◌, ◌≢◌, refl, sym, get, put, delete, arith,
  ℕ_discrete, All, delete_absent,
}
use mathlib.Core.Logic.{ite}
use go_web.Strings.{Bytes, Bytes-discrete}
use go_web.Cache.Linked.{remove, back, value_of, write}
use go_web.Cache.Lru.{Entry, size}

module _ {V : Type 0} where
  -- The entries by key.
  abbrev pub contents : List (ℕ × Entry V) → List (Bytes × V)
  contents [] = []
  contents ((i, e) ∷ l) = (e.key, e.value) ∷ contents l

  -- The element that holds a key.
  abbrev pub holder : Bytes → List (ℕ × Entry V) → Option ℕ
  holder k [] = none
  holder k ((i, e) ∷ l) = ite (Bytes-discrete k e.key) (some i) (holder k l)

  -- No element and no key stands twice.
  abbrev pub Distinct : List (ℕ × Entry V) → Type 0
  Distinct [] = Unit
  Distinct ((i, e) ∷ l) = (value_of i l ≡ none) × (holder e.key l ≡ none) × Distinct l

  abbrev pub total : (V → ℕ) → List (ℕ × Entry V) → ℕ
  total length_of [] = 0
  total length_of ((i, e) ∷ l) = size length_of e + total length_of l

  pub holder-value_of :
      (k : Bytes) (i : ℕ) (l : List (ℕ × Entry V))
      → Distinct l
      → holder k l ≡ some i
      → (e : Entry V) × (value_of i l ≡ some e) × (e.key ≡ k)
  unfolding get
  holder-value_of k i [] d h = cc
  holder-value_of k i ((j, f) ∷ l) (new, _, d) h = elim (Bytes-discrete k f.key) [
    | yes p ↦ (f, ground arith, sym p)
    | no p ↦ let (e, at, same) = holder-value_of k i l d (ground arith) in (e, ground arith, same)
  ]

  pub total-remove :
      (length_of : V → ℕ) (i : ℕ) (e : Entry V) (l : List (ℕ × Entry V))
      → Distinct l
      → value_of i l ≡ some e
      → total length_of (remove i l) + size length_of e ≡ total length_of l
  unfolding get delete
  total-remove length_of i e [] d h = cc
  total-remove length_of i e ((j, f) ∷ l) d h =
      ground (arith, total-remove length_of i e l d.2, delete_absent ℕ_discrete j l)

  pub value_of-remove_none :
      (j i : ℕ) (l : List (ℕ × Entry V)) → value_of j l ≡ none → value_of j (remove i l) ≡ none
  unfolding get delete
  value_of-remove_none j i [] h = refl
  value_of-remove_none j i ((n, f) ∷ l) h = ground (arith, value_of-remove_none j i l)

  pub holder-remove_none :
      (k : Bytes) (i : ℕ) (l : List (ℕ × Entry V))
      → holder k l ≡ none
      → holder k (remove i l) ≡ none
  unfolding get delete
  holder-remove_none k i [] h = refl
  holder-remove_none k i ((n, f) ∷ l) h = ground (arith, holder-remove_none k i l)

  pub Distinct-remove : (i : ℕ) (l : List (ℕ × Entry V)) → Distinct l → Distinct (remove i l)
  unfolding get delete
  Distinct-remove i [] d = tt
  Distinct-remove i ((n, f) ∷ l) d =
      ground (arith, value_of-remove_none n i l, holder-remove_none f.key i l, Distinct-remove i l)

  pub holder-of_value :
      (i : ℕ) (e : Entry V) (l : List (ℕ × Entry V))
      → Distinct l
      → value_of i l ≡ some e
      → holder e.key l ≡ some i
  unfolding get
  holder-of_value i e [] d h = cc
  holder-of_value i e ((j, f) ∷ l) d h = ground (arith, holder-of_value i e l d.2)

  pub contents-absent :
      (k : Bytes) (l : List (ℕ × Entry V))
      → holder k l ≡ none
      → get Bytes-discrete k (contents l) ≡ none
  unfolding get
  contents-absent k [] h = refl
  contents-absent k ((j, f) ∷ l) h = ground (arith, contents-absent k l)

  pub holder-remove :
      (k : Bytes) (i : ℕ) (e : Entry V) (l : List (ℕ × Entry V))
      → Distinct l
      → value_of i l ≡ some e
      → holder k (remove i l) ≡ ite (Bytes-discrete k e.key) none (holder k l)
  unfolding get delete
  holder-remove k i e [] d h = cc
  holder-remove k i e ((j, f) ∷ l) d h =
      ground
        (arith, holder-remove k i e l d.2, holder-of_value i e l d.2, delete_absent ℕ_discrete j l)

  pub back-value_of :
      (l : List (ℕ × Entry V)) (i : ℕ) (e : Entry V)
      → Distinct l
      → back l ≡ some (i, e)
      → value_of i l ≡ some e
  unfolding get
  back-value_of [] i e d h = cc
  back-value_of ((j, f) ∷ []) i e d h = ground arith
  back-value_of ((j, f) ∷ x ∷ l) i e d h = ground (arith, back-value_of (x ∷ l) i e d.2)

  -- Writing a value keeps the keys, and changes the value of one.
  pub contents-write :
      (i : ℕ) (e : Entry V) (v : V) (l : List (ℕ × Entry V))
      → Distinct l
      → value_of i l ≡ some e
      → contents (write i (record e { value = v }) l) ≡ put Bytes-discrete e.key v (contents l)
  unfolding get put
  contents-write i e v [] d h = cc
  contents-write i e v ((j, f) ∷ l) d h =
      ground (arith, contents-write i e v l d.2, holder-of_value i e l d.2)

  pub holder-write :
      (k : Bytes) (i : ℕ) (e : Entry V) (v : V) (l : List (ℕ × Entry V))
      → value_of i l ≡ some e
      → holder k (write i (record e { value = v }) l) ≡ holder k l
  unfolding get put
  holder-write k i e v [] h = cc
  holder-write k i e v ((j, f) ∷ l) h = ground (arith, holder-write k i e v l)

  pub total-write :
      (length_of : V → ℕ) (i : ℕ) (e : Entry V) (v : V) (l : List (ℕ × Entry V))
      → value_of i l ≡ some e
      → total length_of (write i (record e { value = v }) l) + length_of e.value
        ≡ total length_of l + length_of v
  unfolding get put
  total-write length_of i e v [] h = cc
  total-write length_of i e v ((j, f) ∷ l) h = ground (arith, total-write length_of i e v l)

  value_of-write-none :
      (j i : ℕ) (e : Entry V) (l : List (ℕ × Entry V))
      → j ≢ i
      → value_of j l ≡ none
      → value_of j (write i e l) ≡ none
  unfolding get put
  value_of-write-none j i e [] ne h = ground arith
  value_of-write-none j i e ((n, f) ∷ l) ne h = ground (arith, value_of-write-none j i e l)

  pub Distinct-write :
      (i : ℕ) (e : Entry V) (v : V) (l : List (ℕ × Entry V))
      → Distinct l
      → value_of i l ≡ some e
      → Distinct (write i (record e { value = v }) l)
  unfolding get put
  Distinct-write i e v [] d h = cc
  Distinct-write i e v ((j, f) ∷ l) d h = ground (
    arith,
    Distinct-write i e v l d.2,
    value_of-write-none j i (record e { value = v }) l,
    holder-write f.key i e v l,
  )

  -- All identities are below a bound.
  abbrev pub Below : ℕ → List (ℕ × Entry V) → Type 0
  Below n l = All (λ x. x.0 < n) l

  pub Below-remove : (n i : ℕ) (l : List (ℕ × Entry V)) → Below n l → Below n (remove i l)
  unfolding delete
  Below-remove n i [] h = tt
  Below-remove n i ((j, f) ∷ l) h = ground (arith, Below-remove n i l)

  pub Below-write :
      (n i : ℕ) (e : Entry V) (l : List (ℕ × Entry V)) → i < n → Below n l → Below n (write i e l)
  unfolding put
  Below-write n i e [] p h = (p, tt)
  Below-write n i e ((j, f) ∷ l) p h = ground (arith, Below-write n i e l)

  pub Below-value_of :
      (n i : ℕ) (e : Entry V) (l : List (ℕ × Entry V)) → Below n l → value_of i l ≡ some e → i < n
  unfolding get
  Below-value_of n i e [] h at = cc
  Below-value_of n i e ((j, f) ∷ l) h at = ground (arith, Below-value_of n i e l)

  pub value_of-fresh : (n : ℕ) (l : List (ℕ × Entry V)) → Below n l → value_of n l ≡ none
  unfolding get
  value_of-fresh n [] h = refl
  value_of-fresh n ((j, f) ∷ l) h = ground (arith, value_of-fresh n l)

  pub Below-suc : (n : ℕ) (l : List (ℕ × Entry V)) → Below n l → Below (suc n) l
  Below-suc n [] h = tt
  Below-suc n ((j, f) ∷ l) h = ground (arith, Below-suc n l)

  -- Removing an element removes the entry of its key.
  pub contents-remove :
      (i : ℕ) (e : Entry V) (l : List (ℕ × Entry V))
      → Distinct l
      → value_of i l ≡ some e
      → contents (remove i l) ≡ delete Bytes-discrete e.key (contents l)
  unfolding get delete
  contents-remove i e [] d h = refl
  contents-remove i e ((j, f) ∷ l) d h = ground (
    arith,
    contents-remove i e l d.2,
    holder-of_value i e l d.2,
    delete_absent ℕ_discrete j l,
    delete_absent Bytes-discrete f.key (contents l),
    contents-absent f.key l,
  )
