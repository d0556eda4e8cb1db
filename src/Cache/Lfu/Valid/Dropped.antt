-- ===== src/Cache/Lfu/Valid/Dropped.antt =====
-- What Del and RemoveOldest of the LFU cache (cache/LFU.go) do where the invariant holds: which entry
-- goes, and that Del keeps the invariant.
use go_web.Prelude.{
  ℕ, ◌<◌, ◌≤◌, true, false, ◌&&◌, none, some, List, [], ◌∷◌, ◌≡◌, ◌≢◌, refl, sym, ap, ◌∙◌, get,
  delete, ℕ_discrete, arith, get-delete, inl, inr, Bool-cases, if◌then◌else◌, ◌==◌, All, subst,
  Option-cases, maybe, get_last?,
}
use mathlib.Core.Logic.{ite}
use go_web.Strings.{Bytes, Bytes-discrete}
use go_web.Cache.Lfu.{
  LfuCache, LfuEntry, done, unlink, is_empty, without, least_freq, forget, del, remove_oldest,
  max_int64,
}
use go_web.Cache.Lfu.Scan.{least_freq_lem}
use go_web.Cache.Lfu.Links.{kept, has}
use go_web.Cache.Lfu.Valid.{keys, lists, entries, IsValid, without-lists, without-fields}
use go_web.Cache.Lfu.Valid.Steps.{Held, Held-at, value_at}
use go_web.Cache.Lfu.Valid.Removal.{
  All-get, All-put, All-delete, forget-fields, forgotten-Linked, forgotten-value_at,
}

not_nil : (x : ℕ) (y : List ℕ) (n : List (ℕ × List ℕ)) → get ℕ_discrete x n ≡ some y → n ≢ []
unfolding get
not_nil x y [] at e = cc
not_nil x y (z ∷ n) at e = cc

-- The new minFreq of `Del`, on the numbers: `m₁` is the map without the entry.
module _ (m m₁ : List (ℕ × List ℕ)) (f mn mn' : ℕ) (l l' : List ℕ)
    (is_l : get ℕ_discrete f m ≡ some l)
    (taken : (x : ℕ) → get ℕ_discrete x m₁ ≡ ite (ℕ_discrete x f) (kept l') (get ℕ_discrete x m))
    (new_min : mn' ≡ (if is_empty l' && (f == mn) then least_freq m₁ else mn))
    (small : All (λ x. x.0 < max_int64) m₁)
    (least : (x : ℕ) (y : List ℕ) → get ℕ_discrete x m ≡ some y → mn ≤ x)
    (present : (y : List ℕ) × (get ℕ_discrete mn m ≡ some y)) where
  before :
      (x : ℕ) (y : List ℕ)
      → get ℕ_discrete x m₁ ≡ some y
      → (z : List ℕ) × (get ℕ_discrete x m ≡ some z)
  before x y at = elim (ℕ_discrete x f) [
    | yes e ↦ (l, ground (arith))
    | no ne ↦ (y, ground (arith, taken x))
  ]

  settled_least : (x : ℕ) (y : List ℕ) → get ℕ_discrete x m₁ ≡ some y → mn' ≤ x
  settled_least x y at =
      let of_scan =
        All-get (λ z. least_freq m₁ ≤ z) m₁ x y (least_freq_lem m₁ small (not_nil x y m₁ at)).0
          at in
      let (z, at') = before x y at in ground (arith, new_min, least x z at')

  settled_present :
      (x : ℕ) (y : List ℕ)
      → get ℕ_discrete x m₁ ≡ some y
      → (z : List ℕ) × (get ℕ_discrete mn' m₁ ≡ some z)
  settled_present x y at =
      let (w, scanned) = (least_freq_lem m₁ small (not_nil x y m₁ at)).1 in
      elim (Bool-cases (is_empty l')) [
        | inl gone ↦ elim (ℕ_discrete f mn) [
          | yes e ↦ (w, ground (arith, new_min))
          | no ne ↦ (present.0, ground (arith, new_min, taken mn', present.1))
        ]
        | inr left ↦ elim (ℕ_discrete f mn) [
          | yes e ↦ (l', ground (arith, new_min, taken mn'))
          | no ne ↦ (present.0, ground (arith, new_min, taken mn', present.1))
        ]
      ]

module _ {V : Type 0} (length_of : V → ℕ) where
  -- The cache of `Del` before the key is deleted.
  abbrev settled : LfuCache V → ℕ → LfuEntry V → List ℕ → LfuCache V
  settled c p e l =
      let (c₁, gone) = without c e.freq p l in
      if gone && (e.freq == c₁.min_freq)
      then record c₁ { min_freq = least_freq c₁.freq_to_list }
      else c₁

  settled-fields :
      (c : LfuCache V) (p : ℕ) (e : LfuEntry V) (l : List ℕ)
      → ((settled c p e l).key_to_entry ≡ c.key_to_entry)
        × ((settled c p e l).freq_to_list ≡ (without c e.freq p l).0.freq_to_list)
        × ((settled c p e l).entries ≡ c.entries)
        × ((settled c p e l).next ≡ c.next)
        × ((settled c p e l).min_freq ≡ (
            if is_empty (unlink p l) && (e.freq == c.min_freq)
            then least_freq (without c e.freq p l).0.freq_to_list
            else c.min_freq))
  settled-fields c p e l = elim (Bool-cases (is_empty (unlink p l))) [
    | inl g ↦ elim (Bool-cases (e.freq == c.min_freq)) [
      | inl m ↦ rw g (rw m (refl, refl, refl, refl, refl))
      | inr m ↦ rw g (rw m (refl, refl, refl, refl, refl))
    ]
    | inr g ↦ rw g (refl, refl, refl, refl, refl)
  ]

  del-Held :
      (c : LfuCache V) (k : Bytes) (p : ℕ) (x : Held c k p)
      → del length_of c k ≡ done (forget length_of (settled c p x.e x.l) x.e)
  unfolding del
  del-Held c k p x = rw x.is_p (rw x.is_e (rw x.is_l refl))

  All-without :
      (c : LfuCache V) (f p : ℕ) (l : List ℕ)
      → f < max_int64
      → All (λ x. x.0 < max_int64) c.freq_to_list
      → All (λ x. x.0 < max_int64) (without c f p l).0.freq_to_list
  All-without c f p l h small = elim (Bool-cases (is_empty (unlink p l))) [
    | inl g ↦ rw g (All-delete (λ x. x < max_int64) f c.freq_to_list small)
    | inr g ↦ rw g (All-put (λ x. x < max_int64) f (unlink p l) c.freq_to_list h small)
  ]

  del-Held-IsValid :
      (c : LfuCache V) (k : Bytes) (p : ℕ)
      → IsValid c
      → All (λ x. x.0 < max_int64) c.freq_to_list
      → (x : Held c k p) → IsValid (forget length_of (settled c p x.e x.l) x.e)
  del-Held-IsValid c k p h small x =
      let c₂ = settled c p x.e x.l in
      let (same_keys, same_lists, same_entries, same_next, new_min) = settled-fields c p x.e x.l in
      let (new_keys, kept_lists, _, kept_min, kept_next) = forget-fields length_of c₂ x.e in
      let m₁ = (without c x.e.freq p x.l).0.freq_to_list in
      let to_m₁ = kept_lists ∙ same_lists in
      let small₁ =
        All-without c x.e.freq p x.l
          (All-get (λ n. n < max_int64) c.freq_to_list x.e.freq x.l small x.is_l) small in
      let held_before : (j : Bytes) (q : ℕ)
          → ite (Bytes-discrete j x.e.key) none (keys c j) ≡ some q
          → keys c j ≡ some q =
        λ j q at. ground (arith) in
      let some_list = h.present x.e.freq x.l x.is_l in
      record {
        linked =
            forgotten-Linked length_of c c₂ k p h x same_keys same_lists same_entries same_next;
        used = λ j q at.
            subst (λ n. q < n) (sym (kept_next ∙ same_next))
              (h.used j q (
                held_before j q (
                  sym (
                    ap (get Bytes-discrete j)
                      (new_keys ∙ ap (delete Bytes-discrete x.e.key) same_keys)
                    ∙ get-delete Bytes-discrete x.e.key j c.key_to_entry)
                  ∙ at)));
        positive = λ f l at.
            let (l₀, before_at) =
              before c.freq_to_list m₁ x.e.freq c.min_freq (forget length_of c₂ x.e).min_freq x.l
                (unlink p x.l) x.is_l (without-lists c x.e.freq p x.l) (kept_min ∙ new_min) small₁
                h.least some_list f l (ap (get ℕ_discrete f) (sym to_m₁) ∙ at) in
            h.positive f l₀ before_at;
        least = λ f l at.
            settled_least c.freq_to_list m₁ x.e.freq c.min_freq (forget length_of c₂ x.e).min_freq
              x.l (unlink p x.l) x.is_l (without-lists c x.e.freq p x.l) (kept_min ∙ new_min) small₁
              h.least some_list f l (ap (get ℕ_discrete f) (sym to_m₁) ∙ at);
        present = λ f l at.
            let (z, there) =
              settled_present c.freq_to_list m₁ x.e.freq c.min_freq
                (forget length_of c₂ x.e).min_freq x.l (unlink p x.l) x.is_l
                (without-lists c x.e.freq p x.l) (kept_min ∙ new_min) small₁ h.least some_list f l
                (ap (get ℕ_discrete f) (sym to_m₁) ∙ at) in
            (z, ap (get ℕ_discrete (forget length_of c₂ x.e).min_freq) to_m₁ ∙ there);
      }

  -- Del on a valid cache, with frequencies below the largest int64, dereferences no nil: it takes the
  -- value of the key away, keeps every other value, and leaves a valid cache.
  pub del-IsValid :
      (c : LfuCache V) (k : Bytes)
      → IsValid c
      → All (λ x. x.0 < max_int64) c.freq_to_list
      → (c' : LfuCache V) × (del length_of c k ≡ done c')
        × IsValid c'
        × ((j : Bytes) → value_at c' j ≡ ite (Bytes-discrete j k) none (value_at c j))
  unfolding del
  del-IsValid c k h small = elim (Option-cases (keys c k)) [
    | inl p ↦ (c, rw p refl, h, λ j. no_value c k p j)
    | inr (p, at) ↦
        let x = Held-at c k p h at in
        let (same_keys, _, same_entries, _, _) = settled-fields c p x.e x.l in
        (
          forget length_of (settled c p x.e x.l) x.e,
          del-Held c k p x,
          del-Held-IsValid c k p h small x,
          λ j.
              subst
                (λ n.
                  value_at (forget length_of (settled c p x.e x.l) x.e) j
                  ≡ ite (Bytes-discrete j n) none (value_at c j))
                x.key
                (forgotten-value_at length_of c (settled c p x.e x.l) x.e j same_keys same_entries),
        )
  ]
    where
      no_value :
          (c : LfuCache V) (k : Bytes)
          → keys c k ≡ none
          → (j : Bytes) → value_at c j ≡ ite (Bytes-discrete j k) none (value_at c j)
      no_value c k p j =
          let gone : j ≡ k → value_at c j ≡ none = λ e.
            ap
              (λ o. maybe none (λ q. maybe none (λ (y : LfuEntry V). some y.value) (entries c q)) o)
              (ap (keys c) e ∙ p) in
          ground (arith, gone)

last_stands :
    (l : List ℕ) → is_empty l ≡ false → (p : ℕ) × (get_last? l ≡ some p) × (has p l ≡ true)
last_stands [] h = cc
last_stands (x ∷ []) h = (x, refl, ground arith)
last_stands (x ∷ y ∷ l) h =
    let (p, is_p, stands) = last_stands (y ∷ l) refl in (p, is_p, ground arith)

module _ {V : Type 0} (length_of : V → ℕ) where
  remove_oldest_at :
      (c : LfuCache V) (l : List ℕ) (p : ℕ) (e : LfuEntry V)
      → lists c c.min_freq ≡ some l
      → get_last? l ≡ some p
      → entries c p ≡ some e
      → remove_oldest length_of c ≡ done (forget length_of (without c c.min_freq p l).0 e)
  unfolding remove_oldest
  remove_oldest_at c l p e is_l is_p is_e = rw is_l (rw is_p (rw is_e refl))

  -- RemoveOldest on a valid cache that holds a key dereferences no nil: it evicts one entry, of which no
  -- entry held is less frequent, takes the value of its key away, and keeps every other value.
  pub remove_oldest_least_used :
      (c : LfuCache V) (k : Bytes) (p : ℕ)
      → IsValid c
      → keys c k ≡ some p
      → (e : LfuEntry V) × (c' : LfuCache V) × (remove_oldest length_of c ≡ done c')
        × (value_at c e.key ≡ some e.value)
        × ((j : Bytes) (q : ℕ) (x : LfuEntry V)
            → keys c j ≡ some q
            → entries c q ≡ some x
            → e.freq ≤ x.freq)
        × ((j : Bytes) → value_at c' j ≡ ite (Bytes-discrete j e.key) none (value_at c j))
  remove_oldest_least_used c k p h at =
      let held = Held-at c k p h at in
      let (l, is_l) = h.present held.e.freq held.l held.is_l in
      let (q, is_q, stands) = last_stands l (h.linked.plain c.min_freq l is_l).1 in
      let (_, e, is_e, least, keyed) = h.linked.listed c.min_freq l q is_l stands in
      let (_, same_keys, same_entries, _, _) = without-fields c c.min_freq q l in
      (
        e,
        forget length_of (without c c.min_freq q l).0 e,
        remove_oldest_at c l q e is_l is_q is_e,
        rw keyed (rw is_e refl),
        λ j r x is_r is_x.
            let y = Held-at c j r h is_r in
            ground (arith, least, h.least y.e.freq y.l y.is_l, is_x, y.is_e),
        λ j. forgotten-value_at length_of c (without c c.min_freq q l).0 e j same_keys same_entries,
      )
