-- ===== src/Cache/Lfu/Valid/Sets.antt =====
-- Set of the LFU cache (cache/LFU.go) where the invariant holds, and the caches that it makes.
use go_web.Prelude.{
  ℕ, suc, ◌+◌, ◌<◌, ◌≤◌, Bool, false, ◌&&◌, none, some, List, ◌∷◌, ◌≡◌, refl, sym, ap, ◌∙◌, get,
  put, ℕ_discrete, arith, get-put, get-put_self, length, subst, Option-cases, inl, inr,
}
use mathlib.Core.Logic.{ite}
use go_web.Int64.{int64, add64, sub64, lt64}
use go_web.Strings.{Bytes, Bytes-discrete}
use go_web.Cache.Lfu.{
  LfuCache, LfuEntry, done, new_lfu, add_new, overwrite, promote, get_entry, make_room, set,
}
use go_web.Cache.Lfu.Links.{Linked, list_or_new, Linked-attach}
use go_web.Cache.Lfu.Valid.{keys, lists, entries, IsValid, promote-fields}
use go_web.Cache.Lfu.Valid.Steps.{
  Held, Held-at, own_key, used_ne, value_at, IsSmall, promote-IsValid, promote-value_at,
  get_entry-Held,
}

pub new_lfu-IsValid : {V : Type 0} (max : ℕ) (on : Bool) → IsValid {V = V} (new_lfu max on)
unfolding new_lfu get
new_lfu-IsValid max on = record {
  linked = record { keyed = λ k p at. cc; listed = λ f l p at. cc; plain = λ f l at. cc };
  used = λ k p at. cc;
  positive = λ f l at. cc;
  least = λ f l at. cc;
  present = λ f l at. cc;
}

module _ {V : Type 0} (length_of : V → ℕ) where
  add_new-used :
      (c : LfuCache V) (k : Bytes) (v : V)
      → IsValid c
      → (j : Bytes) (q : ℕ) → keys (add_new length_of c k v) j ≡ some q
      → q < suc c.next
  unfolding add_new
  add_new-used c k v h j q at =
      let changed = get-put Bytes-discrete k j c.next c.key_to_entry in
      elim (Bytes-discrete j k) [
        | yes e ↦ ground (arith, changed)
        | no ne ↦ ground (arith, changed, h.used j q)
      ]

  add_new-fields :
      (c : LfuCache V) (k : Bytes) (v : V)
      → ((add_new length_of c k v).next ≡ suc c.next) × ((add_new length_of c k v).min_freq ≡ 1)
  unfolding add_new
  add_new-fields c k v = (refl, refl)

  lists-add_new :
      (c : LfuCache V) (k : Bytes) (v : V) (x : ℕ)
      → lists (add_new length_of c k v) x
        ≡ ite (ℕ_discrete x 1) (some (c.next ∷ list_or_new (lists c 1))) (lists c x)
  unfolding add_new
  lists-add_new c k v x = get-put ℕ_discrete 1 x _ c.freq_to_list

  add_new-Linked :
      (c : LfuCache V) (k : Bytes) (v : V)
      → IsValid c
      → keys c k ≡ none
      → Linked
          (keys (add_new length_of c k v))
          (lists (add_new length_of c k v))
          (entries (add_new length_of c k v))
          (suc c.next)
  unfolding add_new
  add_new-Linked c k v h absent =
      let e : LfuEntry V = record { key = k; value = v; freq = 1 } in
      Linked-attach (suc c.next) c.next e h.linked (λ q at. ground (arith, absent))
        (λ j at. absurd (used_ne c h j c.next at refl))
        (λ j q at. omega (arith, add_new-used c k v h j q at))
        (λ j. get-put Bytes-discrete k j c.next c.key_to_entry)
        (λ q. get-put ℕ_discrete c.next q e c.entries)
        (λ x. get-put ℕ_discrete 1 x _ c.freq_to_list)

  pub add_new-IsValid :
      (c : LfuCache V) (k : Bytes) (v : V)
      → IsValid c
      → keys c k ≡ none
      → IsValid (add_new length_of c k v)
  add_new-IsValid c k v h absent =
      let (next, least) = add_new-fields c k v in
      record {
        linked =
            subst (λ n. Linked (keys c₁) (lists c₁) (entries c₁) n) (sym next)
              (add_new-Linked c k v h absent);
        used = λ j q at. subst (λ n. q < n) (sym next) (add_new-used c k v h j q at);
        positive = λ f l at. at_least f l at;
        least = λ f l at. subst (λ n. n ≤ f) (sym least) (at_least f l at);
        present = λ f l at. (
          c.next ∷ list_or_new (lists c 1),
          ap (lists c₁) least ∙ ground (arith, lists-add_new c k v 1),
        );
      }
    where
      c₁ : LfuCache V
      c₁ = add_new length_of c k v

      at_least : (f : ℕ) (l : List ℕ) → lists c₁ f ≡ some l → 1 ≤ f
      at_least f l at = elim (ℕ_discrete f 1) [
        | yes e ↦ omega arith
        | no ne ↦ h.positive f l (ground (arith, lists-add_new c k v f))
      ]

  add_new-value_at :
      (c : LfuCache V) (k : Bytes) (v : V)
      → IsValid c
      → (j : Bytes)
      → value_at (add_new length_of c k v) j ≡ ite (Bytes-discrete j k) (some v) (value_at c j)
  unfolding add_new
  add_new-value_at c k v h j =
      let e : LfuEntry V = record { key = k; value = v; freq = 1 } in
      let changed = get-put Bytes-discrete k j c.next c.key_to_entry in
      elim (Bytes-discrete j k) [
        | yes same ↦ ground (arith, changed, get-put_self ℕ_discrete c.next e c.entries)
        | no ne ↦ elim (Option-cases (keys c j)) [
          | inl is_none ↦ ground (arith, changed)
          | inr (q, at) ↦
              ground (arith, changed, get-put ℕ_discrete c.next q e c.entries, used_ne c h j q at)
        ]
      ]

  -- `Set` over an entry that is held.
  abbrev overwritten : LfuCache V → ℕ → LfuEntry V → V → LfuCache V
  overwritten c p e v = record c {
    n_bytes = add64 c.n_bytes (sub64 (int64 (length_of v)) (length_of e.value));
    entries = put ℕ_discrete p (record e { value = v }) c.entries;
  }

  overwritten-IsValid :
      (c : LfuCache V) (k : Bytes) (p : ℕ) (v : V)
      → IsValid c
      → (x : Held c k p) → IsValid (overwritten c p x.e v)
  overwritten-IsValid c k p v h x = record {
    linked = record {
      keyed = λ j q at ne.
          let (e, is_e, key, l, is_l, stands) = h.linked.keyed j q at ne in
          elim (ℕ_discrete q p) [
            | yes same ↦
                let new : LfuEntry V = record x.e { value = v } in
                (
                  new,
                  ground (arith, stored q),
                  ground (arith, x.is_e, x.is_p),
                  x.l,
                  x.is_l,
                  ground (arith, x.stands),
                )
            | no other ↦ (e, ground (arith, stored q), key, l, is_l, stands)
          ];
      listed = λ f l q is_l stands.
          let (ne, e, is_e, freq, key) = h.linked.listed f l q is_l stands in
          elim (ℕ_discrete q p) [
            | yes same ↦
                let new : LfuEntry V = record x.e { value = v } in
                (ne, new, ground (arith, stored q), ground (arith, x.is_e), ground (arith, x.is_e))
            | no other ↦ (ne, e, ground (arith, stored q), freq, key)
          ];
      plain = h.linked.plain;
    };
    used = h.used;
    positive = h.positive;
    least = h.least;
    present = h.present;
  }
    where
      stored :
          (q : ℕ)
          → entries (overwritten c p x.e v) q
            ≡ ite (ℕ_discrete q p) (some (record x.e { value = v })) (entries c q)
      stored q = get-put ℕ_discrete p q (record x.e { value = v }) c.entries

  overwritten-value_at :
      (c : LfuCache V) (k : Bytes) (p : ℕ) (v : V)
      → IsValid c
      → (x : Held c k p) → (j : Bytes)
      → value_at (overwritten c p x.e v) j ≡ ite (Bytes-discrete j k) (some v) (value_at c j)
  overwritten-value_at c k p v h x j =
      let e : LfuEntry V = record x.e { value = v } in
      elim (Bytes-discrete j k) [
        | yes same ↦ ground (arith, x.is_p, get-put_self ℕ_discrete p e c.entries)
        | no ne ↦ elim (Option-cases (keys c j)) [
          | inl is_none ↦ ground (arith)
          | inr (q, at) ↦
              ground (arith, at, get-put ℕ_discrete p q e c.entries, own_key c k p h x j)
        ]
      ]

  -- Whether `Set` of a new entry of `size` bytes evicts.
  abbrev over : LfuCache V → ℕ → Bool
  over c size = lt64 0 c.max_bytes && lt64 c.max_bytes (add64 c.n_bytes size)

  set_new :
      (fuel : ℕ) (c : LfuCache V) (k : Bytes) (v : V)
      → keys c k ≡ none
      → over c (int64 (length k + length_of v + 8)) ≡ false
      → set length_of (suc fuel) c k v ≡ done (add_new length_of c k v)
  unfolding set get_entry make_room
  set_new fuel c k v absent fits = rw absent (rw fits refl)

  set-Held :
      (fuel : ℕ) (c c₁ : LfuCache V) (k : Bytes) (p : ℕ) (v : V)
      → get_entry c k ≡ done (c₁, some p)
      → (x : Held c₁ k p) → set length_of fuel c k v ≡ done (overwritten c₁ p x.e v)
  unfolding set overwrite
  set-Held fuel c c₁ k p v found x = rw found (rw x.is_e refl)

  -- Set on a valid cache, with frequencies below the largest int64 and, for a new key, where its entry
  -- fits, dereferences no nil: it holds the value under the key, keeps the other values, and leaves a
  -- valid cache.
  pub set-IsValid :
      (fuel : ℕ) (c : LfuCache V) (k : Bytes) (v : V)
      → IsValid c
      → IsSmall c
      → (keys c k ≡ none → over c (int64 (length k + length_of v + 8)) ≡ false)
      → (c' : LfuCache V) × (set length_of (suc fuel) c k v ≡ done c')
        × IsValid c'
        × ((j : Bytes) → value_at c' j ≡ ite (Bytes-discrete j k) (some v) (value_at c j))
  set-IsValid fuel c k v h small fits = elim (Option-cases (keys c k)) [
    | inl absent ↦ (
      add_new length_of c k v,
      set_new fuel c k v absent (fits absent),
      add_new-IsValid c k v h absent,
      add_new-value_at c k v h,
    )
    | inr (p, at) ↦
        let x = Held-at c k p h at in
        let c₁ = promote c p x.e x.l in
        let h₁ = promote-IsValid c k p h small x in
        let y = Held-at c₁ k p h₁ (ap (get Bytes-discrete k) (promote-fields c p x.e x.l).0 ∙ at) in
        (
          overwritten c₁ p y.e v,
          set-Held (suc fuel) c c₁ k p v (get_entry-Held c k p x) y,
          overwritten-IsValid c₁ k p v h₁ y,
          λ j.
              overwritten-value_at c₁ k p v h₁ y j
              ∙ ap (λ o. ite (Bytes-discrete j k) (some v) o) (promote-value_at c k p x j),
        )
  ]
