-- ===== src/Cache/Lfu/Valid/Removal.antt =====
-- Del and RemoveOldest of the LFU cache (cache/LFU.go) where the invariant holds.
use go_web.Prelude.{
  ℕ, Option, none, some, List, [], ◌∷◌, ◌≡◌, refl, sym, ap, ◌∙◌, get, put, delete, ℕ_discrete,
  arith, get-delete, inl, inr, Bool-cases, All, subst, maybe, ite_case,
}
use mathlib.Core.Logic.{ite}
use go_web.Strings.{Bytes, Bytes-discrete}
use go_web.Cache.Lfu.{LfuCache, LfuEntry, without, forget}
use go_web.Cache.Lfu.Links.{Linked, Linked-forget}
use go_web.Cache.Lfu.Valid.{keys, lists, entries, IsValid}
use go_web.Cache.Lfu.Valid.Steps.{Held, own_key, detached, used_ne, value_at}

pub All-get :
    {V : Type 0} (P : ℕ → Type 0) (m : List (ℕ × V)) (k : ℕ) (v : V)
    → All (λ x. P x.0) m
    → get ℕ_discrete k m ≡ some v
    → P k
unfolding get
All-get P [] k v h e = cc
All-get P ((j, w) ∷ m) k v h e = elim (ℕ_discrete k j) [
  | yes p ↦ subst P (sym p) h.0
  | no ne ↦ All-get P m k v h.1 (ground arith)
]

pub All-delete :
    {V : Type 0} (P : ℕ → Type 0) (k : ℕ) (m : List (ℕ × V))
    → All (λ x. P x.0) m
    → All (λ x. P x.0) (delete ℕ_discrete k m)
unfolding delete
All-delete {V} P k [] h = tt
All-delete {V} P k ((j, w) ∷ m) h =
    let rest = All-delete P k m h.1 in
    ite_case (λ (l : List (ℕ × V)). All (λ y. P y.0) l) (ℕ_discrete k j) (λ _. rest)
      (λ _. (h.0, rest))

pub All-put :
    {V : Type 0} (P : ℕ → Type 0) (k : ℕ) (v : V) (m : List (ℕ × V))
    → P k
    → All (λ x. P x.0) m
    → All (λ x. P x.0) (put ℕ_discrete k v m)
unfolding put
All-put P k v [] h all = (h, tt)
All-put {V} P k v ((j, w) ∷ m) h all =
    ite_case (λ (l : List (ℕ × V)). All (λ y. P y.0) l) (ℕ_discrete k j) (λ _. (h, all.1))
      (λ _. (all.0, All-put P k v m h all.1))

module _ {V : Type 0} (length_of : V → ℕ) where
  -- `forget` leaves all but the keys and the bytes.
  pub forget-fields :
      (c : LfuCache V) (e : LfuEntry V)
      → ((forget length_of c e).key_to_entry ≡ delete Bytes-discrete e.key c.key_to_entry)
        × ((forget length_of c e).freq_to_list ≡ c.freq_to_list)
        × ((forget length_of c e).entries ≡ c.entries)
        × ((forget length_of c e).min_freq ≡ c.min_freq)
        × ((forget length_of c e).next ≡ c.next)
  forget-fields c e = elim (Bool-cases c.on_evicted) [
    | inl p ↦ rw p (refl, refl, refl, refl, refl)
    | inr p ↦ rw p (refl, refl, refl, refl, refl)
  ]

  Linked-same :
      (ks : Bytes → Option ℕ) {fl fl' : List (ℕ × List ℕ)} {es es' : List (ℕ × LfuEntry V)}
      {n n' : ℕ}
      → fl' ≡ fl
      → es' ≡ es
      → n' ≡ n
      → Linked ks (λ f. get ℕ_discrete f fl) (λ q. get ℕ_discrete q es) n
      → Linked ks (λ f. get ℕ_discrete f fl') (λ q. get ℕ_discrete q es') n'
  Linked-same ks {fl} {fl'} {es} {es'} {n} {n'} p q r h =
      subst (λ m. Linked {V = V} ks (λ f. get ℕ_discrete f fl') (λ x. get ℕ_discrete x es') m)
        (sym r)
        (subst (λ y. Linked {V = V} ks (λ f. get ℕ_discrete f fl') (λ x. get ℕ_discrete x y) n)
          (sym q)
          (subst (λ y. Linked {V = V} ks (λ f. get ℕ_discrete f y) (λ x. get ℕ_discrete x es) n)
            (sym p) h))

  -- A detached entry that is forgotten leaves the rest linked.
  pub forgotten-Linked :
      (c c₁ : LfuCache V) (k : Bytes) (p : ℕ)
      → IsValid c
      → (x : Held c k p) → c₁.key_to_entry ≡ c.key_to_entry
      → c₁.freq_to_list ≡ (without c x.e.freq p x.l).0.freq_to_list
      → c₁.entries ≡ c.entries
      → c₁.next ≡ c.next
      → Linked
          (keys (forget length_of c₁ x.e))
          (lists (forget length_of c₁ x.e))
          (entries (forget length_of c₁ x.e))
          (forget length_of c₁ x.e).next
  forgotten-Linked c c₁ k p h x same_keys same_lists same_entries same_next =
      let (new_keys, kept_lists, kept_entries, _, kept_next) = forget-fields c₁ x.e in
      let linked : Linked (keys (forget length_of c₁ x.e)) (lists (without c x.e.freq p x.l).0)
          (entries c) c.next =
        Linked-forget c.next p x.e.key (detached c k p h x) (ap (keys c) x.key ∙ x.is_p)
          (λ j.
            ap (get Bytes-discrete j) (new_keys ∙ ap (delete Bytes-discrete x.e.key) same_keys)
            ∙ get-delete Bytes-discrete x.e.key j c.key_to_entry)
          (λ j at. own_key c k p h x j at ∙ sym x.key) (used_ne c h) in
      Linked-same (keys (forget length_of c₁ x.e)) (kept_lists ∙ same_lists)
        (kept_entries ∙ same_entries) (kept_next ∙ same_next) linked

  -- Forgetting takes the value of the key away and leaves the others.
  pub forgotten-value_at :
      (c c₁ : LfuCache V) (e : LfuEntry V) (j : Bytes)
      → c₁.key_to_entry ≡ c.key_to_entry
      → c₁.entries ≡ c.entries
      → value_at (forget length_of c₁ e) j ≡ ite (Bytes-discrete j e.key) none (value_at c j)
  forgotten-value_at c c₁ e j same_keys same_entries =
      let (new_keys, _, kept_entries, _, _) = forget-fields c₁ e in
      ap
        (λ es.
          maybe none (λ q. maybe none (λ (x : LfuEntry V). some x.value) (get ℕ_discrete q es))
            (keys (forget length_of c₁ e) j))
        (kept_entries ∙ same_entries)
      ∙ ap (λ o. maybe none (λ q. maybe none (λ (x : LfuEntry V). some x.value) (entries c q)) o)
          (ap (get Bytes-discrete j) (new_keys ∙ ap (delete Bytes-discrete e.key) same_keys)
            ∙ get-delete Bytes-discrete e.key j c.key_to_entry)
      ∙ ground arith
