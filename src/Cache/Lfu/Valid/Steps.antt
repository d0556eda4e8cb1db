-- ===== src/Cache/Lfu/Valid/Steps.antt =====
-- Get of the LFU cache (cache/LFU.go) where the invariant holds: what stands under a key, and what
-- promotion makes of it.
use go_web.Prelude.{
  ℕ, ◌+◌, ◌<◌, ◌≤◌, true, ◌&&◌, Option, none, some, List, ◌∷◌, ◌≡◌, ◌≢◌, refl, sym, ap, ◌∙◌, get,
  ℕ_discrete, arith, get-put, get-put_self, inl, inr, Bool-cases, if◌then◌else◌, ◌==◌, subst,
  Option-cases, maybe, maybe_related,
}
use mathlib.Core.Logic.{ite}
use go_web.Int64.{add64}
use go_web.Strings.{Bytes, Bytes-discrete}
use go_web.Cache.Lfu.{
  LfuCache, LfuEntry, done, unlink, is_empty, without, promote, get_entry, get_value, max_int64,
}
use go_web.Cache.Lfu.Links.{Linked, kept, list_or_new, has, Linked-detach, Linked-attach}
use go_web.Cache.Lfu.Valid.{
  keys, lists, entries, IsValid, without-lists, promote-fields, promote-lists,
}

module _ {V : Type 0} where
  -- A key that is held, with all that it leads to.
  pub record Held (c : LfuCache V) (k : Bytes) (p : ℕ) : Type 0 where
    pub e : LfuEntry V
    pub l : List ℕ
    pub is_p : keys c k ≡ some p
    pub is_e : entries c p ≡ some e
    pub key : e.key ≡ k
    pub is_l : lists c e.freq ≡ some l
    pub stands : has p l ≡ true

  pub used_ne : (c : LfuCache V) → IsValid c → (k : Bytes) (p : ℕ) → keys c k ≡ some p → p ≢ c.next
  used_ne c h k p at = omega (arith, h.used k p at)

  pub Held-at : (c : LfuCache V) (k : Bytes) (p : ℕ) → IsValid c → keys c k ≡ some p → Held c k p
  Held-at c k p h at =
      let (e, is_e, key, l, is_l, stands) = h.linked.keyed k p at (used_ne c h k p at) in
      record { e = e; l = l; is_p = at; is_e = is_e; key = key; is_l = is_l; stands = stands }

  pub own_key :
      (c : LfuCache V) (k : Bytes) (p : ℕ)
      → IsValid c
      → (x : Held c k p) → (j : Bytes) → keys c j ≡ some p
      → j ≡ k
  own_key c k p h x j at =
      let y = Held-at c j p h at in ground (arith, x.is_e, y.is_e, x.key, y.key)

  pub detached :
      (c : LfuCache V) (k : Bytes) (p : ℕ)
      → IsValid c
      → (x : Held c k p) → Linked (keys c) (lists (without c x.e.freq p x.l).0) (entries c) p
  detached c k p h x =
      Linked-detach c.next p x.e x.l h.linked (used_ne c h) x.is_e x.is_l
        (without-lists c x.e.freq p x.l)

  Held-key :
      (c : LfuCache V) (k : Bytes) (p : ℕ)
      → IsValid c
      → (x : Held c k p) → (j : Bytes)
      → keys c j ≡ ite (Bytes-discrete j x.e.key) (some p) (keys c j)
  Held-key c k p h x j = ground (arith, x.is_p, x.key)

  promote-Linked :
      (c : LfuCache V) (k : Bytes) (p : ℕ)
      → IsValid c
      → (x : Held c k p)
      → Linked
          (keys (promote c p x.e x.l))
          (lists (promote c p x.e x.l))
          (entries (promote c p x.e x.l))
          (promote c p x.e x.l).next
  promote-Linked c k p h x =
      let e' : LfuEntry V = record x.e { freq = add64 x.e.freq 1 } in
      let (same_keys, new_entries, _, same_next) = promote-fields c p x.e x.l in
      Linked-attach (promote c p x.e x.l).next p e' (detached c k p h x)
        (λ q at. ground (arith, x.is_p, x.key)) (λ j at. own_key c k p h x j at ∙ sym x.key)
        (λ j q at same.
          used_ne c h j q (ap (get Bytes-discrete j) (sym same_keys) ∙ at) (same ∙ same_next))
        (λ j. ap (get Bytes-discrete j) same_keys ∙ Held-key c k p h x j)
        (λ q. ap (get ℕ_discrete q) new_entries ∙ get-put ℕ_discrete p q e' c.entries)
        (promote-lists c p x.e x.l)

add64_exact : (n : ℕ) → n < max_int64 → add64 n 1 ≡ n + 1
add64_exact n h = omega arith

-- What promotion does to minFreq, on the numbers.
module _ {L L₁ L₂ : ℕ → Option (List ℕ)} (f mn mn' p : ℕ) (l l' old : List ℕ) (is_l : L f ≡ some l)
    (taken : (x : ℕ) → L₁ x ≡ ite (ℕ_discrete x f) (kept l') (L x))
    (pushed : (x : ℕ) → L₂ x ≡ ite (ℕ_discrete x (f + 1)) (some (p ∷ old)) (L₁ x))
    (new_min : mn' ≡ (if is_empty l' && (mn == f) then mn + 1 else mn))
    (least : (x : ℕ) (m : List ℕ) → L x ≡ some m → mn ≤ x)
    (present : (m : List ℕ) × (L mn ≡ some m)) where
  kept-none : is_empty l' ≡ true → kept l' ≡ none
  kept-none e = rw e refl

  promoted_least : (x : ℕ) (m : List ℕ) → L₂ x ≡ some m → mn' ≤ x
  promoted_least x m at = elim (ℕ_discrete x (f + 1)) [
    | yes e ↦ ground (arith, least f l is_l, new_min)
    | no ne ↦ elim (ℕ_discrete x f) [
      | yes e ↦ ground (arith, pushed x, taken x, least f l is_l, new_min)
      | no ne' ↦
          let at' : L x ≡ some m = ground (arith, pushed x, taken x) in
          ground (arith, least x m at', new_min)
    ]
  ]

  promoted_positive :
      ((x : ℕ) (m : List ℕ) → L x ≡ some m → 1 ≤ x) → (x : ℕ) (m : List ℕ) → L₂ x ≡ some m → 1 ≤ x
  promoted_positive positive x m at = elim (ℕ_discrete x (f + 1)) [
    | yes e ↦ omega arith
    | no ne ↦ elim (ℕ_discrete x f) [
      | yes e ↦ ground (arith, positive f l is_l)
      | no ne' ↦ let at' : L x ≡ some m = ground (arith, pushed x, taken x) in positive x m at'
    ]
  ]

  promoted_present : (m : List ℕ) × (L₂ mn' ≡ some m)
  promoted_present = elim (Bool-cases (is_empty l')) [
    | inl gone ↦ elim (ℕ_discrete mn f) [
      | yes e ↦ (p ∷ old, ground (arith, new_min, pushed mn'))
      | no ne ↦
          (present.0, ground (arith, new_min, least f l is_l, pushed mn', taken mn', present.1))
    ]
    | inr left ↦ elim (ℕ_discrete mn f) [
      | yes e ↦ (l', ground (arith, new_min, pushed mn', taken mn'))
      | no ne ↦
          (present.0, ground (arith, new_min, least f l is_l, pushed mn', taken mn', present.1))
    ]
  ]

module _ {V : Type 0} where
  -- No frequency is about to overflow.
  abbrev pub IsSmall : LfuCache V → Type 0
  IsSmall c = (f : ℕ) (l : List ℕ) → lists c f ≡ some l → f < max_int64

  -- `GetEntry` of a key that is held keeps the invariant.
  pub promote-IsValid :
      (c : LfuCache V) (k : Bytes) (p : ℕ)
      → IsValid c
      → IsSmall c
      → (x : Held c k p) → IsValid (promote c p x.e x.l)
  promote-IsValid c k p h small x = record {
    linked = promote-Linked c k p h x;
    used = λ j q at.
        subst (λ n. q < n) (sym (promote-fields c p x.e x.l).3)
          (h.used j q (ap (get Bytes-discrete j) (sym (promote-fields c p x.e x.l).0) ∙ at));
    positive = λ y m at.
        promoted_positive f mn mn' p x.l l' old x.is_l taken pushed new_min h.least some_list
          h.positive y m at;
    least = promoted_least f mn mn' p x.l l' old x.is_l taken pushed new_min h.least some_list;
    present = λ _ _ _.
        promoted_present f mn mn' p x.l l' old x.is_l taken pushed new_min h.least some_list;
  }
    where
      f : ℕ
      f = x.e.freq

      mn : ℕ
      mn = c.min_freq

      mn' : ℕ
      mn' = (promote c p x.e x.l).min_freq

      l' : List ℕ
      l' = unlink p x.l

      old : List ℕ
      old = list_or_new (lists (without c f p x.l).0 (f + 1))

      taken : (y : ℕ) → lists (without c f p x.l).0 y ≡ ite (ℕ_discrete y f) (kept l') (lists c y)
      taken = without-lists c f p x.l

      some_list : (m : List ℕ) × (lists c mn ≡ some m)
      some_list = h.present f x.l x.is_l

      pushed :
          (y : ℕ)
          → lists (promote c p x.e x.l) y
            ≡ ite (ℕ_discrete y (f + 1)) (some (p ∷ old)) (lists (without c f p x.l).0 y)
      pushed y =
          subst
            (λ n.
              lists (promote c p x.e x.l) y
              ≡ ite (ℕ_discrete y n) (some (p ∷ list_or_new (lists (without c f p x.l).0 n)))
                  (lists (without c f p x.l).0 y))
            (add64_exact f (small f x.l x.is_l)) (promote-lists c p x.e x.l y)

      new_min : mn' ≡ (if is_empty l' && (mn == f) then mn + 1 else mn)
      new_min =
          (promote-fields c p x.e x.l).2
          ∙ ap (λ n. if is_empty l' && (mn == f) then n else mn)
              (add64_exact mn (small mn some_list.0 some_list.1))

  -- The value held under a key.
  abbrev pub value_at : LfuCache V → Bytes → Option V
  value_at c k =
      maybe none (λ p. maybe none (λ (e : LfuEntry V). some e.value) (entries c p)) (keys c k)

  pub promote-value_at :
      (c : LfuCache V) (k : Bytes) (p : ℕ) (x : Held c k p) (j : Bytes)
      → value_at (promote c p x.e x.l) j ≡ value_at c j
  promote-value_at c k p x j =
      let (same_keys, new_entries, _, _) = promote-fields c p x.e x.l in
      ap
        (λ o.
          maybe none
            (λ q. maybe none (λ (e : LfuEntry V). some e.value) (entries (promote c p x.e x.l) q))
            o)
        (ap (get Bytes-discrete j) same_keys)
      ∙ maybe_related (λ a b. a ≡ b) (keys c j) refl
          (λ q.
            ap (λ o. maybe none (λ (e : LfuEntry V). some e.value) o)
              (ap (get ℕ_discrete q) new_entries ∙ get-put ℕ_discrete p q _ c.entries)
            ∙ same_value q)
    where
      same_value :
          (q : ℕ)
          → maybe none
              (λ (e : LfuEntry V). some e.value)
              (ite (ℕ_discrete q p) (some (record x.e { freq = add64 x.e.freq 1 })) (entries c q))
            ≡ maybe none (λ (e : LfuEntry V). some e.value) (entries c q)
      same_value q = ground (arith, x.is_e)

  pub get_entry-Held :
      (c : LfuCache V) (k : Bytes) (p : ℕ) (x : Held c k p)
      → get_entry c k ≡ done (promote c p x.e x.l, some p)
  unfolding get_entry
  get_entry-Held c k p x = rw x.is_p (rw x.is_e (rw x.is_l refl))

  get_value-Held :
      (c : LfuCache V) (k : Bytes) (p : ℕ) (x : Held c k p)
      → get_value c k ≡ done (promote c p x.e x.l, some x.e.value)
  unfolding get_value
  get_value-Held c k p x =
      let stored =
        ap (get ℕ_discrete p) (promote-fields c p x.e x.l).1
        ∙ get-put_self ℕ_discrete p _ c.entries in
      rw (get_entry-Held c k p x) (rw stored refl)

  pub value_at-Held :
      (c : LfuCache V) (k : Bytes) (p : ℕ) (x : Held c k p) → value_at c k ≡ some x.e.value
  value_at-Held c k p x = rw x.is_p (rw x.is_e refl)

  -- Get on a valid cache, with frequencies below the largest int64, dereferences no nil: it returns
  -- the value held under the key, keeps every value, and leaves a valid cache.
  pub get_value-IsValid :
      (c : LfuCache V) (k : Bytes)
      → IsValid c
      → IsSmall c
      → (c' : LfuCache V) × (get_value c k ≡ done (c', value_at c k))
        × IsValid c'
        × ((j : Bytes) → value_at c' j ≡ value_at c j)
  unfolding get_value get_entry
  get_value-IsValid c k h small = elim (Option-cases (keys c k)) [
    | inl p ↦ (c, rw p refl, h, λ j. refl)
    | inr (p, at) ↦
        let x = Held-at c k p h at in
        (
          promote c p x.e x.l,
          get_value-Held c k p x
              ∙ ap (λ v. done (promote c p x.e x.l, v)) (sym (value_at-Held c k p x)),
          promote-IsValid c k p h small x,
          promote-value_at c k p x,
        )
  ]
