-- ===== src/Cache/Lfu/Links.antt =====
-- The links of the LFU cache (cache/LFU.go): from keys to entries, and from frequencies to lists of
-- entries, read as functions. A pointer may be detached, which stands in no list.
use go_web.Prelude.{
  ℕ, Bool, true, false, Option, none, some, List, [], ◌∷◌, ◌≡◌, ◌≢◌, refl, sym, ◌∙◌, maybe,
  ℕ_discrete, arith, subst, inl, inr, Bool-cases, if◌then◌else◌,
}
use mathlib.Core.Logic.{ite}
use go_web.Strings.{Bytes, Bytes-discrete}
use go_web.Cache.Lfu.{LfuEntry, unlink, is_empty}

-- Whether a pointer stands in a list, and that none stands twice.
abbrev pub has : ℕ → List ℕ → Bool
has p [] = false
has p (q ∷ l) = ite (ℕ_discrete p q) true (has p l)

abbrev pub Distinct : List ℕ → Type 0
Distinct [] = Unit
Distinct (q ∷ l) = (has q l ≡ false) × Distinct l

pub has-unlink :
    (p q : ℕ) (l : List ℕ) → Distinct l → has q (unlink p l) ≡ ite (ℕ_discrete q p) false (has q l)
unfolding unlink
has-unlink p q [] d = ground arith
has-unlink p q (x ∷ l) d = ground (arith, has-unlink p q l d.1)

pub Distinct-unlink : (p : ℕ) (l : List ℕ) → Distinct l → Distinct (unlink p l)
unfolding unlink
Distinct-unlink p [] d = tt
Distinct-unlink p (x ∷ l) d = ground (arith, Distinct-unlink p l d.1, has-unlink p x l d.1)

pub has-is_empty : (p : ℕ) (l : List ℕ) → has p l ≡ true → is_empty l ≡ false
has-is_empty p [] h = cc
has-is_empty p (x ∷ l) h = refl

module _ {V : Type 0} where
  -- Keys and lists agree, but for the pointer `out`, which stands in no list.
  pub record Linked (keys : Bytes → Option ℕ) (lists : ℕ → Option (List ℕ))
      (entries : ℕ → Option (LfuEntry V)) (out : ℕ) : Type 0 where
    pub keyed :
        (k : Bytes) (p : ℕ)
        → keys k ≡ some p
        → p ≢ out
        → (e : LfuEntry V) × (entries p ≡ some e)
          × (e.key ≡ k)
          × (l : List ℕ) × (lists e.freq ≡ some l)
          × (has p l ≡ true)
    pub listed :
        (f : ℕ) (l : List ℕ) (p : ℕ)
        → lists f ≡ some l
        → has p l ≡ true
        → (p ≢ out) × (e : LfuEntry V) × (entries p ≡ some e) × (e.freq ≡ f) × (keys e.key ≡ some p)
    pub plain : (f : ℕ) (l : List ℕ) → lists f ≡ some l → Distinct l × (is_empty l ≡ false)

-- What becomes of a list in the map: it goes when it is empty.
abbrev pub kept : List ℕ → Option (List ℕ)
kept l = if is_empty l then none else some l

abbrev pub list_or_new : Option (List ℕ) → List ℕ
list_or_new o = maybe [] (λ l. l) o

kept-some : (p : ℕ) (l : List ℕ) → has p l ≡ true → kept l ≡ some l
kept-some p l h = rw (has-is_empty p l h) refl

kept-eq-some : (l m : List ℕ) → kept l ≡ some m → (l ≡ m) × (is_empty m ≡ false)
kept-eq-some [] m h = cc
kept-eq-some (x ∷ l) m h = ground arith

list_or_new-has :
    (o : Option (List ℕ)) (q : ℕ)
    → has q (list_or_new o) ≡ true
    → (l : List ℕ) × (o ≡ some l) × (has q l ≡ true)
list_or_new-has none q h = cc
list_or_new-has (some l) q h = (l, refl, h)

module _ {V : Type 0} {keys : Bytes → Option ℕ} {lists lists' : ℕ → Option (List ℕ)}
    {entries : ℕ → Option (LfuEntry V)} where
  -- Taking an entry out of its list.
  pub Linked-detach :
      (out p : ℕ) (e : LfuEntry V) (l : List ℕ)
      → Linked keys lists entries out
      → ((k : Bytes) (q : ℕ) → keys k ≡ some q → q ≢ out)
      → entries p ≡ some e
      → lists e.freq ≡ some l
      → ((x : ℕ) → lists' x ≡ ite (ℕ_discrete x e.freq) (kept (unlink p l)) (lists x))
      → Linked keys lists' entries p
  Linked-detach out p e l h used is_e is_l changed = record {
    keyed = keyed;
    listed = listed;
    plain = plain;
  }
    where
      d : Distinct l
      d = (h.plain e.freq l is_l).0

      keyed :
          (k : Bytes) (q : ℕ)
          → keys k ≡ some q
          → q ≢ p
          → (e₁ : LfuEntry V) × (entries q ≡ some e₁)
            × (e₁.key ≡ k)
            × (m : List ℕ) × (lists' e₁.freq ≡ some m)
            × (has q m ≡ true)
      keyed k q at ne =
          let (e₁, is_e₁, same, m, is_m, stands) = h.keyed k q at (used k q at) in
          elim (ℕ_discrete e₁.freq e.freq) [
            | yes f ↦
                let still : has q (unlink p l) ≡ true = ground (arith, has-unlink p q l d) in
                (
                  e₁,
                  is_e₁,
                  same,
                  unlink p l,
                  ground (arith, changed e₁.freq, kept-some q (unlink p l)),
                  still,
                )
            | no f ↦ (e₁, is_e₁, same, m, ground (arith, changed e₁.freq), stands)
          ]

      listed :
          (f : ℕ) (m : List ℕ) (q : ℕ)
          → lists' f ≡ some m
          → has q m ≡ true
          → (q ≢ p)
            × (e₁ : LfuEntry V) × (entries q ≡ some e₁)
            × (e₁.freq ≡ f)
            × (keys e₁.key ≡ some q)
      listed f m q at stands = elim (ℕ_discrete f e.freq) [
        | yes same ↦
            let is_m = (kept-eq-some (unlink p l) m (ground (arith, changed f))).0 in
            let before : has q l ≡ true = ground (arith, has-unlink p q l d) in
            let ne : q ≢ p = ground (arith, has-unlink p q l d) in
            let (_, e₁, is_e₁, freq, key) = h.listed e.freq l q is_l before in
            (ne, e₁, is_e₁, freq ∙ sym same, key)
        | no other ↦
            let (_, e₁, is_e₁, freq, key) = h.listed f m q (ground (arith, changed f)) stands in
            (ground arith, e₁, is_e₁, freq, key)
      ]

      plain : (f : ℕ) (m : List ℕ) → lists' f ≡ some m → Distinct m × (is_empty m ≡ false)
      plain f m at = elim (ℕ_discrete f e.freq) [
        | yes same ↦
            let (is_m, nonempty) = kept-eq-some (unlink p l) m (ground (arith, changed f)) in
            (subst Distinct is_m (Distinct-unlink p l d), nonempty)
        | no other ↦ h.plain f m (ground (arith, changed f))
      ]

module _ {V : Type 0} {keys keys' : Bytes → Option ℕ} {lists lists' : ℕ → Option (List ℕ)}
    {entries entries' : ℕ → Option (LfuEntry V)} where
  -- Putting a detached entry at the front of a list, under its key.
  pub Linked-attach :
      (out p : ℕ) (e : LfuEntry V)
      → Linked keys lists entries p
      → ((q : ℕ) → keys e.key ≡ some q → q ≡ p)
      → ((k : Bytes) → keys k ≡ some p → k ≡ e.key)
      → ((k : Bytes) (q : ℕ) → keys' k ≡ some q → q ≢ out)
      → ((k : Bytes) → keys' k ≡ ite (Bytes-discrete k e.key) (some p) (keys k))
      → ((q : ℕ) → entries' q ≡ ite (ℕ_discrete q p) (some e) (entries q))
      → ((x : ℕ)
          → lists' x ≡ ite (ℕ_discrete x e.freq) (some (p ∷ list_or_new (lists e.freq))) (lists x))
      → Linked keys' lists' entries' out
  Linked-attach out p e h free own used keyed_by stored changed = record {
    keyed = keyed;
    listed = listed;
    plain = plain;
  }
    where
      front : has p (p ∷ list_or_new (lists e.freq)) ≡ true
      front = ground arith

      keyed :
          (k : Bytes) (q : ℕ)
          → keys' k ≡ some q
          → q ≢ out
          → (e₁ : LfuEntry V) × (entries' q ≡ some e₁)
            × (e₁.key ≡ k)
            × (m : List ℕ) × (lists' e₁.freq ≡ some m)
            × (has q m ≡ true)
      keyed k q at ne = elim (ℕ_discrete q p) [
        | yes same ↦ (
          e,
          ground (arith, stored q),
          ground (arith, keyed_by k, own k),
          p ∷ list_or_new (lists e.freq),
          ground (arith, changed e.freq),
          ground arith,
        )
        | no other ↦
            let (e₁, is_e₁, key, m, is_m, stands) =
              h.keyed k q (ground (arith, keyed_by k)) other in
            elim (ℕ_discrete e₁.freq e.freq) [
              | yes f ↦ (
                e₁,
                ground (arith, stored q),
                key,
                p ∷ list_or_new (lists e.freq),
                ground (arith, changed e₁.freq),
                rw (sym f) (rw is_m (ground arith)),
              )
              | no f ↦
                  (e₁, ground (arith, stored q), key, m, ground (arith, changed e₁.freq), stands)
            ]
      ]

      -- An entry that was linked before is linked as it was.
      moved :
          (f q : ℕ) {f' : ℕ}
          → q ≢ p
          → ((q ≢ p)
              × (e₁ : LfuEntry V) × (entries q ≡ some e₁)
              × (e₁.freq ≡ f')
              × (keys e₁.key ≡ some q))
          → f ≡ f'
          → (q ≢ out)
            × (e₁ : LfuEntry V) × (entries' q ≡ some e₁)
            × (e₁.freq ≡ f)
            × (keys' e₁.key ≡ some q)
      moved f q ne (_, e₁, is_e₁, freq, key) same =
          let key' : keys' e₁.key ≡ some q = ground (arith, keyed_by e₁.key, free q) in
          (used e₁.key q key', e₁, ground (arith, stored q), freq ∙ sym same, key')

      listed :
          (f : ℕ) (m : List ℕ) (q : ℕ)
          → lists' f ≡ some m
          → has q m ≡ true
          → (q ≢ out)
            × (e₁ : LfuEntry V) × (entries' q ≡ some e₁)
            × (e₁.freq ≡ f)
            × (keys' e₁.key ≡ some q)
      listed f m q at stands = elim (ℕ_discrete q p) [
        | yes same ↦ elim (ℕ_discrete f e.freq) [
          | yes here ↦
              let key : keys' e.key ≡ some q = ground (arith, keyed_by e.key) in
              (used e.key q key, e, ground (arith, stored q), sym here, key)
          | no there ↦ absurd ((h.listed f m q (ground (arith, changed f)) stands).0 same)
        ]
        | no other ↦ elim (ℕ_discrete f e.freq) [
          | yes here ↦
              let (l, is_l, before) =
                list_or_new-has (lists e.freq) q (ground (arith, changed f)) in
              moved f q other (h.listed e.freq l q is_l before) here
          | no there ↦ moved f q other (h.listed f m q (ground (arith, changed f)) stands) refl
        ]
      ]

      new_front : (o : Option (List ℕ)) → lists e.freq ≡ o → has p (list_or_new o) ≡ false
      new_front none is_o = refl
      new_front (some l) is_o = elim (Bool-cases (has p l)) [
        | inl stands ↦ absurd ((h.listed e.freq l p is_o stands).0 refl)
        | inr absent ↦ absent
      ]

      old : (o : Option (List ℕ)) → lists e.freq ≡ o → Distinct (list_or_new o)
      old none is_o = tt
      old (some l) is_o = (h.plain e.freq l is_o).0

      plain : (f : ℕ) (m : List ℕ) → lists' f ≡ some m → Distinct m × (is_empty m ≡ false)
      plain f m at = elim (ℕ_discrete f e.freq) [
        | yes here ↦
            let is_m : p ∷ list_or_new (lists e.freq) ≡ m = ground (arith, changed f) in
            subst (λ l. Distinct l × (is_empty l ≡ false)) is_m
              ((new_front (lists e.freq) refl, old (lists e.freq) refl), refl)
        | no there ↦ h.plain f m (ground (arith, changed f))
      ]

module _ {V : Type 0} {keys keys' : Bytes → Option ℕ} {lists : ℕ → Option (List ℕ)}
    {entries : ℕ → Option (LfuEntry V)} where
  -- Forgetting the key of a detached entry.
  pub Linked-forget :
      (out p : ℕ) (k : Bytes)
      → Linked keys lists entries p
      → keys k ≡ some p
      → ((j : Bytes) → keys' j ≡ ite (Bytes-discrete j k) none (keys j))
      → ((j : Bytes) → keys j ≡ some p → j ≡ k)
      → ((j : Bytes) (q : ℕ) → keys j ≡ some q → q ≢ out)
      → Linked keys' lists entries out
  Linked-forget out p k h at changed own used = record {
    keyed = λ j q is_q ne.
        let before : keys j ≡ some q = ground (arith, changed j) in
        let other : q ≢ p = ground (arith, changed j, own j) in h.keyed j q before other;
    listed = λ f l q is_l stands.
        let (ne, e, is_e, freq, key) = h.listed f l q is_l stands in
        (used e.key q key, e, is_e, freq, ground (arith, changed e.key));
    plain = h.plain;
  }
