-- ===== src/Cache/Flight/Moves.antt =====
-- What holds while goroutines are in `Do` (cache/singleflight.go), and that every step keeps it.
use go_web.Prelude.{
  ◌∙◌, ℕ, ◌<◌, Bool, true, false, Option, none, some, [], ◌≡◌, refl, sym, ap, get, delete, ◌⊎◌,
  arith, get-put_self, get-put_ne, get-delete_self, get-delete_ne,
}
use go_web.Strings.{Bytes, Bytes-discrete}
use go_web.Cache.Flight.{
  update, Flight, Pc, waiting, loading, loaded, released, crashed, returned, Move, join, lead, load,
  release, forget, awake,
}

some_or_none : {A : Type 0} {a : A} → some a ≡ none → ⊥
some_or_none e = cc

module _ {R : Type 0} where
  -- The call that a goroutine has registered, with its key.
  abbrev pub leads : Pc R → Option (Bytes × ℕ)
  leads (loading k c) = some (k, c)
  leads (loaded k c _) = some (k, c)
  leads (released k c _) = some (k, c)
  leads (crashed k c) = some (k, c)
  leads _ = none

  -- The key and the call at a place, if it has them.
  abbrev key_at : Pc R → Bytes
  key_at (waiting k c) = k
  key_at (loading k c) = k
  key_at (loaded k c _) = k
  key_at (released k c _) = k
  key_at (crashed k c) = k
  key_at _ = []

  abbrev call_at : Pc R → ℕ
  call_at (loading k c) = c
  call_at (loaded k c _) = c
  call_at (released k c _) = c
  call_at (crashed k c) = c
  call_at _ = 0

  abbrev pub has_value : Option R → Bool
  has_value none = false
  has_value (some r) = true

  -- What a goroutine's place says of the calls.
  abbrev pub IsSound : Flight R → Pc R → Type 0
  IsSound s (waiting k c) =
      (c < s.next)
      × ((s.calls c).key ≡ k)
      × ((((s.calls c).done ≡ true) × (has_value (s.calls c).val ≡ true))
          ⊎ (get Bytes-discrete k s.m ≡ some c))
  IsSound s (loading k c) = ((s.calls c).key ≡ k) × ((s.calls c).done ≡ false)
  IsSound s (loaded k c r) = ((s.calls c).key ≡ k) × ((s.calls c).val ≡ some r)
  IsSound s (released k c r) =
      ((s.calls c).key ≡ k) × ((s.calls c).val ≡ some r) × ((s.calls c).done ≡ true)
  IsSound s (crashed k c) = ((s.calls c).key ≡ k) × ((s.calls c).done ≡ false)
  IsSound s (returned k c r) =
      (c < s.next) × ((s.calls c).key ≡ k) × ((s.calls c).val ≡ some r) × ((s.calls c).done ≡ true)
  IsSound s _ = Unit

  pub record Inv (s : Flight R) (pc : ℕ → Pc R) : Type 0 where
    pub registered :
        (k : Bytes) (c : ℕ)
        → get Bytes-discrete k s.m ≡ some c
        → (i : ℕ) × (leads (pc i) ≡ some (k, c))
    pub leading :
        (i : ℕ) (k : Bytes) (c : ℕ)
        → leads (pc i) ≡ some (k, c)
        → (get Bytes-discrete k s.m ≡ some c) × (c < s.next)
    pub unique :
        (i j : ℕ) (k : Bytes) (c : ℕ)
        → leads (pc i) ≡ some (k, c)
        → leads (pc j) ≡ some (k, c)
        → i ≡ j
    pub sound : (i : ℕ) → IsSound s (pc i)

  module _ {s : Flight R} {pc : ℕ → Pc R} (inv : Inv s pc) (i : ℕ) where
    open inv use {registered, leading, unique, sound}

    Move-leading :
        {p p' : Pc R} {s' : Flight R}
        → Move s p s' p'
        → pc i ≡ p
        → (j : ℕ) (k : Bytes) (c : ℕ) → leads (update pc i p' j) ≡ some (k, c)
        → (get Bytes-discrete k s'.m ≡ some c) × (c < s'.next)
    Move-leading (lead {k} g) e j l d q = ground (
      arith,
      leading j l d,
      get-put_self Bytes-discrete k s.next s.m,
      get-put_ne Bytes-discrete k l s.next s.m,
    )
    Move-leading (forget {k} {c}) e j l d q =
        ground (
          arith,
          leading j l d,
          leading i k c,
          unique i j k c,
          get-delete_ne Bytes-discrete k l s.m,
        )
    Move-leading mv e j l d q = ground (arith, leading j l d, leading i l d)

    Move-unique :
        {p p' : Pc R} {s' : Flight R}
        → Move s p s' p'
        → pc i ≡ p
        → (a b : ℕ) (k : Bytes) (c : ℕ) → leads (update pc i p' a) ≡ some (k, c)
        → leads (update pc i p' b) ≡ some (k, c)
        → a ≡ b
    Move-unique (lead {k} g) e a b l d qa qb =
        ground (arith, unique a b l d, leading a l d, leading b l d)
    Move-unique mv e a b l d qa qb = ground (arith, unique a b l d)

    Move-registered :
        {p p' : Pc R} {s' : Flight R}
        → Move s p s' p'
        → pc i ≡ p
        → (k : Bytes) (c : ℕ) → get Bytes-discrete k s'.m ≡ some c
        → (j : ℕ) × (leads (update pc i p' j) ≡ some (k, c))
    Move-registered (lead {k} g) e l d q = elim (Bytes-discrete l k) [
      | yes same ↦ (i, ground (arith, get-put_self Bytes-discrete k s.next s.m))
      | no ne ↦
          let (j, held) = registered l d (sym (get-put_ne Bytes-discrete k l s.next s.m ne) ∙ q) in
          (j, ground arith)
    ]
    Move-registered (forget {k} {c}) e l d q = elim (Bytes-discrete l k) [
      | yes same ↦ absurd (
          some_or_none (
            sym q
            ∙ ap (λ x. get Bytes-discrete x (delete Bytes-discrete k s.m)) same
            ∙ get-delete_self Bytes-discrete k s.m))
      | no ne ↦
          let (j, held) = registered l d (sym (get-delete_ne Bytes-discrete k l s.m ne) ∙ q) in
          (j, ground (arith))
    ]
    Move-registered mv e l d q = let (j, held) = registered l d q in (j, ground arith)

    Move-IsSound :
        {p p' : Pc R} {s' : Flight R}
        → Move s p s' p'
        → pc i ≡ p
        → (j : ℕ) → IsSound s' (update pc i p' j)
    Move-IsSound (lead {k} g) e j = ground (
      arith,
      sound j,
      leading j (key_at (pc j)) (call_at (pc j)),
      get-put_self Bytes-discrete k s.next s.m,
      get-put_ne Bytes-discrete k (key_at (pc j)) s.next s.m,
    )
    Move-IsSound (join {k} {c} g) e j =
        let (l, held) = registered k c g in ground (arith, sound j, sound l, leading l k c)
    Move-IsSound (load {k} {c} r) e j = ground (arith, sound j, sound i, unique i j k c)
    Move-IsSound (release {k} {c}) e j = ground (arith, sound j, sound i, unique i j k c)
    Move-IsSound (forget {k} {c}) e j =
        ground (
          arith,
          sound j,
          sound i,
          leading i k c,
          get-delete_ne Bytes-discrete k (key_at (pc j)) s.m,
        )
    Move-IsSound (awake d v) e j = ground (arith, sound j, sound i)
    Move-IsSound mv e j = ground (arith, sound j, sound i)

    pub Move-Inv : {p' : Pc R} {s' : Flight R} → Move s (pc i) s' p' → Inv s' (update pc i p')
    Move-Inv mv = record {
      registered = Move-registered mv refl;
      leading = Move-leading mv refl;
      unique = Move-unique mv refl;
      sound = Move-IsSound mv refl;
    }
