-- ===== src/Cache/Flight/Reached.antt =====
-- What holds of every reachable state of a single flight (cache/singleflight.go).
use go_web.Prelude.{
  ℕ, Bool, true, false, Option, none, some, ◌≡◌, refl, get, ◌⊎◌, inl, inr, arith, ap, sym, subst,
  ap, ◌∙◌, ℕ_discrete,
}
use go_web.Strings.{Bytes, Bytes-discrete}
use go_web.Cache.Flight.{
  Flight, Pc, waiting, loading, loaded, released, crashed, returned, Move, System, Step, pick,
  start_state, Reach, start, later, begin, awake,
}
use go_web.Cache.Flight.Moves.{Inv, IsSound, has_value, leads, Move-Inv}

module _ {R : Type 0} where
  start-Inv : Inv {R = R} start_state.flight start_state.pc
  unfolding get
  start-Inv = record {
    registered = λ k c q. cc;
    leading = λ i k c q. cc;
    unique = λ i j k c p q. cc;
    sound = λ i. tt;
  }

  -- In every reachable state: a key stands in the map exactly while some goroutine has registered
  -- its call and not deleted it, a call is registered by one goroutine, and what a goroutine has
  -- seen of its call agrees with the call.
  pub Reach-Inv : {s : System R} → Reach s → Inv s.flight s.pc
  Reach-Inv start = start-Inv
  Reach-Inv (later r (pick i mv)) = Move-Inv (Reach-Inv r) i mv

  -- Two goroutines are never in `fn` for one key.
  pub one_load :
      {s : System R} (i j : ℕ) (k : Bytes) (c d : ℕ)
      → Reach s
      → s.pc i ≡ loading k c
      → s.pc j ≡ loading k d
      → i ≡ j
  one_load {s} i j k c d r p q =
      let inv = Reach-Inv r in
      ground (arith, inv.leading i k c, inv.leading j k d, inv.unique i j k c)

  -- What `Do` returns, to the goroutine that ran `fn` and to those that waited, is the result of a
  -- call made for its key, which has ended.
  pub returned_from_call :
      {s : System R} (i : ℕ) (k : Bytes) (c : ℕ) (x : R)
      → Reach s
      → s.pc i ≡ returned k c x
      → ((s.flight.calls c).key ≡ k)
        × ((s.flight.calls c).val ≡ some x)
        × ((s.flight.calls c).done ≡ true)
  returned_from_call {s} i k c x r p = let inv = Reach-Inv r in ground (arith, inv.sound i)

  -- A goroutine that runs `fn` or the code after it, and not one whose `fn` has panicked.
  abbrev pub is_running : Pc R → Bool
  is_running (loading k c) = true
  is_running (loaded k c r) = true
  is_running (released k c r) = true
  is_running _ = false

  abbrev pub has_crashed : Pc R → Bool
  has_crashed (crashed k c) = true
  has_crashed _ = false

  has_value-some : (o : Option R) → has_value o ≡ true → (x : R) × (o ≡ some x)
  has_value-some none h = cc
  has_value-some (some x) h = (x, refl)

  is_running-leads :
      (p : Pc R) (k : Bytes) (c : ℕ)
      → leads p ≡ some (k, c)
      → has_crashed p ≡ false
      → is_running p ≡ true
  is_running-leads p k c h a = ground arith

  -- No goroutine waits in vain: while no `fn` has panicked, a goroutine that waits can go on at once
  -- and return, or some goroutine runs `fn` or the code after it for the same call.
  pub waits_for_running :
      {s : System R} (i : ℕ) (k : Bytes) (c : ℕ)
      → Reach s
      → ((j : ℕ) → has_crashed (s.pc j) ≡ false)
      → s.pc i ≡ waiting k c
      → ((x : R) × Move s.flight (s.pc i) s.flight (returned k c x))
        ⊎ ((j : ℕ) × (is_running (s.pc j) ≡ true) × (leads (s.pc j) ≡ some (k, c)))
  waits_for_running {s} i k c r alive p =
      let inv = Reach-Inv r in
      let (_, _, state) = subst (IsSound s.flight) p (inv.sound i) in
      elim state [
        | inl (done, valued) ↦
            let (x, v) = has_value-some (s.flight.calls c).val valued in
            inl (x, subst (λ q. Move s.flight q s.flight (returned k c x)) (sym p) (awake done v))
        | inr held ↦
            let (j, leader) = inv.registered k c held in
            inr (j, is_running-leads (s.pc j) k c leader (alive j), leader)
      ]

  crashed_still :
      {f f' : Flight R} {q q' : Pc R} (k : Bytes) (c : ℕ) → q ≡ crashed k c → Move f q f' q' → ⊥
  crashed_still k c e (begin l) = cc
  crashed_still k c e mv = cc

  crashed_stays :
      {s t : System R} (i : ℕ) (k : Bytes) (c : ℕ)
      → s.pc i ≡ crashed k c
      → Step s t
      → t.pc i ≡ crashed k c
  crashed_stays {s} i k c p (pick j mv) = elim (ℕ_discrete j i) [
    | yes e ↦ absurd (crashed_still k c (ap s.pc e ∙ p) mv)
    | no ne ↦ ground arith
  ]

  -- Once `fn` has panicked, the goroutine stays where it is whatever step is taken, its key stands
  -- in the map, and the call of the key is not done.
  pub crashed_blocks :
      {s t : System R} (i : ℕ) (k : Bytes) (c : ℕ)
      → Reach s
      → s.pc i ≡ crashed k c
      → Step s t
      → (t.pc i ≡ crashed k c)
        × (get Bytes-discrete k t.flight.m ≡ some c)
        × ((t.flight.calls c).done ≡ false)
  crashed_blocks {s} {t} i k c r p st =
      let inv = Reach-Inv (later r st) in
      let stays = crashed_stays i k c p st in ground (arith, inv.leading i k c, inv.sound i)
