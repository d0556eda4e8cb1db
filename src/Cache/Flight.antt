-- ===== src/Cache/Flight.antt =====
-- Several goroutines in `Do` of cache/singleflight.go. A step is what one goroutine does between two
-- points where another may come in: a section under `mu`, the call of `fn`, and the operations of
-- the wait group.
pub mod Moves
pub mod Reached
pub mod Tests
use go_web.Prelude.{
  ℕ, suc, Bool, true, false, Option, none, some, List, [], ◌≡◌, get, put, delete, ℕ_discrete,
}
use mathlib.Core.Logic.{ite}
use go_web.Strings.{Bytes, Bytes-discrete}

abbrev pub update : {A : Type 0} → (ℕ → A) → ℕ → A → ℕ → A
update f i a j = ite (ℕ_discrete i j) a (f j)

-- `R` is what `fn` returns, a value and an error. `key` is the key that a call was made for.
pub record Call (R : Type 0) : Type 0 where
  pub key : Bytes
  pub val : Option R
  pub done : Bool

-- `SingleFlightGroup`, with the calls that its pointers point to and the next new pointer.
pub record Flight (R : Type 0) : Type 0 where
  pub m : List (Bytes × ℕ)
  pub calls : ℕ → Call R
  pub next : ℕ

-- Where a goroutine stands in `Do`, with the variables that are live there.
pub data Pc (R : Type 0) : Type 0 where
  idle : Pc R
  entered : (k : Bytes) → Pc R
  waiting : (k : Bytes) (c : ℕ) → Pc R
  loading : (k : Bytes) (c : ℕ) → Pc R
  loaded : (k : Bytes) (c : ℕ) (r : R) → Pc R
  released : (k : Bytes) (c : ℕ) (r : R) → Pc R
  crashed : (k : Bytes) (c : ℕ) → Pc R
  returned : (k : Bytes) (c : ℕ) (r : R) → Pc R

-- Any number of goroutines, interleaved in any order.
pub record System (R : Type 0) : Type 0 where
  pub flight : Flight R
  pub pc : ℕ → Pc R

module _ {R : Type 0} where
  abbrev pub new_call : Bytes → Call R
  new_call k = record { key = k; val = none; done = false }

  -- One step of one goroutine. `load` is the return of `fn` with its assignment to the call,
  -- `crash` a panic of `fn`, `release` is `wg.Done()`, and `awake` the end of `wg.Wait()`.
  pub data Move (s : Flight R) : Pc R → Flight R → Pc R → Type 0 where
    begin : (k : Bytes) → Move s idle s (entered k)
    join :
        {k : Bytes} {c : ℕ} → get Bytes-discrete k s.m ≡ some c → Move s (entered k) s (waiting k c)
    lead :
        {k : Bytes}
        → get Bytes-discrete k s.m ≡ none
        → Move s
            (entered k)
            (record s {
              m = put Bytes-discrete k s.next s.m;
              calls = update s.calls s.next (new_call k);
              next = suc s.next;
            })
            (loading k s.next)
    load :
        {k : Bytes} {c : ℕ} (r : R)
        → Move s
            (loading k c)
            (record s { calls = update s.calls c (record (s.calls c) { val = some r }) })
            (loaded k c r)
    crash : {k : Bytes} {c : ℕ} → Move s (loading k c) s (crashed k c)
    release :
        {k : Bytes} {c : ℕ} {r : R}
        → Move s
            (loaded k c r)
            (record s { calls = update s.calls c (record (s.calls c) { done = true }) })
            (released k c r)
    forget :
        {k : Bytes} {c : ℕ} {r : R}
        → Move s (released k c r) (record s { m = delete Bytes-discrete k s.m }) (returned k c r)
    awake :
        {k : Bytes} {c : ℕ} {r : R}
        → (s.calls c).done ≡ true
        → (s.calls c).val ≡ some r
        → Move s (waiting k c) s (returned k c r)

  pub data Step (s : System R) : System R → Type 0 where
    pick :
        (i : ℕ) {f : Flight R} {p : Pc R}
        → Move s.flight (s.pc i) f p
        → Step s (record { flight = f; pc = update s.pc i p })

  abbrev pub start_state : System R
  start_state = record {
    flight = record { m = []; calls = λ _. new_call []; next = 0 };
    pc = λ _. idle;
  }

  pub data Reach : System R → Type 0 where
    start : Reach start_state
    later : {s t : System R} → Reach s → Step s t → Reach t
