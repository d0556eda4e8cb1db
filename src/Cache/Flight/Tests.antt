-- ===== src/Cache/Flight/Tests.antt =====
-- The theorems on the single flight at concrete states.
use go_web.Prelude.{ℕ, true, false, some, ◌≡◌, refl, get, put, ◌⊎◌, arith, ℕ_discrete, delete}
use go_web.Strings.{Bytes-discrete, bytes}
use go_web.Cache.Flight.{
  Pc, crashed, returned, Move, begin, join, lead, load, crash, release, forget, awake, System, pick,
  Reach, start, later,
}
use go_web.Cache.Flight.Moves.{Inv, leads}
use go_web.Cache.Flight.Reached.{
  has_crashed, Reach-Inv, one_load, returned_from_call, is_running, waits_for_running,
  crashed_blocks,
}

flight : Unit {0}
unfolding get put delete Bytes-discrete ℕ_discrete
flight = tt

-- Goroutine 0 runs `fn` for the key `a`, and goroutine 1 waits for it.
abbrev two : (s : System ℕ) × Reach s
unfolding flight
two = (
  _,
  later
      (later (later (later start (pick 0 (begin (bytes "a")))) (pick 0 (lead refl)))
        (pick 1 (begin (bytes "a"))))
      (pick 1 (join refl)),
)

-- Both have returned, or `fn` has panicked.
abbrev both_returned : (s : System ℕ) × Reach s
unfolding flight
both_returned = (
  _,
  later (later (later (later two.1 (pick 0 (load 7))) (pick 0 release)) (pick 1 (awake refl refl)))
      (pick 0 forget),
)

abbrev after_crash : (s : System ℕ) × Reach s
unfolding flight
after_crash = (_, later two.1 (pick 0 crash))

Reach-Inv_example : Inv both_returned.0.flight both_returned.0.pc
Reach-Inv_example = Reach-Inv both_returned.1

one_load_example : ◌≡◌ {A = ℕ} 0 0
unfolding flight
one_load_example = one_load 0 0 (bytes "a") 0 0 two.1 refl refl

returned_from_call_example :
    ((both_returned.0.flight.calls 0).key ≡ bytes "a")
    × ((both_returned.0.flight.calls 0).val ≡ some 7)
    × ((both_returned.0.flight.calls 0).done ≡ true)
unfolding flight
returned_from_call_example = returned_from_call 1 (bytes "a") 0 7 both_returned.1 refl

nobody_crashed : (j : ℕ) → has_crashed (two.0.pc j) ≡ false
unfolding flight
nobody_crashed j = ground arith

waits_for_running_example :
    ((x : ℕ) × Move two.0.flight (two.0.pc 1) two.0.flight (returned (bytes "a") 0 x))
    ⊎ ((j : ℕ) × (is_running (two.0.pc j) ≡ true) × (leads (two.0.pc j) ≡ some (bytes "a", 0)))
unfolding flight
waits_for_running_example = waits_for_running 1 (bytes "a") 0 two.1 nobody_crashed refl

crashed_blocks_example :
    (◌≡◌ {A = Pc ℕ} (crashed (bytes "a") 0) (crashed (bytes "a") 0))
    × (get Bytes-discrete (bytes "a") after_crash.0.flight.m ≡ some 0)
    × ((after_crash.0.flight.calls 0).done ≡ false)
unfolding flight
crashed_blocks_example =
    crashed_blocks 0 (bytes "a") 0 after_crash.1 refl (pick 2 (begin (bytes "a")))
