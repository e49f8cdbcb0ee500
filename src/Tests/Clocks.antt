-- ===== src/Tests/Clocks.antt =====
-- Durations and timers of src/time.rs, and the runner of src/test.rs.
use os_test.Prelude.{
  ℕ, suc, ◌+◌, ◌*◌, ◌^◌, ◌≤◌, ◌≡◌, refl, true, false, some, [], ◌∷◌, ◌==◌, if◌then◌else◌, arith,
  length,
}
use os_test.Prelude.Outcome.{done}
use os_test.Dev.Registers.{Registers}
use os_test.Dev.Hpet.{fs_per_tick, read_main_counter}
use os_test.Time.{SmallDuration, poll_sleep}
use os_test.Time.Sleep.{IsBeyond, IsFirstBeyond, poll_sleep-IsFirstBeyond}
use os_test.TestRunner.{Testable, test_runner, initial}
use os_test.TestRunner.Counts.{passed, not_passed, failures_of, exit_with, test_runner_lem}

-- A timer of 10 nanoseconds for each tick: its main counter and one comparator.
abbrev Timer : Type 0
Timer = ℕ × ℕ

abbrev hpet : Registers Timer
hpet = record {
  load = λ s reg. if reg == 0 then 10000000 * 2 ^ 32 else if reg == 0xf0 then s.0 else s.1;
  store = λ s reg val. if reg == 0x108 then (s.0, val) else s;
}

-- A reading at every seventh tick.
abbrev clock : ℕ → Timer
clock i = (7 * i, 0)

rate : (s : Timer) → fs_per_tick hpet s ≡ done 10000000
unfolding fs_per_tick
rate s = refl

ahead : (i : ℕ) → i ≤ 15 → read_main_counter hpet (clock 0) ≤ read_main_counter hpet (clock i)
unfolding read_main_counter
ahead i low = omega (arith, low)

over :
    IsBeyond 1000
      (read_main_counter hpet (clock 0) * 10000000)
      (read_main_counter hpet (clock 15) * 10000000)
unfolding read_main_counter
over = omega arith

poll_sleep-IsFirstBeyond_example :
    (n : ℕ) × (poll_sleep hpet clock 15 1000 ≡ done (some n))
    × IsFirstBeyond
        (λ i. read_main_counter hpet (clock i) * 10000000)
        1000
        1
        (read_main_counter hpet (clock 0) * 10000000)
        n
poll_sleep-IsFirstBeyond_example =
    poll_sleep-IsFirstBeyond hpet clock 10000000 1000 15 15 (λ i low. rate (clock i)) ahead
      (omega arith) (omega arith) over

abbrev micro : SmallDuration
micro = record { inner = 1000; femto_seconds = 1000000000 }

-- A test that should panic and does, and one that should not and does.
abbrev expected : Testable
expected = record { should_panic = true; panics = true }

abbrev broken : Testable
broken = record { should_panic = false; panics = true }

test_runner_lem_example :
    (passed (expected ∷ broken ∷ []) + not_passed (expected ∷ broken ∷ [])
      ≡ length (expected ∷ broken ∷ []))
    × (test_runner (suc (length (expected ∷ broken ∷ []))) (expected ∷ broken ∷ []) initial
        ≡ exit_with (passed (expected ∷ broken ∷ [])) (failures_of (expected ∷ broken ∷ [])))
test_runner_lem_example = test_runner_lem (expected ∷ broken ∷ [])
