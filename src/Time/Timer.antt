-- ===== src/Time/Timer.antt =====
-- `SmallDuration` and `start_timer` of src/time.rs.
use os_test.Prelude.{
  ℕ, ◌-◌, ◌*◌, ◌^◌, ◌≤◌, ◌<◌, ◌≡◌, ◌⊎◌, inl, inr, refl, Bool-cases, some, none, leb, arith,
}
use os_test.Prelude.Outcome.{done}
use os_test.Dev.Registers.{Registers}
use os_test.Dev.Hpet.{timer, num_timers}
use os_test.Time.{SmallDuration, max_nanos, new, as_femto_secs, as_duration}

-- `SmallDuration::new` accepts exactly the durations of at most `MAX_NANOS` nanoseconds, and then
-- the femtoseconds fit 64 bits, are those of the duration, and the duration is kept.
pub new_lem :
    (duration : ℕ)
    → ((duration ≤ max_nanos)
        × ((small : SmallDuration) × (new duration ≡ some small)
            × (as_femto_secs small ≡ duration * 1000000)
            × (as_femto_secs small < 2 ^ 64)
            × (as_duration small ≡ duration)))
      ⊎ ((max_nanos < duration) × (new duration ≡ none))
unfolding new
new_lem duration = elim (Bool-cases (leb (duration * 1000000) (2 ^ 64 - 1))) [
  | inl fits ↦ inl (
    ground (arith, fits),
    (
      record { inner = duration; femto_seconds = duration * 1000000 },
      rw fits refl,
      refl,
      ground (arith, fits),
      refl,
    ),
  )
  | inr wide ↦ inr (ground (arith, wide), rw wide refl)
]

-- There is always a first timer.
pub timer_zero : {S : Type 0} (device : Registers S) (s : S) → timer device s 0 ≡ done 0
unfolding timer num_timers
timer_zero device s = ground arith
