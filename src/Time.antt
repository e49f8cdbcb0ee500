-- ===== src/Time.antt =====
-- src/time.rs: durations and waiting by the main counter of the high precision timer. A duration
-- is its number of nanoseconds; the product of two `u64` fits `u128`.
pub mod Sleep
pub mod Timer
use os_test.Prelude.{
  ℕ, zero, suc, ◌+◌, ◌-◌, ◌*◌, ◌/◌, ◌^◌, Option, none, some, ◌==◌, ltb, leb, if◌then◌else◌,
}
use os_test.Prelude.Outcome.{Outcome, done, panic, ◌>>=◌, add64}
use os_test.Dev.Registers.{Registers}
use os_test.Dev.Hpet.{fs_per_tick, read_main_counter, timer, set_counter_raw}

pub record SmallDuration : Type 0 where
  pub inner : ℕ
  pub femto_seconds : ℕ

abbrev pub max_nanos : ℕ
max_nanos = (2 ^ 64 - 1) / 1000000

-- `SmallDuration::new`
unfoldable pub new : ℕ → Option SmallDuration
new duration =
    let fs = duration * 1000000 in
    if leb fs (2 ^ 64 - 1) then some (record { inner = duration; femto_seconds = fs }) else none

abbrev pub as_femto_secs : SmallDuration → ℕ
as_femto_secs duration = duration.femto_seconds

abbrev pub as_duration : SmallDuration → ℕ
as_duration duration = duration.inner

module _ {S : Type 0} (device : Registers S) where
  pub elapsed_fs : S → Outcome ℕ
  elapsed_fs s = do fs ← fs_per_tick device s; done (read_main_counter device s * fs)

  pub start_timer : SmallDuration → S → Outcome S
  start_timer duration s = do
    num ← timer device s 0
    fs ← fs_per_tick device s
    ticks ← if fs == 0 then panic else done (as_femto_secs duration / fs)
    val ← add64 (read_main_counter device s) ticks
    done (set_counter_raw device num s val)

  -- The device at each of the readings of `elapsed_fs`, which are not at the same time.
  module _ (clock : ℕ → S) where
    -- The loop of `poll_sleep`, on fuel: the number of the reading at which it ends. The
    -- subtraction of `u128` panics where the counter has gone back.
    pub poll : (fuel : ℕ) → (i now nanos : ℕ) → Outcome (Option ℕ)
    unfolding elapsed_fs
    poll zero i now nanos = done none
    poll (suc fuel) i now nanos =
        let rest = poll fuel (i + 1) now nanos in
        do
          elapsed ← elapsed_fs (clock i)
          elapsed_time_fs ← if leb now elapsed then done (elapsed - now) else panic
          let elapsed_time_ns = elapsed_time_fs / 1000000
          if ltb nanos elapsed_time_ns then done (some i) else rest

    pub poll_sleep : (fuel : ℕ) → (duration : ℕ) → Outcome (Option ℕ)
    unfolding poll elapsed_fs
    poll_sleep fuel duration = do now ← elapsed_fs (clock 0); poll fuel 1 now duration
