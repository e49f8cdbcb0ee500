-- ===== src/Time/Sleep.antt =====
-- `poll_sleep` of src/time.rs ends, and not before the duration has passed.
use native.Mathlib.Nat.{mul-le-mul_right}
use native.Mathlib.Decide.{dec_le}
use os_test.Prelude.{
  ℕ, zero, suc, ◌+◌, ◌-◌, ◌*◌, ◌/◌, ◌≤◌, ◌<◌, ◌≡◌, inl, inr, refl, some, true, ltb→lt, ◌==◌, ltb,
  leb, if◌then◌else◌, arith, Bool-cases,
}
use os_test.Prelude.Outcome.{done}
use os_test.Dev.Registers.{Registers}
use os_test.Dev.Hpet.{fs_per_tick, read_main_counter}
use os_test.Time.{elapsed_fs, poll, poll_sleep}

-- More than `nanos` nanoseconds lie between two times in femtoseconds.
abbrev pub IsBeyond : (nanos now t : ℕ) → Type 0
IsBeyond nanos now t = nanos < (t - now) / 1000000

-- Reading `i` is the first one after `from` that is beyond.
abbrev pub IsFirstBeyond : (at : ℕ → ℕ) → (nanos from now i : ℕ) → Type 0
IsFirstBeyond at nanos from now i =
    (from ≤ i)
    × IsBeyond nanos now (at i)
    × ((j : ℕ) → from ≤ j → j < i → ¬ IsBeyond nanos now (at j))

module _ {S : Type 0} (device : Registers S) (clock : ℕ → S) (at : ℕ → ℕ) (last : ℕ)
    (reads : (i : ℕ) → i ≤ last → elapsed_fs device (clock i) ≡ done (at i))
    (ahead : (i : ℕ) → i ≤ last → at 0 ≤ at i) where
  poll_step :
      (fuel i nanos : ℕ)
      → i ≤ last
      → poll device clock (suc fuel) i (at 0) nanos ≡ (
          if ltb nanos ((at i - at 0) / 1000000)
          then done (some i)
          else poll device clock fuel (i + 1) (at 0) nanos)
  unfolding poll
  poll_step fuel i nanos low =
      let there : leb (at 0) (at i) ≡ true = ground (arith, ahead i low) in
      rw (reads i low, there) refl

  still_before :
      (nanos i n : ℕ)
      → ¬ IsBeyond nanos (at 0) (at i)
      → ((j : ℕ) → i + 1 ≤ j → j < n → ¬ IsBeyond nanos (at 0) (at j))
      → (j : ℕ) → i ≤ j
      → j < n
      → ¬ IsBeyond nanos (at 0) (at j)
  still_before nanos i n first before j low high = elim (Bool-cases (i == j)) [
    | inl same ↦ let at_i : i ≡ j = ground (arith, same) in rw (← at_i) first
    | inr differ ↦ before j (ground (arith, low, differ)) high
  ]

  poll_first :
      (fuel i nanos : ℕ)
      → i ≤ last
      → last < i + fuel
      → IsBeyond nanos (at 0) (at last)
      → (n : ℕ) × (poll device clock fuel i (at 0) nanos ≡ done (some n))
        × IsFirstBeyond at nanos i (at 0) n
  poll_first zero i nanos low room over = absurd (omega (arith, low, room))
  poll_first (suc less) i nanos low room over =
      elim (Bool-cases (ltb nanos ((at i - at 0) / 1000000))) [
        | inl beyond ↦ (
          i,
          rw (poll_step less i nanos low, beyond) refl,
          (omega arith, ltb→lt nanos _ beyond, λ j from to. absurd (omega (arith, from, to))),
        )
        | inr early ↦
            let not_yet : ¬ IsBeyond nanos (at 0) (at i) = λ h. ground (arith, h, early) in
            let more : i + 1 ≤ last = elim (dec_le (i + 1) last) [
              | yes behind ↦ behind
              | no end ↦
                  let same : i ≡ last = omega (arith, low, end) in absurd (not_yet (rw same over))
            ] in
            let (n, ends, (from, passed, before)) =
              poll_first less (i + 1) nanos more (omega (arith, room)) over in
            (
              n,
              rw (poll_step less i nanos low, early) ends,
              (omega (arith, from), passed, still_before nanos i n not_yet before),
            )
      ]

-- Where up to some reading of the main counter no reading is behind the first one, the tick has a
-- constant number of femtoseconds, and at this reading, which is a later one, more nanoseconds than
-- the duration have passed since the first: `poll_sleep` ends on fuel for as many rounds, or more.
-- It returns at the first reading by which more nanoseconds than the duration have passed since it
-- was called, and at no reading before that one.
pub poll_sleep-IsFirstBeyond :
    {S : Type 0} (device : Registers S) (clock : ℕ → S) (fs duration last fuel : ℕ)
    → ((i : ℕ) → i ≤ last → fs_per_tick device (clock i) ≡ done fs)
    → ((i : ℕ) → i ≤ last → read_main_counter device (clock 0) ≤ read_main_counter device (clock i))
    → 0 < last
    → last ≤ fuel
    → IsBeyond duration
        (read_main_counter device (clock 0) * fs)
        (read_main_counter device (clock last) * fs)
    → (n : ℕ) × (poll_sleep device clock fuel duration ≡ done (some n))
      × IsFirstBeyond
          (λ i. read_main_counter device (clock i) * fs)
          duration
          1
          (read_main_counter device (clock 0) * fs)
          n
unfolding poll_sleep elapsed_fs
poll_sleep-IsFirstBeyond device clock fs duration last fuel rate ahead pos enough over =
    rw (rate 0 (omega arith)) (
      poll_first device clock (λ i. read_main_counter device (clock i) * fs) last
        (λ i low. rw (rate i low) refl) (λ i low. mul-le-mul_right fs (ahead i low)) fuel 1 duration
        (omega (arith, pos)) (omega (arith, enough)) over)
