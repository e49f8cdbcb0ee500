-- ===== src/TestRunner/Counts.antt =====
-- The summary of the runner of src/test.rs, against the runs of the tests.
use os_test.Prelude.{
  ℕ, zero, suc, ◌+◌, ◌<◌, ◌≡◌, refl, ap, Bool, true, false, not, Option, some, List, [], ◌∷◌,
  length, get_elem?, leb, if◌then◌else◌, ◌∙◌, arith,
}
use os_test.TestRunner.{
  Testable, Tests, success, Exit, initial, ran, next_test, test_runner, panicked,
}

-- A test passes when it panics exactly where it should.
abbrev pub passes : Testable → Bool
passes t = if t.should_panic then t.panics else not t.panics

abbrev pub passed : List Testable → ℕ
passed [] = 0
passed (t ∷ ts) = (if passes t then 1 else 0) + passed ts

abbrev pub not_passed : List Testable → ℕ
not_passed [] = 0
not_passed (t ∷ ts) = (if passes t then 0 else 1) + not_passed ts

-- What is counted as a failure: a list without tests counts as one.
abbrev pub failures_of : List Testable → ℕ
failures_of [] = 1
failures_of (t ∷ ts) = not_passed (t ∷ ts)

-- The tests from number `k` on.
abbrev IsRest : List Testable → ℕ → List Testable → Type 0
IsRest ts k rest =
    (length ts ≡ k + length rest) × ((i : ℕ) → get_elem? ts (k + i) ≡ get_elem? rest i)

ran_lem :
    (t : Testable) (s : Tests)
    → s.should_current_test_panic ≡ false
    → ((ran t s).success_tests_num ≡ s.success_tests_num + (if passes t then 1 else 0))
      × ((ran t s).failed_tests_num ≡ s.failed_tests_num + (if passes t then 0 else 1))
      × ((ran t s).tests ≡ s.tests)
      × ((ran t s).current_test ≡ s.current_test)
unfolding ran panicked
ran_lem t s calm = ground (arith, calm)

abbrev pub exit_with : (succeeded failures : ℕ) → Option Exit
exit_with succeeded failures =
    some (record { code = success; succeeded = succeeded; failures = failures })

next_test_more :
    (fuel : ℕ) (s : Tests) (t : Testable) (ready : Tests)
    → ready ≡ record s { current_test = s.current_test + 1; should_current_test_panic = false }
    → s.current_test + 1 < length s.tests
    → get_elem? s.tests (s.current_test + 1) ≡ some t
    → next_test (suc fuel) s ≡ next_test fuel (ran t ready)
unfolding next_test
next_test_more fuel s t ready same below there =
    let on : leb (length s.tests) (s.current_test + 1) ≡ false = ground (arith, below) in
    rw (on, there, same) refl

next_test_end :
    (fuel : ℕ) (s : Tests)
    → s.current_test + 1 ≡ length s.tests
    → next_test (suc fuel) s ≡ exit_with s.success_tests_num s.failed_tests_num
unfolding next_test
next_test_end fuel s all =
    let over : leb (length s.tests) (s.current_test + 1) ≡ true = ground (arith, all) in
    rw over refl

exits : {m n p q : ℕ} → m ≡ n → p ≡ q → exit_with m p ≡ exit_with n q
exits e f = rw (e, f) refl

next_test_lem :
    (rest : List Testable) (fuel : ℕ) (s : Tests)
    → length rest < fuel
    → IsRest s.tests (s.current_test + 1) rest
    → next_test fuel s
      ≡ exit_with (s.success_tests_num + passed rest) (s.failed_tests_num + not_passed rest)
next_test_lem [] zero s low (size, there) = absurd (omega (arith, low))
next_test_lem [] (suc fuel) s low (size, there) =
    next_test_end fuel s (omega (arith, size)) ∙ exits (omega arith) (omega arith)
next_test_lem (t ∷ rest) zero s low (size, there) = absurd (omega (arith, low))
next_test_lem (t ∷ rest) (suc fuel) s low (size, there) =
    let ready : Tests = record s {
      current_test = s.current_test + 1;
      should_current_test_panic = false;
    } in
    let (succeeded, failures, same, at) = ran_lem t ready refl in
    next_test_more fuel s t ready refl (omega (arith, size))
      (ap (get_elem? s.tests) (omega arith) ∙ there 0)
    ∙ next_test_lem rest fuel (ran t ready) (omega (arith, low)) (
        rw (same, at)
          (omega (arith, size), λ i. ap (get_elem? s.tests) (omega arith) ∙ there (suc i)))
    ∙ exits (omega (arith, succeeded)) (omega (arith, failures))

one_add : (n : ℕ) → 0 + 1 + n ≡ suc n
one_add n = omega arith

passed-not_passed : (ts : List Testable) → passed ts + not_passed ts ≡ length ts
passed-not_passed [] = refl
passed-not_passed (t ∷ ts) = ground (arith, passed-not_passed ts)

test_runner_first :
    (fuel : ℕ) (t : Testable) (ts : List Testable)
    → test_runner fuel (t ∷ ts) initial ≡ next_test fuel (ran t (record initial { tests = t ∷ ts }))
unfolding test_runner
test_runner_first fuel t ts = refl

-- From the initial state, and on fuel for one round more than there are tests, the runner ends: the
-- numbers of its summary are those of the tests that pass and that do not pass, which are all
-- tests, and it ends with the code of success whether a test failed or not. A list without
-- tests counts as one failure.
pub test_runner_lem :
    (tests : List Testable)
    → (passed tests + not_passed tests ≡ length tests)
      × (test_runner (suc (length tests)) tests initial
          ≡ exit_with (passed tests) (failures_of tests))
unfolding test_runner
test_runner_lem [] = (refl, refl)
test_runner_lem (t ∷ ts) =
    let s : Tests = record initial { tests = t ∷ ts } in
    let (succeeded, failures, same, at) = ran_lem t s refl in
    (
      passed-not_passed (t ∷ ts),
      test_runner_first (suc (suc (length ts))) t ts
          ∙ next_test_lem ts (suc (suc (length ts))) (ran t s) (omega arith)
              (rw (same, at) (omega arith, λ i. ap (get_elem? (t ∷ ts)) (one_add i)))
          ∙ exits {m = (ran t s).success_tests_num + passed ts}
              {p = (ran t s).failed_tests_num + not_passed ts} (omega (arith, succeeded))
              (omega (arith, failures)),
    )
