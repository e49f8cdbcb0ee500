-- ===== src/TestRunner.antt =====
-- src/test.rs: the runner of the kernel's tests. A test does not return to a loop: it, or the panic
-- handler, goes on to the next one.
pub mod Counts
use os_test.Prelude.{
  ℕ, zero, suc, ◌+◌, Bool, true, false, not, Option, none, some, List, [], ◌∷◌, length, get_elem?,
  leb, if◌then◌else◌,
}

-- The run of a test: whether `should_panic!` has been reached when it ends, and whether it ends by a
-- panic.
pub record Testable : Type 0 where
  pub should_panic : Bool
  pub panics : Bool

pub record Tests : Type 0 where
  pub should_current_test_panic : Bool
  pub current_test : ℕ
  pub tests : List Testable
  pub failed_tests_num : ℕ
  pub success_tests_num : ℕ

pub data QemuExitCode : Type 0 where
  success failed : QemuExitCode

-- The end of the machine: the code, and the two numbers of the summary.
pub record Exit : Type 0 where
  pub code : QemuExitCode
  pub succeeded : ℕ
  pub failures : ℕ

-- `TESTS`
abbrev pub initial : Tests
initial = record {
  should_current_test_panic = false;
  current_test = 0;
  tests = [];
  failed_tests_num = 0;
  success_tests_num = 0;
}

-- `Tests::success` and `Tests::failed`
abbrev pub count_success : Tests → Tests
count_success s = record s { success_tests_num = s.success_tests_num + 1 }

abbrev pub count_failed : Tests → Tests
count_failed s = record s { failed_tests_num = s.failed_tests_num + 1 }

-- `should_panic!`
abbrev pub set_should_panic : Tests → Tests
set_should_panic s = record s { should_current_test_panic = true }

-- The panic handler, up to `next_test`.
pub panicked : Tests → Tests
panicked s = if s.should_current_test_panic then count_success s else count_failed s

-- `run_test` and the panic handler, up to `next_test`.
pub ran : Testable → Tests → Tests
unfolding panicked
ran test s =
    let s' : Tests = if test.should_panic then set_should_panic s else s in
    if test.panics
    then panicked s'
    else if s'.should_current_test_panic
    then count_failed s'
    else count_success s'

-- `next_test`, and with it all that comes behind; on fuel.
pub next_test : (fuel : ℕ) → Tests → Option Exit
unfolding ran panicked
next_test zero s = none
next_test (suc fuel) s =
    let current = s.current_test + 1 in
    let ready : Tests = record s { current_test = current; should_current_test_panic = false } in
    let rest : Option Exit = elim (get_elem? s.tests current) [
      | none ↦ next_test fuel (panicked ready)
      | some test ↦ next_test fuel (ran test ready)
    ] in
    if leb (length s.tests) current
    then some
        (record { code = success; succeeded = s.success_tests_num; failures = s.failed_tests_num })
    else rest

-- `test_runner`: the index into an empty list panics, in the handler above.
pub test_runner : (fuel : ℕ) → List Testable → Tests → Option Exit
unfolding next_test ran
test_runner fuel tests s =
    let ready : Tests = record s {
      current_test = 0;
      should_current_test_panic = false;
      tests = tests;
    } in
    elim (get_elem? tests 0) [
      | none ↦ next_test fuel (panicked ready)
      | some test ↦ next_test fuel (ran test ready)
    ]
