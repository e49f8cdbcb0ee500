-- ===== src/Prelude/Outcome.antt =====
-- What a call of code that can panic gives: a value, or the end of the run.
use Prim.Native.Nat.{ℕ, ◌+◌, ◌-◌, ◌*◌, ◌%◌, ◌^◌}
use mathlib.Core.Bool.{Bool, true, false}
use mathlib.Core.Path.{◌≡◌, refl}
use mathlib.Core.Logic.{◌⊎◌, inl, inr}
use mathlib.Core.Option.{Option, none, some}
use os_test.Prelude.Tests.{ltb, leb, ◌==◌, if◌then◌else◌}

pub data Outcome {ℓ} (A : Type ℓ) : Type ℓ where
  done : A → Outcome A
  panic : Outcome A

infixl 5 ◌>>=◌ ◌>>◌
abbrev pub ◌>>=◌ {ℓ κ} : {A : Type ℓ} {B : Type κ} → Outcome A → (A → Outcome B) → Outcome B
done a >>= f = f a
panic >>= f = panic

abbrev pub ◌>>◌ {ℓ} : {B : Type ℓ} → Outcome (Unit {0}) → Outcome B → Outcome B
m >> k = m >>= λ _. k

-- `assert!`
abbrev pub assert : Bool → Outcome (Unit {0})
assert true = done tt
assert false = panic

-- `Option::unwrap`, and an index into a slice
abbrev pub unwrap {ℓ} : {A : Type ℓ} → Option A → Outcome A
unwrap none = panic
unwrap (some a) = done a

-- Arithmetic on `u64` and `usize` under the overflow checks of the dev profile.
abbrev pub add64 : ℕ → ℕ → Outcome ℕ
add64 a b = if ltb (a + b) (2 ^ 64) then done (a + b) else panic

abbrev pub sub64 : ℕ → ℕ → Outcome ℕ
sub64 a b = if leb b a then done (a - b) else panic

abbrev pub mul64 : ℕ → ℕ → Outcome ℕ
mul64 a b = if ltb (a * b) (2 ^ 64) then done (a * b) else panic

abbrev pub rem64 : ℕ → ℕ → Outcome ℕ
rem64 a b = if b == 0 then panic else done (a % b)

-- To split on the outcome of a call and keep the equation.
pub Outcome-cases {ℓ} : {A : Type ℓ} (o : Outcome A) → ((a : A) × (o ≡ done a)) ⊎ (o ≡ panic)
Outcome-cases (done a) = inl (a, refl)
Outcome-cases panic = inr refl
