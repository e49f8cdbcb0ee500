-- ===== src/Interrupts.antt =====
-- src/interrupts.rs: the guard that should keep interrupts off while a function runs. `rflags` reads
-- the flags of the processor, `cli` and `sti` are its instructions; S is the state they work on.
use os_test.Prelude.{ℕ, ◌≡◌, Bool, false, arith, ◌==◌, if◌then◌else◌, bit_and}
use os_test.Prelude.Bits.{bit_and-bit}

pub irq_is_enabled : (rflags : ℕ) → Bool
irq_is_enabled rflags = bit_and rflags 0x0200 == 1

pub record InterruptGuard (T : Type 0) : Type 0 where
  pub inner : T

module _ {S : Type 0} (rflags : S → ℕ) (cli sti : S → S) where
  pub interrupt_guard : {R : Type 0} → (func : S → S × R) → S → S × R
  unfolding irq_is_enabled
  interrupt_guard func s =
      let interrupts_enabled = irq_is_enabled (rflags s) in
      let s = if interrupts_enabled then cli s else s in
      let (s, result) = func s in (if interrupts_enabled then sti s else s, result)

  -- `InterruptGuard::guard`
  pub guard : {T R : Type 0} → InterruptGuard T → (func : T → S → S × R) → S → S × R
  unfolding interrupt_guard
  guard g func s = interrupt_guard (func g.inner) s

  -- `InterruptGuard::guard_mut`, where the function gives back what it made of the guarded value.
  pub guard_mut :
      {T R : Type 0}
      → InterruptGuard T
      → (func : T → S → S × (T × R)) → S
      → S × (InterruptGuard T × R)
  unfolding interrupt_guard
  guard_mut g func s =
      let (s, (inner, result)) = interrupt_guard (func g.inner) s in
      (s, (record { inner = inner }, result))

  -- `irq_disable` and `irq_enable`
  abbrev pub irq_disable : S → S
  irq_disable s = cli s

  abbrev pub irq_enable : S → S
  irq_enable s = sti s

-- `irq_is_enabled` answers no whatever the flags are: the masked flag is 0 or 0x200, never 1.
pub irq_is_enabled-never : (rflags : ℕ) → irq_is_enabled rflags ≡ false
unfolding irq_is_enabled
irq_is_enabled-never rflags = rw (bit_and-bit 9 rflags) (ground arith)

-- A guarded function runs in the state that the guard was called in, whatever the flags are, and
-- the guard adds nothing to what it does: it is the same as a call of the function alone,
-- without `cli` and `sti`.
pub guard-transparent :
    {S T R : Type 0} (rflags : S → ℕ) (cli sti : S → S) (g : InterruptGuard T)
    (func : T → S → S × R) (s : S)
    → guard rflags cli sti g func s ≡ func g.inner s
unfolding guard
guard-transparent rflags cli sti g func s = rw (irq_is_enabled-never (rflags s), guard)
