-- ===== src/Dev/Registers.antt =====
-- Volatile loads and stores of the registers of a device of src/dev, by the offset from the base
-- address that the ACPI tables give. A load leaves the device as it is.
use os_test.Prelude.{ℕ, ◌≡◌}

pub record Registers (S : Type 0) : Type 0 where
  pub load : S → ℕ → ℕ
  pub store : S → ℕ → ℕ → S

-- A register that holds what was stored in it.
abbrev pub Holds : {S : Type 0} → Registers S → ℕ → Type 0
Holds {S = S} device reg = (s : S) (val : ℕ) → device.load (device.store s reg val) reg ≡ val
