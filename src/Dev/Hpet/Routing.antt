-- ===== src/Dev/Hpet/Routing.antt =====
-- The interrupt that a timer of src/dev/hpet.rs is routed to, and the guard of the main counter.
use os_test.Prelude.{ℕ, ◌/◌, ◌%◌, ◌^◌, ◌≡◌, ◌<◌, ◌∙◌, true, some, ◌<<<◌, bit_or, arith}
use os_test.Prelude.Bits.{bit_or-shifted, bit_or-one, bit_and-ones}
use os_test.Prelude.Outcome.{done, panic}
use os_test.Dev.Registers.{Registers, Holds}
use os_test.Dev.Hpet.{
  general_capabilities_reg_num, general_configuration_register, route_irq_to, can_route_irq_to,
  enable, is_enabled, set_main_counter_raw,
}

-- The field of a timer's register with the interrupt it is routed to, from bit 9 on.
abbrev pub routed : ℕ → ℕ
routed reg = reg / 2 ^ 9

-- On a register that holds what is stored: where the timer can be routed to an interrupt up to 23,
-- `route_irq_to` says that it is, and the register has that interrupt or-ed to the number that was
-- there before; the bits below the field are kept.
pub route_irq_to_field :
    {S : Type 0} (device : Registers S) (num irq : ℕ) (s : S)
    → Holds device (general_capabilities_reg_num num)
    → irq < 24
    → can_route_irq_to device num s irq ≡ done true
    → (after : S) × (route_irq_to device num s irq ≡ done (after, some irq))
      × (routed (device.load after (general_capabilities_reg_num num))
          ≡ bit_or (routed (device.load s (general_capabilities_reg_num num))) irq)
      × (device.load after (general_capabilities_reg_num num) % 2 ^ 9
          ≡ device.load s (general_capabilities_reg_num num) % 2 ^ 9)
unfolding route_irq_to
route_irq_to_field device num irq s holds small can =
    let old = device.load s (general_capabilities_reg_num num) in
    let kept = holds s (bit_or old (irq <<< 9)) ∙ bit_or-shifted 9 old irq in
    (
      device.store s (general_capabilities_reg_num num) (bit_or old (irq <<< 9)),
      rw (can, route_irq_to) (ground arith),
      omega (arith, kept),
      omega (arith, kept),
    )

-- Once the timer is enabled it says so, and its main counter cannot be set.
pub enable-set_main_counter_raw :
    {S : Type 0} (device : Registers S) (s : S) (val : ℕ)
    → Holds device general_configuration_register
    → (is_enabled device (enable device s) ≡ true)
      × (set_main_counter_raw device (enable device s) val ≡ panic)
unfolding enable is_enabled set_main_counter_raw
enable-set_main_counter_raw device s val holds = (on, rw (on, set_main_counter_raw))
  where
    on : is_enabled device (enable device s) ≡ true
    on =
        let old = device.load s general_configuration_register in
        rw (holds s (bit_or old 1), bit_and-ones 1 (bit_or old 1), bit_or-one old) (ground arith)
