-- ===== src/Dev/LocalApic/Fields.antt =====
-- Which bits of their registers the operations of src/dev/local_apic.rs change.
use os_test.Prelude.{ℕ, ◌+◌, ◌-◌, ◌*◌, ◌/◌, ◌%◌, ◌^◌, ◌<◌, ◌≡◌, ◌∙◌, arith, bit_and, bit_or}
use os_test.Prelude.Bits.{bit_and-cut, bit_and-ones, bit_and-shifted, bit_or-fields, bit_or-bit}
use os_test.Dev.Registers.{Registers, Holds}
use os_test.Dev.LocalApic.{set_spurious_interrupt_irq, enable, disable, mask_timer, unmask_timer}

-- All bits of 32 but bit 16, and all but bit 8.
clear_mask :
    (old : ℕ) → old < 2 ^ 32 → bit_and old 0xfffe_ffff ≡ old / 2 ^ 17 * 2 ^ 17 + old % 2 ^ 16
clear_mask old small = omega (
  arith,
  bit_and-cut 17 old 0xfffe_ffff,
  bit_and-ones 15 (old / 2 ^ 17),
  bit_and-ones 16 (old % 2 ^ 17),
)

clear_enabled :
    (old : ℕ) → old < 2 ^ 32 → bit_and old 0xffff_feff ≡ old / 2 ^ 9 * 2 ^ 9 + old % 2 ^ 8
clear_enabled old small = omega (
  arith,
  bit_and-cut 9 old 0xffff_feff,
  bit_and-ones 23 (old / 2 ^ 9),
  bit_and-ones 8 (old % 2 ^ 9),
)

with_vector :
    (old irq : ℕ)
    → old < 2 ^ 32
    → irq < 256
    → bit_or (bit_and old 0xffff_ff00) irq ≡ old / 256 * 256 + irq
with_vector old irq small low =
    let above : bit_and old 0xffff_ff00 ≡ old / 256 * 2 ^ 8 =
      bit_and-shifted 8 old (2 ^ 24 - 1) ∙ omega (arith, bit_and-ones 24 (old / 2 ^ 8)) in
    rw above (bit_or-fields 8 (old / 256) irq low)

-- On a register of 32 bits that holds what is stored, for an interrupt below 256: setting the
-- spurious interrupt changes the low 8 bits to it and nothing else, `enable` after it sets bit 8 and
-- changes nothing else, and `disable` after that clears bit 8 and changes nothing else.
pub spurious_fields :
    {S : Type 0} (device : Registers S) (s : S) (irq : ℕ)
    → Holds device 0xF0
    → device.load s 0xF0 < 2 ^ 32
    → irq < 256
    → let old = device.load s 0xF0 in
      let set = set_spurious_interrupt_irq device s irq in
      let on = enable device set in
      (device.load set 0xF0 ≡ old / 256 * 256 + irq)
      × (device.load on 0xF0 ≡ old / 512 * 512 + 256 + irq)
      × (device.load (disable device on) 0xF0 ≡ old / 512 * 512 + irq)
unfolding set_spurious_interrupt_irq enable disable
spurious_fields device s irq holds small low =
    let old = device.load s 0xF0 in
    let set = set_spurious_interrupt_irq device s irq in
    let on = enable device set in
    let first : device.load set 0xF0 ≡ old / 256 * 256 + irq =
      holds s (bit_or (bit_and old 0xffff_ff00) irq) ∙ with_vector old irq small low in
    let second : device.load on 0xF0 ≡ old / 512 * 512 + 256 + irq =
      holds set (bit_or (device.load set 0xF0) 0x100)
      ∙ omega (arith, first, bit_or-bit 8 (device.load set 0xF0)) in
    (
      first,
      second,
      holds on (bit_and (device.load on 0xF0) 0xffff_feff)
          ∙ omega (arith, second, clear_enabled (device.load on 0xF0) (omega (arith, second))),
    )

-- On a register of 32 bits that holds what is stored: `mask_timer` sets bit 16 and changes nothing
-- else, and `unmask_timer` after it clears bit 16 and changes nothing else.
pub unmask_timer-mask_timer :
    {S : Type 0} (device : Registers S) (s : S)
    → Holds device 0x320
    → device.load s 0x320 < 2 ^ 32
    → let old = device.load s 0x320 in
      let masked = mask_timer device s in
      (device.load masked 0x320 ≡ old / 2 ^ 17 * 2 ^ 17 + 2 ^ 16 + old % 2 ^ 16)
      × (device.load (unmask_timer device masked) 0x320 ≡ old / 2 ^ 17 * 2 ^ 17 + old % 2 ^ 16)
unfolding mask_timer unmask_timer
unmask_timer-mask_timer device s holds small =
    let old = device.load s 0x320 in
    let masked = mask_timer device s in
    let first : device.load masked 0x320 ≡ old / 2 ^ 17 * 2 ^ 17 + 2 ^ 16 + old % 2 ^ 16 =
      holds s (bit_or old (2 ^ 16)) ∙ omega (arith, bit_or-bit 16 old) in
    (
      first,
      holds masked (bit_and (device.load masked 0x320) 0xfffe_ffff)
          ∙ omega (arith, first, clear_mask (device.load masked 0x320) (omega (arith, first))),
    )
