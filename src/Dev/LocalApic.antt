-- ===== src/Dev/LocalApic.antt =====
-- src/dev/local_apic.rs: the registers of the interrupt controller of the processor, each 32 bits.
pub mod Fields
use os_test.Prelude.{ℕ, ◌^◌, ◌>>>◌, bit_and, bit_or}
use os_test.Dev.Registers.{Registers}

module _ {S : Type 0} (device : Registers S) where
  unfoldable pub read : S → ℕ → ℕ
  read s register = device.load s register

  unfoldable pub write : S → ℕ → ℕ → S
  write s register val = device.store s register val

  unfoldable pub version : S → ℕ
  unfolding read
  version s = bit_and (read s 0x30) 0xff

  unfoldable pub id : S → ℕ
  unfolding read
  id s = read s 0x20 >>> 24

  unfoldable pub eoi : S → S
  unfolding write
  eoi s = write s 0xB0 0

  unfoldable pub set_spurious_interrupt_irq : S → ℕ → S
  unfolding read write
  set_spurious_interrupt_irq s irq =
      let old = read s 0xF0 in write s 0xF0 (bit_or (bit_and old 0xffff_ff00) irq)

  unfoldable pub enable : S → S
  unfolding read write
  enable s = let old = read s 0xF0 in write s 0xF0 (bit_or old 0x100)

  -- `!0x100` on 32 bits
  pub disable : S → S
  unfolding read write
  disable s = let old = read s 0xF0 in write s 0xF0 (bit_and old 0xffff_feff)

  unfoldable pub set_timer_init_count : S → ℕ → S
  unfolding write
  set_timer_init_count s count = write s 0x380 count

  unfoldable pub set_lvt_timer_irq : S → ℕ → S
  unfolding write
  set_lvt_timer_irq s irq = write s 0x320 irq

  pub mask_timer : S → S
  unfolding read write
  mask_timer s = let old = read s 0x320 in write s 0x320 (bit_or old (2 ^ 16))

  -- `!(1 << 16)` on 32 bits
  pub unmask_timer : S → S
  unfolding read write
  unmask_timer s = let old = read s 0x320 in write s 0x320 (bit_and old 0xfffe_ffff)

  unfoldable pub set_timer_div : S → ℕ → S
  unfolding write
  set_timer_div s div = write s 0x3e0 div

  unfoldable pub current_count : S → ℕ
  unfolding read
  current_count s = read s 0x390

  unfoldable pub set_lvt_error_irq : S → ℕ → S
  unfolding write
  set_lvt_error_irq s irq = write s 0x370 irq
