-- ===== src/Dev/IoApic.antt =====
-- src/dev/ioapic.rs: the registers behind the select register and the window, and the entries of
-- the redirection table.
pub mod Layout
use os_test.Prelude.{
  ℕ, ◌+◌, ◌*◌, ◌/◌, ◌%◌, ◌^◌, ◌>>>◌, ◌<<<◌, Bool, if◌then◌else◌, ltb, bit_and, bit_or, u32,
}
use os_test.Prelude.Outcome.{Outcome, done, panic, ◌>>=◌}
use os_test.Dev.Registers.{Registers}

pub data DeliveryMode : Type 0 where
  fixed lowest_priority smi nmi init ext_init : DeliveryMode

pub data DestinationMode : Type 0 where
  physical logical : DestinationMode

pub data InterruptPolarity : Type 0 where
  high_active low_active : InterruptPolarity

pub data TriggerMode : Type 0 where
  edge_sensitive level_sensitive : TriggerMode

-- The numbers of the variants.
abbrev pub delivery_num : DeliveryMode → ℕ
delivery_num fixed = 0
delivery_num lowest_priority = 1
delivery_num smi = 2
delivery_num nmi = 4
delivery_num init = 5
delivery_num ext_init = 7

abbrev pub destination_num : DestinationMode → ℕ
destination_num physical = 0
destination_num logical = 1

abbrev pub polarity_num : InterruptPolarity → ℕ
polarity_num high_active = 0
polarity_num low_active = 1

abbrev pub trigger_num : TriggerMode → ℕ
trigger_num edge_sensitive = 0
trigger_num level_sensitive = 1

pub record IoApicRedirectEntry : Type 0 where
  pub dest : ℕ
  pub mask : Bool
  pub trigger_mode : TriggerMode
  pub interrupt_polarity : InterruptPolarity
  pub destination_mode : DestinationMode
  pub delivery_mode : DeliveryMode
  pub redirected_irq_num : ℕ

pub as_raw : IoApicRedirectEntry → ℕ
as_raw e =
    bit_or
      (bit_or
        (bit_or
          (bit_or
            (bit_or (bit_or e.redirected_irq_num (delivery_num e.delivery_mode <<< 8))
              (destination_num e.destination_mode <<< 11))
            (polarity_num e.interrupt_polarity <<< 13))
          (trigger_num e.trigger_mode <<< 15))
        ((if e.mask then 1 else 0) <<< 16))
      (destination_num e.destination_mode <<< 56)

abbrev pub io_reg_select_offset : ℕ
io_reg_select_offset = 0

abbrev pub io_window_offset : ℕ
io_window_offset = 0x10

abbrev pub ioapicver_reg : ℕ
ioapicver_reg = 0x1

abbrev pub ioapic_id_reg : ℕ
ioapic_id_reg = 0

module _ {S : Type 0} (device : Registers S) where
  pub reg_select : S → ℕ → S
  reg_select s reg = device.store s io_reg_select_offset reg

  pub write_u32 : S → ℕ → ℕ → S
  unfolding reg_select
  write_u32 s reg val = device.store (reg_select s reg) io_window_offset val

  -- The select register keeps the number, so that a read changes the state.
  pub read_u32 : S → ℕ → S × ℕ
  unfolding reg_select
  read_u32 s reg = let s = reg_select s reg in (s, device.load s io_window_offset)

  unfoldable pub version : S → S × ℕ
  unfolding read_u32
  version s = let (s, val) = read_u32 s ioapicver_reg in (s, bit_and val 0xff)

  unfoldable pub maximum_redirections : S → S × ℕ
  unfolding read_u32
  maximum_redirections s = let (s, val) = read_u32 s ioapicver_reg in (s, bit_and (val >>> 16) 0xff)

  unfoldable pub id : S → S × ℕ
  unfolding read_u32
  id s = let (s, val) = read_u32 s ioapic_id_reg in (s, bit_and (val >>> 24) 0xf)

  -- `irq_num` is a `u8`, and so is the number of the register.
  pub redirect_irq : S → ℕ → IoApicRedirectEntry → Outcome S
  unfolding as_raw write_u32
  redirect_irq s irq_num entry =
      if ltb (irq_num * 2 + 0x10) (2 ^ 8)
      then (do
        let reg_num = irq_num * 2 + 0x10
        let low = u32 (bit_and (as_raw entry) 0xffff_ffff)
        let high = u32 (as_raw entry >>> 32)
        done (write_u32 (write_u32 s reg_num low) (reg_num + 1) high))
      else panic
