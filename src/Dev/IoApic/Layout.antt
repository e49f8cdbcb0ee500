-- ===== src/Dev/IoApic/Layout.antt =====
-- The layout of the redirection entries of src/dev/ioapic.rs, and where they are written.
use os_test.Prelude.{
  ℕ, ◌+◌, ◌*◌, ◌/◌, ◌%◌, ◌^◌, ◌<◌, ◌≡◌, ◌≢◌, Bool, true, false, if◌then◌else◌, arith, bit_and,
  bit_or, u32, ◌>>>◌, lt→ltb,
}
use os_test.Prelude.Bits.{bit_and-ones, bit_or-fields_low}
use os_test.Prelude.Outcome.{done}
use os_test.Dev.Registers.{Registers}
use os_test.Dev.IoApic.{
  DeliveryMode, DestinationMode, InterruptPolarity, TriggerMode, IoApicRedirectEntry, delivery_num,
  destination_num, polarity_num, trigger_num, as_raw, write_u32, redirect_irq, io_reg_select_offset,
  io_window_offset, fixed, lowest_priority, smi, nmi, init, ext_init, physical, logical,
  high_active, low_active, edge_sensitive, level_sensitive,
}

delivery_bound : (m : DeliveryMode) → delivery_num m < 8
delivery_bound fixed = omega arith
delivery_bound lowest_priority = omega arith
delivery_bound smi = omega arith
delivery_bound nmi = omega arith
delivery_bound init = omega arith
delivery_bound ext_init = omega arith

destination_bound : (m : DestinationMode) → destination_num m < 2
destination_bound physical = omega arith
destination_bound logical = omega arith

polarity_bound : (m : InterruptPolarity) → polarity_num m < 2
polarity_bound high_active = omega arith
polarity_bound low_active = omega arith

trigger_bound : (m : TriggerMode) → trigger_num m < 2
trigger_bound edge_sensitive = omega arith
trigger_bound level_sensitive = omega arith

mask_bound : (b : Bool) → (if b then 1 else 0) < 2
mask_bound true = omega arith
mask_bound false = omega arith

-- Seven fields that do not overlap.
fields :
    (a b c d e f g : ℕ)
    → a < 2 ^ 8
    → b < 8
    → c < 2
    → d < 2
    → e < 2
    → f < 2
    → g < 2
    → bit_or
        (bit_or
          (bit_or (bit_or (bit_or (bit_or a (b * 2 ^ 8)) (c * 2 ^ 11)) (d * 2 ^ 13)) (e * 2 ^ 15))
          (f * 2 ^ 16))
        (g * 2 ^ 56)
      ≡ a + b * 2 ^ 8 + c * 2 ^ 11 + d * 2 ^ 13 + e * 2 ^ 15 + f * 2 ^ 16 + g * 2 ^ 56
fields a b c d e f g ha hb hc hd he hf hg =
    rw
      (
        bit_or-fields_low 8 a b ha,
        bit_or-fields_low 11 (b * 2 ^ 8 + a) c (omega arith),
        bit_or-fields_low 13 (c * 2 ^ 11 + (b * 2 ^ 8 + a)) d (omega arith),
        bit_or-fields_low 15 (d * 2 ^ 13 + (c * 2 ^ 11 + (b * 2 ^ 8 + a))) e (omega arith),
        bit_or-fields_low 16 (e * 2 ^ 15 + (d * 2 ^ 13 + (c * 2 ^ 11 + (b * 2 ^ 8 + a)))) f
            (omega arith),
        bit_or-fields_low 56
            (f * 2 ^ 16 + (e * 2 ^ 15 + (d * 2 ^ 13 + (c * 2 ^ 11 + (b * 2 ^ 8 + a))))) g
            (omega arith),
      )
      (omega arith)

-- The fields of an entry whose interrupt number has 8 bits, at their places. Bits 56 to 63, which are for the destination, hold the
-- destination mode instead: the field `dest` is not used.
pub as_raw_layout :
    (e : IoApicRedirectEntry)
    → e.redirected_irq_num < 2 ^ 8
    → as_raw e
      ≡ e.redirected_irq_num
        + delivery_num e.delivery_mode * 2 ^ 8
        + destination_num e.destination_mode * 2 ^ 11
        + polarity_num e.interrupt_polarity * 2 ^ 13
        + trigger_num e.trigger_mode * 2 ^ 15
        + (if e.mask then 1 else 0) * 2 ^ 16
        + destination_num e.destination_mode * 2 ^ 56
unfolding as_raw
as_raw_layout e h =
    fields e.redirected_irq_num (delivery_num e.delivery_mode) (destination_num e.destination_mode)
      (polarity_num e.interrupt_polarity) (trigger_num e.trigger_mode) (if e.mask then 1 else 0)
      (destination_num e.destination_mode) h (delivery_bound e.delivery_mode)
      (destination_bound e.destination_mode) (polarity_bound e.interrupt_polarity)
      (trigger_bound e.trigger_mode) (mask_bound e.mask) (destination_bound e.destination_mode)

-- What the IO APIC finds in the two registers of an interrupt: the fields of the redirection entry
-- `e` at the places that its documentation gives them, in the low register, and no other bits. The
-- field of the destination, bits 24 to 31 of the high register, has the destination mode.
pub record IsRedirection (low high : ℕ) (e : IoApicRedirectEntry) : Type 0 where
  pub vector : low % 2 ^ 8 ≡ e.redirected_irq_num
  pub delivery : low / 2 ^ 8 % 2 ^ 3 ≡ delivery_num e.delivery_mode
  pub destination_mode : low / 2 ^ 11 % 2 ≡ destination_num e.destination_mode
  pub delivery_status : low / 2 ^ 12 % 2 ≡ 0
  pub polarity : low / 2 ^ 13 % 2 ≡ polarity_num e.interrupt_polarity
  pub remote_irr : low / 2 ^ 14 % 2 ≡ 0
  pub trigger : low / 2 ^ 15 % 2 ≡ trigger_num e.trigger_mode
  pub mask : low / 2 ^ 16 % 2 ≡ (if e.mask then 1 else 0)
  pub reserved : low / 2 ^ 17 ≡ 0
  pub reserved_high : high % 2 ^ 24 ≡ 0
  pub destination : high / 2 ^ 24 ≡ destination_num e.destination_mode

-- Seven fields at their places, and what is read from there.
module _ (r a b c d e f : ℕ) (ha : a < 2 ^ 8) (hb : b < 8) (hc : c < 2) (hd : d < 2) (he : e < 2)
    (hf : f < 2)
    (at : r ≡ a + b * 2 ^ 8 + c * 2 ^ 11 + d * 2 ^ 13 + e * 2 ^ 15 + f * 2 ^ 16 + c * 2 ^ 56) where
  low_word :
      u32 (bit_and r 0xffff_ffff)
      ≡ a + b * 2 ^ 8 + c * 2 ^ 11 + d * 2 ^ 13 + e * 2 ^ 15 + f * 2 ^ 16
  low_word = rw (bit_and-ones 32 r) (omega (arith, at))

  high_word : u32 (r >>> 32) ≡ c * 2 ^ 24
  high_word = omega (arith, at)

pub as_raw-IsRedirection :
    (e : IoApicRedirectEntry)
    → e.redirected_irq_num < 2 ^ 8
    → IsRedirection (u32 (bit_and (as_raw e) 0xffff_ffff)) (u32 (as_raw e >>> 32)) e
as_raw-IsRedirection e h =
    let b = delivery_bound e.delivery_mode in
    let c = destination_bound e.destination_mode in
    let d = polarity_bound e.interrupt_polarity in
    let t = trigger_bound e.trigger_mode in
    let m = mask_bound e.mask in
    let low =
      low_word (as_raw e) e.redirected_irq_num (delivery_num e.delivery_mode)
        (destination_num e.destination_mode) (polarity_num e.interrupt_polarity)
        (trigger_num e.trigger_mode) (if e.mask then 1 else 0) h b c d t m (as_raw_layout e h) in
    let high =
      high_word (as_raw e) e.redirected_irq_num (delivery_num e.delivery_mode)
        (destination_num e.destination_mode) (polarity_num e.interrupt_polarity)
        (trigger_num e.trigger_mode) (if e.mask then 1 else 0) h b c d t m (as_raw_layout e h) in
    record {
      vector = omega (arith, low, h, b, c, d, t, m);
      delivery = omega (arith, low, h, b, c, d, t, m);
      destination_mode = omega (arith, low, h, b, c, d, t, m);
      delivery_status = omega (arith, low, h, b, c, d, t, m);
      polarity = omega (arith, low, h, b, c, d, t, m);
      remote_irr = omega (arith, low, h, b, c, d, t, m);
      trigger = omega (arith, low, h, b, c, d, t, m);
      mask = omega (arith, low, h, b, c, d, t, m);
      reserved = omega (arith, low, h, b, c, d, t, m);
      reserved_high = omega (arith, high, c);
      destination = omega (arith, high, c);
    }

-- The fields make up the registers.
pub IsRedirection-sum :
    (low high : ℕ) (e : IoApicRedirectEntry)
    → IsRedirection low high e
    → low + high * 2 ^ 32
      ≡ e.redirected_irq_num
        + delivery_num e.delivery_mode * 2 ^ 8
        + destination_num e.destination_mode * 2 ^ 11
        + polarity_num e.interrupt_polarity * 2 ^ 13
        + trigger_num e.trigger_mode * 2 ^ 15
        + (if e.mask then 1 else 0) * 2 ^ 16
        + destination_num e.destination_mode * 2 ^ 56
IsRedirection-sum low high e r = omega (
  arith, r.vector, r.delivery, r.destination_mode, r.delivery_status, r.polarity, r.remote_irr,
  r.trigger, r.mask, r.reserved, r.reserved_high, r.destination,
)

-- On a device whose register `r` reads as `get s r`, and where a write of the window goes to the
-- selected register and to no other: for an interrupt below 24, redirected to a number of 8
-- bits, `redirect_irq` returns, and the two registers of the interrupt hold the fields of the entry,
-- each in its bits and with no other bits set: vector 0 to 7, delivery mode 8 to 10, destination
-- mode 11, polarity 13, trigger mode 15 and mask 16. Bits 56 to 63, for the destination, have the
-- destination mode: the field `dest` is not used.
pub redirect_irq-entry :
    {S : Type 0} (device : Registers S) (get : S → ℕ → ℕ)
    → ((s : S) (r val : ℕ)
        → get (device.store (device.store s io_reg_select_offset r) io_window_offset val) r ≡ val)
    → ((s : S) (r r' val : ℕ)
        → r' ≢ r
        → get (device.store (device.store s io_reg_select_offset r) io_window_offset val) r'
          ≡ get s r')
    → (s : S) (irq : ℕ) (e : IoApicRedirectEntry) → irq < 24
    → e.redirected_irq_num < 2 ^ 8
    → (after : S) × (redirect_irq device s irq e ≡ done after)
      × IsRedirection (get after (irq * 2 + 0x10)) (get after (irq * 2 + 0x10 + 1)) e
unfolding redirect_irq write_u32
redirect_irq-entry device get written kept s irq e small h = (
  write_u32 device (write_u32 device s reg low) (reg + 1) high,
  rw (lt→ltb (irq * 2 + 0x10) (2 ^ 8) (omega arith), redirect_irq),
  rw
      (
        kept (write_u32 device s reg low) (reg + 1) reg high (λ same. omega (arith, same)),
        written s reg low,
        written (write_u32 device s reg low) (reg + 1) high,
      )
      (as_raw-IsRedirection e h),
)
  where
    reg : ℕ
    reg = irq * 2 + 0x10

    low : ℕ
    low = u32 (bit_and (as_raw e) 0xffff_ffff)

    high : ℕ
    high = u32 (as_raw e >>> 32)
