-- ===== src/Cpu/Tick.antt =====
-- What `hpet_init` of src/cpu.rs leaves: where the interrupt of the timer goes.
use os_test.Prelude.{
  ℕ, ◌+◌, ◌*◌, ◌^◌, ◌<◌, ◌≡◌, ◌≢◌, refl, sym, ◌∙◌, false, some, length, get_elem?, set, arith, u8,
  get_elem?-set_self, get_elem?-set_ne,
}
use os_test.Prelude.Outcome.{done}
use os_test.Dev.Registers.{Registers}
use os_test.Dev.Hpet
use os_test.Dev.IoApic.{
  IoApicRedirectEntry, trigger_num, high_active, physical, fixed, io_reg_select_offset,
  io_window_offset,
}
use os_test.Dev.IoApic.Layout.{IsRedirection-sum, redirect_irq-entry}
use os_test.Dev.LocalApic
use os_test.Time.Timer.{timer_zero}
use os_test.Cpu.{Machine, hpet_init}
use os_test.Cpu.Gates.{gate, insert_handler_lem}

module _ {H I L : Type 0} (hpet : Registers H) (ioapic : Registers I) (lapic : Registers L)
    (handler : ℕ → ℕ) (cs : ℕ) (get : I → ℕ → ℕ)
    (written : (s : I) (r val : ℕ)
      → get (ioapic.store (ioapic.store s io_reg_select_offset r) io_window_offset val) r ≡ val)
    (kept : (s : I) (r r' val : ℕ)
      → r' ≢ r
      → get (ioapic.store (ioapic.store s io_reg_select_offset r) io_window_offset val) r'
        ≡ get s r') where
  -- The entry that is written for the interrupt.
  abbrev entry_of : Machine H I L → IoApicRedirectEntry
  entry_of m = record {
    dest = u8 (LocalApic.id lapic m.lapic);
    mask = false;
    trigger_mode = Hpet.trigger_mode hpet 0 (Hpet.enable_timer hpet 0 m.hpet);
    interrupt_polarity = high_active;
    destination_mode = physical;
    delivery_mode = fixed;
    redirected_irq_num = 32;
  }

  -- On an IO APIC whose registers hold what is written, and with a table that has the interrupt 32:
  -- `hpet_init` returns; the interrupt 2 then goes, not masked, to the interrupt 32 with the trigger mode
  -- of the timer, and to the processor 0, whatever the number of this processor; the interrupt 32
  -- has its handler, and the other interrupts have what they had.
  pub hpet_init-redirect_irq :
      (m : Machine H I L)
      → 32 < length m.idt
      → (after : Machine H I L) × (hpet_init hpet ioapic lapic handler cs m ≡ done after)
        × (get after.ioapic 0x14 + get after.ioapic 0x15 * 2 ^ 32
            ≡ 32
              + trigger_num (Hpet.trigger_mode hpet 0 (Hpet.enable_timer hpet 0 m.hpet)) * 2 ^ 15)
        × (get_elem? after.idt 32 ≡ some (gate handler cs 32))
        × ((irq : ℕ) → irq ≢ 32 → get_elem? after.idt irq ≡ get_elem? m.idt irq)
  unfolding hpet_init
  hpet_init-redirect_irq m room =
      let (redirected, runs, holds) =
        redirect_irq-entry ioapic get written kept m.ioapic 2 (entry_of m) (omega arith)
          (omega arith) in
      (
        record m {
          hpet =
              Hpet.enable hpet (Hpet.enable_legacy_mapping hpet (Hpet.enable_timer hpet 0 m.hpet));
          ioapic = redirected;
          idt = set m.idt 32 (gate handler cs 32);
        },
        rw (timer_zero hpet m.hpet, runs, insert_handler_lem handler cs 32 m.idt room) refl,
        IsRedirection-sum _ _ (entry_of m) holds ∙ omega arith,
        get_elem?-set_self m.idt 32 (gate handler cs 32) room,
        λ irq ne. get_elem?-set_ne m.idt (gate handler cs 32) (λ h. ne (sym h)),
      )
