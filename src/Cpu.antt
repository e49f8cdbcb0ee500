-- ===== src/Cpu.antt =====
-- src/cpu.rs: what a processor sets up when it comes online. The guard and the lock of the shared
-- table are held around its changes, and the messages go to the console.
pub mod Gates
pub mod Online
pub mod Tick
use os_test.Prelude.{
  ℕ, ◌-◌, ◌%◌, ◌^◌, false, Option, none, some, List, length, get_elem?, set, ltb, leb,
  if◌then◌else◌, u8,
}
use os_test.Prelude.Outcome.{Outcome, done, panic, ◌>>=◌, unwrap}
use os_test.Idt.{Idt, IdtEntry, IdtEntryType, interrupt, insert}
use os_test.Dev.Registers.{Registers}
use os_test.Dev.Hpet
use os_test.Dev.IoApic.{IoApicRedirectEntry, high_active, physical, fixed, redirect_irq}
use os_test.Dev.LocalApic
use os_test.Time.{poll_sleep}

pub record PerCpu : Type 0 where
  pub lapic_ticks_per_ms : ℕ

abbrev pub max_cpu_count : ℕ
max_cpu_count = 32

-- The devices, `SHARED_IDT`, and `PERCPUS`, whose elements are not initialized at first.
pub record Machine (H I L : Type 0) : Type 0 where
  pub hpet : H
  pub ioapic : I
  pub lapic : L
  pub idt : Idt
  pub percpus : List (Option PerCpu)

-- `handler` gives the address of the function for an interrupt, `cs` the code segment.
module _ (handler : ℕ → ℕ) (cs : ℕ) where
  pub insert_handler : ℕ → Idt → Outcome Idt
  insert_handler irq idt =
      insert idt irq (record { entry_type = interrupt (handler irq); gdt_kernel_cs = cs })

  -- The changes of the table in `local_apic_init`.
  pub insert_handlers : Idt → Outcome Idt
  insert_handlers idt = do
    with_33 ← insert_handler 33 idt
    with_34 ← insert_handler 34 with_33
    insert_handler 35 with_34

module _ {L : Type 0} (lapic : Registers L) where
  -- The local APIC when the sleep begins.
  pub calibrating : L → L
  calibrating s =
      let spurious = LocalApic.set_spurious_interrupt_irq lapic s 33 in
      let timed = LocalApic.set_lvt_timer_irq lapic spurious 34 in
      let told = LocalApic.set_lvt_error_irq lapic timed 35 in
      let divided = LocalApic.set_timer_div lapic told 1 in
      LocalApic.set_timer_init_count lapic divided (2 ^ 32 - 1)

  -- `None` is memory that is not initialized.
  pub percpu : {H I : Type 0} → Machine H I L → Outcome (Option PerCpu)
  percpu m = unwrap (get_elem? m.percpus (LocalApic.id lapic m.lapic))

module _ {H I L : Type 0} (hpet : Registers H) (ioapic : Registers I) (lapic : Registers L) where
  module _ (handler : ℕ → ℕ) (cs : ℕ) where
    pub hpet_init : Machine H I L → Outcome (Machine H I L)
    unfolding insert_handler
    hpet_init m = do
      num ← Hpet.timer hpet m.hpet 0
      let enabled = Hpet.enable_timer hpet num m.hpet
      let irq_redirection : IoApicRedirectEntry = record {
        dest = u8 (LocalApic.id lapic m.lapic);
        mask = false;
        trigger_mode = Hpet.trigger_mode hpet num enabled;
        interrupt_polarity = high_active;
        destination_mode = physical;
        delivery_mode = fixed;
        redirected_irq_num = 32;
      }
      let mapped = Hpet.enable_legacy_mapping hpet enabled
      redirected ← redirect_irq ioapic m.ioapic 2 irq_redirection
      idt ← insert_handler handler cs 32 m.idt
      done (record m { hpet = Hpet.enable hpet mapped; ioapic = redirected; idt = idt })

    -- `clock` is the timer at each of its readings, and `run` what the local APIC has done by a
    -- reading. `None` where the fuel for the sleep does not last.
    module _ (fuel : ℕ) (clock : ℕ → H) (run : ℕ → L → L) where
      pub local_apic_init : Machine H I L → Outcome (Option (Machine H I L × ℕ))
      unfolding calibrating insert_handlers
      local_apic_init m = do
        idt ← insert_handlers handler cs m.idt
        woken ← poll_sleep hpet clock fuel 1000000
        elim woken [
          | none ↦ done none
          | some reading ↦ (do
            let ran = run reading (calibrating lapic m.lapic)
            let count = LocalApic.current_count lapic ran
            ticks_per_ms ← if leb count (2 ^ 32 - 1) then done (2 ^ 32 - 1 - count) else panic
            let stopped = LocalApic.set_timer_init_count lapic ran 0
            done (some (record m { lapic = stopped; idt = idt }, ticks_per_ms)))
        ]

      -- `cpu_main_rs`, up to its last loop
      pub cpu_main_rs : Machine H I L → Outcome (Option (Machine H I L))
      unfolding local_apic_init
      cpu_main_rs m = do
        calibrated ← local_apic_init m
        elim calibrated [
          | none ↦ done none
          | some (m', lapic_ticks_per_ms) ↦
              (let id = LocalApic.id lapic m'.lapic in
                if ltb id (length m'.percpus)
                then done (
                    some (record m' {
                      percpus =
                          set m'.percpus id
                            (some (record { lapic_ticks_per_ms = lapic_ticks_per_ms }));
                    }))
                else panic)
        ]
