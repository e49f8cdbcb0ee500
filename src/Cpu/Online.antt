-- ===== src/Cpu/Online.antt =====
-- What `cpu_main_rs` of src/cpu.rs leaves for a processor.
use os_test.Prelude.{
  ℕ, ◌-◌, ◌*◌, ◌/◌, ◌≤◌, ◌⊎◌, inl, inr, if◌then◌else◌, ◌^◌, ◌<◌, ◌≡◌, ◌≢◌, refl, sym, ◌==◌, ap, ◌∙◌,
  true, Option, some, length, get_elem?, set, ltb, leb, arith, get_elem?-set_self, get_elem?-set_ne,
  ◌>>>◌,
}
use os_test.Prelude.Outcome.{done}
use os_test.Dev.Registers.{Registers}
use os_test.Dev.LocalApic
use os_test.Dev.Hpet.{fs_per_tick, read_main_counter}
use os_test.Time.Sleep.{IsBeyond, IsFirstBeyond, poll_sleep-IsFirstBeyond}
use os_test.Cpu.Gates.{gate, with_gates, with_gates-other, with_gates-gate, insert_handlers_lem}
use os_test.Cpu.{PerCpu, Machine, percpu, calibrating, local_apic_init, cpu_main_rs}

-- By what the local APIC divides the ticks of its bus, for a value of the divide configuration
-- register 0x3e0, whose bits 0, 1 and 3 say it.
abbrev pub divider : ℕ → ℕ
divider value =
    if value == 0
    then 2
    else if value == 1
    then 4
    else if value == 2
    then 8
    else if value == 3
    then 16
    else if value == 8
    then 32
    else if value == 9
    then 64
    else if value == 10
    then 128
    else 1

-- What the local APIC does with its registers: the number 0x20 and the divider 0x3e0 change with no
-- store to another register, the initial count 0x380 and the divider hold what is stored, and the
-- current count 0x390 goes down from the initial count, by one for `divider` ticks of the bus, to 0.
-- `bus` are the ticks by each reading.
pub record Counts {L : Type 0} (lapic : Registers L) (run : ℕ → L → L) (bus : ℕ → ℕ) : Type 0 where
  pub keeps :
      (s : L) (reg other val : ℕ)
      → other ≢ reg
      → (other ≡ 0x20) ⊎ (other ≡ 0x3e0)
      → lapic.load (lapic.store s reg val) other ≡ lapic.load s other
  pub starts : (s : L) (val : ℕ) → val < 2 ^ 32 → lapic.load (lapic.store s 0x380 val) 0x380 ≡ val
  pub divides : (s : L) (val : ℕ) → val < 4 → lapic.load (lapic.store s 0x3e0 val) 0x3e0 ≡ val
  pub runs_on : (n : ℕ) (s : L) → lapic.load (run n s) 0x20 ≡ lapic.load s 0x20
  pub counts :
      (n : ℕ) (s : L)
      → lapic.load (run n s) 0x390 ≡ lapic.load s 0x380 - bus n / divider (lapic.load s 0x3e0)

module _ {H I L : Type 0} (hpet : Registers H) (ioapic : Registers I) (lapic : Registers L)
    (handler : ℕ → ℕ) (cs fuel : ℕ) (clock : ℕ → H) (run : ℕ → L → L) (bus : ℕ → ℕ)
    (device : Counts lapic run bus) where
  keeps_id :
      (s : L) (reg val : ℕ)
      → 0x20 ≢ reg
      → lapic.load (lapic.store s reg val) 0x20 ≡ lapic.load s 0x20
  keeps_id s reg val ne = device.keeps s reg 0x20 val ne (inl refl)

  calibrating-id : (s : L) → lapic.load (calibrating lapic s) 0x20 ≡ lapic.load s 0x20
  unfolding calibrating LocalApic.set_spurious_interrupt_irq LocalApic.set_lvt_timer_irq
      LocalApic.set_lvt_error_irq LocalApic.set_timer_div LocalApic.set_timer_init_count
      LocalApic.write
  calibrating-id s =
      keeps_id _ 0x380 _ (λ h. omega (arith, h))
      ∙ keeps_id _ 0x3e0 _ (λ h. omega (arith, h))
      ∙ keeps_id _ 0x370 _ (λ h. omega (arith, h))
      ∙ keeps_id _ 0x320 _ (λ h. omega (arith, h))
      ∙ keeps_id s 0xF0 _ (λ h. omega (arith, h))

  calibrating-divider : (s : L) → lapic.load (calibrating lapic s) 0x3e0 ≡ 1
  unfolding calibrating LocalApic.set_timer_div LocalApic.set_timer_init_count LocalApic.write
  calibrating-divider s =
      device.keeps _ 0x380 0x3e0 _ (λ h. omega (arith, h)) (inr refl)
      ∙ device.divides _ 1 (omega arith)

  calibrating-count : (s : L) → lapic.load (calibrating lapic s) 0x380 ≡ 2 ^ 32 - 1
  unfolding calibrating LocalApic.set_timer_init_count LocalApic.write
  calibrating-count s = device.starts _ (2 ^ 32 - 1) (omega arith)

  -- The count at a reading: a fourth of the ticks of the bus are gone.
  count_at :
      (reading : ℕ) (s : L)
      → LocalApic.current_count lapic (run reading (calibrating lapic s))
        ≡ 2 ^ 32 - 1 - bus reading / 4
  unfolding LocalApic.current_count LocalApic.read
  count_at reading s =
      device.counts reading (calibrating lapic s)
      ∙ rw (calibrating-count s, calibrating-divider s) refl

  stopped-id :
      (reading : ℕ) (s : L)
      → LocalApic.id lapic
          (LocalApic.set_timer_init_count lapic (run reading (calibrating lapic s)) 0)
        ≡ LocalApic.id lapic s
  unfolding LocalApic.id LocalApic.read LocalApic.set_timer_init_count LocalApic.write
  stopped-id reading s =
      ap (λ (n : ℕ). n >>> 24)
        (keeps_id _ 0x380 _ (λ h. omega (arith, h))
          ∙ device.runs_on reading (calibrating lapic s)
          ∙ calibrating-id s)

  -- The ticks that fit the count.
  abbrev pub ticks_by : ℕ → ℕ
  ticks_by reading = if leb (bus reading / 4) (2 ^ 32 - 1) then bus reading / 4 else 2 ^ 32 - 1

  ticks : (n : ℕ) → 2 ^ 32 - 1 - (2 ^ 32 - 1 - bus n / 4) ≡ ticks_by n
  ticks n = ground arith

  -- For a local APIC that counts as it is documented to, with the number of the processor in range,
  -- a table that has the interrupts, and a main counter of which up to some reading no reading is
  -- behind the first one, with a constant tick, and at this reading more than a millisecond has
  -- passed: on fuel for as many rounds, or more, `cpu_main_rs` gets to its last loop. At the first
  -- reading by which more than a millisecond has passed the ticks are taken: `percpu` then has a
  -- fourth of the ticks of the bus up to that reading, or all 32 bits where they are more. The data
  -- of other processors are as before, the interrupts 33 to 35 have their handlers, and other
  -- interrupts have what they had.
  pub cpu_main_rs-percpu :
      (m : Machine H I L) (fs last : ℕ)
      → 35 < length m.idt
      → LocalApic.id lapic m.lapic < length m.percpus
      → ((i : ℕ) → i ≤ last → fs_per_tick hpet (clock i) ≡ done fs)
      → ((i : ℕ) → i ≤ last → read_main_counter hpet (clock 0) ≤ read_main_counter hpet (clock i))
      → 0 < last
      → last ≤ fuel
      → IsBeyond 1000000
          (read_main_counter hpet (clock 0) * fs)
          (read_main_counter hpet (clock last) * fs)
      → (reading : ℕ) × (after : Machine H I L) × IsFirstBeyond
          (λ i. read_main_counter hpet (clock i) * fs)
          1000000
          1
          (read_main_counter hpet (clock 0) * fs)
          reading
        × (cpu_main_rs hpet ioapic lapic handler cs fuel clock run m ≡ done (some after))
        × (percpu lapic after ≡ done (some (record { lapic_ticks_per_ms = ticks_by reading })))
        × ((other : ℕ)
            → other ≢ LocalApic.id lapic m.lapic
            → get_elem? after.percpus other ≡ get_elem? m.percpus other)
        × ((get_elem? after.idt 33 ≡ some (gate handler cs 33))
            × (get_elem? after.idt 34 ≡ some (gate handler cs 34))
            × (get_elem? after.idt 35 ≡ some (gate handler cs 35)))
        × ((irq : ℕ)
            → irq ≢ 33
            → irq ≢ 34
            → irq ≢ 35
            → get_elem? after.idt irq ≡ get_elem? m.idt irq)
  unfolding cpu_main_rs local_apic_init percpu
  cpu_main_rs-percpu m fs last room here rate ahead pos enough over =
      let (reading, woken, first) =
        poll_sleep-IsFirstBeyond hpet clock fs 1000000 last fuel rate ahead pos enough over in
      let ran : L = run reading (calibrating lapic m.lapic) in
      let stopped : L = LocalApic.set_timer_init_count lapic ran 0 in
      let id : ℕ = LocalApic.id lapic m.lapic in
      let same : LocalApic.id lapic stopped ≡ id = stopped-id reading m.lapic in
      let fits : leb (2 ^ 32 - 1 - bus reading / 4) (2 ^ 32 - 1) ≡ true = ground arith in
      let within : ltb id (length m.percpus) ≡ true = ground (arith, here) in
      let data_ : Option PerCpu = some (record { lapic_ticks_per_ms = ticks_by reading }) in
      (
        reading,
        record m {
          lapic = stopped;
          idt = with_gates handler cs m.idt room;
          percpus = set m.percpus id data_;
        },
        first,
        rw
            (
              insert_handlers_lem handler cs m.idt room,
              woken,
              count_at reading m.lapic,
              fits,
              ticks reading,
              same,
              within,
            )
            refl,
        rw (same, get_elem?-set_self m.percpus id data_ here) refl,
        λ other ne. get_elem?-set_ne m.percpus data_ (λ h. ne (sym h)),
        with_gates-gate handler cs m.idt room,
        with_gates-other handler cs m.idt room,
      )
