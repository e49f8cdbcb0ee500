-- ===== src/Tests/Processors.antt =====
-- A processor that comes online, for src/cpu.rs.
use os_test.Prelude.{
  ℕ, ◌+◌, ◌/◌, ◌≤◌, leb, ◌-◌, ◌*◌, ◌^◌, ◌<◌, ◌≡◌, ◌≢◌, refl, some, none, [], ◌∷◌, ◌==◌,
  if◌then◌else◌, arith, length, get_elem?, replicate,
}
use os_test.Prelude.Outcome.{done}
use os_test.Idt.{zeroed}
use os_test.Dev.Registers.{Registers}
use os_test.Dev.Hpet.{fs_per_tick, read_main_counter}
use os_test.Dev.LocalApic
use os_test.Time.Sleep.{IsBeyond, IsFirstBeyond}
use os_test.Cpu.{Machine, percpu, cpu_main_rs}
use os_test.Cpu.Gates.{gate}
use os_test.Cpu.Online.{divider, Counts, cpu_main_rs-percpu}
use os_test.Dev.Hpet
use os_test.Dev.IoApic.{trigger_num}
use os_test.Cpu.{hpet_init}
use os_test.Cpu.Tick.{hpet_init-redirect_irq}

-- Registers that hold what is stored.
abbrev plain_memory : Registers (ℕ → ℕ)
plain_memory = record {
  load = λ s reg. s reg;
  store = λ s reg val r. if r == reg then val else s r;
}

-- A timer of 10 nanoseconds for each tick, whose state is its main counter.
abbrev hpet : Registers ℕ
hpet = record { load = λ s reg. if reg == 0 then 10000000 * 2 ^ 32 else s; store = λ s reg val. s }

abbrev clock : ℕ → ℕ
clock i = 7 * i

rate : (s : ℕ) → fs_per_tick hpet s ≡ done 10000000
unfolding fs_per_tick
rate s = refl

ahead : (i : ℕ) → i ≤ 14286 → read_main_counter hpet (clock 0) ≤ read_main_counter hpet (clock i)
unfolding read_main_counter
ahead i low = omega (arith, low)

over :
    IsBeyond 1000000
      (read_main_counter hpet (clock 0) * 10000000)
      (read_main_counter hpet (clock 14286) * 10000000)
unfolding read_main_counter
over = omega arith

-- Processor 1 of two.
abbrev local_apic : ℕ → ℕ
local_apic reg = if reg == 0x20 then 2 ^ 24 else 0

abbrev machine : Machine ℕ ℕ (ℕ → ℕ)
machine = record {
  hpet = 0;
  ioapic = 0;
  lapic = local_apic;
  idt = replicate 40 zeroed;
  percpus = none ∷ none ∷ [];
}

abbrev handlers : ℕ → ℕ
handlers irq = 0x1000 + irq

-- The bus of the local APIC has eight ticks between two readings.
abbrev bus : ℕ → ℕ
bus n = 8 * n

abbrev on : ℕ → (ℕ → ℕ) → ℕ → ℕ
on n s reg = if reg == 0x390 then s 0x380 - bus n / divider (s 0x3e0) else s reg

counting : Counts plain_memory on bus
counting = record {
  keeps = λ s reg other val ne which. ground (arith, ne);
  starts = λ s val low. refl;
  divides = λ s val low. refl;
  runs_on = λ n s. refl;
  counts = λ n s. refl;
}

in_range : LocalApic.id plain_memory local_apic < length machine.percpus
unfolding LocalApic.id LocalApic.read
in_range = omega arith

cpu_main_rs-percpu_example :
    (reading : ℕ) × (after : Machine ℕ ℕ (ℕ → ℕ)) × IsFirstBeyond
      (λ i. read_main_counter hpet (clock i) * 10000000)
      1000000
      1
      (read_main_counter hpet (clock 0) * 10000000)
      reading
    × (cpu_main_rs hpet hpet plain_memory handlers 8 14286 clock on machine ≡ done (some after))
    × (percpu plain_memory after
        ≡ done (
            some (record {
              lapic_ticks_per_ms =
                  if leb (bus reading / 4) (2 ^ 32 - 1) then bus reading / 4 else 2 ^ 32 - 1;
            })))
    × ((other : ℕ)
        → other ≢ LocalApic.id plain_memory local_apic
        → get_elem? after.percpus other ≡ get_elem? machine.percpus other)
    × ((get_elem? after.idt 33 ≡ some (gate handlers 8 33))
        × (get_elem? after.idt 34 ≡ some (gate handlers 8 34))
        × (get_elem? after.idt 35 ≡ some (gate handlers 8 35)))
    × ((irq : ℕ)
        → irq ≢ 33
        → irq ≢ 34
        → irq ≢ 35
        → get_elem? after.idt irq ≡ get_elem? machine.idt irq)
cpu_main_rs-percpu_example =
    cpu_main_rs-percpu hpet hpet plain_memory handlers 8 14286 clock on bus counting machine
      10000000 14286 (omega arith) in_range (λ i low. rate (clock i)) ahead (omega arith)
      (omega arith) over

-- An IO APIC with its select register and its registers.
abbrev Apic : Type 0
Apic = ℕ × (ℕ → ℕ)

abbrev apic : Registers Apic
apic = record {
  load = λ s offset. if offset == 0 then s.0 else s.1 s.0;
  store = λ s offset val.
      if offset == 0 then (val, s.1) else (s.0, λ r. if r == s.0 then val else s.1 r);
}

abbrev register : Apic → ℕ → ℕ
register s r = s.1 r

apic_written : (s : Apic) (r val : ℕ) → register (apic.store (apic.store s 0 r) 0x10 val) r ≡ val
apic_written s r val = ground arith

apic_kept :
    (s : Apic) (r r' val : ℕ)
    → r' ≢ r
    → register (apic.store (apic.store s 0 r) 0x10 val) r' ≡ register s r'
apic_kept s r r' val ne = ground arith

abbrev first : Machine ℕ Apic (ℕ → ℕ)
first = record {
  hpet = 0;
  ioapic = (0, λ r. 0);
  lapic = local_apic;
  idt = replicate 40 zeroed;
  percpus = none ∷ none ∷ [];
}

hpet_init-redirect_irq_example :
    (after : Machine ℕ Apic (ℕ → ℕ)) × (hpet_init hpet apic plain_memory handlers 8 first
      ≡ done after)
    × (register after.ioapic 0x14 + register after.ioapic 0x15 * 2 ^ 32
        ≡ 32 + trigger_num (Hpet.trigger_mode hpet 0 (Hpet.enable_timer hpet 0 0)) * 2 ^ 15)
    × (get_elem? after.idt 32 ≡ some (gate handlers 8 32))
    × ((irq : ℕ) → irq ≢ 32 → get_elem? after.idt irq ≡ get_elem? first.idt irq)
hpet_init-redirect_irq_example =
    hpet_init-redirect_irq hpet apic plain_memory handlers 8 register apic_written apic_kept first
      (omega arith)
