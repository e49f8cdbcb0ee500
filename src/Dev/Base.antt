-- ===== src/Dev/Base.antt =====
-- Where the registers of the devices of src/dev lie: the addresses that the tables of the firmware give,
-- mapped on first use. A library reads the tables; what it answers is an argument, and an entry of the
-- table of the interrupt controllers is known by what the code reads of it.
use os_test.Prelude.{ℕ, Bool, Option, none, some, List, [], ◌∷◌, ◌==◌}
use os_test.Prelude.Outcome.{Outcome, done, ◌>>=◌, ◌>>◌, assert, unwrap}
use os_test.Memory.Addr.{PhyAddr, VirtAddr}
use os_test.Memory.Virt.{PageAllocation}

-- `as_io_apic` gives the address and the first interrupt where the entry is `MadtEntry::IoApic`.
module _ {Entry : Type 0} (as_io_apic : Entry → Option (ℕ × ℕ)) where
  -- `entries().find(...)`, and the match on what it gives.
  pub find_io_apic : List Entry → Option (ℕ × ℕ)
  find_io_apic [] = none
  find_io_apic (entry ∷ more) = elim (as_io_apic entry) [
    | none ↦ find_io_apic more
    | some found ↦ some found
  ]

module _ {S : Type 0}
    (map_physical : PhyAddr → ℕ → S → Outcome (S × Option (PageAllocation × VirtAddr))) where
  -- `map_physical(addr, 1).unwrap().1`
  pub map_registers : PhyAddr → S → Outcome (S × VirtAddr)
  map_registers address s = do
    (s', mapped) ← map_physical address 1 s
    (allocation, virt_addr) ← unwrap mapped
    done (s', virt_addr)

  -- `IO_APIC_ADDR`, from the entries of the table.
  unfoldable pub io_apic_addr :
      {Entry : Type 0} → (Entry → Option (ℕ × ℕ)) → Option (List Entry) → S → Outcome (S × VirtAddr)
  unfolding map_registers find_io_apic
  io_apic_addr as_io_apic madt s = do
    entries ← unwrap madt
    (address, base) ← unwrap (find_io_apic as_io_apic entries)
    assert (base == 0)
    map_registers address s

  -- `LOCAL_APIC_ADDRESS`, from the address in the table.
  unfoldable pub local_apic_addr : Option PhyAddr → S → Outcome (S × VirtAddr)
  unfolding map_registers
  local_apic_addr madt s = do local_apic_address ← unwrap madt; map_registers local_apic_address s

  -- `HPET_BASE_ADDR`, from the address of the timer and whether its counter has 64 bits.
  unfoldable pub hpet_base_addr : Option (PhyAddr × Bool) → S → Outcome (S × VirtAddr)
  unfolding map_registers
  hpet_base_addr hpet_info s = do
    (base_address, main_counter_is_64bits) ← unwrap hpet_info
    assert main_counter_is_64bits
    map_registers base_address s
