-- ===== src/Memory/Virt/Area.antt =====
-- The area of physical memory that `init` of src/memory/virt.rs gives to the global page allocator.
pub mod Longest
use os_test.Prelude.{
  ℕ, ◌+◌, Bool, true, false, Option, none, some, List, [], ◌∷◌, ltb, if◌then◌else◌,
}
use os_test.Prelude.Outcome.{Outcome, done, ◌>>=◌, unwrap, add64}
use os_test.Memory.Addr.{PhyAddr}
use os_test.Memory.Physical
use os_test.Memory.Physical.{BasicPhysicalAllocator}
use os_test.Memory.Paging.Page
use os_test.Memory.Paging.Table.{Mem}
use os_test.Memory.Virt.{Inner}

-- An entry of the memory map of the boot loader; `usable` says that its type is `USABLE`.
pub record MapEntry : Type 0 where
  pub base : ℕ
  pub length : ℕ
  pub usable : Bool

-- `BasicPageAllocator::new_const`, with the static bitmap and the memory of the tables.
unfoldable pub new_const : List Bool → Mem → Outcome (Inner BasicPhysicalAllocator)
new_const bitmap mem = do
  page ← Page.new 1
  done (record { physical_allocator = Physical.init bitmap 0; last_page_alloc = page; mem = mem })

pub configure_physical_area :
    (start : PhyAddr) (size : ℕ)
    → Inner BasicPhysicalAllocator
    → Outcome (Inner BasicPhysicalAllocator)
configure_physical_area start size s = do
  moved ← Physical.set_offset start s.physical_allocator
  done (record s { physical_allocator = Physical.set_limit size moved })

-- `filter(|e| e.entry_type == EntryType::USABLE)`
pub only_usable : List MapEntry → List MapEntry
only_usable [] = []
only_usable (e ∷ entries) = let rest = only_usable entries in if e.usable then e ∷ rest else rest

-- `max_by_key(|e| e.length)`: the last one of the greatest length
pub longest : List MapEntry → Option MapEntry
longest [] = none
longest (e ∷ entries) = elim (longest entries) [
  | none ↦ some e
  | some m ↦ if ltb m.length e.length then some e else some m
]

-- `map(|e| e.length).sum::<u64>()`, for the message
pub sum_lengths : ℕ → List MapEntry → Outcome ℕ
sum_lengths total [] = done total
sum_lengths total (e ∷ entries) = do total ← add64 total e.length; sum_lengths total entries

-- `response` is the memory map, where the boot loader gave one.
pub init :
    (response : Option (List MapEntry))
    → Inner BasicPhysicalAllocator
    → Outcome (Inner BasicPhysicalAllocator)
unfolding only_usable longest sum_lengths configure_physical_area
init response s = do
  entries ← unwrap response
  usable_mem ← unwrap (longest (only_usable entries))
  max_mem ← sum_lengths 0 (only_usable entries)
  configure_physical_area usable_mem.base usable_mem.length s
