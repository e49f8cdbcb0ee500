-- ===== src/Memory/Paging/Entry.antt =====
-- `PageTableEntry` and `PageTableEntryFlags` of src/memory/paging.rs. An entry is its `u64`:
-- the bits 12 to 51 are the address, all others are flags.
pub mod Fields
pub mod Flag
use os_test.Prelude.{ℕ, ◌+◌, ◌-◌, ◌%◌, ◌^◌, Bool, ◌==◌, bit_and, bit_or}
use os_test.Prelude.Outcome.{Outcome, done, ◌>>◌, assert}
use os_test.Memory.Addr.{PhyAddr}

abbrev pub page_size : ℕ
page_size = 0x1000

abbrev pub PageTableEntry : Type 0
PageTableEntry = ℕ

abbrev pub PageTableEntryFlags : Type 0
PageTableEntryFlags = ℕ

-- `PageTableEntry::new` and `clear`
abbrev pub empty : PageTableEntry
empty = 0

abbrev pub physical_address_mask : ℕ
physical_address_mask = 0x000f_ffff_ffff_f000

-- `!physical_address_mask()`
abbrev pub flags_mask : ℕ
flags_mask = 2 ^ 64 - 1 - physical_address_mask

unfoldable pub addr : PageTableEntry → PhyAddr
addr entry = bit_and entry physical_address_mask

pub set_flags : PageTableEntry → PageTableEntryFlags → PageTableEntry
unfolding addr
set_flags entry flags = bit_or (addr entry) flags

-- `set_addr` overwrites the entry, so its old value is no argument.
unfoldable pub set_addr : PhyAddr → PageTableEntryFlags → Outcome PageTableEntry
set_addr address flags = assert (address % page_size == 0) >> done (bit_or address flags)

unfoldable pub flags : PageTableEntry → PageTableEntryFlags
flags entry = bit_and entry flags_mask

-- `PageTableEntryFlags::contains`, generated by the crate bitflags for a word and a mask
abbrev pub contains : PageTableEntryFlags → PageTableEntryFlags → Bool
contains word other = bit_and word other == other

unfoldable pub is_present : PageTableEntry → Bool
unfolding flags
is_present entry = contains (flags entry) Flag.present
