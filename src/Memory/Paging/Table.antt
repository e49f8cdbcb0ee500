-- ===== src/Memory/Paging/Table.antt =====
-- `PageTable` of src/memory/paging.rs. The tables lie in memory, which is a function from the
-- virtual address of a word to the word; a table is the address of its first entry, and a
-- reference to an entry is the address of the entry.
pub mod Enter
pub mod Map
pub mod Other
use os_test.Prelude.{
  ℕ, zero, suc, ◌+◌, ◌*◌, ◌%◌, Bool, true, false, Option, none, some, ◌==◌, if◌then◌else◌,
}
use os_test.Prelude.Outcome.{Outcome, done, panic, ◌>>=◌, ◌>>◌, assert}
use os_test.Prelude.Result.{Result, ok, err}
use os_test.Memory.Addr.{PhyAddr, VirtAddr, as_virtual}
use os_test.Memory.FrameSource.{PhysicalAllocator}
use os_test.Memory.Paging.Entry.{
  PageTableEntry, PageTableEntryFlags, page_size, empty, addr, flags, contains, is_present,
  set_addr,
}
use os_test.Memory.Paging.Entry.Flag
use os_test.Memory.Paging.Page.{
  Page, page_table_entry_num, level4_idx, level3_idx, level2_idx, level1_idx,
}
use os_test.Memory.Paging.Iter.{PageIter}
use os_test.Memory.Paging.Search

abbrev pub Mem : Type 0
Mem = VirtAddr → ℕ

unfoldable pub write : Mem → VirtAddr → ℕ → Mem
write mem at value a = if a == at then value else mem a

-- The address of the entry with index `i`; an entry has 8 bytes.
abbrev pub slot : VirtAddr → ℕ → VirtAddr
slot table i = table + 8 * i

-- The loop of `clear_all_entries`: the entries from `i` on.
unfoldable pub clear_entries : (count i : ℕ) → VirtAddr → Mem → Mem
unfolding write
clear_entries zero i table mem = mem
clear_entries (suc count) i table mem =
    clear_entries count (i + 1) table (write mem (slot table i) empty)

unfoldable pub clear_all_entries : VirtAddr → Mem → Mem
clear_all_entries table mem = clear_entries page_table_entry_num 0 table mem

pub data PageEntryError : Type 0 where
  huge_page : PageEntryError
  page_table_level_is_not_present : (level : ℕ) → PageEntryError

-- `offset` is that of the direct map.
module _ (offset : ℕ) where
  -- `as_ref().unwrap()` and `as_mut().unwrap()` of the virtual address of a table: a null pointer
  -- panics.
  unfoldable pub as_pointer : PhyAddr → Outcome VirtAddr
  unfolding as_virtual
  as_pointer phy_addr = do
    virt_addr ← as_virtual offset phy_addr
    if virt_addr == 0 then panic else done virt_addr

  unfoldable pub as_page_table : PageTableEntry → Outcome VirtAddr
  unfolding is_present addr as_pointer
  as_page_table entry = assert (is_present entry) >> as_pointer (addr entry)

  unfoldable pub as_page_table_mut : PageTableEntry → Outcome VirtAddr
  unfolding addr as_pointer
  as_page_table_mut entry = as_pointer (addr entry)

  unfoldable pub page_entry : Mem → VirtAddr → Page → Outcome (Result VirtAddr PageEntryError)
  unfolding as_page_table
  page_entry mem table page =
      let page_dir_table_ptr_entry = mem (slot table (level4_idx page)) in
      if is_present page_dir_table_ptr_entry
      then (do
        page_dir_table_ptr ← as_page_table page_dir_table_ptr_entry
        let page_dir_entry = mem (slot page_dir_table_ptr (level3_idx page))
        if is_present page_dir_entry
            then (do
              page_dir ← as_page_table page_dir_entry
              let page_table_entry = mem (slot page_dir (level2_idx page))
              if contains (flags page_table_entry) Flag.huge_page
                  then done (err huge_page)
                  else if is_present page_table_entry
                  then (do
                    page_table ← as_page_table page_table_entry
                    done (ok (slot page_table (level1_idx page))))
                  else done (err (page_table_level_is_not_present 2)))
            else done (err (page_table_level_is_not_present 3)))
      else done (err (page_table_level_is_not_present 4))

  pub page_entry_mut : Mem → VirtAddr → Page → Outcome (Option VirtAddr)
  unfolding as_page_table_mut
  page_entry_mut mem table page =
      let page_dir_table_ptr_entry = mem (slot table (level4_idx page)) in
      if is_present page_dir_table_ptr_entry
      then (do
        page_dir_table_ptr ← as_page_table_mut page_dir_table_ptr_entry
        let page_dir_entry = mem (slot page_dir_table_ptr (level3_idx page))
        if is_present page_dir_entry
            then (do
              page_dir ← as_page_table_mut page_dir_entry
              let page_table_entry = mem (slot page_dir (level2_idx page))
              if is_present page_table_entry
                  then (do
                    page_table ← as_page_table_mut page_table_entry
                    done (some (slot page_table (level1_idx page))))
                  else done none)
            else done none)
      else done none

  -- `PageTable::current` and `current_mut`: the table that `cr3` is the physical address of.
  unfoldable pub current : (cr3 : PhyAddr) → Outcome VirtAddr
  unfolding as_pointer
  current cr3 = as_pointer cr3

  -- `PageTable::is_present`
  unfoldable pub page_is_present : Mem → VirtAddr → Page → Outcome Bool
  unfolding page_entry
  page_is_present mem table page = do
    r ← page_entry mem table page
    elim r [
      | ok entry ↦ done (is_present (mem entry))
      | err e ↦ elim e [
        | huge_page ↦ done true
        | page_table_level_is_not_present level ↦ done false
      ]
    ]

  unfoldable pub find_free_pages : Mem → VirtAddr → Page → ℕ → Outcome (Option PageIter)
  find_free_pages mem table = Search.find_free_pages (page_is_present mem table)

  module _ {A : Type 0} (alloc : PhysicalAllocator A) where
    -- The part of `map_page_unchecked` that stands there once for each of the upper three levels:
    -- an entry that is not present is given a new frame, which is cleared, and the table that the
    -- entry points to is entered.
    unfoldable pub enter_level :
        VirtAddr → PageTableEntryFlags → Mem × A → Outcome (VirtAddr × Mem × A)
    unfolding as_page_table_mut
    enter_level entry fl (mem, phy_mem_alloc) = do
      (mem', rest) ← if is_present (mem entry) then done (mem, phy_mem_alloc) else (do
        (rest, frame) ← alloc.allocate_frame phy_mem_alloc
        word ← set_addr frame fl
        table ← as_page_table_mut word
        done (clear_all_entries table (write mem entry word), rest))
      table ← as_page_table_mut (mem' entry)
      done (table, mem', rest)

    unfoldable pub map_page_unchecked :
        VirtAddr → Page → PhyAddr → PageTableEntryFlags → Mem × A → Outcome (Mem × A)
    unfolding enter_level
    map_page_unchecked table page phy_addr fl s = do
      assert (phy_addr % page_size == 0)
      (page_dir_ptr_table, m4, a4) ← enter_level (slot table (level4_idx page)) fl s
      (page_dir, m3, a3) ← enter_level (slot page_dir_ptr_table (level3_idx page)) fl (m4, a4)
      (page_table, m2, a2) ← enter_level (slot page_dir (level2_idx page)) fl (m3, a3)
      word ← set_addr phy_addr fl
      done (write m2 (slot page_table (level1_idx page)) word, a2)
