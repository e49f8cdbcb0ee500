-- ===== src/Tests/Regions.antt =====
-- A table of the firmware at 0x9010, mapped at the pages 4 and 5, for src/acpi.rs.
use os_test.Prelude.{
  ℕ, ◌+◌, ◌-◌, ◌*◌, ◌^◌, ◌≤◌, ◌≡◌, refl, true, false, some, none, replicate, [], ◌∷◌, ◌==◌,
  if◌then◌else◌, ltb, arith,
}
use os_test.Prelude.Outcome.{done, panic}
use os_test.Memory.Addr.{is_valid, align_down, as_virtual}
use os_test.Memory.FrameSource.{PhysicalAllocator, basic}
use os_test.Memory.Paging.Page
use os_test.Memory.Paging.Page.{level4_idx, level3_idx, level2_idx, level1_idx}
use os_test.Memory.Paging.Entry.{addr, flags, is_present, set_addr}
use os_test.Memory.Paging.Search
use os_test.Memory.Paging.Iter.{for_pages, next_item}
use os_test.Memory.Paging.Table.{
  current, Mem, write, find_free_pages, page_is_present, page_entry, as_page_table,
  as_page_table_mut, as_pointer, map_page_unchecked, enter_level,
}
use os_test.Memory.Virt.{
  PageAllocation, Inner, map_physical, dealloc_pages, clear_apic, map_frame, map_page, free_frames,
}
use os_test.Acpi.{PhysicalMapping, map_physical_region, unmap_physical_region}
use os_test.Acpi.Region.{map_physical_region-unmap_physical_region}
use os_test.Memory.Physical.{
  BasicPhysicalAllocator, alloc_phy_addr, all_free, mark_used, free_frame,
}
use os_test.Memory.Virt.Undo.{map_physical-none}

abbrev counting : PhysicalAllocator ℕ
counting = record {
  allocate_frame = λ n. if ltb n 1000 then done (n + 1, n * 4096) else panic;
  free_frame = λ n frame. done n;
  alloc_phy_addr = λ n frame count. done (n, some frame);
  frame_size = 4096;
}

abbrev before : Mem
before x =
    if x == 0x1000
    then 0x2003
    else if x == 0x2000
    then 0x3003
    else if x == 0x3000
    then 0x4003
    else 0

abbrev state : Inner ℕ
state = record { physical_allocator = 16; last_page_alloc = 4; mem = before }

abbrev no_store : ℕ → ℕ → Mem → Mem
no_store at byte mem = mem

abbrev after : Inner ℕ
after = record {
  physical_allocator = 16;
  last_page_alloc = 4;
  mem = write (write before 0x4020 0x9003) 0x4028 0xA003;
}

abbrev pages : PageAllocation
pages = record { first_page = 4; page_amount = 2 }

mapped : map_physical counting 0 0x1000 no_store 0x9010 1 state ≡ done (after, some (pages, 0x4010))
unfolding map_physical as_pointer current align_down as_virtual find_free_pages
    Search.find_free_pages Search.scan Search.advance Page.next Page.next_by Page.canonical_num
    page_is_present page_entry as_page_table is_present addr flags level4_idx level3_idx level2_idx
    level1_idx for_pages next_item map_frame clear_apic map_page map_page_unchecked enter_level
    as_page_table_mut set_addr Page.to_virt write
mapped = refl

valid : is_valid 0x4010 ≡ true
unfolding is_valid
valid = refl

map_physical_region-unmap_physical_region_example :
    (region : PhysicalMapping) × (map_physical_region
        (map_physical counting 0 0x1000 no_store)
        (dealloc_pages counting 0 0x1000 no_store)
        1
        0x9010
        36
        state
      ≡ done (after, region))
    × (region.virtual_start ≡ 0x4010)
    × (4 * 0x1000 ≤ 0x4010)
    × (0x4010 + 36 ≤ (4 + 2) * 0x1000)
    × ((t : Inner ℕ)
        → unmap_physical_region
            (map_physical counting 0 0x1000 no_store)
            (dealloc_pages counting 0 0x1000 no_store)
            region
            t
          ≡ dealloc_pages counting 0 0x1000 no_store pages t)
map_physical_region-unmap_physical_region_example =
    map_physical_region-unmap_physical_region counting 0 0x1000 no_store 1 0x9010 36 state after
      pages 0x4010 refl (omega arith) refl (omega arith) mapped (omega arith) valid refl
      (omega arith)

-- Eight frames, and only two pages up to the last one.
abbrev small : BasicPhysicalAllocator
small = record { bitmap = replicate 8 false; offset = 0x8000; limit = 0x8000 }

abbrev at_end : Inner BasicPhysicalAllocator
at_end = record { physical_allocator = small; last_page_alloc = 2 ^ 36 - 2; mem = before }

abbrev restored : Inner BasicPhysicalAllocator
restored = record {
  physical_allocator = record {
    bitmap = false ∷ false ∷ false ∷ false ∷ false ∷ false ∷ false ∷ false ∷ [];
    offset = 0x8000;
    limit = 0x8000;
  };
  last_page_alloc = 68719476734;
  mem = before;
}

no_pages : map_physical basic 0 0x1000 no_store 0x9000 3 at_end ≡ done (restored, none)
unfolding map_physical as_pointer current align_down as_virtual find_free_pages
    Search.find_free_pages Search.scan Search.advance Page.next Page.next_by Page.canonical_num
    page_is_present page_entry as_page_table is_present addr flags level4_idx level3_idx level2_idx
    level1_idx alloc_phy_addr all_free mark_used free_frames free_frame
no_pages = refl

map_physical-none_example : restored ≡ at_end
map_physical-none_example =
    map_physical-none 0 0x1000 no_store 0x9000 3 at_end restored
      (record { fits = omega arith; aligned = refl }) no_pages
