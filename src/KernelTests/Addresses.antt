-- ===== src/KernelTests/Addresses.antt =====
-- The tests of src/memory/physical.rs and src/memory/paging.rs that the kernel runs at its start in a
-- test build, but for those on the tables that are loaded.
use os_test.Prelude.{ℕ, ◌≡◌, refl, ◌+◌, ◌*◌, not, ◌==◌, bit_and}
use os_test.Prelude.Outcome.{Outcome, done, assert, ◌>>=◌, ◌>>◌}
use os_test.Memory.Addr.{VirtAddr, align_up, align_down}
use os_test.Memory.Paging.Page.{
  Page, page_table_entry_num, from_virt, to_virt, canonical_num, level4_idx, level3_idx, level2_idx,
  level1_idx,
}

-- The test align_up of the physical addresses.
abbrev aligns_up : Outcome (Unit {0})
aligns_up = do
  first ← align_up 0 1
  assert (first == 0)
  second ← align_up 0x2 0x4
  assert (second == 0x4)
  third ← align_up 0xdeadbeef 0x1000
  assert (third == 0xdeadc000)

-- The test align_down.
abbrev aligns_down : Outcome (Unit {0})
aligns_down = do
  first ← align_down 1 1
  assert (first == 1)
  second ← align_up 0x4 0x2
  assert (second == 0x4)
  third ← align_down 0xdeadbeef 0x1000
  assert (third == 0xdeadb000)

abbrev has_indices : Page → (l4 l3 l2 l1 : ℕ) → Outcome (Unit {0})
has_indices page l4 l3 l2 l1 = do
  assert (level4_idx page == l4)
  assert (level3_idx page == l3)
  assert (level2_idx page == l2)
  assert (level1_idx page == l1)

abbrev page_to_idx : Outcome (Unit {0})
page_to_idx = do
  has_indices 0 0 0 0 0
  has_indices 511 0 0 0 511
  has_indices page_table_entry_num 0 0 1 0
  has_indices (page_table_entry_num * 5 + 27) 0 0 5 27
  has_indices (page_table_entry_num * page_table_entry_num + 112) 0 1 0 112
  has_indices (page_table_entry_num * page_table_entry_num * 112 + page_table_entry_num * 69 + 378)
      0 112 69 378
  has_indices
      (page_table_entry_num * page_table_entry_num * page_table_entry_num * 5
        + page_table_entry_num * page_table_entry_num * 78
        + page_table_entry_num * 4
        + 33)
      5 78 4 33

abbrev page_to_virtual : Outcome (Unit {0})
page_to_virtual = do
  first ← to_virt 1
  assert (first == 0x1000)
  second ← to_virt 513
  assert (second == 0x201000)
  third ← to_virt (page_table_entry_num * page_table_entry_num * 3 + page_table_entry_num)
  assert (third == 0xc0200000)
  last ← from_virt 0xffffffffffffffff
  fourth ← to_virt last
  assert (fourth == 0xfffffffffffff000)

abbrev virtual_to_page : Outcome (Unit {0})
virtual_to_page = do
  first ← from_virt 0x1000
  assert (first == 1)
  second ← from_virt 0x201000
  assert (second == 513)
  third ← from_virt 0xc0200000
  assert (third == page_table_entry_num * page_table_entry_num * 3 + page_table_entry_num)

abbrev canonical_counterpart : VirtAddr → VirtAddr
canonical_counterpart virt_addr = bit_and virt_addr 0xffffffffffff

-- The test canoincal_pages.
abbrev canonical_pages : Outcome (Unit {0})
canonical_pages = do
  page ← from_virt 0xffffffffffffffff
  counterpart ← from_virt (canonical_counterpart 0xffffffffffffffff)
  assert (not (page == counterpart))
  assert (canonical_num page == canonical_num counterpart)

aligns_up_passes : aligns_up ≡ done tt
unfolding align_up
aligns_up_passes = refl

aligns_down_passes : aligns_down ≡ done tt
unfolding align_up align_down
aligns_down_passes = refl

page_to_idx_passes : page_to_idx ≡ done tt
unfolding level4_idx level3_idx level2_idx level1_idx
page_to_idx_passes = refl

page_to_virtual_passes : page_to_virtual ≡ done tt
unfolding to_virt from_virt
page_to_virtual_passes = refl

virtual_to_page_passes : virtual_to_page ≡ done tt
unfolding from_virt
virtual_to_page_passes = refl

canonical_pages_pass : canonical_pages ≡ done tt
unfolding from_virt canonical_num
canonical_pages_pass = refl
