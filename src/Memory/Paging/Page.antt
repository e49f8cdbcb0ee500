-- ===== src/Memory/Paging/Page.antt =====
-- `Page` of src/memory/paging.rs: a page is its number, the first 52 bits of its address.
pub mod Index
use os_test.Prelude.{
  ℕ, ◌+◌, ◌*◌, ◌/◌, ◌%◌, ◌<◌, Bool, Option, none, some, ltb, if◌then◌else◌, bit_and,
}
use os_test.Prelude.Outcome.{Outcome, done, ◌>>=◌, ◌>>◌, assert, add64, mul64}
use os_test.Memory.Addr.{VirtAddr, is_valid}
use os_test.Memory.Paging.Entry.{page_size}

abbrev pub page_table_entry_num : ℕ
page_table_entry_num = 512

abbrev pub Page : Type 0
Page = ℕ

-- `Page::from`
unfoldable pub from_virt : VirtAddr → Outcome Page
unfolding is_valid
from_virt value = assert (is_valid value) >> done (value / page_size)

-- `VirtAddr::from`
unfoldable pub to_virt : Page → Outcome VirtAddr
to_virt page = mul64 page page_size

abbrev pub canonical_mask : ℕ
canonical_mask = 0xfffffffff

abbrev pub max_page_canonical_num : ℕ
max_page_canonical_num =
    page_table_entry_num * page_table_entry_num * page_table_entry_num * page_table_entry_num

unfoldable pub canonical_num : Page → ℕ
canonical_num page = bit_and page canonical_mask

pub new : ℕ → Outcome Page
unfolding canonical_num
new num = assert (ltb (canonical_num num) max_page_canonical_num) >> done num

unfoldable pub level4_idx : Page → ℕ
unfolding canonical_num
level4_idx page =
    canonical_num page / (page_table_entry_num * page_table_entry_num * page_table_entry_num)

unfoldable pub level3_idx : Page → ℕ
unfolding canonical_num
level3_idx page =
    canonical_num page / (page_table_entry_num * page_table_entry_num) % page_table_entry_num

unfoldable pub level2_idx : Page → ℕ
unfolding canonical_num
level2_idx page = canonical_num page / page_table_entry_num % page_table_entry_num

unfoldable pub level1_idx : Page → ℕ
unfolding canonical_num
level1_idx page = canonical_num page % page_table_entry_num

unfoldable pub next_by : Page → ℕ → Outcome (Option Page)
unfolding canonical_num
next_by page num = do
  reached ← add64 (canonical_num page) num
  if ltb reached max_page_canonical_num then (do n ← add64 page num; done (some n)) else done none

unfoldable pub next : Page → Outcome (Option Page)
unfolding next_by
next page = next_by page 1
