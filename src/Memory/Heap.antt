-- ===== src/Memory/Heap.antt =====
-- `Allocator` of src/memory/allocator.rs, the global allocator, over the operations of a page
-- allocator. A pointer is its address, and the null pointer is 0.
pub mod Room
use os_test.Prelude.{ℕ, ◌+◌, ◌-◌, ◌*◌, ◌/◌, ◌%◌, Option, none, some, ◌==◌, if◌then◌else◌}
use os_test.Prelude.Outcome.{Outcome, done, panic, ◌>>=◌, add64, rem64}
use os_test.Memory.Addr.{VirtAddr}
use os_test.Memory.Paging.Entry.{page_size}
use os_test.Memory.Paging.Page
use os_test.Memory.Virt.{PageAllocation, as_virt_addr}

pub record Layout : Type 0 where
  pub size : ℕ
  pub align : ℕ

-- `u64::next_multiple_of`
abbrev pub next_multiple_of : ℕ → ℕ → Outcome ℕ
next_multiple_of n m = do r ← rem64 n m; if r == 0 then done n else add64 n (m - r)

-- The amount of pages, in the same words in `alloc` and `dealloc`.
pub page_amount : Layout → Outcome ℕ
page_amount layout = do
  r ← rem64 page_size layout.align
  bytes ← add64 layout.size r
  add64 (bytes / page_size) 1

module _ {S : Type 0} (alloc_pages : ℕ → S → Outcome (S × Option PageAllocation))
    (dealloc_pages : PageAllocation → S → Outcome S) where
  pub alloc : Layout → S → Outcome (S × VirtAddr)
  unfolding page_amount as_virt_addr
  alloc layout s = do
    amount ← page_amount layout
    (s', allocated) ← alloc_pages amount s
    elim allocated [
      | none ↦ done (s', 0)
      | some allocation ↦ (do
        addr ← as_virt_addr allocation
        ptr ← next_multiple_of addr layout.align
        done (s', ptr))
    ]

  pub dealloc : VirtAddr → Layout → S → Outcome S
  unfolding page_amount
  dealloc ptr layout s = do
    amount ← page_amount layout
    page ← Page.from_virt ptr
    dealloc_pages (record { first_page = page; page_amount = amount }) s
