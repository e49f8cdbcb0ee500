-- ===== src/Acpi.antt =====
-- src/acpi.rs: how the tables of the firmware are mapped for the library that reads them, over the
-- operations of a page allocator.
pub mod Region
use os_test.Prelude.{ℕ, ◌+◌, ◌-◌, ◌*◌, ◌/◌, ◌%◌, Option, not, ◌==◌, if◌then◌else◌}
use os_test.Prelude.Outcome.{Outcome, done, ◌>>=◌, ◌>>◌, assert, unwrap, add64, mul64, rem64}
use os_test.Memory.Addr.{PhyAddr, VirtAddr}
use os_test.Memory.Heap.{next_multiple_of}
use os_test.Memory.Paging.Entry.{page_size}
use os_test.Memory.Virt.{PageAllocation, new_allocation}

-- `acpi::PhysicalMapping`, as it is made here
pub record PhysicalMapping : Type 0 where
  pub physical_start : ℕ
  pub virtual_start : VirtAddr
  pub region_length : ℕ
  pub mapped_length : ℕ

-- `align` is `align_of::<T>()`.
pub region_pages : (size align : ℕ) → Outcome ℕ
region_pages size align = do
  r ← rem64 page_size align
  bytes ← add64 size r
  add64 (bytes / page_size) 1

module _ {S : Type 0}
    (map_physical : PhyAddr → ℕ → S → Outcome (S × Option (PageAllocation × VirtAddr)))
    (dealloc_pages : PageAllocation → S → Outcome S) where
  pub map_physical_region : (align physical_address size : ℕ) → S → Outcome (S × PhysicalMapping)
  unfolding region_pages
  map_physical_region align physical_address size s = do
    page_amount ← region_pages size align
    (s', mapped) ← map_physical physical_address page_amount s
    (alloc, virt_addr) ← unwrap mapped
    ptr ← next_multiple_of virt_addr align
    assert (not (ptr == 0))
    mapped_length ← mul64 alloc.page_amount page_size
    done (
      s',
      record {
        physical_start = physical_address;
        virtual_start = ptr;
        region_length = size;
        mapped_length = mapped_length;
      },
    )

  pub unmap_physical_region : PhysicalMapping → S → Outcome S
  unfolding new_allocation
  unmap_physical_region region s = do
    allocation ← new_allocation region.virtual_start (region.mapped_length / page_size)
    dealloc_pages allocation s
