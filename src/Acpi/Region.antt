-- ===== src/Acpi/Region.antt =====
-- The regions of src/acpi.rs: they hold the table, and unmapping one gives back its pages.
use os_test.Prelude.{
  ℕ, ◌+◌, ◌*◌, ◌/◌, ◌%◌, ◌^◌, ◌≤◌, ◌<◌, ◌≡◌, refl, true, not, Option, some, ◌==◌, arith,
}
use os_test.Prelude.Outcome.{Outcome, done, mul64}
use os_test.Memory.Addr.{PhyAddr, VirtAddr, is_valid}
use os_test.Memory.Heap.{next_multiple_of}
use os_test.Memory.Paging.Page
use os_test.Memory.FrameSource.{PhysicalAllocator}
use os_test.Memory.Paging.Table.{Mem}
use os_test.Memory.Virt.{PageAllocation, Inner, map_physical, dealloc_pages}
use os_test.Memory.Virt.Shape.{Maps, map_physical-Maps}
use os_test.Acpi.{PhysicalMapping, region_pages, map_physical_region, unmap_physical_region}

module _ {S : Type 0}
    (map_physical : PhyAddr → ℕ → S → Outcome (S × Option (PageAllocation × VirtAddr)))
    (dealloc_pages : PageAllocation → S → Outcome S) where
  region_pages_lem :
      (size align : ℕ)
      → 0 < align
      → 0x1000 % align ≡ 0
      → size < 2 ^ 63
      → region_pages size align ≡ done (size / 0x1000 + 1)
  unfolding region_pages
  region_pages_lem size align pos divides small = ground arith

  -- For pages that are mapped in the way of `map_physical`.
  map_physical_region-room :
      (align addr size : ℕ) (s s' : S) (a : PageAllocation) (v : VirtAddr)
      → 0 < align
      → 0x1000 % align ≡ 0
      → size < 2 ^ 63
      → map_physical addr (size / 0x1000 + 1) s ≡ done (s', some (a, v))
      → Maps addr (size / 0x1000 + 1) a v
      → (a.first_page + a.page_amount) * 0x1000 < 2 ^ 64
      → is_valid v ≡ true
      → v % align ≡ 0
      → 0 < v
      → (region : PhysicalMapping) × (map_physical_region map_physical dealloc_pages align addr size
            s
          ≡ done (s', region))
        × (region.virtual_start ≡ v)
        × (a.first_page * 0x1000 ≤ v)
        × (v + size ≤ (a.first_page + a.page_amount) * 0x1000)
        × ((t : S) → unmap_physical_region map_physical dealloc_pages region t ≡ dealloc_pages a t)
  unfolding map_physical_region unmap_physical_region Page.from_virt
  map_physical_region-room align addr size s s' a v pos divides small given maps room valid aligned
        above =
      let pages = region_pages_lem size align pos divides small in
      let ptr : next_multiple_of v align ≡ done v = ground (arith, aligned, pos) in
      let nonzero : not (v == 0) ≡ true = ground (arith, above) in
      let length : mul64 a.page_amount 0x1000 ≡ done (a.page_amount * 0x1000) =
        ground (arith, room) in
      let amount_back : a.page_amount * 0x1000 / 0x1000 ≡ a.page_amount = omega arith in
      let page_back : v / 0x1000 ≡ a.first_page = omega (arith, maps.place) in
      (
        record {
          physical_start = addr;
          virtual_start = v;
          region_length = size;
          mapped_length = a.page_amount * 0x1000;
        },
        rw (pages, given, ptr, nonzero, length) refl,
        refl,
        omega (arith, maps.place),
        ground (arith, maps.place, maps.pages),
        λ t. rw (valid, page_back, amount_back) refl,
      )

module _ {A : Type 0} (alloc : PhysicalAllocator A) (offset : ℕ) (cr3 : PhyAddr)
    (store_byte : VirtAddr → ℕ → Mem → Mem) where
  -- Over a `BasicPageAllocator` with frames of the size of a page, for a type whose alignment divides a
  -- page, and a size below 2^63: where `map_physical` gives pages that end below 2^64, and a virtual
  -- address that is valid, aligned for the type and not 0, `map_physical_region` gives a mapping
  -- at this address, all bytes of the region lie in the pages, and `unmap_physical_region` of the mapping
  -- gives back these very pages.
  pub map_physical_region-unmap_physical_region :
      (align addr size : ℕ) (s s' : Inner A) (a : PageAllocation) (v : VirtAddr)
      → alloc.frame_size ≡ 0x1000
      → 0 < align
      → 0x1000 % align ≡ 0
      → size < 2 ^ 63
      → map_physical alloc offset cr3 store_byte addr (size / 0x1000 + 1) s ≡ done (s', some (a, v))
      → (a.first_page + a.page_amount) * 0x1000 < 2 ^ 64
      → is_valid v ≡ true
      → v % align ≡ 0
      → 0 < v
      → (region : PhysicalMapping) × (map_physical_region
            (map_physical alloc offset cr3 store_byte)
            (dealloc_pages alloc offset cr3 store_byte)
            align
            addr
            size
            s
          ≡ done (s', region))
        × (region.virtual_start ≡ v)
        × (a.first_page * 0x1000 ≤ v)
        × (v + size ≤ (a.first_page + a.page_amount) * 0x1000)
        × ((t : Inner A)
            → unmap_physical_region
                (map_physical alloc offset cr3 store_byte)
                (dealloc_pages alloc offset cr3 store_byte)
                region
                t
              ≡ dealloc_pages alloc offset cr3 store_byte a t)
  map_physical_region-unmap_physical_region align addr size s s' a v page pos divides small given
        room valid aligned above =
      map_physical_region-room (map_physical alloc offset cr3 store_byte)
        (dealloc_pages alloc offset cr3 store_byte) align addr size s s' a v pos divides small given
        (map_physical-Maps alloc offset cr3 store_byte addr (size / 0x1000 + 1) s s' a v page given)
        room valid aligned above
