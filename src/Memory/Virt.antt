-- ===== src/Memory/Virt.antt =====
-- `BasicPageAllocator` of src/memory/virt.rs over a physical allocator: pages of the address
-- space are found, backed by frames, and given back. One lock is held during each operation, so
-- that an operation is a function on the state behind the lock and the memory of the tables.
pub mod Shape
pub mod Undo
pub mod Area
pub mod Alloc
pub mod Region
pub mod Live
pub mod Dealloc
use os_test.Prelude.{ℕ, zero, suc, ◌+◌, Option, none, some, ◌==◌, if◌then◌else◌, bit_or}
use os_test.Prelude.Outcome.{Outcome, done, ◌>>=◌, unwrap, add64, sub64}
use os_test.Memory.Addr.{PhyAddr, VirtAddr, as_virtual, align_down}
use os_test.Memory.FrameSource.{PhysicalAllocator}
use os_test.Memory.Paging.Entry.{PageTableEntryFlags, page_size, empty, addr}
use os_test.Memory.Paging.Entry.Flag
use os_test.Memory.Paging.Page
use os_test.Memory.Paging.Page.{Page}
use os_test.Memory.Paging.Iter.{for_pages}
use os_test.Memory.Paging.Table.{
  current, Mem, write, page_entry_mut, find_free_pages, map_page_unchecked,
}

pub record PageAllocation : Type 0 where
  pub first_page : Page
  pub page_amount : ℕ

-- `PageAllocation::new`
unfoldable pub new_allocation : VirtAddr → ℕ → Outcome PageAllocation
new_allocation virt_addr page_amount = do
  page ← Page.from_virt virt_addr
  done (record { first_page = page; page_amount = page_amount })

-- `PageAllocation::as_virt_addr`
unfoldable pub as_virt_addr : PageAllocation → Outcome VirtAddr
as_virt_addr alloc = Page.to_virt alloc.first_page

-- `BasicPageAllocatorInner`, and the memory that holds the page tables.
pub record Inner (A : Type 0) : Type 0 where
  pub physical_allocator : A
  pub last_page_alloc : Page
  pub mem : Mem

abbrev pub mapped_flags : PageTableEntryFlags
mapped_flags = bit_or Flag.present Flag.writable

-- `offset` is that of the direct map, `cr3` the physical address of the current table, and
-- `store_byte` what a store of a byte through the current mapping does to the memory.
module _ {A : Type 0} (alloc : PhysicalAllocator A) (offset : ℕ) (cr3 : PhyAddr)
    (store_byte : VirtAddr → ℕ → Mem → Mem) where
  -- The call of `map_page_unchecked` on the fields of the state.
  unfoldable pub map_page : VirtAddr → Page → PhyAddr → Inner A → Outcome (Inner A)
  map_page table page frame s = do
    (mem, rest) ←
        map_page_unchecked offset alloc table page frame mapped_flags (s.mem, s.physical_allocator)
    done (record s { physical_allocator = rest; mem = mem })

  -- `invlpg` of the page, which leaves the memory alone; its address is computed.
  unfoldable pub flush_page : Page → Inner A → Outcome (Inner A)
  flush_page page s = do at ← Page.to_virt page; done s

  -- The body of the loop of `alloc_pages`.
  pub alloc_page : VirtAddr → Page → Inner A → Outcome (Inner A)
  unfolding map_page flush_page
  alloc_page table page s = do
    (rest, frame) ← alloc.allocate_frame s.physical_allocator
    s' ← map_page table page frame (record s { physical_allocator = rest })
    flush_page page s'

  unfoldable pub alloc_pages : ℕ → Inner A → Outcome (Inner A × Option PageAllocation)
  unfolding alloc_page
  alloc_pages page_amount s = do
    page_table ← current offset cr3
    free_pages ← find_free_pages offset s.mem page_table s.last_page_alloc page_amount
    elim free_pages [
      | none ↦ done (s, none)
      | some it ↦ (do
        s' ←
            for_pages (alloc_page page_table) (suc (suc page_amount)) it
              (record s { last_page_alloc = it.end })
        done (s', some (record { first_page = it.start; page_amount = page_amount })))
    ]

  -- The body of the loop of `dealloc_pages`.
  pub dealloc_page : VirtAddr → Page → Inner A → Outcome (Inner A)
  unfolding flush_page
  dealloc_page table page s = do
    found ← page_entry_mut offset s.mem table page
    entry ← unwrap found
    rest ← alloc.free_frame s.physical_allocator (addr (s.mem entry))
    flush_page page (record s { physical_allocator = rest; mem = write s.mem entry empty })

  pub dealloc_pages : PageAllocation → Inner A → Outcome (Inner A)
  unfolding dealloc_page
  dealloc_pages allocation s = do
    steps ← sub64 allocation.page_amount 1
    reached ← Page.next_by allocation.first_page steps
    end ← unwrap reached
    page_table ← current offset cr3
    for_pages (dealloc_page page_table) (suc allocation.page_amount)
        (record { start = allocation.first_page; end = end }) s

  -- The loop that gives the frames back where no pages are free.
  unfoldable pub free_frames : ℕ → PhyAddr → A → Outcome A
  free_frames zero frame rest = done rest
  free_frames (suc count) frame rest = do
    rest' ← alloc.free_frame rest frame
    following ← add64 frame alloc.frame_size
    free_frames count following rest'

  -- The loop that clears the page of the local APIC byte by byte.
  pub clear_bytes : (count i : ℕ) → VirtAddr → Mem → Outcome Mem
  clear_bytes zero i start mem = done mem
  clear_bytes (suc count) i start mem = do
    byte ← add64 start i
    clear_bytes count (i + 1) start (store_byte byte 0 mem)

  -- The page of the local APIC is cleared once it is mapped.
  unfoldable pub clear_apic : Page → PhyAddr → Mem → Outcome Mem
  clear_apic page phy_addr mem =
      if phy_addr == 0xfee00000
      then (do start ← Page.to_virt page; clear_bytes page_size 0 start mem)
      else done mem

  -- The body of the loop of `map_physical`; the address of the frame is a variable of the loop.
  unfoldable pub map_frame : VirtAddr → Page → Inner A × PhyAddr → Outcome (Inner A × PhyAddr)
  map_frame table page (s, phy_addr) = do
    s' ← map_page table page phy_addr s
    mem ← clear_apic page phy_addr s'.mem
    following ← add64 phy_addr alloc.frame_size
    done (record s' { mem = mem }, following)

  unfoldable pub map_physical :
      PhyAddr → ℕ → Inner A → Outcome (Inner A × Option (PageAllocation × VirtAddr))
  unfolding map_frame free_frames
  map_physical phy_addr page_amount s = do
    aligned ← align_down phy_addr alloc.frame_size
    align_offset ← sub64 phy_addr aligned
    let add_page = if align_offset == 0 then 0 else 1
    amount ← add64 page_amount add_page
    (rest, claimed) ← alloc.alloc_phy_addr s.physical_allocator aligned amount
    elim claimed [
      | none ↦ done (record s { physical_allocator = rest }, none)
      | some frame ↦ (do
        page_table ← current offset cr3
        free_pages ← find_free_pages offset s.mem page_table s.last_page_alloc amount
        elim free_pages [
          | none ↦ (do
            rest' ← free_frames amount frame rest
            done (record s { physical_allocator = rest' }, none))
          | some it ↦ (do
            (s', end) ←
                for_pages (map_frame page_table) (suc (suc amount)) it
                  (record s { physical_allocator = rest }, frame)
            start ← Page.to_virt it.start
            at ← add64 start align_offset
            done (s', some (record { first_page = it.start; page_amount = amount }, at)))
        ])
    ]
