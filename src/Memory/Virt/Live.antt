-- ===== src/Memory/Virt/Live.antt =====
-- The pages that the allocator of src/memory/virt.rs has given out, through calls of `alloc_pages` and
-- `dealloc_pages`.
pub mod Keep
pub mod Runs
use os_test.Prelude.{
  ℕ, ◌+◌, ◌^◌, ◌*◌, ◌%◌, ◌≤◌, ◌<◌, ◌≡◌, ◌≢◌, Bool, true, false, ◌&&◌, leb, ltb, Option, some, none,
  if◌then◌else◌,
}
use os_test.Prelude.Outcome.{done}
use os_test.Memory.Addr.{VirtAddr}
use os_test.Memory.FrameSource.{PhysicalAllocator}
use os_test.Memory.FrameSource.Supply.{Supply}
use os_test.Memory.Paging.Entry.{PageTableEntry, addr}
use os_test.Memory.Paging.Page.{Page}
use os_test.Memory.Paging.Table.{Mem}
use os_test.Memory.Paging.Tree.{Owner}
use os_test.Memory.Virt.{Inner, PageAllocation, alloc_pages, dealloc_pages}
use os_test.Memory.Virt.Alloc.{IsState}
use os_test.Memory.Virt.Dealloc.{IsOwned}

-- The pages that are given out.
abbrev pub Live : Type 0
Live = Page → Bool

abbrev pub in_run : (start count : ℕ) → Page → Bool
in_run start count p = leb start p && ltb p (start + count)

abbrev pub with_run : (start count : ℕ) → Live → Live
with_run start count live p = if in_run start count p then true else live p

abbrev pub without_run : (start count : ℕ) → Live → Live
without_run start count live p = if in_run start count p then false else live p

module _ {A : Type 0} {alloc : PhysicalAllocator A} (supply : Supply alloc) (offset : ℕ)
    (root cr3 : VirtAddr) (store_byte : VirtAddr → ℕ → Mem → Mem) where
  -- A call, from a state and the pages that are given out, with four free frames for each page that
  -- is asked for; what is given back is a run of pages that were given out.
  pub data Step (s : Inner A) (live : Live) : Inner A → Live → Type 0 where
    allocate :
        (count : ℕ) (t : Inner A) (allocation : PageAllocation)
        → 0 < count
        → 4 * count ≤ supply.free s.physical_allocator
        → alloc_pages alloc offset cr3 store_byte count s ≡ done (t, some allocation)
        → Step s live t (with_run allocation.first_page allocation.page_amount live)
    refuse :
        (count : ℕ) (t : Inner A)
        → 0 < count
        → 4 * count ≤ supply.free s.physical_allocator
        → alloc_pages alloc offset cr3 store_byte count s ≡ done (t, none)
        → Step s live t live
    give_back :
        (start count : ℕ) (t : Inner A)
        → 0 < count
        → start % 2 ^ 36 + count < 2 ^ 36
        → start + count ≤ 2 ^ 52
        → ((p : Page) → start ≤ p → p < start + count → live p ≡ true)
        → dealloc_pages alloc offset cr3 store_byte
            (record { first_page = start; page_amount = count })
            s
          ≡ done t
        → Step s live t (without_run start count live)

  -- The states that a run of calls reaches.
  pub data Reach (s : Inner A) : Inner A → Live → Type 0 where
    begin : Reach s s (λ p. false)
    call :
        (t : Inner A) (live : Live) (u : Inner A) (live' : Live)
        → Reach s t live
        → Step t live u live'
        → Reach s u live'

  -- The tables are a tree, and each page that is given out is mapped to a frame that is handed out,
  -- that holds no table and that no other such page has.
  pub record IsSafe (s : Inner A) (live : Live) : Type 0 where
    pub owner : Owner
    pub state : IsState supply offset root cr3 store_byte s owner
    pub small : s.last_page_alloc < 2 ^ 52
    pub word : Page → PageTableEntry
    pub owned :
        (p : Page) → live p ≡ true → IsOwned supply offset root cr3 store_byte s owner p (word p)
    pub distinct :
        (p q : Page) → live p ≡ true → live q ≡ true → p ≢ q → addr (word p) ≢ addr (word q)
