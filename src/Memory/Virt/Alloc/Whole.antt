-- ===== src/Memory/Virt/Alloc/Whole.antt =====
-- `alloc_pages` of src/memory/virt.rs on every branch.
use native.Mathlib.Decide.{ℕ_discrete}
use os_test.Prelude.{ℕ, suc, ◌+◌, ◌*◌, ◌^◌, ◌≤◌, ◌≡◌, Bool, false, ◌<◌, some, none, Option, arith}
use os_test.Prelude.Outcome.{Outcome, done, panic, ◌>>=◌}
use os_test.Memory.Addr.{VirtAddr}
use os_test.Memory.FrameSource.{PhysicalAllocator}
use os_test.Memory.FrameSource.Supply.{Supply}
use os_test.Memory.Paging.Page.{Page}
use os_test.Memory.Paging.Iter.{PageIter, for_pages, for_pages-run, for_pages-edge}
use os_test.Memory.Paging.Search.FirstFit.{search_end, FirstFit, found, find_free_pages-FirstFit}
use os_test.Memory.Paging.Table.{Mem, current, find_free_pages, page_is_present}
use os_test.Memory.Paging.Tree.{Mapping, unmapped, view, Owner}
use os_test.Memory.Paging.Tree.Answer.{takes, is_taken, view-done, page_is_present-takes}
use os_test.Memory.Virt.{Inner, PageAllocation, alloc_page, alloc_pages}
use os_test.Memory.Virt.Alloc.{IsState, Says, RunBacked}
use os_test.Memory.Virt.Alloc.Loop.{alloc_page-RunBacked}

module _ {A : Type 0} {alloc : PhysicalAllocator A} (supply : Supply alloc) (offset : ℕ)
    (root cr3 : VirtAddr) (store_byte : VirtAddr → ℕ → Mem → Mem) where
  -- Is a page taken in the state?
  abbrev pub taken : Inner A → Page → Bool
  taken s p = takes (view offset s.mem root p)

  -- What `alloc_pages` does. `no_room`: every run of that many pages that the search can reach has
  -- a page that is taken, and nothing changes. `allocated`: the first run of free pages is mapped,
  -- each page to a frame of its own, and given; it does not reach the last page of the numbers.
  -- `past_end`: this run ends with the last page of the numbers, and the call panics.
  pub data AllocPages (count : ℕ) (s : Inner A) (owner : Owner)
      : Outcome (Inner A × Option PageAllocation) → Type 0 where
    no_room :
        FirstFit (taken s) s.last_page_alloc count none → AllocPages count s owner (done (s, none))
    allocated :
        (it : PageIter)
        → FirstFit (taken s) s.last_page_alloc count (some it)
        → it.end + 1 < search_end s.last_page_alloc
        → (s' : Inner A) (owner' : Owner)
        → RunBacked supply offset root cr3 store_byte it.start count
            (record s { last_page_alloc = it.end })
            owner
            s'
            owner'
        → AllocPages count s owner
            (done (s', some (record { first_page = it.start; page_amount = count })))
    past_end :
        (it : PageIter)
        → FirstFit (taken s) s.last_page_alloc count (some it)
        → it.end + 1 ≡ search_end s.last_page_alloc
        → AllocPages count s owner panic

  pub absent-unmapped :
      (s : Inner A) (owner : Owner) (p : Page)
      → IsState supply offset root cr3 store_byte s owner
      → taken s p ≡ false
      → Says supply offset root cr3 store_byte s p unmapped
  absent-unmapped s owner p state free =
      let (m, answer) = view-done state.tree p in rw answer (untaken m (rw answer at free))
    where
      untaken : (m : Mapping) → is_taken m ≡ false → done m ≡ done unmapped
      untaken m free = ground (arith, free)

  module _ (fits : (0 < offset) × (offset + supply.bound ≤ 2 ^ 64)) where
    -- The loop, from the state in which the run was found.
    allocate_run :
        (count : ℕ) (s : Inner A) (owner : Owner) (it : PageIter)
        → 0 < count
        → s.last_page_alloc < 2 ^ 52
        → 4 * count ≤ supply.free s.physical_allocator
        → IsState supply offset root cr3 store_byte s owner
        → FirstFit (taken s) s.last_page_alloc count (some it)
        → AllocPages count s owner (
            for_pages
              (alloc_page alloc offset cr3 store_byte root)
              (suc (suc count))
              it
              (record s { last_page_alloc = it.end })
            >>= λ s'. done (s', some (record { first_page = it.start; page_amount = count })))
    allocate_run count s owner it pos small enough state (found _ from span inside free blocked) =
        let fit : FirstFit (taken s) s.last_page_alloc count (some it) =
          found it from span inside free blocked in
        let below : it.end < 2 ^ 52 = omega (arith, inside, small) in
        elim (ℕ_discrete (it.end + 1) (search_end s.last_page_alloc)) [
          | yes last ↦
              rw
                (for_pages-edge (alloc_page alloc offset cr3 store_byte root) (suc (suc count))
                  count it.start it.end (record s { last_page_alloc = it.end }) pos span
                  (omega (arith, last, from, span)) below)
                (past_end it fit last)
          | no ne ↦
              let (s', owner', runs, backed) =
                alloc_page-RunBacked supply offset root cr3 store_byte fits it.start count
                  (record s { last_page_alloc = it.end }) owner state enough
                  (omega (arith, from, span, inside)) (omega (arith, below, span, pos))
                  (λ p lo hi.
                    absent-unmapped s owner p state (free p lo (omega (arith, hi, span)))) in
              rw
                (
                  for_pages-run (alloc_page alloc offset cr3 store_byte root) (suc (suc count))
                      count it.start it.end (record s { last_page_alloc = it.end }) (omega arith)
                      span (omega (arith, ne, from, span, inside)) below,
                  runs,
                )
                (allocated it fit (omega (arith, ne, inside)) s' owner' backed)
        ]

    -- Where the direct map begins above 0 and maps the frames of the allocator, which lie below a
    -- bound of at most 2^52, below 2^64, `cr3` has the root, the tables are a tree in frames that
    -- the allocator does not hand out, the search starts at a page number of 52 bits, and four
    -- frames are free for each of the pages, at least one: `alloc_pages` finds no run of free pages
    -- and changes nothing, or maps the first such run, each page readable and writable to a frame
    -- of its own that was free, changes what `page_entry` says of no other page and gives the run,
    -- or panics, exactly where this run ends with the last page of the numbers.
    pub alloc_pages-AllocPages :
        (count : ℕ) (s : Inner A) (owner : Owner)
        → 0 < count
        → s.last_page_alloc < 2 ^ 52
        → 4 * count ≤ supply.free s.physical_allocator
        → current offset cr3 ≡ done root
        → IsState supply offset root cr3 store_byte s owner
        → AllocPages count s owner (alloc_pages alloc offset cr3 store_byte count s)
    unfolding alloc_pages find_free_pages
    alloc_pages-AllocPages count s owner pos small enough at state =
        let (r, runs, fit) =
          find_free_pages-FirstFit (page_is_present offset s.mem root) (taken s)
            (page_is_present-takes state.tree) s.last_page_alloc count pos small in
        rw (at, runs) (finish r fit)
      where
        finish :
            (r : Option PageIter)
            → FirstFit (taken s) s.last_page_alloc count r
            → AllocPages count s owner (elim r [
              | none ↦ done (s, none)
              | some it ↦ (do
                s' ←
                    for_pages
                      (alloc_page alloc offset cr3 store_byte root)
                      (suc (suc count))
                      it
                      (record s { last_page_alloc = it.end })
                done (s', some (record { first_page = it.start; page_amount = count })))
            ])
        finish none fit = no_room fit
        finish (some it) fit = allocate_run count s owner it pos small enough state fit
