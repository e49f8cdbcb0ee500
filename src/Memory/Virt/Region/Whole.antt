-- ===== src/Memory/Virt/Region/Whole.antt =====
-- `map_physical` of src/memory/virt.rs on every branch, where the frames are free.
use native.Mathlib.Decide.{ℕ_discrete}
use native.Mathlib.Nat.{mod-le}
use os_test.Prelude.{
  ℕ, suc, ◌+◌, ◌-◌, ◌*◌, ◌^◌, ◌%◌, ◌≤◌, ◌≡◌, ◌<◌, refl, some, none, Option, arith, ◌==◌,
  if◌then◌else◌,
}
use os_test.Prelude.Outcome.{Outcome, done, panic, ◌>>=◌, add64, sub64}
use os_test.Memory.Addr.{PhyAddr, VirtAddr}
use os_test.Memory.FrameSource.{basic}
use os_test.Memory.FrameSource.Supply.{basic_supply, count_free}
use os_test.Memory.FrameSource.Claims.{
  claimed, alloc_phy_addr-claimed, claimed-IsBelow, count_free-claimed, claimed-InUse,
}
use os_test.Memory.Physical.{BasicPhysicalAllocator}
use os_test.Memory.Physical.Claim.{AreFree}
use os_test.Memory.Physical.Frame.{address}
use os_test.Memory.Paging.Page
use os_test.Memory.Paging.Page.{Page}
use os_test.Memory.Paging.Iter.{PageIter, for_pages, for_pages-run, for_pages-edge}
use os_test.Memory.Paging.Search.FirstFit.{search_end, FirstFit, found, find_free_pages-FirstFit}
use os_test.Memory.Paging.Table.{Mem, current, find_free_pages, page_is_present}
use os_test.Memory.Paging.Tree.{Owner}
use os_test.Memory.Paging.Tree.Answer.{page_is_present-takes}
use os_test.Memory.Paging.Tree.Change.{IsTree-held}
use os_test.Memory.Virt.{Inner, PageAllocation, map_frame, free_frames, map_physical}
use os_test.Memory.Virt.Alloc.{IsState}
use os_test.Memory.Virt.Alloc.Whole.{taken, absent-unmapped}
use os_test.Memory.Virt.Region.{IsRun, RunMapped, map_frame-RunMapped}
use os_test.Memory.Virt.Shape.{align_down_page, pages_for, answer}
use os_test.Memory.Virt.Undo.{free_frames-mark_used}

abbrev State : Type 0
State = Inner BasicPhysicalAllocator

answer-done :
    (addr pages first : ℕ) (s : State)
    → first < 2 ^ 52
    → answer addr pages first s
      ≡ done
          (s, some (record { first_page = first; page_amount = pages }, first * 4096 + addr % 4096))
unfolding Page.to_virt
answer-done addr pages first s small = ground (arith, small)

module _ (bound : ℕ) (small_bound : bound ≤ 2 ^ 52) (offset : ℕ) (root cr3 : VirtAddr)
    (store_byte : VirtAddr → ℕ → Mem → Mem) where
  -- What `map_physical` does with `count` free frames from `frame` on, where the address lies
  -- `inner` bytes behind the first. `no_room`: every run of that many pages that the search can
  -- reach has a page that is taken, and nothing changes. `placed`: the first run of free pages is
  -- mapped to the frames, in order, and given with the virtual address of the physical one.
  -- `past_end`: this run ends with the last page of the numbers, and the call panics.
  pub data MapPhysical (count : ℕ) (frame : PhyAddr) (inner : ℕ) (s t : State)
      : Outcome (State × Option (PageAllocation × VirtAddr)) → Type 0 where
    no_room :
        FirstFit
          (taken (basic_supply bound small_bound) offset root cr3 store_byte s)
          s.last_page_alloc
          count
          none
        → MapPhysical count frame inner s t (done (s, none))
    placed :
        (it : PageIter)
        → FirstFit
            (taken (basic_supply bound small_bound) offset root cr3 store_byte s)
            s.last_page_alloc
            count
            (some it)
        → it.end + 1 < search_end s.last_page_alloc
        → (s' : State) (owner' : Owner)
        → RunMapped
            (basic_supply bound small_bound)
            offset
            root
            cr3
            store_byte
            it.start
            count
            frame
            t
            s'
            owner'
        → MapPhysical count frame inner s t (
            done (
              s',
              some (record { first_page = it.start; page_amount = count }, it.start * 4096 + inner),
            ))
    past_end :
        (it : PageIter)
        → FirstFit
            (taken (basic_supply bound small_bound) offset root cr3 store_byte s)
            s.last_page_alloc
            count
            (some it)
        → it.end + 1 ≡ search_end s.last_page_alloc
        → MapPhysical count frame inner s t panic

  module _ (fits : (0 < offset) × (offset + bound ≤ 2 ^ 64)) (addr index count : ℕ) (s : State)
      (owner : Owner) (pos : 0 < count) (small : s.last_page_alloc < 2 ^ 52)
      (state : IsState (basic_supply bound small_bound) offset root cr3 store_byte s owner)
      (free : AreFree count index s.physical_allocator.bitmap)
      (is_run : IsRun (address s.physical_allocator index) count)
      (enough : 4 * count ≤ count_free s.physical_allocator.bitmap) where
    -- The state in which the frames are claimed.
    abbrev pub holding : State
    holding = record s { physical_allocator = claimed count index s.physical_allocator }

    holding-IsState :
        IsState (basic_supply bound small_bound) offset root cr3 store_byte holding owner
    holding-IsState = record {
      tree = IsTree-held state.tree (λ t p f own lies held.
          claimed-InUse bound s.physical_allocator state.good count index free f held);
      good = claimed-IsBelow bound s.physical_allocator state.good count index free;
    }

    place_run :
        (it : PageIter)
        → FirstFit
            (taken (basic_supply bound small_bound) offset root cr3 store_byte s)
            s.last_page_alloc
            count
            (some it)
        → MapPhysical count (address s.physical_allocator index) (addr % 4096) s holding (
            for_pages
              (map_frame basic offset cr3 store_byte root)
              (suc (suc count))
              it
              (holding, address s.physical_allocator index)
            >>= λ r. answer addr count it.start r.0)
    place_run it (found _ from span inside untaken blocked) =
        let fit : FirstFit (taken (basic_supply bound small_bound) offset root cr3 store_byte s)
            s.last_page_alloc count (some it) =
          found it from span inside untaken blocked in
        let below : it.end < 2 ^ 52 = omega (arith, inside, small) in
        elim (ℕ_discrete (it.end + 1) (search_end s.last_page_alloc)) [
          | yes last ↦
              rw
                (for_pages-edge (map_frame basic offset cr3 store_byte root) (suc (suc count)) count
                  it.start it.end (holding, address s.physical_allocator index) pos span
                  (omega (arith, last, from, span)) below)
                (past_end it fit last)
          | no ne ↦
              let (s', owner', end, runs, mapped) =
                map_frame-RunMapped (basic_supply bound small_bound) offset root cr3 store_byte fits
                  refl it.start count (address s.physical_allocator index) holding owner
                  holding-IsState
                  (omega (
                    arith,
                    enough,
                    count_free-claimed bound s.physical_allocator state.good count index free,
                  ))
                  (omega (arith, from, span, inside)) is_run
                  (λ p lo hi.
                    absent-unmapped (basic_supply bound small_bound) offset root cr3 store_byte s
                      owner p state (untaken p lo (omega (arith, hi, span)))) in
              rw
                (
                  for_pages-run (map_frame basic offset cr3 store_byte root) (suc (suc count)) count
                      it.start it.end (holding, address s.physical_allocator index) (omega arith)
                      span (omega (arith, ne, from, span, inside)) below,
                  runs,
                  answer-done addr count it.start s' (omega (arith, below, span, pos)),
                )
                (placed it fit (omega (arith, ne, inside)) s' owner' mapped)
        ]

    -- Where the direct map begins above 0 and maps the frames of the allocator, which lie below a
    -- bound of at most 2^52, below 2^64, `cr3` has the root, the tables are a tree in frames that
    -- the bitmap allocator does not hand out, the search starts at a page number of 52 bits, the
    -- frames from the page of the address on are in the bitmap and free, one more than the amount
    -- where the address is inside a page, at least one, below 2^52 and without the page of the
    -- local APIC, and four times as many frames are free: `map_physical` finds no run of free pages
    -- and changes nothing, the claim included, or maps the first such run to these frames, in
    -- order, readable and writable, changes what `page_entry` says of no other page and gives the
    -- run with the virtual address of the physical one, or panics, exactly where this run ends with
    -- the last page of the numbers.
    pub map_physical-MapPhysical :
        (amount : ℕ)
        → amount + 1 < 2 ^ 64
        → count ≡ pages_for addr amount
        → addr - addr % 4096 ≡ address s.physical_allocator index
        → current offset cr3 ≡ done root
        → MapPhysical count
            (address s.physical_allocator index)
            (addr % 4096)
            s
            holding
            (map_physical basic offset cr3 store_byte addr amount s)
    unfolding map_physical find_free_pages
    map_physical-MapPhysical amount narrow pages at here =
        let sub : sub64 addr (addr - addr % 4096) ≡ done (addr % 4096) =
          ground (arith, mod-le addr 4096) in
        let sum : add64 amount (if addr % 4096 == 0 then 0 else 1) ≡ done count =
          ground (arith, narrow, pages) in
        let claim = alloc_phy_addr-claimed bound s.physical_allocator state.good count index free in
        let (r, runs, fit) =
          find_free_pages-FirstFit (page_is_present offset s.mem root)
            (taken (basic_supply bound small_bound) offset root cr3 store_byte s)
            (page_is_present-takes state.tree) s.last_page_alloc count pos small in
        rw (align_down_page addr, sub, sum, at, claim, here, runs) (finish r fit)
      where
        finish :
            (r : Option PageIter)
            → FirstFit
                (taken (basic_supply bound small_bound) offset root cr3 store_byte s)
                s.last_page_alloc
                count
                r
            → MapPhysical count
                (address s.physical_allocator index)
                (addr % 4096)
                s
                holding
                (elim r [
                  | none ↦ (do
                    rest' ←
                        free_frames basic offset cr3 store_byte count
                          (address s.physical_allocator index)
                          (claimed count index s.physical_allocator)
                    done (record s { physical_allocator = rest' }, none))
                  | some it ↦ (do
                    (s', end) ←
                        for_pages
                          (map_frame basic offset cr3 store_byte root)
                          (suc (suc count))
                          it
                          (holding, address s.physical_allocator index)
                    answer addr count it.start s')
                ])
        finish none fit =
            rw
              (free_frames-mark_used offset cr3 store_byte count index s.physical_allocator
                state.good.0 free)
              (no_room fit)
        finish (some it) fit = place_run it fit
