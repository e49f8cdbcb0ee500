-- ===== src/Memory/Virt/Live/Runs.antt =====
-- Every run of calls of `alloc_pages` and `dealloc_pages` of src/memory/virt.rs keeps what is given
-- out apart.
use os_test.Prelude.{ℕ, ◌+◌, ◌^◌, ◌≤◌, ◌<◌, ◌≡◌, refl, sym, ◌∙◌, some, none, arith}
use os_test.Prelude.Outcome.{done}
use os_test.Memory.Addr.{VirtAddr}
use os_test.Memory.FrameSource.{PhysicalAllocator}
use os_test.Memory.FrameSource.Supply.{Supply}
use os_test.Memory.Paging.Table.{Mem, current}
use os_test.Memory.Paging.Table.Enter.{true-false}
use os_test.Memory.Paging.Tree.{Owner}
use os_test.Memory.Paging.Search.FirstFit.{found}
use os_test.Memory.Virt.{Inner, PageAllocation}
use os_test.Memory.Virt.Alloc.{IsState}
use os_test.Memory.Virt.Alloc.Whole.{
  AllocPages, no_room, allocated, absent-unmapped, alloc_pages-AllocPages,
}
use os_test.Memory.Virt.Dealloc.Whole.{dealloc_pages-RunFreed}
use os_test.Memory.Virt.Live.{
  Live, with_run, IsSafe, Step, allocate, refuse, give_back, Reach, begin, call,
}
use os_test.Memory.Virt.Live.Keep.{with_run-IsSafe, run-AreOwned, without_run-IsSafe}

module _ {A : Type 0} {alloc : PhysicalAllocator A} (supply : Supply alloc) (offset : ℕ)
    (root cr3 : VirtAddr) (store_byte : VirtAddr → ℕ → Mem → Mem)
    (fits : (0 < offset) × (offset + supply.bound ≤ 2 ^ 64))
    (here : current offset cr3 ≡ done root) where
  allocated-IsSafe :
      (count : ℕ) (s t : Inner A) (live : Live) (allocation : PageAllocation)
      (safe : IsSafe supply offset root cr3 store_byte s live)
      → AllocPages supply offset root cr3 store_byte count s safe.owner (done (t, some allocation))
      → IsSafe supply offset root cr3 store_byte t
          (with_run allocation.first_page allocation.page_amount live)
  allocated-IsSafe count s t live allocation safe
        (allocated it (found _ from span inside free blocked) within _ owner' backs) =
      let begun : Inner A = record s { last_page_alloc = it.end } in
      let searched : IsSafe supply offset root cr3 store_byte begun live = record {
        owner = safe.owner;
        state = safe.state;
        small = omega (arith, within, safe.small);
        word = safe.word;
        owned = λ p alive.
            let o = safe.owned p alive in
            record { here = o.here; given = o.given; no_table = o.no_table };
        distinct = safe.distinct;
      } in
      with_run-IsSafe supply offset root cr3 store_byte it.start count begun t live searched owner'
        backs
        (λ p lo hi.
          absent-unmapped supply offset root cr3 store_byte s safe.owner p safe.state
            (free p lo (omega (arith, hi, span))))
        (rw backs.last (omega (arith, within, safe.small)))

  refused-IsSafe :
      (count : ℕ) (s t : Inner A) (live : Live)
      (safe : IsSafe supply offset root cr3 store_byte s live)
      → AllocPages supply offset root cr3 store_byte count s safe.owner (done (t, none))
      → IsSafe supply offset root cr3 store_byte t live
  refused-IsSafe count s t live safe (no_room fit) = safe

  Step-IsSafe :
      (s : Inner A) (live : Live) (t : Inner A) (live' : Live)
      → IsSafe supply offset root cr3 store_byte s live
      → Step supply offset root cr3 store_byte s live t live'
      → IsSafe supply offset root cr3 store_byte t live'
  Step-IsSafe s live t live' safe (allocate count _ allocation pos enough runs) =
      allocated-IsSafe count s t live allocation safe (
        rw runs at (
          alloc_pages-AllocPages supply offset root cr3 store_byte fits count s safe.owner pos
            safe.small enough here safe.state))
  Step-IsSafe s live t live' safe (refuse count _ pos enough runs) =
      refused-IsSafe count s t live safe (
        rw runs at (
          alloc_pages-AllocPages supply offset root cr3 store_byte fits count s safe.owner pos
            safe.small enough here safe.state))
  Step-IsSafe s live t live' safe (give_back start count _ pos room below all_live runs) =
      let (t', returns, freed) =
        dealloc_pages-RunFreed supply offset root cr3 store_byte start count s safe.owner safe.word
          pos room below here safe.state
          (run-AreOwned supply offset root cr3 store_byte start count s t live safe all_live) in
      let same : t' ≡ t = ground (arith, sym returns ∙ runs) in
      rw (← same) (
        without_run-IsSafe supply offset root cr3 store_byte start count s t' live safe all_live
          freed)

  -- From a state in which the direct map begins above 0 and maps the frames of the allocator, which
  -- lie below a bound of at most 2^52, below 2^64, `cr3` has the root, the tables are a tree in
  -- frames that the allocator does not hand out, and the search starts at a page number of 52 bits,
  -- consider every state that calls reach which return: of `alloc_pages`, for at least one page and
  -- with four free frames for each page, and of `dealloc_pages`, for runs of at least one page that
  -- were given out, have numbers of 52 bits and do not reach the last of 2^36 pages. There the
  -- tables are a tree, and each page that is given out is mapped to a frame that was handed out,
  -- that holds no table, and that no other page has that is given out.
  pub Reach-IsSafe :
      (s : Inner A) (owner : Owner) (t : Inner A) (live : Live)
      → IsState supply offset root cr3 store_byte s owner
      → s.last_page_alloc < 2 ^ 52
      → Reach supply offset root cr3 store_byte s t live
      → IsSafe supply offset root cr3 store_byte t live
  Reach-IsSafe s owner t live state small begin = record {
    owner = owner;
    state = state;
    small = small;
    word = λ p. 0;
    owned = λ p alive. absurd (true-false alive refl);
    distinct = λ p q alive. absurd (true-false alive refl);
  }
  Reach-IsSafe s owner t live state small (call u live' _ _ runs step) =
      Step-IsSafe u live' t live (Reach-IsSafe s owner u live' state small runs) step
