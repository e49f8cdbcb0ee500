-- ===== src/Memory/Virt/Dealloc/Whole.antt =====
-- `dealloc_pages` of src/memory/virt.rs, and that it undoes `alloc_pages`.
use native.Mathlib.Decide.{dec_lt, dec_le}
use os_test.Prelude.{
  ◌⊎◌, ℕ, suc, ◌+◌, ◌-◌, ◌*◌, ◌^◌, ◌%◌, ◌≤◌, ◌≡◌, ◌≢◌, refl, sym, ◌∙◌, inl, inr, ◌<◌, some, arith,
  lt→ltb, List,
}
use os_test.Prelude.Outcome.{done, sub64}
use os_test.Memory.Addr.{VirtAddr}
use os_test.Memory.FrameSource.{PhysicalAllocator}
use os_test.Memory.FrameSource.Supply.{Supply}
use os_test.Memory.Paging.Page.{
  Page, canonical_num, level4_idx, level3_idx, level2_idx, level1_idx, next_by,
}
use os_test.Memory.Paging.Page.Index.{canonical_num_lem, next_by_lem}
use os_test.Memory.Paging.Iter.{for_pages-run}
use os_test.Memory.Paging.Search.FirstFit.{found}
use os_test.Memory.Paging.Table.{Mem, current}
use os_test.Memory.Paging.Tree.{unmapped, view, indices, Owner}
use os_test.Memory.Paging.Tree.Lookup.{view-lookup}
use os_test.Memory.Virt.{Inner, PageAllocation, dealloc_page, alloc_pages, dealloc_pages}
use os_test.Memory.Virt.Alloc.{IsState, Says, RunBacked}
use os_test.Memory.Virt.Alloc.Whole.{AllocPages, allocated, absent-unmapped, alloc_pages-AllocPages}
use os_test.Memory.Virt.Dealloc.{AreOwned, RunFreed, dealloc_page-RunFreed}

-- Pages with the same canonical number are one page to the tables.
same_indices :
    (p q : Page) → canonical_num p ≡ canonical_num q → ◌≡◌ {A = List ℕ} (indices p) (indices q)
unfolding level4_idx level3_idx level2_idx level1_idx
same_indices p q same = rw same refl

pub view_same :
    (offset : ℕ) (mem : Mem) (root : VirtAddr) (p q : Page)
    → canonical_num p ≡ canonical_num q
    → view offset mem root p ≡ view offset mem root q
view_same offset mem root p q same =
    view-lookup offset mem root p
    ∙ rw (same_indices p q same) refl
    ∙ sym (view-lookup offset mem root q)

-- Which pages have the canonical number of a page of a run.
in_run :
    (start count q : ℕ)
    → start % 2 ^ 36 + count ≤ 2 ^ 36
    → ((p : Page) × (start ≤ p) × (p < start + count) × (canonical_num q ≡ canonical_num p))
      ⊎ ((p : Page) → start ≤ p → p < start + count → canonical_num q ≢ canonical_num p)
in_run start count q room = elim (dec_le (start % 2 ^ 36) (q % 2 ^ 36)) [
  | no before ↦
      inr (λ p from to same. omega (arith, before, same, canonical_num_lem p, canonical_num_lem q))
  | yes from ↦ elim (dec_lt (q % 2 ^ 36) (start % 2 ^ 36 + count)) [
    | no behind ↦
        inr (λ p lo hi same. omega (arith, behind, same, canonical_num_lem p, canonical_num_lem q))
    | yes to ↦
        let p = start + q % 2 ^ 36 - start % 2 ^ 36 in
        inl (p, omega arith, omega arith, omega (arith, canonical_num_lem p, canonical_num_lem q))
  ]
]

module _ {A : Type 0} {alloc : PhysicalAllocator A} (supply : Supply alloc) (offset : ℕ)
    (root cr3 : VirtAddr) (store_byte : VirtAddr → ℕ → Mem → Mem) where
  -- Where the tables are a tree in frames that are held, and the pages of an allocation are mapped,
  -- each to a frame of its own that was handed out and holds no table, have 52 bits, and do not
  -- reach the last of 2^36 pages: `dealloc_pages` returns, the tables are a tree again, exactly
  -- these pages are unmapped, and as many frames more are free.
  pub dealloc_pages-RunFreed :
      (start count : ℕ) (s : Inner A) (owner : Owner) (word : Page → ℕ)
      → 0 < count
      → start % 2 ^ 36 + count < 2 ^ 36
      → start + count ≤ 2 ^ 52
      → current offset cr3 ≡ done root
      → IsState supply offset root cr3 store_byte s owner
      → AreOwned supply offset root cr3 store_byte start count s owner word
      → (s' : Inner A) × (dealloc_pages alloc offset cr3 store_byte
            (record { first_page = start; page_amount = count })
            s
          ≡ done s')
        × RunFreed supply offset root cr3 store_byte start count word s s' owner
  unfolding dealloc_pages
  dealloc_pages-RunFreed start count s owner word pos room small at state are =
      let end : ℕ = start + (count - 1) in
      let steps : sub64 count 1 ≡ done (count - 1) = ground arith in
      let reached : next_by start (count - 1) ≡ done (some end) =
        next_by_lem start (count - 1) (omega arith)
        ∙ rw (lt→ltb (start % 2 ^ 36 + (count - 1)) (2 ^ 36) (omega arith)) refl in
      let (s', runs, freed) =
        dealloc_page-RunFreed supply offset root cr3 store_byte start count s owner word state
          (omega arith) small are in
      (
        s',
        rw (steps, reached, at)
            (for_pages-run (dealloc_page alloc offset cr3 store_byte root) (suc count) count start
                end s (omega arith) (omega arith) room (omega arith)
              ∙ runs),
        freed,
      )

  -- What a page allocation that was given back leaves: every page is what it was, and all frames
  -- are free again but those of new tables.
  pub record Undone (count : ℕ) (s s' : Inner A) : Type 0 where
    pub owner' : Owner
    pub state : IsState supply offset root cr3 store_byte s' owner'
    pub same : (q : Page) → view offset s'.mem root q ≡ view offset s.mem root q
    pub costs : supply.free s.physical_allocator ≤ supply.free s'.physical_allocator + 3 * count

  run-AreOwned :
      (start count : ℕ) (s t : Inner A) (owner owner' : Owner)
      (mapped : RunBacked supply offset root cr3 store_byte start count s owner t owner')
      → AreOwned supply offset root cr3 store_byte start count t owner' mapped.word
  run-AreOwned start count s t owner owner' mapped = record {
    owned = λ p from to.
        let b = mapped.backed p from to in
        record { here = b.here; given = b.given; no_table = b.no_table };
    distinct = mapped.distinct;
  }

  -- The pages of a run were unmapped, are mapped, and are unmapped again.
  module _ (start count : ℕ) (s t s' : Inner A) (owner owner' : Owner)
      (room : start % 2 ^ 36 + count < 2 ^ 36)
      (absent : (p : Page)
        → start ≤ p
        → p < start + count
        → Says supply offset root cr3 store_byte s p unmapped)
      (mapped : RunBacked supply offset root cr3 store_byte start count s owner t owner')
      (freed : RunFreed supply offset root cr3 store_byte start count mapped.word t s' owner') where
    run-Undone : Undone count s s'
    run-Undone = record {
      owner' = owner';
      state = freed.state;
      same = λ q. elim (in_run start count q (omega (arith, room))) [
        | inl (p, from, to, same) ↦
            view_same offset s'.mem root q p same
            ∙ freed.unmaps p from to
            ∙ sym (absent p from to)
            ∙ sym (view_same offset s.mem root q p same)
        | inr away ↦ freed.others q away ∙ mapped.others q away
      ];
      costs = omega (arith, mapped.costs, freed.gains);
    }

  module _ (fits : (0 < offset) × (offset + supply.bound ≤ 2 ^ 64)) where
    -- Where the direct map begins above 0 and maps the frames of the allocator, which lie below a
    -- bound of at most 2^52, below 2^64, `cr3` has the root, the tables are a tree in frames that
    -- the allocator does not hand out, the search starts at a page number of 52 bits, and four
    -- frames are free for each of the pages, at least one: giving back what `alloc_pages` gave
    -- returns, and `page_entry` says of every page whether it is mapped, and to which entry, as it
    -- did before the allocation; the tables are a tree again, and no frame is lost but at most
    -- three for each page, for new tables.
    pub dealloc_pages-alloc_pages :
        (count : ℕ) (s t : Inner A) (owner : Owner) (allocation : PageAllocation)
        → 0 < count
        → s.last_page_alloc < 2 ^ 52
        → 4 * count ≤ supply.free s.physical_allocator
        → current offset cr3 ≡ done root
        → IsState supply offset root cr3 store_byte s owner
        → alloc_pages alloc offset cr3 store_byte count s ≡ done (t, some allocation)
        → (s' : Inner A) × (dealloc_pages alloc offset cr3 store_byte allocation t ≡ done s')
          × Undone count s s'
    dealloc_pages-alloc_pages count s t owner allocation pos small enough at state h =
        undo t allocation (
          rw h at (
            alloc_pages-AllocPages supply offset root cr3 store_byte fits count s owner pos small
              enough at state))
      where
        undo :
            (t : Inner A) (allocation : PageAllocation)
            → AllocPages supply offset root cr3 store_byte count s owner (done (t, some allocation))
            → (s' : Inner A) × (dealloc_pages alloc offset cr3 store_byte allocation t ≡ done s')
              × Undone count s s'
        undo t allocation
              (allocated it (found _ from span inside free blocked) within _ owner' mapped) =
            let room : it.start % 2 ^ 36 + count < 2 ^ 36 = omega (arith, from, span, within) in
            let below : it.start + count ≤ 2 ^ 52 = omega (arith, span, within, small) in
            let absent : (p : Page)
                → it.start ≤ p
                → p < it.start + count
                → Says supply offset root cr3 store_byte s p unmapped =
              λ p lo hi.
                absent-unmapped supply offset root cr3 store_byte s owner p state
                  (free p lo (omega (arith, hi, span))) in
            let (s', runs, freed) =
              dealloc_pages-RunFreed it.start count t owner' mapped.word pos room below at
                mapped.state (run-AreOwned it.start count _ t owner owner' mapped) in
            let u =
              run-Undone it.start count (record s { last_page_alloc = it.end }) t s' owner owner'
                room absent mapped freed in
            (
              s',
              runs,
              record { owner' = u.owner'; state = u.state; same = u.same; costs = u.costs },
            )
