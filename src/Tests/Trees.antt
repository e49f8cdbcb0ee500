-- ===== src/Tests/Trees.antt =====
-- Page tables that have only a root, and pages that are mapped through them and unmapped again.
use native.Mathlib.Decide.{ℕ_discrete}
use os_test.Prelude.{
  ◌<◌, ◌≤◌, ◌^◌, ◌+◌, inl, ℕ, ◌≡◌, refl, true, false, ◌==◌, if◌then◌else◌, arith, some, none, [],
  ◌∷◌, Option,
}
use os_test.Prelude.Outcome.{Outcome, done, panic}
use os_test.Memory.Addr.{as_virtual}
use os_test.Memory.FrameSource.{basic}
use os_test.Memory.FrameSource.Supply.{Supply, basic_supply, InUse}
use os_test.Memory.Physical.{BasicPhysicalAllocator, allocate_frame}
use os_test.Memory.Paging.Entry.{addr, flags, is_present, set_addr}
use os_test.Memory.Paging.Page
use os_test.Memory.Paging.Page.{level4_idx, level3_idx, level2_idx, level1_idx}
use os_test.Memory.Paging.Search
use os_test.Memory.Paging.Iter.{for_pages, next_item}
use os_test.Memory.Paging.Table.{
  Mem, slot, write, current, map_page_unchecked, page_entry, page_is_present, as_page_table,
  as_page_table_mut, as_pointer, enter_level, find_free_pages, clear_all_entries, clear_entries,
}
use os_test.Memory.Paging.Tree.{Owner, IsTree, view, unmapped}
use os_test.Memory.Paging.Tree.Enter.{AreTables}
use os_test.Memory.Paging.Tree.Map.{MapsPage, map_page_unchecked-view}
use os_test.Memory.Virt.{
  map_page, flush_page, map_physical, Inner, PageAllocation, alloc_pages, dealloc_pages,
}
use os_test.Memory.FrameSource.Claims.{claimed}
use os_test.Memory.Physical.Claim.{AreFree}
use os_test.Memory.Virt.Region.Whole.{MapPhysical, map_physical-MapPhysical}
use os_test.Memory.Virt.Live.{IsSafe, with_run, allocate, begin, call}
use os_test.Memory.Virt.Live.Runs.{Reach-IsSafe}
use os_test.Memory.Virt.Alloc.Whole.{AllocPages, alloc_pages-AllocPages}
use os_test.Memory.Virt.Dealloc.Whole.{Undone, dealloc_pages-alloc_pages}

-- The direct map begins where the upper half of the addresses does.
abbrev direct : ℕ
direct = 0xffff800000000000

abbrev top_table : ℕ
top_table = 0xffff800000001000

-- The bitmap allocator, with frames in the first 64 TiB.
abbrev frames : Supply basic
frames = basic_supply (2 ^ 46) (omega arith)

direct_fits : (0 < direct) × (direct + 2 ^ 46 ≤ 2 ^ 64)
direct_fits = (omega arith, omega arith)

abbrev zeros : Mem
zeros x = 0

-- The frames 0 and 1 are in use; the root lies in frame 1.
abbrev stock : BasicPhysicalAllocator
stock = record {
  bitmap =
      true ∷ true ∷ false ∷ false ∷ false ∷ false ∷ false ∷ false ∷ false ∷ false ∷ false ∷ false
      ∷ [];
  offset = 0;
  limit = 0xc000;
}

abbrev root_only : Owner
root_only t = if t == top_table then some [] else none

nothing_there : (x : ℕ) → is_present (zeros x) ≡ true → ⊥
unfolding is_present
nothing_there x there = ground (arith, there)

root_only-IsTree : IsTree direct (InUse stock) top_table zeros root_only
root_only-IsTree = record {
  top = refl;
  only = λ t own. ground (arith, own);
  frame = λ t p own. (
    0x1000,
    ground (arith, own),
    refl,
    λ i same. let one : i ≡ 1 = omega (arith, same) in rw one refl,
  );
  down = λ t p i left own small sum there plain. absurd (nothing_there (slot t i) there);
  up = λ u p i own. absurd (ground (arith, own));
}

root_only-AreTables : AreTables frames direct top_table zeros stock root_only
root_only-AreTables = record {
  tree = root_only-IsTree;
  good = (record { fits = omega arith; aligned = refl }, omega arith);
}

not_huge : view direct zeros top_table 5 ≡ done unmapped
unfolding view page_entry level4_idx Page.canonical_num is_present
not_huge = refl

map_page_unchecked-view_example :
    (after : Mem) × (b : BasicPhysicalAllocator) × (owner' : Owner) × (map_page_unchecked direct
        basic top_table 5 0x7000 3
        (zeros, stock)
      ≡ done (after, b))
    × MapsPage frames direct top_table 5 0x7000 3 zeros stock root_only after b owner'
map_page_unchecked-view_example =
    map_page_unchecked-view frames direct top_table direct_fits 5 0x7000 3 zeros stock root_only
      root_only-AreTables (omega arith) ((omega arith, refl), refl) refl (refl, omega arith)
      (λ huge. ground (arith, not_huge, huge))

abbrev begun : Inner BasicPhysicalAllocator
begun = record { physical_allocator = stock; last_page_alloc = 3; mem = zeros }

abbrev ignore : ℕ → ℕ → Mem → Mem
ignore at byte mem = mem

root_at : current direct 0x1000 ≡ done top_table
unfolding current as_pointer as_virtual
root_at = refl

alloc_pages-AllocPages_example :
    AllocPages frames direct top_table 0x1000 ignore 2 begun root_only
      (alloc_pages basic direct 0x1000 ignore 2 begun)
alloc_pages-AllocPages_example =
    alloc_pages-AllocPages frames direct top_table 0x1000 ignore (omega arith) 2 begun root_only
      (omega arith) (omega arith) (omega arith) root_at root_only-AreTables

abbrev given : Outcome (Inner BasicPhysicalAllocator × Option PageAllocation)
given = alloc_pages basic direct 0x1000 ignore 2 begun

abbrev state_of :
    Outcome (Inner BasicPhysicalAllocator × Option PageAllocation) → Inner BasicPhysicalAllocator
state_of (done (s, allocation)) = s
state_of panic = begun

abbrev two_pages : PageAllocation
two_pages = record { first_page = 3; page_amount = 2 }

given_done : given ≡ done (state_of given, some two_pages)
unfolding alloc_pages flush_page Page.to_virt current as_pointer as_virtual find_free_pages
    Search.find_free_pages Search.scan Search.advance Page.next Page.next_by Page.canonical_num
    page_is_present page_entry as_page_table is_present addr flags level4_idx level3_idx level2_idx
    level1_idx for_pages next_item map_page map_page_unchecked enter_level as_page_table_mut
    set_addr write allocate_frame clear_all_entries clear_entries
given_done = refl

dealloc_pages-alloc_pages_example :
    (s' : Inner BasicPhysicalAllocator) × (dealloc_pages basic direct 0x1000 ignore two_pages
        (state_of given)
      ≡ done s')
    × Undone frames direct top_table 0x1000 ignore 2 begun s'
dealloc_pages-alloc_pages_example =
    dealloc_pages-alloc_pages frames direct top_table 0x1000 ignore direct_fits 2 begun
      (state_of given) root_only two_pages (omega arith) (omega arith) (omega arith) root_at
      root_only-AreTables given_done

free_two : AreFree 2 5 stock.bitmap
free_two j from to = elim (ℕ_discrete j 5) [
  | yes fifth ↦ rw fifth refl
  | no later ↦ let sixth : j ≡ 6 = omega (arith, from, to, later) in rw sixth refl
]

map_physical-MapPhysical_example :
    MapPhysical
      (2 ^ 46)
      (omega arith)
      direct
      top_table
      0x1000
      ignore
      2
      0x5000
      0x10
      begun
      (record begun { physical_allocator = claimed 2 5 stock })
      (map_physical basic direct 0x1000 ignore 0x5010 1 begun)
map_physical-MapPhysical_example =
    map_physical-MapPhysical (2 ^ 46) (omega arith) direct top_table 0x1000 ignore direct_fits
      0x5010 5 2 begun root_only (omega arith) (omega arith) root_only-AreTables free_two
      (record { whole = refl; below = omega arith; no_apic = inl (omega arith) }) (omega arith) 1
      (omega arith) refl refl root_at

Reach-IsSafe_example :
    IsSafe frames direct top_table 0x1000 ignore (state_of given) (with_run 3 2 (λ p. false))
Reach-IsSafe_example =
    Reach-IsSafe frames direct top_table 0x1000 ignore (omega arith) root_at begun root_only
      (state_of given) (with_run 3 2 (λ p. false)) root_only-AreTables (omega arith)
      (call begun (λ p. false) (state_of given) (with_run 3 2 (λ p. false)) begin
        (allocate 2 (state_of given) two_pages (omega arith) (omega arith) given_done))
