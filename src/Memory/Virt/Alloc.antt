-- ===== src/Memory/Virt/Alloc.antt =====
-- The loop of `alloc_pages` of src/memory/virt.rs: every page gets a frame of its own.
pub mod Loop
pub mod Whole
use native.Mathlib.Decide.{ℕ_discrete}
use os_test.Prelude.{
  ℕ, zero, suc, ◌+◌, ◌*◌, ◌^◌, ◌%◌, ◌≤◌, ◌≡◌, ◌≢◌, refl, sym, ap, ◌∙◌, true, false, ◌⊎◌, inl, inr,
  List, ◌<◌, some, arith,
}
use os_test.Prelude.Outcome.{done, ◌>>=◌}
use os_test.Memory.Addr.{PhyAddr, VirtAddr}
use os_test.Memory.FrameSource.{PhysicalAllocator}
use os_test.Memory.FrameSource.Supply.{Supply}
use os_test.Memory.Paging.Entry.{PageTableEntry, flags, contains, addr}
use os_test.Memory.Paging.Entry.Fields.{ArePresent}
use os_test.Memory.Paging.Entry.Flag
use os_test.Memory.Paging.Page
use os_test.Memory.Paging.Page.{Page, canonical_num}
use os_test.Memory.Paging.Page.Index.{canonical_num_lem}
use os_test.Memory.Paging.Iter.{for_each, run}
use os_test.Memory.Paging.Table.{Mem, map_page_unchecked}
use os_test.Memory.Paging.Tree.{Mapping, unmapped, in_huge_page, mapped, view, Owner, IsTree}
use os_test.Memory.Paging.Tree.Change.{IsTree-held}
use os_test.Memory.Paging.Tree.Enter.{AreTables}
use os_test.Memory.Paging.Tree.Map.{MapsPage, map_page_unchecked-view}
use os_test.Memory.Virt.{Inner, mapped_flags, alloc_page, map_page, flush_page}

pub mapped_flags-ArePresent : ArePresent mapped_flags
mapped_flags-ArePresent = ((omega arith, refl), refl)

module _ {A : Type 0} {alloc : PhysicalAllocator A} (supply : Supply alloc) (offset : ℕ)
    (root cr3 : VirtAddr) (store_byte : VirtAddr → ℕ → Mem → Mem) where
  -- The state of the page allocator is one whose tables are a tree.
  abbrev pub IsState : Inner A → Owner → Type 0
  IsState s owner = AreTables supply offset root s.mem s.physical_allocator owner

  abbrev pub Says : Inner A → Page → Mapping → Type 0
  Says s page m = view offset s.mem root page ≡ done m

  -- A page is mapped, readable and writable, to a frame that was free in the state `s` and is handed
  -- out in the state `s'`, and that holds no table.
  pub record Backed (s s' : Inner A) (owner' : Owner) (page : Page) (word : PageTableEntry)
      : Type 0 where
    pub here : Says s' page (mapped word)
    pub kinds : flags word ≡ mapped_flags
    pub was_free : ¬ supply.Held s.physical_allocator (addr word)
    pub given : supply.Given s'.physical_allocator (addr word)
    pub no_table : (t : VirtAddr) (p : List ℕ) → owner' t ≡ some p → t ≢ addr word + offset

  -- What the loop leaves for the `count` pages from `start` on, from a state `s` to a state `s'`.
  pub record RunBacked (start count : ℕ) (s : Inner A) (owner : Owner) (s' : Inner A)
      (owner' : Owner) : Type 0 where
    pub state : IsState s' owner'
    pub word : Page → PageTableEntry
    pub backed : (p : Page) → start ≤ p → p < start + count → Backed s s' owner' p (word p)
    pub distinct :
        (p q : Page) → start ≤ p → p < q → q < start + count → addr (word p) ≢ addr (word q)
    pub others :
        (q : Page)
        → ((p : Page) → start ≤ p → p < start + count → canonical_num q ≢ canonical_num p)
        → view offset s'.mem root q ≡ view offset s.mem root q
    pub costs : supply.free s.physical_allocator ≤ supply.free s'.physical_allocator + 4 * count
    pub holds :
        (f : PhyAddr) → supply.Held s.physical_allocator f → supply.Held s'.physical_allocator f
    pub gives_on :
        (f : PhyAddr) → supply.Given s.physical_allocator f → supply.Given s'.physical_allocator f
    pub news :
        (t : VirtAddr) (p : List ℕ)
        → owner' t ≡ some p
        → (owner t ≡ some p)
          ⊎ ((f : PhyAddr) × (t ≡ f + offset) × ¬ supply.Held s.physical_allocator f)
    pub last : s'.last_page_alloc ≡ s.last_page_alloc

  -- One round.
  pub record Round (page : Page) (s : Inner A) (owner : Owner) (s' : Inner A) (owner' : Owner)
      : Type 0 where
    pub state : IsState s' owner'
    pub word : PageTableEntry
    pub backed : Backed s s' owner' page word
    pub others :
        (q : Page)
        → canonical_num q ≢ canonical_num page
        → view offset s'.mem root q ≡ view offset s.mem root q
    pub costs : supply.free s.physical_allocator ≤ supply.free s'.physical_allocator + 4
    pub holds :
        (f : PhyAddr) → supply.Held s.physical_allocator f → supply.Held s'.physical_allocator f
    pub gives_on :
        (f : PhyAddr) → supply.Given s.physical_allocator f → supply.Given s'.physical_allocator f
    pub news :
        (t : VirtAddr) (p : List ℕ)
        → owner' t ≡ some p
        → (owner t ≡ some p)
          ⊎ ((f : PhyAddr) × (t ≡ f + offset) × ¬ supply.Held s.physical_allocator f)
    pub last : s'.last_page_alloc ≡ s.last_page_alloc

  pub flush_page-done :
      (page : Page) (s : Inner A)
      → page < 2 ^ 52
      → flush_page alloc offset cr3 store_byte page s ≡ done s
  unfolding flush_page Page.to_virt
  flush_page-done page s small = ground (arith, small)

  module _ (fits : (0 < offset) × (offset + supply.bound ≤ 2 ^ 64)) where
    alloc_page-Round :
        (page : Page) (s : Inner A) (owner : Owner)
        → IsState s owner
        → 4 ≤ supply.free s.physical_allocator
        → Says s page unmapped
        → page < 2 ^ 52
        → (s' : Inner A) × (owner' : Owner) × (alloc_page alloc offset cr3 store_byte root page s
            ≡ done s')
          × Round page s owner s' owner'
    unfolding alloc_page map_page
    alloc_page-Round page s owner state enough absent narrow =
        let (b, f, given, good, one, whole, below, unheld, handed, more, more_given) =
          supply.gives s.physical_allocator state.good (omega (arith, enough)) in
        let bound : f < 2 ^ 52 = omega (arith, below, supply.small_bound) in
        let after_frame : AreTables supply offset root s.mem b owner = record {
          tree = IsTree-held state.tree (λ t p g own lies held. more g held);
          good = good;
        } in
        let (after, c, owner', runs, m) =
          map_page_unchecked-view supply offset root fits page f mapped_flags s.mem b owner
            after_frame (omega (arith, one, enough)) mapped_flags-ArePresent refl (whole, bound)
            (λ huge. ground (arith, absent, huge)) in
        (
          record s { physical_allocator = c; mem = after },
          owner',
          rw
              (
                given,
                runs,
                flush_page-done page (record s { physical_allocator = c; mem = after }) narrow,
              )
              refl,
          record {
            state = m.tables;
            word = m.word;
            backed = record {
              here = m.here;
              kinds = m.kinds;
              was_free = rw m.address unheld;
              given = rw m.address (m.gives_on f handed);
              no_table = λ t p own same. elim (m.news t p own) [
                | inl before ↦
                    let (g, lies, even, held) = state.tree.frame t p before in
                    let equal : g ≡ f = omega (arith, lies, same, m.address) in
                    unheld (rw equal at held)
                | inr (g, lies, unheld') ↦
                    let equal : g ≡ f = omega (arith, lies, same, m.address) in
                    unheld' (rw equal (supply.Given-Held b f handed))
              ];
            };
            others = m.others;
            costs = omega (arith, one, m.costs);
            holds = λ g was. m.holds g (more g was);
            gives_on = λ g was. m.gives_on g (more_given g was);
            news = λ t p own. elim (m.news t p own) [
              | inl before ↦ inl before
              | inr (g, lies, unheld') ↦ inr (g, lies, λ held. unheld' (more g held))
            ];
            last = refl;
          },
        )
