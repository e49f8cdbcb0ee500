-- ===== src/Memory/Virt/Dealloc.antt =====
-- The loop of `dealloc_pages` of src/memory/virt.rs: pages are unmapped and their frames given back.
pub mod Whole
use native.Mathlib.Decide.{ℕ_discrete}
use os_test.Prelude.{
  ℕ, zero, suc, ◌+◌, ◌*◌, ◌^◌, ◌%◌, ◌≤◌, ◌≡◌, ◌≢◌, refl, sym, ap, ◌∙◌, true, false, inl, inr, ◌<◌,
  some, arith, List,
}
use os_test.Prelude.Outcome.{done, ◌>>=◌}
use os_test.Memory.Addr.{PhyAddr, VirtAddr}
use os_test.Memory.FrameSource.{PhysicalAllocator}
use os_test.Memory.FrameSource.Supply.{Supply}
use os_test.Memory.Paging.Entry.{PageTableEntry, addr, empty}
use os_test.Memory.Paging.Page.{Page, canonical_num, level1_idx}
use os_test.Memory.Paging.Iter.{for_each, run}
use os_test.Memory.Paging.Table.{Mem, slot, write}
use os_test.Memory.Paging.Tree.{unmapped, mapped, view, Owner}
use os_test.Memory.Paging.Tree.Change.{IsTree-held}
use os_test.Memory.Paging.Tree.Unmap.{
  page_entry_mut-mapped, cleared-IsTree, view-cleared, view-cleared_ne,
}
use os_test.Memory.Virt.{Inner, dealloc_page}
use os_test.Memory.Virt.Alloc.{IsState, Says, flush_page-done}
use os_test.Memory.Virt.Alloc.Loop.{canonical_num_ne}

module _ {A : Type 0} {alloc : PhysicalAllocator A} (supply : Supply alloc) (offset : ℕ)
    (root cr3 : VirtAddr) (store_byte : VirtAddr → ℕ → Mem → Mem) where
  -- A page that is mapped to a frame that can be given back and that holds no table.
  pub record IsOwned (s : Inner A) (owner : Owner) (page : Page) (word : PageTableEntry)
      : Type 0 where
    pub here : Says supply offset root cr3 store_byte s page (mapped word)
    pub given : supply.Given s.physical_allocator (addr word)
    pub no_table : (t : VirtAddr) (p : List ℕ) → owner t ≡ some p → t ≢ addr word + offset

  -- The `count` pages from `start` on are so mapped, each to a frame of its own.
  pub record AreOwned (start count : ℕ) (s : Inner A) (owner : Owner) (word : Page → PageTableEntry)
      : Type 0 where
    pub owned : (p : Page) → start ≤ p → p < start + count → IsOwned s owner p (word p)
    pub distinct :
        (p q : Page) → start ≤ p → p < q → q < start + count → addr (word p) ≢ addr (word q)

  -- What the loop leaves for these pages: they are unmapped, nothing changed for other pages, and
  -- their frames are free.
  pub record RunFreed (start count : ℕ) (word : Page → PageTableEntry) (s s' : Inner A)
      (owner : Owner) : Type 0 where
    pub state : IsState supply offset root cr3 store_byte s' owner
    pub unmaps :
        (p : Page)
        → start ≤ p
        → p < start + count
        → Says supply offset root cr3 store_byte s' p unmapped
    pub others :
        (q : Page)
        → ((p : Page) → start ≤ p → p < start + count → canonical_num q ≢ canonical_num p)
        → view offset s'.mem root q ≡ view offset s.mem root q
    pub gains : supply.free s'.physical_allocator ≡ supply.free s.physical_allocator + count
    pub gives_on :
        (f : PhyAddr)
        → ((p : Page) → start ≤ p → p < start + count → f ≢ addr (word p))
        → supply.Given s.physical_allocator f
        → supply.Given s'.physical_allocator f
    pub last : s'.last_page_alloc ≡ s.last_page_alloc

  -- One round.
  pub record Unmapped (page : Page) (word : PageTableEntry) (s s' : Inner A) (owner : Owner)
      : Type 0 where
    pub state : IsState supply offset root cr3 store_byte s' owner
    pub unmaps : Says supply offset root cr3 store_byte s' page unmapped
    pub others :
        (q : Page)
        → canonical_num q ≢ canonical_num page
        → view offset s'.mem root q ≡ view offset s.mem root q
    pub gains : supply.free s'.physical_allocator ≡ supply.free s.physical_allocator + 1
    pub gives_on :
        (f : PhyAddr)
        → f ≢ addr word
        → supply.Given s.physical_allocator f
        → supply.Given s'.physical_allocator f
    pub last : s'.last_page_alloc ≡ s.last_page_alloc

  dealloc_page-Unmapped :
      (page : Page) (word : PageTableEntry) (s : Inner A) (owner : Owner)
      → IsState supply offset root cr3 store_byte s owner
      → IsOwned s owner page word
      → page < 2 ^ 52
      → (s' : Inner A) × (dealloc_page alloc offset cr3 store_byte root page s ≡ done s')
        × Unmapped page word s s' owner
  unfolding dealloc_page
  dealloc_page-Unmapped page word s owner state o narrow =
      let (t1, own1, finds, at) = page_entry_mut-mapped state.tree page word o.here in
      let (b, frees, good, one, held, given) =
        supply.returns s.physical_allocator (addr word) state.good o.given in
      (
        _,
        rw
            (
              finds,
              at,
              frees,
              flush_page-done supply offset root cr3 store_byte page
                  (record s {
                    physical_allocator = b;
                    mem = write s.mem (slot t1 (level1_idx page)) empty;
                  })
                  narrow,
            )
            refl,
        record {
          state = record {
            tree =
                IsTree-held (cleared-IsTree state.tree page t1 own1)
                  (λ t p f own lies was. held f (λ same. o.no_table t p own (rw same at lies)) was);
            good = good;
          };
          unmaps = view-cleared state.tree page t1 own1;
          others = view-cleared_ne state.tree page t1 own1;
          gains = omega (arith, one);
          gives_on = given;
          last = refl;
        },
      )

  pub dealloc_page-RunFreed :
      (start count : ℕ) (s : Inner A) (owner : Owner) (word : Page → PageTableEntry)
      → IsState supply offset root cr3 store_byte s owner
      → start % 2 ^ 36 + count ≤ 2 ^ 36
      → start + count ≤ 2 ^ 52
      → AreOwned start count s owner word
      → (s' : Inner A) × (for_each
            (dealloc_page alloc offset cr3 store_byte root)
            (run start count)
            s
          ≡ done s')
        × RunFreed start count word s s' owner
  unfolding for_each
  dealloc_page-RunFreed start zero s owner word state room narrow are = (
    s,
    refl,
    record {
      state = state;
      unmaps = λ p from to. absurd (omega arith);
      others = λ q ne. refl;
      gains = omega arith;
      gives_on = λ f away given. given;
      last = refl;
    },
  )
  dealloc_page-RunFreed start (suc count) s owner word state room narrow are =
      let (t, runs, u) =
        dealloc_page-Unmapped start (word start) s owner state
          (are.owned start (omega arith) (omega arith)) (omega (arith, narrow)) in
      let ne : (p : Page)
          → start < p
          → p < start + suc count
          → canonical_num p ≢ canonical_num start =
        λ p from to. canonical_num_ne start (suc count) start p room (omega arith) from to in
      let left : AreOwned (start + 1) count t owner word = record {
        owned = λ p from to.
            let o = are.owned p (omega arith) (omega arith) in
            record {
              here = u.others p (ne p (omega arith) (omega arith)) ∙ o.here;
              given =
                  u.gives_on (addr (word p))
                    (λ same.
                      are.distinct start p (omega arith) (omega arith) (omega arith) (sym same))
                    o.given;
              no_table = o.no_table;
            };
        distinct = λ p q from lt to. are.distinct p q (omega arith) lt (omega arith);
      } in
      let (s', goes, rest) =
        dealloc_page-RunFreed (start + 1) count t owner word u.state (omega (arith, room))
          (omega (arith, narrow)) left in
      (
        s',
        rw (runs, goes) refl,
        record {
          state = rest.state;
          unmaps = λ p from to. elim (ℕ_discrete p start) [
            | yes e ↦ rw e (
                rest.others start (λ q lo hi same. ne q (omega arith) (omega arith) (sym same))
                ∙ u.unmaps)
            | no different ↦ rest.unmaps p (omega (arith, different)) (omega arith)
          ];
          others = λ q away.
              rest.others q (λ p from to. away p (omega arith) (omega arith))
              ∙ u.others q (away start (omega arith) (omega arith));
          gains = omega (arith, rest.gains, u.gains);
          gives_on = λ f away given.
              rest.gives_on f (λ p from to. away p (omega arith) (omega arith))
                (u.gives_on f (away start (omega arith) (omega arith)) given);
          last = rest.last ∙ u.last;
        },
      )
