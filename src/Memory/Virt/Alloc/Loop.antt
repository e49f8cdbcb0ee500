-- ===== src/Memory/Virt/Alloc/Loop.antt =====
-- The loop of `alloc_pages` of src/memory/virt.rs over a run of pages.
use native.Mathlib.Decide.{ℕ_discrete}
use os_test.Prelude.{
  ℕ, zero, suc, ◌+◌, ◌*◌, ◌^◌, ◌%◌, ◌≤◌, ◌≡◌, ◌≢◌, refl, sym, ◌∙◌, inl, inr, ◌<◌, arith,
  if◌then◌else◌, ◌==◌,
}
use os_test.Prelude.Outcome.{done}
use os_test.Memory.Addr.{VirtAddr}
use os_test.Memory.FrameSource.{PhysicalAllocator}
use os_test.Memory.FrameSource.Supply.{Supply}
use os_test.Memory.Paging.Entry.{PageTableEntry, addr}
use os_test.Memory.Paging.Page.{Page, canonical_num}
use os_test.Memory.Paging.Page.Index.{canonical_num_lem}
use os_test.Memory.Paging.Iter.{for_each, run}
use os_test.Memory.Paging.Table.{Mem}
use os_test.Memory.Paging.Tree.{unmapped, Owner}
use os_test.Memory.Virt.{Inner, alloc_page}
use os_test.Memory.Virt.Alloc.{IsState, Says, Backed, RunBacked, Round, alloc_page-Round}

-- Pages of a run that stays in the numbers of 36 bits have different canonical numbers.
pub canonical_num_ne :
    (start count p q : ℕ)
    → start % 2 ^ 36 + count ≤ 2 ^ 36
    → start ≤ p
    → p < q
    → q < start + count
    → canonical_num q ≢ canonical_num p
canonical_num_ne start count p q room from lt to same =
    omega (arith, same, canonical_num_lem p, canonical_num_lem q)

module _ {A : Type 0} {alloc : PhysicalAllocator A} (supply : Supply alloc) (offset : ℕ)
    (root cr3 : VirtAddr) (store_byte : VirtAddr → ℕ → Mem → Mem) where
  abbrev pub word_at : Page → PageTableEntry → (Page → PageTableEntry) → Page → PageTableEntry
  word_at start word rest p = if p == start then word else rest p

  -- A round, and the rounds for the pages after it.
  module _ (start count : ℕ) (s t s' : Inner A) (owner owner1 owner' : Owner)
      (room : start % 2 ^ 36 + suc count ≤ 2 ^ 36)
      (r : Round supply offset root cr3 store_byte start s owner t owner1)
      (rest : RunBacked supply offset root cr3 store_byte
        (start + 1)
        count
        t
        owner1
        s'
        owner') where
    self : word_at start r.word rest.word start ≡ r.word
    self = ground arith

    later : (p : Page) → p ≢ start → word_at start r.word rest.word p ≡ rest.word p
    later p ne = ground (arith, ne)

    Backed-first : Backed supply offset root cr3 store_byte s s' owner' start r.word
    Backed-first = record {
      here =
          rest.others start (λ p from to same.
            canonical_num_ne start (suc count) start p room (omega arith) (omega arith)
              (omega arith) (sym same))
          ∙ r.backed.here;
      kinds = r.backed.kinds;
      was_free = r.backed.was_free;
      given = rest.gives_on _ r.backed.given;
      no_table = λ u p own same. elim (rest.news u p own) [
        | inl before ↦ r.backed.no_table u p before same
        | inr (f, lies, unheld) ↦
            let equal : f ≡ addr r.word = omega (arith, lies, same) in
            unheld (rw equal (supply.Given-Held _ _ r.backed.given))
      ];
    }

    Backed-later :
        (p : Page)
        → start < p
        → p < start + suc count
        → Backed supply offset root cr3 store_byte s s' owner' p (rest.word p)
    Backed-later p from to =
        let b = rest.backed p (omega arith) (omega arith) in
        record {
          here = b.here;
          kinds = b.kinds;
          was_free = λ held. b.was_free (r.holds _ held);
          given = b.given;
          no_table = b.no_table;
        }

    RunBacked-suc : RunBacked supply offset root cr3 store_byte start (suc count) s owner s' owner'
    RunBacked-suc = record {
      state = rest.state;
      word = word_at start r.word rest.word;
      backed = λ p from to. elim (ℕ_discrete p start) [
        | yes e ↦ rw (e, self) Backed-first
        | no ne ↦ rw (later p ne) (Backed-later p (omega (arith, ne)) to)
      ];
      distinct = λ p q from lt to same. elim (ℕ_discrete p start) [
        | yes e ↦
            let equal : addr r.word ≡ addr (rest.word q) =
              rw (e, self, later q (λ f. omega (arith, f, e, lt))) at same in
            (rest.backed q (omega arith) (omega arith)).was_free
              (rw (← equal) (supply.Given-Held _ _ r.backed.given))
        | no ne ↦
            rest.distinct p q (omega (arith, ne)) lt (omega arith)
              (rw (later p ne, later q (λ e. omega (arith, e))) at same)
      ];
      others = λ q ne.
          rest.others q (λ p from to. ne p (omega arith) (omega arith))
          ∙ r.others q (ne start (omega arith) (omega arith));
      costs = omega (arith, r.costs, rest.costs);
      holds = λ f held. rest.holds f (r.holds f held);
      gives_on = λ f given. rest.gives_on f (r.gives_on f given);
      news = λ u p own. elim (rest.news u p own) [
        | inl before ↦ r.news u p before
        | inr (f, lies, unheld) ↦ inr (f, lies, λ held. unheld (r.holds f held))
      ];
      last = rest.last ∙ r.last;
    }

  module _ (fits : (0 < offset) × (offset + supply.bound ≤ 2 ^ 64)) where
    pub alloc_page-RunBacked :
        (start count : ℕ) (s : Inner A) (owner : Owner)
        → IsState supply offset root cr3 store_byte s owner
        → 4 * count ≤ supply.free s.physical_allocator
        → start % 2 ^ 36 + count ≤ 2 ^ 36
        → start + count ≤ 2 ^ 52
        → ((p : Page)
            → start ≤ p
            → p < start + count
            → Says supply offset root cr3 store_byte s p unmapped)
        → (s' : Inner A) × (owner' : Owner) × (for_each
              (alloc_page alloc offset cr3 store_byte root)
              (run start count)
              s
            ≡ done s')
          × RunBacked supply offset root cr3 store_byte start count s owner s' owner'
    unfolding for_each
    alloc_page-RunBacked start zero s owner state enough room narrow absent = (
      s,
      owner,
      refl,
      record {
        state = state;
        word = λ p. 0;
        backed = λ p from to. absurd (omega arith);
        distinct = λ p q from lt to. absurd (omega arith);
        others = λ q ne. refl;
        costs = omega arith;
        holds = λ f held. held;
        gives_on = λ f given. given;
        news = λ u p own. inl own;
        last = refl;
      },
    )
    alloc_page-RunBacked start (suc count) s owner state enough room narrow absent =
        let (t, owner1, runs, r) =
          alloc_page-Round supply offset root cr3 store_byte fits start s owner state
            (omega (arith, enough)) (absent start (omega arith) (omega arith))
            (omega (arith, narrow)) in
        let (s', owner', goes, rest) =
          alloc_page-RunBacked (start + 1) count t owner1 r.state (omega (arith, enough, r.costs))
            (omega (arith, room)) (omega (arith, narrow))
            (λ p from to.
              r.others p (
                canonical_num_ne start (suc count) start p room (omega arith) (omega arith)
                  (omega arith))
              ∙ absent p (omega arith) (omega arith)) in
        (
          s',
          owner',
          rw (runs, goes) refl,
          RunBacked-suc start count s t s' owner owner1 owner' room r rest,
        )
