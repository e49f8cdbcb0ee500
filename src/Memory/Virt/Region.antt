-- ===== src/Memory/Virt/Region.antt =====
-- The loop of `map_physical` of src/memory/virt.rs: pages are mapped to a run of frames.
pub mod Whole
use native.Mathlib.Decide.{ℕ_discrete}
use os_test.Prelude.{
  ℕ, zero, suc, ◌+◌, ◌-◌, ◌*◌, ◌^◌, ◌%◌, ◌≤◌, ◌≡◌, ◌≢◌, refl, sym, ap, ◌∙◌, true, false, inl, inr,
  ◌<◌, ◌⊎◌, some, arith, ◌==◌,
}
use os_test.Prelude.Outcome.{done, ◌>>=◌, add64}
use os_test.Memory.Addr.{PhyAddr, VirtAddr}
use os_test.Memory.FrameSource.{PhysicalAllocator}
use os_test.Memory.FrameSource.Supply.{Supply}
use os_test.Memory.Paging.Entry.{PageTableEntry, flags, addr}
use os_test.Memory.Paging.Page.{Page, canonical_num}
use os_test.Memory.Paging.Iter.{for_each, run}
use os_test.Memory.Paging.Table.{Mem}
use os_test.Memory.Paging.Tree.{Mapping, unmapped, mapped, view, Owner}
use os_test.Memory.Paging.Tree.Map.{map_page_unchecked-view}
use os_test.Memory.Virt.{Inner, mapped_flags, map_page, clear_apic, map_frame}
use os_test.Memory.Virt.Alloc.{IsState, Says, mapped_flags-ArePresent}
use os_test.Memory.Virt.Alloc.Loop.{canonical_num_ne}

-- A run of `count` frames from `frame` on that ends below 2^52 and has not the page of the local
-- APIC, which is cleared.
pub record IsRun (frame : PhyAddr) (count : ℕ) : Type 0 where
  pub whole : frame % 4096 ≡ 0
  pub below : frame + count * 4096 ≤ 2 ^ 52
  pub no_apic : (frame + count * 4096 ≤ 0xfee00000) ⊎ (0xfee00000 < frame)

module _ {A : Type 0} {alloc : PhysicalAllocator A} (supply : Supply alloc) (offset : ℕ)
    (root cr3 : VirtAddr) (store_byte : VirtAddr → ℕ → Mem → Mem) where
  -- A page is mapped, readable and writable, to a frame.
  abbrev pub IsMapped : Inner A → Page → PhyAddr → Type 0
  IsMapped s page frame =
      (word : PageTableEntry) × Says supply offset root cr3 store_byte s page (mapped word)
      × (addr word ≡ frame)
      × (flags word ≡ mapped_flags)

  IsMapped-at :
      (s : Inner A) (p q : Page) (f g : PhyAddr) → p ≡ q → f ≡ g → IsMapped s p f → IsMapped s q g
  IsMapped-at s p q f g same_page same_frame m = rw (← same_page, ← same_frame) m

  Says-at :
      (s : Inner A) (p : Page) (m : Mapping)
      → Says supply offset root cr3 store_byte s (p + 0) m
      → Says supply offset root cr3 store_byte s p m
  Says-at s p m h = let same : p + 0 ≡ p = omega arith in rw same at h

  clear_apic-plain :
      (page : Page) (frame : PhyAddr) (mem : Mem)
      → (frame == 0xfee00000) ≡ false
      → clear_apic alloc offset cr3 store_byte page frame mem ≡ done mem
  unfolding clear_apic
  clear_apic-plain page frame mem plain = rw plain refl

  map_frame-done :
      (page : Page) (frame : PhyAddr) (s t : Inner A)
      → map_page alloc offset cr3 store_byte root page frame s ≡ done t
      → (frame == 0xfee00000) ≡ false
      → alloc.frame_size ≡ 4096
      → frame + 4096 < 2 ^ 64
      → map_frame alloc offset cr3 store_byte root page (s, frame) ≡ done (t, frame + 4096)
  unfolding map_frame
  map_frame-done page frame s t maps plain size room =
      let next : add64 frame 4096 ≡ done (frame + 4096) = ground (arith, room) in
      rw (maps, clear_apic-plain page frame t.mem plain, size, next) refl

  -- What the loop leaves: the `count` pages from `start` on are mapped to the frames from `frame` on,
  -- in order, and nothing changed for other pages.
  pub record RunMapped (start count : ℕ) (frame : PhyAddr) (s s' : Inner A) (owner' : Owner)
      : Type 0 where
    pub state : IsState supply offset root cr3 store_byte s' owner'
    pub maps : (i : ℕ) → i < count → IsMapped s' (start + i) (frame + i * 4096)
    pub others :
        (q : Page)
        → ((p : Page) → start ≤ p → p < start + count → canonical_num q ≢ canonical_num p)
        → view offset s'.mem root q ≡ view offset s.mem root q
    pub costs : supply.free s.physical_allocator ≤ supply.free s'.physical_allocator + 3 * count
    pub last : s'.last_page_alloc ≡ s.last_page_alloc

  module _ (fits : (0 < offset) × (offset + supply.bound ≤ 2 ^ 64))
      (size : alloc.frame_size ≡ 4096) where
    map_frame-RunMapped_one :
        (page : Page) (frame : PhyAddr) (s : Inner A) (owner : Owner)
        → IsState supply offset root cr3 store_byte s owner
        → 3 ≤ supply.free s.physical_allocator
        → IsRun frame 1
        → Says supply offset root cr3 store_byte s page unmapped
        → (s' : Inner A) × (owner' : Owner) × (map_frame alloc offset cr3 store_byte root page
              (s, frame)
            ≡ done (s', frame + 4096))
          × RunMapped page 1 frame s s' owner'
    unfolding map_page
    map_frame-RunMapped_one page frame s owner state enough is_run absent =
        let (after, c, owner', runs, m) =
          map_page_unchecked-view supply offset root fits page frame mapped_flags s.mem
            s.physical_allocator owner state enough mapped_flags-ArePresent refl
            (is_run.whole, omega (arith, is_run.below)) (λ huge. ground (arith, absent, huge)) in
        let plain : (frame == 0xfee00000) ≡ false = ground (arith, is_run.no_apic) in
        let t : Inner A = record s { physical_allocator = c; mem = after } in
        let maps : map_page alloc offset cr3 store_byte root page frame s ≡ done t = rw runs refl in
        (
          record s { physical_allocator = c; mem = after },
          owner',
          map_frame-done page frame s t maps plain size (omega (arith, is_run.below)),
          record {
            state = m.tables;
            maps = λ i small.
                IsMapped-at t page (page + i) frame (frame + i * 4096) (omega (arith, small))
                  (omega (arith, small)) (m.word, m.here, m.address, m.kinds);
            others = λ q ne. m.others q (ne page (omega arith) (omega arith));
            costs = m.costs;
            last = refl;
          },
        )

    pub map_frame-RunMapped :
        (start count : ℕ) (frame : PhyAddr) (s : Inner A) (owner : Owner)
        → IsState supply offset root cr3 store_byte s owner
        → 3 * count ≤ supply.free s.physical_allocator
        → start % 2 ^ 36 + count ≤ 2 ^ 36
        → IsRun frame count
        → ((p : Page)
            → start ≤ p
            → p < start + count
            → Says supply offset root cr3 store_byte s p unmapped)
        → (s' : Inner A) × (owner' : Owner) × (end : PhyAddr) × (for_each
              (map_frame alloc offset cr3 store_byte root)
              (run start count)
              (s, frame)
            ≡ done (s', end))
          × RunMapped start count frame s s' owner'
    unfolding for_each
    map_frame-RunMapped start zero frame s owner state enough room is_run absent = (
      s,
      owner,
      frame,
      refl,
      record {
        state = state;
        maps = λ i small. absurd (omega arith);
        others = λ q ne. refl;
        costs = omega arith;
        last = refl;
      },
    )
    map_frame-RunMapped start (suc count) frame s owner state enough room is_run absent =
        let ne : (p : Page)
            → start < p
            → p < start + suc count
            → canonical_num p ≢ canonical_num start =
          λ p from to. canonical_num_ne start (suc count) start p room (omega arith) from to in
        let one : IsRun frame 1 = record {
          whole = is_run.whole;
          below = omega (arith, is_run.below);
          no_apic = ground (arith, is_run.no_apic);
        } in
        let left : IsRun (frame + 4096) count = record {
          whole = omega (arith, is_run.whole);
          below = omega (arith, is_run.below);
          no_apic = ground (arith, is_run.no_apic);
        } in
        let (t, owner1, runs, r) =
          map_frame-RunMapped_one start frame s owner state (omega (arith, enough)) one
            (absent start (omega arith) (omega arith)) in
        let (s', owner', end, goes, rest) =
          map_frame-RunMapped (start + 1) count (frame + 4096) t owner1 r.state
            (omega (arith, enough, r.costs)) (omega (arith, room)) left
            (λ p from to.
              r.others p (λ q lo hi.
                let same : q ≡ start = omega arith in rw same (ne p (omega arith) (omega arith)))
              ∙ absent p (omega arith) (omega arith)) in
        (
          s',
          owner',
          end,
          rw (runs, goes) refl,
          record {
            state = rest.state;
            maps = λ i small. elim (ℕ_discrete i 0) [
              | yes zeroth ↦
                  let (word, here, at, kinds) = r.maps 0 (omega arith) in
                  IsMapped-at s' start (start + i) frame (frame + i * 4096) (omega (arith, zeroth))
                    (omega (arith, zeroth))
                    (
                      word,
                      rest.others start
                            (λ p lo hi same. ne p (omega arith) (omega arith) (sym same))
                          ∙ Says-at t start (mapped word) here,
                      omega (arith, at),
                      kinds,
                    )
              | no later ↦
                  IsMapped-at s' _ (start + i) _ (frame + i * 4096) (omega (arith, later))
                    (omega (arith, later)) (rest.maps (i - 1) (omega (arith, later, small)))
            ];
            others = λ q away.
                rest.others q (λ p from to. away p (omega arith) (omega arith))
                ∙ r.others q (λ p lo hi. away p (omega arith) (omega arith));
            costs = omega (arith, rest.costs, r.costs);
            last = rest.last ∙ r.last;
          },
        )
