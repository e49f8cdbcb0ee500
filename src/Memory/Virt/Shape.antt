-- ===== src/Memory/Virt/Shape.antt =====
-- The answer of `map_physical` of src/memory/virt.rs.
use native.Mathlib.Nat.{mod-le}
use os_test.Prelude.{
  ℕ, suc, ◌+◌, ◌-◌, ◌*◌, ◌%◌, ◌≡◌, inl, inr, Option, none, some, ◌==◌, if◌then◌else◌, arith,
  Option-cases,
}
use os_test.Prelude.Outcome.{Outcome, done, panic, ◌>>=◌, Outcome-cases, add64, sub64}
use os_test.Memory.Addr.{PhyAddr, VirtAddr, align_down}
use os_test.Memory.FrameSource.{PhysicalAllocator}
use os_test.Memory.Paging.Page
use os_test.Memory.Paging.Iter.{for_pages}
use os_test.Memory.Paging.Table.{current, Mem, find_free_pages}
use os_test.Memory.Virt.{PageAllocation, Inner, map_frame, free_frames, map_physical}

-- An allocation of pages for `amount` frames at `addr`: one page more where the address is inside a
-- page, and the virtual address at the same place inside the first page.
pub record Maps (addr : PhyAddr) (amount : ℕ) (a : PageAllocation) (v : VirtAddr) : Type 0 where
  pub pages : a.page_amount ≡ amount + (if addr % 4096 == 0 then 0 else 1)
  pub place : v ≡ a.first_page * 4096 + addr % 4096

pub align_down_page : (addr : PhyAddr) → align_down addr 4096 ≡ done (addr - addr % 4096)
unfolding align_down
align_down_page addr = ground (arith, mod-le addr 4096)

pub done-panic : {B : Type 0} {b : B} → panic ≡ done b → ⊥
done-panic h = ground (arith, h)

pub none-some :
    {S B : Type 0} {s t : S} {b : B}
    → ◌≡◌ {A = Outcome (S × Option B)} (done (s, none)) (done (t, some b))
    → ⊥
none-some h = ground (arith, h)

abbrev pub pages_for : PhyAddr → ℕ → ℕ
pages_for addr amount = amount + (if addr % 4096 == 0 then 0 else 1)

-- The end of `map_physical`, behind the loop that maps the pages.
abbrev pub answer :
    {S : Type 0}
    → PhyAddr
    → (pages first : ℕ) → S
    → Outcome (S × Option (PageAllocation × VirtAddr))
answer addr pages first s = do
  start ← Page.to_virt first
  at ← add64 start (addr % 4096)
  done (s, some (record { first_page = first; page_amount = pages }, at))

answer-Maps :
    {S : Type 0} (addr : PhyAddr) (amount first : ℕ) (s s' : S) (a : PageAllocation) (v : VirtAddr)
    → answer addr (pages_for addr amount) first s ≡ done (s', some (a, v))
    → Maps addr amount a v
unfolding Page.to_virt
answer-Maps addr amount first s s' a v h = record { pages = ground arith; place = ground arith }

module _ {A : Type 0} (alloc : PhysicalAllocator A) (offset : ℕ) (cr3 : PhyAddr)
    (store_byte : VirtAddr → ℕ → Mem → Mem) where
  -- The part of `map_physical` behind the claim of the frames.
  abbrev pub behind_claim :
      PhyAddr
      → (n : ℕ) → Inner A
      → A
      → PhyAddr
      → Outcome (Inner A × Option (PageAllocation × VirtAddr))
  behind_claim addr n s rest frame = do
    page_table ← current offset cr3
    free_pages ← find_free_pages offset s.mem page_table s.last_page_alloc n
    elim free_pages [
      | none ↦ (do
        rest' ← free_frames alloc offset cr3 store_byte n frame rest
        done (record s { physical_allocator = rest' }, none))
      | some it ↦ (do
        (s', end) ←
            for_pages (map_frame alloc offset cr3 store_byte page_table) (suc (suc n)) it
              (record s { physical_allocator = rest }, frame)
        answer addr n it.start s')
    ]

  claimed-Maps :
      (addr : PhyAddr) (amount n : ℕ) (s : Inner A) (rest : A) (frame : PhyAddr) (s' : Inner A)
      (a : PageAllocation) (v : VirtAddr)
      → n ≡ pages_for addr amount
      → behind_claim addr n s rest frame ≡ done (s', some (a, v))
      → Maps addr amount a v
  claimed-Maps addr amount n s rest frame s' a v amounts h =
      elim (Outcome-cases (current offset cr3)) [
        | inr panics ↦ absurd (done-panic (rw panics at h))
        | inl (table, root) ↦
            elim (Outcome-cases (find_free_pages offset s.mem table s.last_page_alloc n)) [
              | inr panics ↦ absurd (done-panic (rw (root, panics) at h))
              | inl (free_pages, search) ↦ elim (Option-cases free_pages) [
                | inl none_at_all ↦
                    elim (Outcome-cases (free_frames alloc offset cr3 store_byte n frame rest)) [
                      | inr panics ↦
                          absurd (done-panic (rw (root, search, none_at_all, panics) at h))
                      | inl (rest', freed) ↦
                          absurd (none-some (rw (root, search, none_at_all, freed) at h))
                    ]
                | inr (it, are) ↦
                    elim (Outcome-cases (
                      for_pages (map_frame alloc offset cr3 store_byte table) (suc (suc n)) it
                        (record s { physical_allocator = rest }, frame))) [
                          | inr panics ↦ absurd (done-panic (rw (root, search, are, panics) at h))
                          | inl ((t, end), ran) ↦
                              answer-Maps addr amount it.start t s' a v
                                (rw (root, search, are, ran, amounts) at h)
                        ]
              ]
            ]
      ]

  -- With frames of the size of a page, whenever `map_physical` gives an allocation, this has the
  -- pages that were asked for, and one more where the physical address is inside a page; and
  -- the virtual address is in its first page, as far from the beginning of the page as the physical
  -- address is from that of its frame.
  pub map_physical-Maps :
      (addr : PhyAddr) (amount : ℕ) (s s' : Inner A) (a : PageAllocation) (v : VirtAddr)
      → alloc.frame_size ≡ 4096
      → map_physical alloc offset cr3 store_byte addr amount s ≡ done (s', some (a, v))
      → Maps addr amount a v
  unfolding map_physical
  map_physical-Maps addr amount s s' a v page h =
      let sub : sub64 addr (addr - addr % 4096) ≡ done (addr % 4096) =
        ground (arith, mod-le addr 4096) in
      let begun = rw (page, align_down_page addr, sub) at h in
      elim (Outcome-cases (add64 amount (if addr % 4096 == 0 then 0 else 1))) [
        | inr panics ↦ absurd (done-panic (rw panics at begun))
        | inl (n, sum) ↦
            elim (Outcome-cases
              (alloc.alloc_phy_addr s.physical_allocator (addr - addr % 4096) n)) [
                | inr panics ↦ absurd (done-panic (rw (sum, panics) at begun))
                | inl ((rest, claimed), given) ↦ elim (Option-cases claimed) [
                  | inl none_at_all ↦ absurd (none-some (rw (sum, given, none_at_all) at begun))
                  | inr (frame, got) ↦
                      let amounts : n ≡ pages_for addr amount = ground (arith, sum) in
                      claimed-Maps addr amount n s rest frame s' a v amounts
                        (rw (sum, given, got) at begun)
                ]
              ]
      ]
