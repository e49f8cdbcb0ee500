-- ===== src/Memory/Virt/Undo.antt =====
-- `map_physical` of src/memory/virt.rs undoes its claim where there are no pages.
use native.Mathlib.Nat.{mod-le}
use os_test.Prelude.{
  ℕ, zero, suc, ◌+◌, ◌-◌, ◌%◌, ◌≡◌, refl, ap, ◌∙◌, inl, inr, true, Option, none, ◌==◌,
  if◌then◌else◌, arith, Option-cases,
}
use os_test.Prelude.Outcome.{Outcome, done, Outcome-cases, add64, sub64}
use os_test.Memory.Addr.{PhyAddr, VirtAddr}
use os_test.Memory.FrameSource.{basic}
use os_test.Memory.Physical.{BasicPhysicalAllocator, mark_used, alloc_phy_addr, free_frame}
use os_test.Memory.Physical.Find.{lt-length_of_get_elem?}
use os_test.Memory.Physical.Frame.{address, IsSized, free_frame-address}
use os_test.Memory.Physical.Claim.{
  AreFree, Granted, alloc_phy_addr-Granted, alloc_phy_addr-none, set-mark_used_first,
  get_elem?-mark_used_first,
}
use os_test.Memory.Paging.Page
use os_test.Memory.Paging.Iter.{for_pages}
use os_test.Memory.Paging.Table.{current, Mem, find_free_pages}
use os_test.Memory.Virt.{PageAllocation, Inner, map_frame, free_frames, map_physical}
use os_test.Memory.Virt.Shape.{done-panic, align_down_page, answer, behind_claim}

module _ (offset : ℕ) (cr3 : PhyAddr) (store_byte : VirtAddr → ℕ → Mem → Mem) where
  pub free_frames-mark_used :
      (count index : ℕ) (a : BasicPhysicalAllocator)
      → IsSized a
      → AreFree count index a.bitmap
      → free_frames basic offset cr3 store_byte count
          (address a index)
          (record a { bitmap = mark_used count index a.bitmap })
        ≡ done a
  unfolding free_frames mark_used
  free_frames-mark_used zero index a sized free = refl
  free_frames-mark_used (suc count) index a sized free =
      let there = free index (omega arith) (omega arith) in
      let below = lt-length_of_get_elem? a.bitmap index there in
      let marked : BasicPhysicalAllocator = record a {
        bitmap = mark_used (suc count) index a.bitmap;
      } in
      let freed : free_frame marked (address a index)
          ≡ done (record a { bitmap = mark_used count (index + 1) a.bitmap }) =
        free_frame-address marked index true sized.aligned
          (get_elem?-mark_used_first count index a.bitmap below)
        ∙ ap (λ bits. done (record a { bitmap = bits }))
            (set-mark_used_first count index a.bitmap there) in
      let next : add64 (address a index) 4096 ≡ done (address a (index + 1)) =
        ground (arith, sized.fits, below) in
      rw (freed, next)
        (free_frames-mark_used count (index + 1) a sized
          (λ j from under. free j (omega (arith, from)) (omega (arith, under))))

  undo :
      (count : ℕ) (a b : BasicPhysicalAllocator) (frame addr : PhyAddr)
      → IsSized a
      → Granted a b addr count frame
      → free_frames basic offset cr3 store_byte count frame b ≡ done a
  undo count a b frame addr sized g =
      rw (g.same, g.located, g.marked) (free_frames-mark_used count g.index a sized g.free)

  unchanged :
      (s s' : Inner BasicPhysicalAllocator)
      → ◌≡◌ {A = Outcome (Inner BasicPhysicalAllocator × Option (PageAllocation × VirtAddr))}
          (done (record s { physical_allocator = s.physical_allocator }, none))
          (done (s', none))
      → s' ≡ s
  unchanged s s' h = ground (arith, h)

  answer-none :
      (addr pages first : ℕ) (s s' : Inner BasicPhysicalAllocator)
      → answer addr pages first s ≡ done (s', none)
      → ⊥
  unfolding Page.to_virt
  answer-none addr pages first s s' h = ground (arith, h)

  claimed_none :
      (addr n : ℕ) (s s' : Inner BasicPhysicalAllocator) (rest : BasicPhysicalAllocator)
      (frame : PhyAddr)
      → free_frames basic offset cr3 store_byte n frame rest ≡ done s.physical_allocator
      → behind_claim basic offset cr3 store_byte addr n s rest frame ≡ done (s', none)
      → s' ≡ s
  claimed_none addr n s s' rest frame undone h = elim (Outcome-cases (current offset cr3)) [
    | inr panics ↦ absurd (done-panic (rw panics at h))
    | inl (table, root) ↦
        elim (Outcome-cases (find_free_pages offset s.mem table s.last_page_alloc n)) [
          | inr panics ↦ absurd (done-panic (rw (root, panics) at h))
          | inl (free_pages, search) ↦ elim (Option-cases free_pages) [
            | inl none_at_all ↦ unchanged s s' (rw (root, search, none_at_all, undone) at h)
            | inr (it, are) ↦
                elim (Outcome-cases (
                  for_pages (map_frame basic offset cr3 store_byte table) (suc (suc n)) it
                    (record s { physical_allocator = rest }, frame))) [
                      | inr panics ↦ absurd (done-panic (rw (root, search, are, panics) at h))
                      | inl ((t, end), ran) ↦
                          absurd
                            (answer-none addr n it.start t s' (rw (root, search, are, ran) at h))
                    ]
          ]
        ]
  ]

  -- Over the bitmap allocator, whose first frame is aligned and whose frames have addresses below 2^64:
  -- where `map_physical` gives `None`, the state is what it was before. The frames that it
  -- claimed before it found no free pages are free again, and no other frame changed.
  pub map_physical-none :
      (addr amount : ℕ) (s s' : Inner BasicPhysicalAllocator)
      → IsSized s.physical_allocator
      → map_physical basic offset cr3 store_byte addr amount s ≡ done (s', none)
      → s' ≡ s
  unfolding map_physical
  map_physical-none addr amount s s' sized h =
      let sub : sub64 addr (addr - addr % 4096) ≡ done (addr % 4096) =
        ground (arith, mod-le addr 4096) in
      let begun = rw (align_down_page addr, sub) at h in
      elim (Outcome-cases (add64 amount (if addr % 4096 == 0 then 0 else 1))) [
        | inr panics ↦ absurd (done-panic (rw panics at begun))
        | inl (n, sum) ↦
            elim (Outcome-cases (alloc_phy_addr s.physical_allocator (addr - addr % 4096) n)) [
              | inr panics ↦ absurd (done-panic (rw (sum, panics) at begun))
              | inl ((rest, claimed), given) ↦ elim (Option-cases claimed) [
                | inl refused ↦
                    let kept =
                      alloc_phy_addr-none s.physical_allocator rest (addr - addr % 4096) n
                        (given ∙ ap (λ (c : Option PhyAddr). done (rest, c)) refused) in
                    unchanged s s' (rw (sum, given, refused, kept) at begun)
                | inr (frame, got) ↦
                    let granted =
                      alloc_phy_addr-Granted s.physical_allocator rest (addr - addr % 4096) n frame
                        sized.aligned (given ∙ ap (λ (c : Option PhyAddr). done (rest, c)) got) in
                    claimed_none addr n s s' rest frame
                      (undo n s.physical_allocator rest frame (addr - addr % 4096) sized granted)
                      (rw (sum, given, got) at begun)
              ]
            ]
      ]
