-- ===== src/Memory/Heap/Room.antt =====
-- Whether the pages that src/memory/allocator.rs asks for hold the layout.
use native.Mathlib.Nat.{div-add-mod', mul_assoc, mod-eq_of_lt, mul-mod_left, mod-eq_of_lt}
use os_test.Prelude.{
  ℕ, ◌+◌, ◌-◌, ◌*◌, ◌/◌, ◌%◌, ◌^◌, ◌≤◌, ◌<◌, ◌≡◌, ap, sym, ◌∙◌, true, Option, some, arith, lt→ltb,
}
use os_test.Prelude.Outcome.{Outcome, done}
use os_test.Memory.Addr.{is_valid}
use os_test.Memory.Paging.Page
use os_test.Memory.Virt.{PageAllocation, as_virt_addr}
use os_test.Memory.Heap.{Layout, page_amount, next_multiple_of, alloc, dealloc}

-- For an alignment that divides a page these pages are asked for.
page_amount_small :
    (layout : Layout)
    → 0 < layout.align
    → 0x1000 % layout.align ≡ 0
    → layout.size < 2 ^ 63
    → page_amount layout ≡ done (layout.size / 0x1000 + 1)
unfolding page_amount
page_amount_small layout pos divides small = ground arith

page_aligned : (page align : ℕ) → 0x1000 % align ≡ 0 → page * 0x1000 % align ≡ 0
page_aligned page align divides =
    let q = 0x1000 / align in
    let whole : 0x1000 ≡ q * align = omega (arith, div-add-mod' 0x1000 align, divides) in
    ap (λ (t : ℕ). page * t % align) whole
    ∙ ap (λ (t : ℕ). t % align) (sym (mul_assoc page q align))
    ∙ mul-mod_left (page * q) align

next_of_multiple : (n m : ℕ) → 0 < m → n % m ≡ 0 → next_multiple_of n m ≡ done n
next_of_multiple n m pos e = ground arith

module _ {S : Type 0} (alloc_pages : ℕ → S → Outcome (S × Option PageAllocation))
    (dealloc_pages : PageAllocation → S → Outcome S) where
  -- For a positive alignment that divides a page, a size below 2^63, and pages that the page
  -- allocator gives in the amount asked for, which end below 2^64 and begin at a valid address:
  -- the pointer is the beginning of the first page and has the alignment, the layout ends inside
  -- the last page, and `dealloc` of the pointer gives back these very pages.
  pub alloc_room :
      (layout : Layout) (s s' : S) (a : PageAllocation)
      → 0 < layout.align
      → 0x1000 % layout.align ≡ 0
      → layout.size < 2 ^ 63
      → alloc_pages (layout.size / 0x1000 + 1) s ≡ done (s', some a)
      → a.page_amount ≡ layout.size / 0x1000 + 1
      → (a.first_page + a.page_amount) * 0x1000 < 2 ^ 64
      → is_valid (a.first_page * 0x1000) ≡ true
      → (alloc alloc_pages dealloc_pages layout s ≡ done (s', a.first_page * 0x1000))
        × (a.first_page * 0x1000 % layout.align ≡ 0)
        × (a.first_page * 0x1000 + layout.size ≤ (a.first_page + a.page_amount) * 0x1000)
        × ((t : S)
            → dealloc alloc_pages dealloc_pages (a.first_page * 0x1000) layout t
              ≡ dealloc_pages a t)
  unfolding alloc dealloc as_virt_addr Page.from_virt Page.to_virt
  alloc_room layout s s' a pos divides small given amount room valid =
      let aligned = page_aligned a.first_page layout.align divides in
      let pages = page_amount_small layout pos divides small in
      (
        rw (pages, alloc)
            (rw (given, alloc)
              (rw (lt→ltb (a.first_page * 0x1000) (2 ^ 64) (omega (arith, room)), alloc)
                (rw (next_of_multiple (a.first_page * 0x1000) layout.align pos aligned)))),
        aligned,
        omega (arith, amount),
        λ t. rw (pages, dealloc) (rw (valid, dealloc) (rw (page_back, sym amount))),
      )
    where
      page_back : a.first_page * 0x1000 / 0x1000 ≡ a.first_page
      page_back = omega arith

-- For an alignment of more than three pages too few pages may be asked for. With an alignment of
-- `m` pages, where `3 < m < 2^40`, a size of one alignment, and pages that begin one page above
-- a multiple of the alignment and away from the end of the address space, the layout that begins
-- at the aligned pointer ends behind the pages that were asked for.
pub page_amount_short :
    (m base : ℕ)
    → 3 < m
    → m < 2 ^ 40
    → base % (m * 0x1000) ≡ 0x1000
    → base + m * 0x1000 < 2 ^ 64
    → (pages ptr : ℕ) × (page_amount (record { size = m * 0x1000; align = m * 0x1000 })
        ≡ done pages)
      × (next_multiple_of base (m * 0x1000) ≡ done ptr)
      × (base + pages * 0x1000 < ptr + m * 0x1000)
unfolding page_amount
page_amount_short m base big small off room =
    let page_left : 0x1000 % (m * 0x1000) ≡ 0x1000 = mod-eq_of_lt (omega arith) in
    (
      m + 2,
      base + (m * 0x1000 - 0x1000),
      ground (arith, page_left),
      ground (arith, off),
      omega arith,
    )
