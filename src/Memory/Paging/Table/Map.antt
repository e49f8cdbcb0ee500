-- ===== src/Memory/Paging/Table/Map.antt =====
-- `map_page_unchecked` of src/memory/paging.rs against the lookups `page_entry` and
-- `page_entry_mut`: a page that is mapped is found where it was mapped.
use os_test.Prelude.{
  ℕ, ◌+◌, ◌%◌, ◌≤◌, ◌<◌, ◌≡◌, ◌≢◌, ◌⊎◌, inl, inr, refl, ◌∙◌, true, false, ◌==◌, arith, some,
}
use os_test.Prelude.Outcome.{done}
use os_test.Prelude.Result.{ok}
use os_test.Memory.Addr.{PhyAddr, VirtAddr}
use os_test.Memory.FrameSource.{PhysicalAllocator}
use os_test.Memory.Paging.Entry.{PageTableEntryFlags, page_size, addr, flags, contains, is_present}
use os_test.Memory.Paging.Entry.Fields.{ArePresent, IsFrame, set_addr_fields, set_addr-present}
use os_test.Memory.Paging.Entry.Flag
use os_test.Memory.Paging.Page.{Page, level4_idx, level3_idx, level2_idx, level1_idx}
use os_test.Memory.Paging.Page.Index.{level_idx_digits}
use os_test.Memory.Paging.Table.{
  Mem, write, slot, as_page_table_mut, page_entry, page_entry_mut, page_is_present, enter_level,
  map_page_unchecked,
}
use os_test.Memory.Paging.Table.Enter.{
  InTable, Entered, GivesFrames, enter_level-Entered, write_self, write_ne,
}

-- Two tables that share no byte.
abbrev pub Apart : VirtAddr → VirtAddr → Type 0
Apart t u = (t + 4096 ≤ u) ⊎ (u + 4096 ≤ t)

slot-Apart : (t u : VirtAddr) (i : ℕ) → i < 512 → Apart t u → ¬ InTable u (slot t i)
slot-Apart t u i small (inl below) (from, to) = omega (arith, small, below, from, to)
slot-Apart t u i small (inr above) (from, to) = omega (arith, small, above, from, to)

slots_ne : (t u : VirtAddr) (i j : ℕ) → i < 512 → j < 512 → Apart t u → slot t i ≢ slot u j
slots_ne t u i j small' small (inl below) same = omega (arith, small', small, below, same)
slots_ne t u i j small' small (inr above) same = omega (arith, small', small, above, same)

-- The allocator gives no frame that holds the entry.
abbrev pub IsFresh : {A : Type 0} → PhysicalAllocator A → (offset : ℕ) → A → VirtAddr → Type 0
IsFresh {A = A} alloc offset a entry =
    (b : A) (frame : PhyAddr)
    → alloc.allocate_frame a ≡ done (b, frame)
    → ¬ InTable (frame + offset) entry

-- The path of `page` from the table `t4` is through the tables `t3`, `t2` and `t1`.
pub record Leads (offset : ℕ) (mem : Mem) (t4 t3 t2 t1 : VirtAddr) (page : Page) : Type 0 where
  pub present4 : is_present (mem (slot t4 (level4_idx page))) ≡ true
  pub present3 : is_present (mem (slot t3 (level3_idx page))) ≡ true
  pub present2 : is_present (mem (slot t2 (level2_idx page))) ≡ true
  pub leads4 : as_page_table_mut offset (mem (slot t4 (level4_idx page))) ≡ done t3
  pub leads3 : as_page_table_mut offset (mem (slot t3 (level3_idx page))) ≡ done t2
  pub leads2 : as_page_table_mut offset (mem (slot t2 (level2_idx page))) ≡ done t1

module _ {offset : ℕ} {mem : Mem} {t4 t3 t2 t1 : VirtAddr} {page : Page}
    (l : Leads offset mem t4 t3 t2 t1 page) where
  pub page_entry_mut-Leads :
      page_entry_mut offset mem t4 page ≡ done (some (slot t1 (level1_idx page)))
  unfolding page_entry_mut
  page_entry_mut-Leads = rw (l.present4, l.leads4, l.present3, l.leads3, l.present2, l.leads2) refl

  pub page_entry-Leads :
      contains (flags (mem (slot t2 (level2_idx page)))) Flag.huge_page ≡ false
      → page_entry offset mem t4 page ≡ done (ok (slot t1 (level1_idx page)))
  unfolding page_entry as_page_table_mut
  page_entry-Leads small =
      rw (l.present4, l.leads4, l.present3, l.leads3, small, l.present2, l.leads2) refl

-- One mapping: the states that the three levels leave, from `m4` and `a4` on, and their tables.
module _ {A : Type 0} (alloc : PhysicalAllocator A) (offset : ℕ) (page : Page) (phys : PhyAddr)
    (fl : PageTableEntryFlags) (m4 m3 m2 m1 : Mem) (a4 a3 a2 a1 : A) (t4 t3 t2 t1 : VirtAddr)
    (apart : Apart t4 t3
      × Apart t4 t2
      × Apart t4 t1
      × Apart t3 t2
      × Apart t3 t1
      × Apart t2 t1) where
  abbrev at4 : VirtAddr
  at4 = slot t4 (level4_idx page)

  abbrev at3 : VirtAddr
  at3 = slot t3 (level3_idx page)

  abbrev at2 : VirtAddr
  at2 = slot t2 (level2_idx page)

  abbrev at1 : VirtAddr
  at1 = slot t1 (level1_idx page)

  -- No level touches the entry of another one.
  slots-Apart :
      (at4 ≢ at3)
      × (at4 ≢ at2)
      × (at4 ≢ at1)
      × (at3 ≢ at2)
      × (at3 ≢ at1)
      × (at2 ≢ at1)
      × (¬ InTable t2 at4)
      × (¬ InTable t1 at4)
      × (¬ InTable t1 at3)
  slots-Apart =
      let (p43, p42, p41, p32, p31, p21) = apart in
      let (i4, i3, i2, i1, whole) = level_idx_digits page in
      (
        slots_ne t4 t3 (level4_idx page) (level3_idx page) i4 i3 p43,
        slots_ne t4 t2 (level4_idx page) (level2_idx page) i4 i2 p42,
        slots_ne t4 t1 (level4_idx page) (level1_idx page) i4 i1 p41,
        slots_ne t3 t2 (level3_idx page) (level2_idx page) i3 i2 p32,
        slots_ne t3 t1 (level3_idx page) (level1_idx page) i3 i1 p31,
        slots_ne t2 t1 (level2_idx page) (level1_idx page) i2 i1 p21,
        slot-Apart t4 t2 (level4_idx page) i4 p42,
        slot-Apart t4 t1 (level4_idx page) i4 p41,
        slot-Apart t3 t1 (level3_idx page) i3 p31,
      )

  module _ (e4 : Entered offset at4 fl m4 t3 m3) (e3 : Entered offset at3 fl m3 t2 m2)
      (e2 : Entered offset at2 fl m2 t1 m1) (value : ℕ) where
    levels-Leads : Leads offset (write m1 at1 value) t4 t3 t2 t1 page
    levels-Leads =
        let (n43, n42, n41, n32, n31, n21, o42, o41, o31) = slots-Apart in
        let last : (at : VirtAddr) → at ≢ at1 → write m1 at1 value at ≡ m1 at =
          λ at ne. write_ne m1 at1 at value ne in
        let kept3 : write m1 at1 value at3 ≡ m2 at3 = last at3 n31 ∙ e2.outside at3 n32 o31 in
        let kept4 : write m1 at1 value at4 ≡ m3 at4 =
          last at4 n41 ∙ e2.outside at4 n42 o41 ∙ e3.outside at4 n43 o42 in
        record {
          present4 = rw kept4 e4.present;
          present3 = rw kept3 e3.present;
          present2 = rw (last at2 n21) e2.present;
          leads4 = rw kept4 e4.leads;
          leads3 = rw kept3 e3.leads;
          leads2 = rw (last at2 n21) e2.leads;
        }

    -- The entry of level 2 is not one of a huge page.
    level2_small :
        contains fl Flag.huge_page ≡ false
        → contains (flags (m2 at2)) Flag.huge_page ≡ false
        → contains (flags (write m1 at1 value at2)) Flag.huge_page ≡ false
    level2_small plain met =
        rw (write_ne m1 at1 at2 value slots-Apart.5)
          (elim e2.kept [ inl same ↦ rw same met | inr same ↦ rw same plain ])

    level_outside :
        (x : VirtAddr)
        → (x ≢ at4) × (x ≢ at3) × (x ≢ at2) × (x ≢ at1)
        → (¬ InTable t3 x) × (¬ InTable t2 x) × (¬ InTable t1 x)
        → write m1 at1 value x ≡ m4 x
    level_outside x (n4, n3, n2, n1) (o3, o2, o1) =
        write_ne m1 at1 x value n1 ∙ e2.outside x n2 o1 ∙ e3.outside x n3 o2 ∙ e4.outside x n4 o3

  -- When the three upper levels are entered, through tables that share no byte, and with frames
  -- that are below 2^52 and do not hold the entries they are given for, `map_page_unchecked` of an
  -- aligned address below 2^52, with flags that make a page present and are not those of a huge
  -- page, succeeds, unless level 2 already maps a huge page; afterwards `page_entry` and
  -- `page_entry_mut` find the entry of the page, `is_present` is true, the entry has the address
  -- and the flags that were given, and outside of the four entries and the three lower tables the
  -- memory is as before.
  pub map_page_unchecked-page_entry :
      GivesFrames alloc
      → ArePresent fl
      → contains fl Flag.huge_page ≡ false
      → contains (flags (m2 at2)) Flag.huge_page ≡ false
      → IsFrame phys
      → IsFresh alloc offset a4 at4
      → IsFresh alloc offset a3 at3
      → IsFresh alloc offset a2 at2
      → enter_level offset alloc at4 fl (m4, a4) ≡ done (t3, m3, a3)
      → enter_level offset alloc at3 fl (m3, a3) ≡ done (t2, m2, a2)
      → enter_level offset alloc at2 fl (m2, a2) ≡ done (t1, m1, a1)
      → (after : Mem) × (map_page_unchecked offset alloc t4 page phys fl (m4, a4)
          ≡ done (after, a1))
        × (page_entry offset after t4 page ≡ done (ok at1))
        × (page_entry_mut offset after t4 page ≡ done (some at1))
        × (page_is_present offset after t4 page ≡ done true)
        × (addr (after at1) ≡ phys)
        × (flags (after at1) ≡ fl)
        × ((x : VirtAddr)
            → (x ≢ at4) × (x ≢ at3) × (x ≢ at2) × (x ≢ at1)
            → (¬ InTable t3 x) × (¬ InTable t2 x) × (¬ InTable t1 x)
            → after x ≡ m4 x)
  unfolding map_page_unchecked page_is_present
  map_page_unchecked-page_entry gives on plain met frame f4 f3 f2 r4 r3 r2 =
      let e4 = enter_level-Entered alloc offset at4 t3 fl m4 m3 a4 a3 gives on f4 r4 in
      let e3 = enter_level-Entered alloc offset at3 t2 fl m3 m2 a3 a2 gives on f3 r3 in
      let e2 = enter_level-Entered alloc offset at2 t1 fl m2 m1 a2 a1 gives on f2 r2 in
      let (word, set, a, f, bound) = set_addr_fields phys fl frame on.0 in
      let there : is_present word ≡ true = (set_addr-present phys fl word frame.1 on set).0 in
      let even : (phys % page_size == 0) ≡ true = ground (arith, frame.0) in
      let l = levels-Leads e4 e3 e2 word in
      let after : Mem = write m1 at1 word in
      let self : after at1 ≡ word = write_self m1 at1 word in
      let found = page_entry-Leads l (level2_small e4 e3 e2 word plain met) in
      (
        after,
        rw (even, r4, r3, r2, set) refl,
        found,
        page_entry_mut-Leads l,
        rw (found, self, there) refl,
        rw self a,
        rw self f,
        level_outside e4 e3 e2 word,
      )
