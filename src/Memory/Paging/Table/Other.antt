-- ===== src/Memory/Paging/Table/Other.antt =====
-- `map_page_unchecked` of src/memory/paging.rs and the pages that were mapped before.
use os_test.Prelude.{
  ℕ, ◌%◌, ◌≡◌, ◌≢◌, inl, inr, refl, sym, ap, ◌∙◌, true, false, ◌==◌, arith, Bool-cases,
}
use os_test.Prelude.Outcome.{done}
use os_test.Prelude.Result.{ok}
use os_test.Memory.Addr.{PhyAddr, VirtAddr}
use os_test.Memory.FrameSource.{PhysicalAllocator}
use os_test.Memory.Paging.Entry.{PageTableEntryFlags, page_size, flags, contains, is_present}
use os_test.Memory.Paging.Entry.Fields.{ArePresent, IsFrame, set_addr_fields}
use os_test.Memory.Paging.Entry.Flag
use os_test.Memory.Paging.Page.{Page, level4_idx, level3_idx, level2_idx, level1_idx}
use os_test.Memory.Paging.Table.{
  Mem, write, slot, page_entry, page_entry_mut, enter_level, map_page_unchecked,
}
use os_test.Memory.Paging.Table.Enter.{
  InTable, Entered, GivesFrames, enter_level-Entered, write_ne, true-false,
}
use os_test.Memory.Paging.Table.Map.{IsFresh, Leads, page_entry-Leads, page_entry_mut-Leads}

-- An address is not in a table that is made for an entry.
abbrev pub IsOff : (mem : Mem) (entry table x : VirtAddr) → Type 0
IsOff mem entry table x = is_present (mem entry) ≡ false → ¬ InTable table x

module _ {offset : ℕ} {entry t : VirtAddr} {fl : PageTableEntryFlags} {mem mem' : Mem}
    (e : Entered offset entry fl mem t mem') (x : VirtAddr) (off : IsOff mem entry t x) where
  keeps_ne : x ≢ entry → mem' x ≡ mem x
  keeps_ne ne = elim (Bool-cases (is_present (mem entry))) [
    | inl there ↦ ap (λ (m : Mem). m x) (e.stays there)
    | inr absent ↦ e.outside x ne (off absent)
  ]

  keeps : is_present (mem x) ≡ true → mem' x ≡ mem x
  keeps used = elim (Bool-cases (is_present (mem entry))) [
    | inl there ↦ ap (λ (m : Mem). m x) (e.stays there)
    | inr absent ↦
        e.outside x (λ same. true-false used (ap (λ at. is_present (mem at)) same ∙ absent))
          (off absent)
  ]

-- One mapping of `page`, whose entries are `at4` to `at1`.
module _ {A : Type 0} (alloc : PhysicalAllocator A) (offset : ℕ) (page : Page) (phys : PhyAddr)
    (fl : PageTableEntryFlags) (m4 m3 m2 m1 : Mem) (a4 a3 a2 a1 : A) (t4 t3 t2 t1 : VirtAddr) where
  abbrev at4 : VirtAddr
  at4 = slot t4 (level4_idx page)

  abbrev at3 : VirtAddr
  at3 = slot t3 (level3_idx page)

  abbrev at2 : VirtAddr
  at2 = slot t2 (level2_idx page)

  abbrev at1 : VirtAddr
  at1 = slot t1 (level1_idx page)

  -- The address is in none of the tables that were made.
  abbrev pub IsOffAll : VirtAddr → Type 0
  IsOffAll x = IsOff m4 at4 t3 x × IsOff m3 at3 t2 x × IsOff m2 at2 t1 x

  module _ (e4 : Entered offset at4 fl m4 t3 m3) (e3 : Entered offset at3 fl m3 t2 m2)
      (e2 : Entered offset at2 fl m2 t1 m1) (value : ℕ) where
    present_kept :
        (x : VirtAddr)
        → IsOffAll x
        → x ≢ at1
        → is_present (m4 x) ≡ true
        → write m1 at1 value x ≡ m4 x
    present_kept x (off4, off3, off2) ne used =
        let k3 : m3 x ≡ m4 x = keeps e4 x off4 used in
        let k2 : m2 x ≡ m4 x = keeps e3 x off3 (rw k3 used) ∙ k3 in
        let k1 : m1 x ≡ m4 x = keeps e2 x off2 (rw k2 used) ∙ k2 in write_ne m1 at1 x value ne ∙ k1

    other_kept :
        (x : VirtAddr)
        → IsOffAll x
        → (x ≢ at4) × (x ≢ at3) × (x ≢ at2) × (x ≢ at1)
        → write m1 at1 value x ≡ m4 x
    other_kept x (off4, off3, off2) (n4, n3, n2, n1) =
        write_ne m1 at1 x value n1
        ∙ keeps_ne e2 x off2 n2
        ∙ keeps_ne e3 x off3 n3
        ∙ keeps_ne e4 x off4 n4

    Leads-kept :
        (q : Page) (u3 u2 u1 : VirtAddr)
        → Leads offset m4 t4 u3 u2 u1 q
        → IsOffAll (slot t4 (level4_idx q))
          × IsOffAll (slot u3 (level3_idx q))
          × IsOffAll (slot u2 (level2_idx q))
        → (slot t4 (level4_idx q) ≢ at1)
          × (slot u3 (level3_idx q) ≢ at1)
          × (slot u2 (level2_idx q) ≢ at1)
        → Leads offset (write m1 at1 value) t4 u3 u2 u1 q
    Leads-kept q u3 u2 u1 l (off4, off3, off2) (n4, n3, n2) =
        let k4 = present_kept (slot t4 (level4_idx q)) off4 n4 l.present4 in
        let k3 = present_kept (slot u3 (level3_idx q)) off3 n3 l.present3 in
        let k2 = present_kept (slot u2 (level2_idx q)) off2 n2 l.present2 in
        record {
          present4 = rw k4 l.present4;
          present3 = rw k3 l.present3;
          present2 = rw k2 l.present2;
          leads4 = rw k4 l.leads4;
          leads3 = rw k3 l.leads3;
          leads2 = rw k2 l.leads2;
        }

  -- When the three upper levels are entered, with frames that are below 2^52 and do not hold the
  -- entries that they are given for, `map_page_unchecked` of an aligned address below 2^52, with
  -- flags that make a page present, succeeds. Another page `q` that the tables led to before, not
  -- through a huge page, is looked up as before: `page_entry` and `page_entry_mut` give the same
  -- entry, and the entry has the same value. The entries on the way of `q` are not in tables that
  -- the mapping made, those of the upper levels are not the last entry of the mapping, and the
  -- last one is none of the four entries of the mapping.
  pub map_page_unchecked-page_entry_other :
      (q : Page) (u3 u2 u1 : VirtAddr)
      → GivesFrames alloc
      → ArePresent fl
      → IsFrame phys
      → IsFresh alloc offset a4 at4
      → IsFresh alloc offset a3 at3
      → IsFresh alloc offset a2 at2
      → enter_level offset alloc at4 fl (m4, a4) ≡ done (t3, m3, a3)
      → enter_level offset alloc at3 fl (m3, a3) ≡ done (t2, m2, a2)
      → enter_level offset alloc at2 fl (m2, a2) ≡ done (t1, m1, a1)
      → Leads offset m4 t4 u3 u2 u1 q
      → contains (flags (m4 (slot u2 (level2_idx q)))) Flag.huge_page ≡ false
      → IsOffAll (slot t4 (level4_idx q))
        × IsOffAll (slot u3 (level3_idx q))
        × IsOffAll (slot u2 (level2_idx q))
      → (slot t4 (level4_idx q) ≢ at1)
        × (slot u3 (level3_idx q) ≢ at1)
        × (slot u2 (level2_idx q) ≢ at1)
      → IsOffAll (slot u1 (level1_idx q))
      → (slot u1 (level1_idx q) ≢ at4)
        × (slot u1 (level1_idx q) ≢ at3)
        × (slot u1 (level1_idx q) ≢ at2)
        × (slot u1 (level1_idx q) ≢ at1)
      → (after : Mem) × (map_page_unchecked offset alloc t4 page phys fl (m4, a4)
          ≡ done (after, a1))
        × (page_entry offset after t4 q ≡ page_entry offset m4 t4 q)
        × (page_entry_mut offset after t4 q ≡ page_entry_mut offset m4 t4 q)
        × (page_entry offset m4 t4 q ≡ done (ok (slot u1 (level1_idx q))))
        × (after (slot u1 (level1_idx q)) ≡ m4 (slot u1 (level1_idx q)))
  unfolding map_page_unchecked
  map_page_unchecked-page_entry_other q u3 u2 u1 gives on frame f4 f3 f2 r4 r3 r2 l plain offs apart
        off1 apart1 =
      let e4 = enter_level-Entered alloc offset at4 t3 fl m4 m3 a4 a3 gives on f4 r4 in
      let e3 = enter_level-Entered alloc offset at3 t2 fl m3 m2 a3 a2 gives on f3 r3 in
      let e2 = enter_level-Entered alloc offset at2 t1 fl m2 m1 a2 a1 gives on f2 r2 in
      let (word, set, a, f, bound) = set_addr_fields phys fl frame on.0 in
      let even : (phys % page_size == 0) ≡ true = ground (arith, frame.0) in
      let now = Leads-kept e4 e3 e2 word q u3 u2 u1 l offs apart in
      let small = present_kept e4 e3 e2 word (slot u2 (level2_idx q)) offs.2 apart.2 l.present2 in
      let before = page_entry-Leads l plain in
      (
        write m1 at1 word,
        rw (even, r4, r3, r2, set) refl,
        page_entry-Leads now (rw small plain) ∙ sym before,
        page_entry_mut-Leads now ∙ sym (page_entry_mut-Leads l),
        before,
        other_kept e4 e3 e2 word (slot u1 (level1_idx q)) off1 apart1,
      )
