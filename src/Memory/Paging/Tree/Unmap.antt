-- ===== src/Memory/Paging/Tree/Unmap.antt =====
-- The entry of a mapped page, as `page_entry_mut` of src/memory/paging.rs finds it, and what the
-- tables say once it is cleared.
use os_test.Prelude.{
  ℕ, ◌+◌, ◌≡◌, ◌≢◌, refl, sym, ◌∙◌, inl, inr, ◌<◌, Bool-cases, some, List, [], ◌∷◌, length, arith,
}
use os_test.Prelude.Outcome.{done}
use os_test.Memory.Addr.{PhyAddr, VirtAddr}
use os_test.Memory.Paging.Entry.{PageTableEntry, is_present, empty}
use os_test.Memory.Paging.Page.{Page, canonical_num, level4_idx, level3_idx, level2_idx, level1_idx}
use os_test.Memory.Paging.Page.Index.{level_idx_digits}
use os_test.Memory.Paging.Table.{Mem, slot, write, page_entry_mut}
use os_test.Memory.Paging.Table.Map.{page_entry_mut-Leads}
use os_test.Memory.Paging.Tree.{
  unmapped, mapped, is_huge, lookup, step, view, indices, Owner, IsTree, Link,
}
use os_test.Memory.Paging.Tree.Lookup.{view-lookup}
use os_test.Memory.Paging.Tree.Map.{
  indices-AreIndices, indices_ne, written-IsTree, written-lookup, written-lookup_at,
}

module _ {offset : ℕ} {Held : PhyAddr → Type 0} {root : VirtAddr} {mem : Mem} {owner : Owner}
    (tree : IsTree offset Held root mem owner) where
  -- A lookup that finds an entry goes through a link.
  mapped-Link :
      (p : List ℕ) (t : VirtAddr) (i j : ℕ) (js : List ℕ) (word : PageTableEntry)
      → owner t ≡ some p
      → i < 512
      → length p + (length js + 2) ≡ 4
      → lookup offset mem t (i ∷ j ∷ js) ≡ done (mapped word)
      → (u : VirtAddr) × Link offset (length js) (mem (slot t i)) u
        × (owner u ≡ some (i ∷ p))
        × (lookup offset mem u (j ∷ js) ≡ done (mapped word))
  unfolding lookup step
  mapped-Link p t i j js word own small sum found =
      elim (Bool-cases (is_huge (length js) (mem (slot t i)))) [
        | inl huge ↦ absurd (ground (arith, rw huge at found))
        | inr plain ↦ elim (Bool-cases (is_present (mem (slot t i)))) [
          | inr absent ↦ absurd (ground (arith, rw (plain, absent) at found))
          | inl there ↦
              let (u, leads, owned) = tree.down t p i (length js) own small sum there plain in
              (
                u,
                record { present = there; small = plain; leads = leads },
                owned,
                rw (plain, there, leads) at found,
              )
        ]
      ]

  last-mapped :
      (t : VirtAddr) (i : ℕ) (word : PageTableEntry)
      → lookup offset mem t (i ∷ []) ≡ done (mapped word)
      → mem (slot t i) ≡ word
  unfolding lookup step
  last-mapped t i word found = ground (arith, found)

  abbrev pub path : Page → List ℕ
  path page = level2_idx page ∷ level3_idx page ∷ level4_idx page ∷ []

  -- `page_entry_mut` finds the entry that `page_entry` finds.
  pub page_entry_mut-mapped :
      (page : Page) (word : PageTableEntry)
      → view offset mem root page ≡ done (mapped word)
      → (t1 : VirtAddr) × (owner t1 ≡ some (path page))
        × (page_entry_mut offset mem root page ≡ done (some (slot t1 (level1_idx page))))
        × (mem (slot t1 (level1_idx page)) ≡ word)
  page_entry_mut-mapped page word found =
      let (i4, i3, i2, i1, whole) = level_idx_digits page in
      let (t3, l4, own3, found3) =
        mapped-Link [] root (level4_idx page) (level3_idx page)
          (level2_idx page ∷ level1_idx page ∷ []) word tree.top i4 refl
          (sym (view-lookup offset mem root page) ∙ found) in
      let (t2, l3, own2, found2) =
        mapped-Link (level4_idx page ∷ []) t3 (level3_idx page) (level2_idx page)
          (level1_idx page ∷ []) word own3 i3 refl found3 in
      let (t1, l2, own1, found1) =
        mapped-Link (level3_idx page ∷ level4_idx page ∷ []) t2 (level2_idx page) (level1_idx page)
          [] word own2 i2 refl found2 in
      (
        t1,
        own1,
        page_entry_mut-Leads (record {
          present4 = l4.present;
          present3 = l3.present;
          present2 = l2.present;
          leads4 = l4.leads;
          leads3 = l3.leads;
          leads2 = l2.leads;
        }),
        last-mapped t1 (level1_idx page) word found1,
      )

  -- Once the entry is cleared the page is unmapped, and nothing changed for other pages.
  module _ (page : Page) (t1 : VirtAddr) (own1 : owner t1 ≡ some (path page)) where
    abbrev cleared : Mem
    cleared = write mem (slot t1 (level1_idx page)) empty

    pub cleared-IsTree : IsTree offset Held root cleared owner
    cleared-IsTree =
        written-IsTree tree t1 (path page) (level1_idx page) own1 refl (level_idx_digits page).3
          empty

    pub view-cleared : view offset cleared root page ≡ done unmapped
    unfolding is_present
    view-cleared =
        view-lookup offset cleared root page
        ∙ written-lookup_at tree t1 (path page) (level1_idx page) own1 refl
            (level_idx_digits page).3 empty

    pub view-cleared_ne :
        (q : Page)
        → canonical_num q ≢ canonical_num page
        → view offset cleared root q ≡ view offset mem root q
    view-cleared_ne q ne =
        view-lookup offset cleared root q
        ∙ written-lookup tree t1 (path page) (level1_idx page) own1 refl (level_idx_digits page).3
            empty (indices q) (indices-AreIndices q) refl (indices_ne page q ne)
        ∙ sym (view-lookup offset mem root q)
