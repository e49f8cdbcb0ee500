-- ===== src/Memory/Paging/Tree/Answer.antt =====
-- `PageTable::is_present` of src/memory/paging.rs answers for every page, in a tree of tables.
use os_test.Prelude.{
  ℕ, ◌+◌, ◌≡◌, refl, ◌∙◌, Bool, true, false, inl, inr, Bool-cases, some, List, [], ◌∷◌, length,
  arith,
}
use os_test.Prelude.Outcome.{Outcome, done, panic, Outcome-cases}
use os_test.Prelude.Result.{Result, ok, err}
use os_test.Memory.Addr.{PhyAddr, VirtAddr}
use os_test.Memory.Paging.Entry.{is_present}
use os_test.Memory.Paging.Page.{Page}
use os_test.Memory.Paging.Table.{
  Mem, slot, page_entry, page_is_present, PageEntryError, huge_page,
  page_table_level_is_not_present,
}
use os_test.Memory.Paging.Tree.{
  Mapping, unmapped, in_huge_page, mapped, mapping, answered, is_huge, lookup, step, view, indices,
  Owner, IsTree, AreIndices,
}
use os_test.Memory.Paging.Tree.Lookup.{view-lookup}
use os_test.Memory.Paging.Tree.Map.{indices-AreIndices}

-- Is a page taken, by an entry or by a huge page?
abbrev pub is_taken : Mapping → Bool
is_taken unmapped = false
is_taken in_huge_page = true
is_taken (mapped entry) = true

abbrev pub takes : Outcome Mapping → Bool
takes (done m) = is_taken m
takes panic = false

present-taken :
    (mem : Mem) (r : Result VirtAddr PageEntryError)
    → (elim r [
      | ok entry ↦ done (is_present (mem entry))
      | err e ↦ elim e [
        | huge_page ↦ done true
        | page_table_level_is_not_present level ↦ done false
      ]
    ])
      ≡ done (is_taken (answered mem r))
present-taken mem (ok entry) = ground arith
present-taken mem (err huge_page) = refl
present-taken mem (err (page_table_level_is_not_present level)) = refl

module _ {offset : ℕ} {Held : PhyAddr → Type 0} {root : VirtAddr} {mem : Mem} {owner : Owner}
    (tree : IsTree offset Held root mem owner) where
  lookup-done :
      (p is : List ℕ) (t : VirtAddr)
      → owner t ≡ some p
      → AreIndices is
      → length p + length is ≡ 4
      → (m : Mapping) × (lookup offset mem t is ≡ done m)
  unfolding lookup step
  lookup-done p [] t own below sum = (unmapped, refl)
  lookup-done p (i ∷ []) t own below sum = (mapping (mem (slot t i)), refl)
  lookup-done p (i ∷ j ∷ js) t own (small, below) sum =
      elim (Bool-cases (is_huge (length js) (mem (slot t i)))) [
        | inl huge ↦ (in_huge_page, rw huge refl)
        | inr plain ↦ elim (Bool-cases (is_present (mem (slot t i)))) [
          | inr absent ↦ (unmapped, rw (plain, absent) refl)
          | inl there ↦
              let (u, leads, owned) =
                tree.down t p i (length js) own small (omega arith) there plain in
              let (m, found) = lookup-done (i ∷ p) (j ∷ js) u owned below (omega arith) in
              (m, rw (plain, there, leads) found)
        ]
      ]

  pub view-done : (page : Page) → (m : Mapping) × (view offset mem root page ≡ done m)
  view-done page =
      let (m, found) = lookup-done [] (indices page) root tree.top (indices-AreIndices page) refl in
      (m, view-lookup offset mem root page ∙ found)

  -- In a tree of tables `is_present` answers for every page, and by what `page_entry` says of it.
  pub page_is_present-takes :
      (page : Page)
      → page_is_present offset mem root page ≡ done (takes (view offset mem root page))
  unfolding page_is_present view
  page_is_present-takes page = elim (Outcome-cases (page_entry offset mem root page)) [
    | inl (r, answer) ↦ rw answer (present-taken mem r)
    | inr panics ↦ let (m, found) = view-done page in absurd (ground (arith, rw panics at found))
  ]
