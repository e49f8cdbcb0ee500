-- ===== src/Memory/Paging/Tree.antt =====
-- The page tables of src/memory/paging.rs as a tree of tables, and what the tables say of a page:
-- the map from pages to entries that `map_page` and `unmap_page` of src/memory/virt.rs change.
pub mod Lookup
pub mod Unmap
pub mod Answer
pub mod Map
pub mod Enter
pub mod Grow
pub mod Change
use os_test.Prelude.{
  ℕ, zero, suc, ◌+◌, ◌%◌, ◌<◌, ◌≡◌, Bool, true, false, Option, some, List, [], ◌∷◌, length,
  if◌then◌else◌,
}
use os_test.Prelude.Outcome.{Outcome, done, ◌>>=◌}
use os_test.Prelude.Result.{Result, ok, err}
use os_test.Memory.Addr.{PhyAddr, VirtAddr}
use os_test.Memory.Paging.Entry.{PageTableEntry, contains, flags, is_present}
use os_test.Memory.Paging.Entry.Flag
use os_test.Memory.Paging.Page.{Page, level4_idx, level3_idx, level2_idx, level1_idx}
use os_test.Memory.Paging.Table.{
  Mem, slot, as_page_table_mut, page_entry, PageEntryError, huge_page,
  page_table_level_is_not_present,
}

-- What the tables say of a page.
pub data Mapping : Type 0 where
  unmapped : Mapping
  in_huge_page : Mapping
  mapped : (entry : PageTableEntry) → Mapping

abbrev pub mapping : PageTableEntry → Mapping
mapping entry = if is_present entry then mapped entry else unmapped

-- The answer of `page_entry` for a page.
abbrev pub answered : Mem → Result VirtAddr PageEntryError → Mapping
answered mem (ok entry) = mapping (mem entry)
answered mem (err huge_page) = in_huge_page
answered mem (err (page_table_level_is_not_present level)) = unmapped

-- The entry of the second last level may be that of a huge page, as at no other level; `left` counts
-- the levels between the entry and the second last one.
abbrev pub is_huge : (left : ℕ) → PageTableEntry → Bool
is_huge zero entry = contains (flags entry) Flag.huge_page
is_huge (suc left) entry = false

-- The indices of a page, from the root on.
abbrev pub indices : Page → List ℕ
indices page = level4_idx page ∷ level3_idx page ∷ level2_idx page ∷ level1_idx page ∷ []

abbrev pub AreIndices : List ℕ → Type 0
AreIndices [] = Unit
AreIndices (i ∷ is) = (i < 512) × AreIndices is

-- The first list, turned around, before the second.
abbrev pub onto : List ℕ → List ℕ → List ℕ
onto [] is = is
onto (i ∷ p) is = onto p (i ∷ is)

module _ (offset : ℕ) where
  unfoldable pub view : Mem → VirtAddr → Page → Outcome Mapping
  unfolding page_entry
  view mem table page = do r ← page_entry offset mem table page; done (answered mem r)

  -- One entry, with `is` as the indices after it and `next` as the lookup in the next table.
  pub step : List ℕ → PageTableEntry → (VirtAddr → Outcome Mapping) → Outcome Mapping
  step [] entry next = done (mapping entry)
  step (j ∷ js) entry next =
      if is_huge (length js) entry
      then done in_huge_page
      else if is_present entry
      then as_page_table_mut offset entry >>= next
      else done unmapped

  -- A lookup along a list of indices, down a tree of any depth.
  pub lookup : Mem → VirtAddr → List ℕ → Outcome Mapping
  lookup mem table [] = done unmapped
  lookup mem table (i ∷ is) = step is (mem (slot table i)) (λ t. lookup mem t is)

-- For each table the indices on its way from the root, the last one first.
abbrev pub Owner : Type 0
Owner = VirtAddr → Option (List ℕ)

-- An entry that leads to a table.
pub record Link (offset : ℕ) (left : ℕ) (entry : PageTableEntry) (table : VirtAddr) : Type 0 where
  pub present : is_present entry ≡ true
  pub small : is_huge left entry ≡ false
  pub leads : as_page_table_mut offset entry ≡ done table

-- The tables that are owned form a tree below `root`: each lies in a frame that is held, each
-- entry of an upper level leads to the table that has the indices of the entry, and each table but
-- the root is led to.
pub record IsTree (offset : ℕ) (Held : PhyAddr → Type 0) (root : VirtAddr) (mem : Mem)
    (owner : Owner) : Type 0 where
  pub top : owner root ≡ some []
  pub only : (t : VirtAddr) → owner t ≡ some [] → t ≡ root
  pub frame :
      (t : VirtAddr) (p : List ℕ)
      → owner t ≡ some p
      → (f : PhyAddr) × (t ≡ f + offset) × (f % 4096 ≡ 0) × Held f
  pub down :
      (t : VirtAddr) (p : List ℕ) (i left : ℕ)
      → owner t ≡ some p
      → i < 512
      → length p + (left + 2) ≡ 4
      → is_present (mem (slot t i)) ≡ true
      → is_huge left (mem (slot t i)) ≡ false
      → (u : VirtAddr) × (as_page_table_mut offset (mem (slot t i)) ≡ done u)
        × (owner u ≡ some (i ∷ p))
  pub up :
      (u : VirtAddr) (p : List ℕ) (i : ℕ)
      → owner u ≡ some (i ∷ p)
      → (t : VirtAddr) × (left : ℕ) × (owner t ≡ some p)
        × (i < 512)
        × (length p + (left + 2) ≡ 4)
        × Link offset left (mem (slot t i)) u
