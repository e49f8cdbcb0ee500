-- ===== src/Memory/Paging/Tree/Map.antt =====
-- `map_page_unchecked` of src/memory/paging.rs as an update of a map from pages to entries.
use os_test.Prelude.{
  ℕ, ◌+◌, ◌^◌, ◌≤◌, ◌≡◌, ◌≢◌, refl, sym, ap, ◌∙◌, true, false, ◌⊎◌, inl, inr, ◌<◌, Bool-cases, some,
  List, [], ◌∷◌, length, arith, ◌%◌, ◌==◌,
}
use mathlib.Core.Option.{some-injective}
use os_test.Prelude.Outcome.{done}
use os_test.Memory.Addr.{PhyAddr, VirtAddr}
use os_test.Memory.FrameSource.{PhysicalAllocator}
use os_test.Memory.FrameSource.Supply.{Supply}
use os_test.Memory.Paging.Entry.{
  PageTableEntry, PageTableEntryFlags, page_size, is_present, flags, contains, addr,
}
use os_test.Memory.Paging.Entry.Flag
use os_test.Memory.Paging.Entry.Fields.{ArePresent, IsFrame, set_addr-present, set_addr_fields}
use os_test.Memory.Paging.Page.{Page, canonical_num, level4_idx, level3_idx, level2_idx, level1_idx}
use os_test.Memory.Paging.Page.Index.{level_idx_digits, level_idx_injective}
use os_test.Memory.Paging.Table.{Mem, slot, write, map_page_unchecked}
use os_test.Memory.Paging.Table.Enter.{write_self, write_ne}
use os_test.Memory.Paging.Tree.{
  in_huge_page, mapped, mapping, is_huge, lookup, step, view, indices, Owner, IsTree, onto,
  AreIndices,
}
use os_test.Memory.Paging.Tree.Lookup.{view-lookup}
use os_test.Memory.Paging.Tree.Change.{slot-owned, lookup-owned, lookup-same}
use os_test.Memory.Paging.Tree.Enter.{AreTables, Grown, Grown-trans, enter_level-Grown}

pub indices-AreIndices : (page : Page) → AreIndices (indices page)
indices-AreIndices page =
    let (i4, i3, i2, i1, whole) = level_idx_digits page in (i4, (i3, (i2, (i1, tt))))

-- Pages with other numbers have other indices.
pub indices_ne :
    (p q : Page) → canonical_num q ≢ canonical_num p → ¬ (◌≡◌ {A = List ℕ} (indices q) (indices p))
indices_ne p q ne same =
    let (e4, e3, e2, e1) : (level4_idx q ≡ level4_idx p)
        × (level3_idx q ≡ level3_idx p)
        × (level2_idx q ≡ level2_idx p)
        × (level1_idx q ≡ level1_idx p) =
      ground (arith, same) in
    ne (level_idx_injective q p e4 e3 e2 e1)

-- The write of an entry of the last level.
module _ {offset : ℕ} {Held : PhyAddr → Type 0} {root : VirtAddr} {mem : Mem} {owner : Owner}
    (tree : IsTree offset Held root mem owner) (t1 : VirtAddr) (p1 : List ℕ) (i1 : ℕ)
    (own1 : owner t1 ≡ some p1) (last : length p1 ≡ 3) (small1 : i1 < 512)
    (word : PageTableEntry) where
  abbrev pub written : Mem
  written = write mem (slot t1 i1) word

  upper_kept :
      (t : VirtAddr) (p : List ℕ) (i left : ℕ)
      → owner t ≡ some p
      → i < 512
      → length p + (left + 2) ≡ 4
      → written (slot t i) ≡ mem (slot t i)
  upper_kept t p i left own small sum = write_ne mem (slot t1 i1) (slot t i) word (λ hit.
      let (at, index) = slot-owned tree t t1 p p1 i i1 own own1 small small1 hit in
      let path : p ≡ p1 = some-injective p p1 (sym own ∙ ap owner at ∙ own1) in
      let three : length p ≡ 3 = rw path last in omega (arith, three))

  pub written-IsTree : IsTree offset Held root written owner
  written-IsTree = record {
    top = tree.top;
    only = tree.only;
    frame = tree.frame;
    down = λ t p i left own small sum there plain.
        let kept = upper_kept t p i left own small sum in
        rw kept (tree.down t p i left own small sum (rw kept at there) (rw kept at plain));
    up = λ u p i own.
        let (t, left, own', small, sum, link) = tree.up u p i own in
        (t, left, own', small, sum, rw (upper_kept t p i left own' small sum) link);
  }

  -- A lookup that does not come to the entry.
  pub written-lookup :
      (is : List ℕ)
      → AreIndices is
      → length is ≡ 4
      → ¬ (◌≡◌ {A = List ℕ} is (onto p1 (i1 ∷ [])))
      → lookup offset written root is ≡ lookup offset mem root is
  written-lookup is below four ne =
      lookup-same tree written t1 p1 i1 own1 small1
        (λ t p i own small miss. write_ne mem (slot t1 i1) (slot t i) word miss) is
        (λ js on low sum. absurd (ne (elim-nil js on (omega (arith, last, sum))))) [] is root
        tree.top refl below (omega (arith, four))
    where
      elim-nil : (js : List ℕ) → onto p1 (i1 ∷ js) ≡ is → length js ≡ 0 → is ≡ onto p1 (i1 ∷ [])
      elim-nil [] on none_left = sym on
      elim-nil (j ∷ js) on none_left = absurd (omega (arith, none_left))

  -- The lookup that comes to it.
  pub written-lookup_at : lookup offset written root (onto p1 (i1 ∷ [])) ≡ done (mapping word)
  unfolding lookup step
  written-lookup_at =
      lookup-owned written-IsTree p1 (i1 ∷ []) t1 own1 (omega (arith, last)) (omega arith)
      ∙ rw (write_self mem (slot t1 i1) word) refl

module _ {A : Type 0} {alloc : PhysicalAllocator A} (supply : Supply alloc) (offset : ℕ)
    (root : VirtAddr) where
  -- What mapping a page leaves: tables that are a tree again and say of the page that it has the
  -- frame and the flags, and of every other page what they said before.
  pub record MapsPage (page : Page) (phys : PhyAddr) (fl : PageTableEntryFlags) (mem : Mem) (a : A)
      (owner : Owner) (after : Mem) (b : A) (owner' : Owner) : Type 0 where
    pub tables : AreTables supply offset root after b owner'
    pub word : PageTableEntry
    pub here : view offset after root page ≡ done (mapped word)
    pub address : addr word ≡ phys
    pub kinds : flags word ≡ fl
    pub others :
        (q : Page)
        → canonical_num q ≢ canonical_num page
        → view offset after root q ≡ view offset mem root q
    pub costs : supply.free a ≤ supply.free b + 3
    pub holds : (f : PhyAddr) → supply.Held a f → supply.Held b f
    pub gives_on : (f : PhyAddr) → supply.Given a f → supply.Given b f
    pub news :
        (t : VirtAddr) (p : List ℕ)
        → owner' t ≡ some p
        → (owner t ≡ some p) ⊎ ((f : PhyAddr) × (t ≡ f + offset) × ¬ supply.Held a f)

  -- The entry of level 2 is not one of a huge page where the lookup says so.
  level2_small :
      (mem : Mem) (owner : Owner) (Held : PhyAddr → Type 0) (t2 : VirtAddr) (i4 i3 i2 i1 : ℕ)
      → IsTree offset Held root mem owner
      → owner t2 ≡ some (i3 ∷ i4 ∷ [])
      → ¬ (lookup offset mem root (i4 ∷ i3 ∷ i2 ∷ i1 ∷ []) ≡ done in_huge_page)
      → is_huge 0 (mem (slot t2 i2)) ≡ false
  unfolding lookup step
  level2_small mem owner Held t2 i4 i3 i2 i1 tree own not_huge =
      elim (Bool-cases (is_huge 0 (mem (slot t2 i2)))) [
        | inr small ↦ small
        | inl huge ↦ absurd (
            not_huge (
              lookup-owned tree (i3 ∷ i4 ∷ []) (i2 ∷ i1 ∷ []) t2 own refl (omega arith)
              ∙ rw huge refl))
      ]

  module _ (fits : (0 < offset) × (offset + supply.bound ≤ 2 ^ 64)) (page : Page) (phys : PhyAddr)
      (fl : PageTableEntryFlags) (mem : Mem) (a : A) (owner : Owner) where
    last_level :
        (m1 : Mem) (b : A) (owner1 : Owner) (t1 : VirtAddr) (word : PageTableEntry)
        → Grown supply offset root 3 mem a owner m1 b owner1
        → owner1 t1 ≡ some (level2_idx page ∷ level3_idx page ∷ level4_idx page ∷ [])
        → is_present word ≡ true
        → addr word ≡ phys
        → flags word ≡ fl
        → MapsPage page phys fl mem a owner (write m1 (slot t1 (level1_idx page)) word) b owner1
    last_level m1 b owner1 t1 word g own there at kinds =
        let (i4, i3, i2, i1, whole) = level_idx_digits page in
        let p1 : List ℕ = level2_idx page ∷ level3_idx page ∷ level4_idx page ∷ [] in
        let tree = g.tables.tree in
        record {
          tables = record {
            tree = written-IsTree tree t1 p1 (level1_idx page) own refl i1 word;
            good = g.tables.good;
          };
          word = word;
          here =
              view-lookup offset _ root page
              ∙ written-lookup_at tree t1 p1 (level1_idx page) own refl i1 word
              ∙ rw there refl;
          address = at;
          kinds = kinds;
          others = λ q ne.
              view-lookup offset _ root q
              ∙ written-lookup tree t1 p1 (level1_idx page) own refl i1 word (indices q)
                  (indices-AreIndices q) refl (indices_ne page q ne)
              ∙ g.same (indices q) (indices-AreIndices q) refl
              ∙ sym (view-lookup offset mem root q);
          costs = g.costs;
          holds = g.holds;
          gives_on = g.gives_on;
          news = g.news;
        }

    -- Where the direct map begins above 0 and maps the frames of the allocator, which lie below a
    -- bound of at most 2^52, below 2^64, the tables are a tree in frames that the allocator does
    -- not hand out, three frames are free, the page does not lie in a huge page, the address is
    -- aligned and below 2^52, and the flags make a page present and are not those of a huge page:
    -- `map_page_unchecked` returns. The tables are a tree again, `page_entry` finds for the page an
    -- entry with the address and the flags, and says of every page with another canonical number
    -- what it said before; at most three frames were taken, all that were in use still are, and new
    -- tables lie in frames that were free.
    pub map_page_unchecked-view :
        AreTables supply offset root mem a owner
        → 3 ≤ supply.free a
        → ArePresent fl
        → contains fl Flag.huge_page ≡ false
        → IsFrame phys
        → ¬ (view offset mem root page ≡ done in_huge_page)
        → (after : Mem) × (b : A) × (owner' : Owner) × (map_page_unchecked offset alloc root page
              phys fl
              (mem, a)
            ≡ done (after, b))
          × MapsPage page phys fl mem a owner after b owner'
    unfolding map_page_unchecked
    map_page_unchecked-view tables enough on plain frame not_huge =
        let (i4, i3, i2, i1, whole) = level_idx_digits page in
        let (t3, m3, a3, o3, run4, g3, own3) =
          enter_level-Grown supply offset root fits fl on plain mem a owner tables root []
            (level4_idx page) 2 tables.tree.top i4 refl refl (omega arith) in
        let (t2, m2, a2, o2, run3, g2, own2) =
          enter_level-Grown supply offset root fits fl on plain m3 a3 o3 g3.tables t3
            (level4_idx page ∷ []) (level3_idx page) 1 own3 i3 refl refl
            (omega (arith, g3.costs)) in
        let both : Grown supply offset root 2 mem a owner m2 a2 o2 =
          Grown-trans supply offset root g3 g2 in
        let plain2 : is_huge 0 (m2 (slot t2 (level2_idx page))) ≡ false =
          level2_small m2 o2 (supply.Held a2) t2 (level4_idx page) (level3_idx page)
            (level2_idx page) (level1_idx page) g2.tables.tree own2
            (λ h. not_huge (
              view-lookup offset mem root page
              ∙ sym (both.same (indices page) (indices-AreIndices page) refl)
              ∙ h)) in
        let (t1, m1, a1, o1, run2, g1, own1) =
          enter_level-Grown supply offset root fits fl on plain m2 a2 o2 both.tables t2
            (level3_idx page ∷ level4_idx page ∷ []) (level2_idx page) 0 own2 i2 refl plain2
            (omega (arith, both.costs)) in
        let (word, set, at, kinds, size) = set_addr_fields phys fl frame on.0 in
        let there : is_present word ≡ true = (set_addr-present phys fl word frame.1 on set).0 in
        let even : (phys % page_size == 0) ≡ true = ground (arith, frame.0) in
        (
          write m1 (slot t1 (level1_idx page)) word,
          a1,
          o1,
          rw (even, run4, run3, run2, set) refl,
          last_level m1 a1 o1 t1 word (Grown-trans supply offset root both g1) own1 there at kinds,
        )
