-- ===== src/Memory/Paging/Tree/Enter.antt =====
-- One level of `map_page_unchecked` of src/memory/paging.rs, in the tree of tables.
use native.Mathlib.Decide.{ℕ_discrete}
use os_test.Prelude.{
  ℕ, zero, suc, ◌+◌, ◌^◌, ◌≤◌, ◌≡◌, refl, sym, ◌∙◌, true, false, ◌⊎◌, inl, inr, ◌<◌, Bool-cases,
  some, List, ◌∷◌, length, arith, ◌%◌,
}
use os_test.Prelude.Outcome.{done}
use os_test.Memory.Addr.{PhyAddr, VirtAddr, as_virtual}
use os_test.Memory.FrameSource.{PhysicalAllocator}
use os_test.Memory.FrameSource.Supply.{Supply}
use os_test.Memory.Paging.Entry.{PageTableEntryFlags, is_present, flags, contains}
use os_test.Memory.Paging.Entry.Flag
use os_test.Memory.Paging.Entry.Fields.{ArePresent, set_addr-present, set_addr_fields}
use os_test.Memory.Paging.Table.{
  Mem, slot, write, clear_all_entries, as_page_table_mut, as_pointer, enter_level,
}
use os_test.Memory.Paging.Table.Enter.{
  InTable, clear_all_entries-entry, clear_all_entries-outside, write_self, write_ne,
}
use os_test.Memory.Paging.Tree.{is_huge, lookup, Owner, IsTree, AreIndices}
use os_test.Memory.Paging.Tree.Grow.{
  Planted, grown, grown_ne, grown_self, grows, grown-IsTree, grown-lookup,
}

module _ {A : Type 0} {alloc : PhysicalAllocator A} (supply : Supply alloc) (offset : ℕ)
    (root : VirtAddr) where
  -- The tables are a tree in frames that the allocator has given.
  pub record AreTables (mem : Mem) (a : A) (owner : Owner) : Type 0 where
    pub tree : IsTree offset (supply.Held a) root mem owner
    pub good : supply.IsGood a

  -- What the work for one level, or for several, leaves: a tree with more tables, the same lookups,
  -- and at most `cost` frames less.
  pub record Grown (cost : ℕ) (mem : Mem) (a : A) (owner : Owner) (mem' : Mem) (a' : A)
      (owner' : Owner) : Type 0 where
    pub tables : AreTables mem' a' owner'
    pub grows : (t : VirtAddr) (p : List ℕ) → owner t ≡ some p → owner' t ≡ some p
    pub same :
        (is : List ℕ)
        → AreIndices is
        → length is ≡ 4
        → lookup offset mem' root is ≡ lookup offset mem root is
    pub costs : supply.free a ≤ supply.free a' + cost
    pub holds : (f : PhyAddr) → supply.Held a f → supply.Held a' f
    pub gives_on : (f : PhyAddr) → supply.Given a f → supply.Given a' f
    pub news :
        (t : VirtAddr) (p : List ℕ)
        → owner' t ≡ some p
        → (owner t ≡ some p) ⊎ ((f : PhyAddr) × (t ≡ f + offset) × ¬ supply.Held a f)

  pub Grown-trans :
      {c d : ℕ} {mem mem' mem'' : Mem} {a a' a'' : A} {owner owner' owner'' : Owner}
      → Grown c mem a owner mem' a' owner'
      → Grown d mem' a' owner' mem'' a'' owner''
      → Grown (c + d) mem a owner mem'' a'' owner''
  Grown-trans g h = record {
    tables = h.tables;
    grows = λ t p own. h.grows t p (g.grows t p own);
    same = λ is below four. h.same is below four ∙ g.same is below four;
    costs = omega (arith, g.costs, h.costs);
    holds = λ f held. h.holds f (g.holds f held);
    gives_on = λ f given. h.gives_on f (g.gives_on f given);
    news = λ t p own. elim (h.news t p own) [
      | inl own' ↦ g.news t p own'
      | inr (f, lies, unheld) ↦ inr (f, lies, λ held. unheld (g.holds f held))
    ];
  }

  pub Grown-refl :
      {mem : Mem} {a : A} {owner : Owner} (c : ℕ)
      → AreTables mem a owner
      → Grown c mem a owner mem a owner
  Grown-refl c tables = record {
    tables = tables;
    grows = λ t p own. own;
    same = λ is below four. refl;
    costs = omega arith;
    holds = λ f held. held;
    gives_on = λ f given. given;
    news = λ t p own. inl own;
  }

  plain-is_huge :
      (left : ℕ) (word fl : ℕ)
      → flags word ≡ fl
      → contains fl Flag.huge_page ≡ false
      → is_huge left word ≡ false
  plain-is_huge zero word fl f plain = rw f plain
  plain-is_huge (suc left) word fl f plain = refl

  module _ (fits : (0 < offset) × (offset + supply.bound ≤ 2 ^ 64)) (fl : PageTableEntryFlags)
      (on : ArePresent fl) (plain : contains fl Flag.huge_page ≡ false) (mem : Mem) (a : A)
      (owner : Owner) (tables : AreTables mem a owner) (t0 : VirtAddr) (p0 : List ℕ) (i0 left : ℕ)
      (own0 : owner t0 ≡ some p0) (small0 : i0 < 512) (depth : length p0 + (left + 2) ≡ 4)
      (met : is_huge left (mem (slot t0 i0)) ≡ false) where
    abbrev at0 : VirtAddr
    at0 = slot t0 i0

    -- What entering the table behind an entry gives.
    abbrev pub Entering : Type 0
    Entering =
        (u : VirtAddr) × (mem' : Mem) × (a' : A) × (owner' : Owner) × (enter_level offset alloc at0
            fl (mem, a)
          ≡ done (u, mem', a'))
        × Grown 1 mem a owner mem' a' owner'
        × (owner' u ≡ some (i0 ∷ p0))

    enter-present : is_present (mem at0) ≡ true → Entering
    unfolding enter_level
    enter-present there =
        let (u, leads, owned) = tables.tree.down t0 p0 i0 left own0 small0 depth there met in
        (u, mem, a, owner, rw (there, leads) refl, Grown-refl 1 tables, owned)

    own_frame_apart : (f : PhyAddr) → f % 4096 ≡ 0 → ¬ supply.Held a f → ¬ InTable (f + offset) at0
    own_frame_apart f whole unheld (from, to) =
        let (g, lies, even, in_use) = tables.tree.frame t0 p0 own0 in
        let same : g ≡ f = omega (arith, from, to, whole, even, lies, small0) in
        unheld (rw same at in_use)

    enter-absent : is_present (mem at0) ≡ false → 0 < supply.free a → Entering
    unfolding enter_level as_page_table_mut as_pointer as_virtual
    enter-absent absent left_over =
        let (b, f, given, good, one, whole, below, unheld, handed, more, more_given) =
          supply.gives a tables.good left_over in
        let bound : f < 2 ^ 52 = omega (arith, below, supply.small_bound) in
        let (word, set, at, kinds, size) = set_addr_fields f fl (whole, bound) on.0 in
        let (there, _, _) = set_addr-present f fl word bound on set in
        let leads : as_page_table_mut offset word ≡ done (f + offset) =
          ground (arith, at, fits, below) in
        let u = f + offset in
        let away = own_frame_apart f whole unheld in
        let mid : Mem = write mem at0 word in
        let made : Mem = clear_all_entries u mid in
        let stays : made at0 ≡ word =
          clear_all_entries-outside u at0 mid away ∙ write_self mem at0 word in
        let new : Planted offset (supply.Held a) (supply.Held b) mem owner made t0 p0 i0 left f u =
          record {
            own0 = own0;
            small0 = small0;
            depth = depth;
            absent = absent;
            place = refl;
            whole = whole;
            unheld = unheld;
            held = supply.Given-Held b f handed;
            more = more;
            link = rw stays (record {
              present = there;
              small = plain-is_huge left word fl kinds plain;
              leads = leads;
            });
            clear = clear_all_entries-entry u mid;
            outside =
                λ x ne out. clear_all_entries-outside u x mid out ∙ write_ne mem at0 x word ne;
          } in
        (
          u,
          made,
          b,
          grown tables.tree new,
          rw (absent, given, set, leads, stays, leads) refl,
          record {
            tables = record { tree = grown-IsTree tables.tree new; good = good };
            grows = grows tables.tree new;
            same = λ is below four. grown-lookup tables.tree new is below four met;
            costs = omega (arith, one);
            holds = more;
            gives_on = more_given;
            news = λ t p own. elim (ℕ_discrete t u) [
              | yes same ↦ inr (f, same, unheld)
              | no ne ↦ inl (sym (grown_ne tables.tree new t ne) ∙ own)
            ];
          },
          grown_self tables.tree new,
        )

    -- A level is entered where a frame is left, and the tables stay a tree.
    pub enter_level-Grown : 0 < supply.free a → Entering
    enter_level-Grown left_over = elim (Bool-cases (is_present (mem at0))) [
      | inl there ↦ enter-present there
      | inr absent ↦ enter-absent absent left_over
    ]
