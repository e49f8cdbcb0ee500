-- ===== src/Memory/Paging/Tree/Grow.antt =====
-- A table that `map_page_unchecked` of src/memory/paging.rs adds to the tree.
use native.Mathlib.Decide.{ℕ_discrete}
use os_test.Prelude.{
  ℕ, zero, suc, ◌+◌, ◌≡◌, ◌≢◌, refl, sym, ap, ◌∙◌, true, false, ◌<◌, Option, some, List, [], ◌∷◌,
  length, arith, ◌%◌, if◌then◌else◌, ◌==◌,
}
use mathlib.Core.Option.{some-injective}
use os_test.Prelude.Outcome.{done}
use os_test.Memory.Addr.{PhyAddr, VirtAddr}
use os_test.Memory.Paging.Entry.{is_present, flags, empty}
use os_test.Memory.Paging.Table.{Mem, slot, as_page_table_mut}
use os_test.Memory.Paging.Table.Enter.{InTable, true-false}
use os_test.Memory.Paging.Tree.{
  unmapped, is_huge, lookup, step, Owner, IsTree, Link, onto, AreIndices,
}
use os_test.Memory.Paging.Tree.Change.{slot-owned, lookup-same}

-- The table `u` in the frame `f`, that is cleared, and that the entry `i0` of the table `t0`, which
-- was not present, leads to.
pub record Planted (offset : ℕ) (Held Held' : PhyAddr → Type 0) (mem : Mem) (owner : Owner)
    (mem' : Mem) (t0 : VirtAddr) (p0 : List ℕ) (i0 left : ℕ) (f : PhyAddr) (u : VirtAddr)
    : Type 0 where
  pub own0 : owner t0 ≡ some p0
  pub small0 : i0 < 512
  pub depth : length p0 + (left + 2) ≡ 4
  pub absent : is_present (mem (slot t0 i0)) ≡ false
  pub place : u ≡ f + offset
  pub whole : f % 4096 ≡ 0
  pub unheld : ¬ Held f
  pub held : Held' f
  pub more : (g : PhyAddr) → Held g → Held' g
  pub link : Link offset left (mem' (slot t0 i0)) u
  pub clear : (i : ℕ) → i < 512 → mem' (slot u i) ≡ empty
  pub outside : (x : VirtAddr) → x ≢ slot t0 i0 → ¬ InTable u x → mem' x ≡ mem x

module _ {offset : ℕ} {Held Held' : PhyAddr → Type 0} {root : VirtAddr} {mem : Mem} {owner : Owner}
    (tree : IsTree offset Held root mem owner) {mem' : Mem} {t0 : VirtAddr} {p0 : List ℕ}
    {i0 left : ℕ} {f : PhyAddr} {u : VirtAddr}
    (new : Planted offset Held Held' mem owner mem' t0 p0 i0 left f u) where
  abbrev pub grown : Owner
  grown t = if t == u then some (i0 ∷ p0) else owner t

  pub grown_self : grown u ≡ some (i0 ∷ p0)
  grown_self = ground arith

  pub grown_ne : (t : VirtAddr) → t ≢ u → grown t ≡ owner t
  grown_ne t ne = ground (arith, ne)

  unowned : (p : List ℕ) → ¬ (owner u ≡ some p)
  unowned p own =
      let (g, lies, even, in_use) = tree.frame u p own in
      let same : g ≡ f = omega (arith, new.place, lies) in new.unheld (rw same at in_use)

  old : (t : VirtAddr) (p : List ℕ) → owner t ≡ some p → t ≢ u
  old t p own same = unowned p (rw same at own)

  apart : (t : VirtAddr) (p : List ℕ) (i : ℕ) → owner t ≡ some p → i < 512 → ¬ InTable u (slot t i)
  apart t p i own small (from, to) =
      let (g, lies, even, in_use) = tree.frame t p own in
      let same : g ≡ f = omega (arith, from, to, new.whole, even, new.place, lies, small) in
      new.unheld (rw same at in_use)

  kept :
      (t : VirtAddr) (p : List ℕ) (i : ℕ)
      → owner t ≡ some p
      → i < 512
      → slot t i ≢ slot t0 i0
      → mem' (slot t i) ≡ mem (slot t i)
  kept t p i own small ne = new.outside (slot t i) ne (apart t p i own small)

  empty-absent : (i : ℕ) → i < 512 → is_present (mem' (slot u i)) ≡ false
  unfolding is_present
  empty-absent i small = rw (new.clear i small) refl

  empty-small : (i n : ℕ) → i < 512 → is_huge n (mem' (slot u i)) ≡ false
  unfolding flags
  empty-small i zero small = rw (new.clear i small) refl
  empty-small i (suc n) small = refl

  pub grows : (t : VirtAddr) (p : List ℕ) → owner t ≡ some p → grown t ≡ some p
  grows t p own = grown_ne t (old t p own) ∙ own

  grown-frame :
      (t : VirtAddr) (p : List ℕ)
      → grown t ≡ some p
      → (g : PhyAddr) × (t ≡ g + offset) × (g % 4096 ≡ 0) × Held' g
  grown-frame t p own = elim (ℕ_discrete t u) [
    | yes same ↦ (f, same ∙ new.place, new.whole, new.held)
    | no ne ↦
        let (g, lies, even, in_use) = tree.frame t p (sym (grown_ne t ne) ∙ own) in
        (g, lies, even, new.more g in_use)
  ]

  grown-down :
      (t : VirtAddr) (p : List ℕ) (i n : ℕ)
      → grown t ≡ some p
      → i < 512
      → length p + (n + 2) ≡ 4
      → is_present (mem' (slot t i)) ≡ true
      → is_huge n (mem' (slot t i)) ≡ false
      → (v : VirtAddr) × (as_page_table_mut offset (mem' (slot t i)) ≡ done v)
        × (grown v ≡ some (i ∷ p))
  grown-down t p i n own small sum there plain = elim (ℕ_discrete t u) [
    | yes same ↦ absurd (true-false there (rw same (empty-absent i small)))
    | no ne ↦
        let own' : owner t ≡ some p = sym (grown_ne t ne) ∙ own in
        elim (ℕ_discrete (slot t i) (slot t0 i0)) [
          | yes hit ↦
              let (here, index) =
                slot-owned tree t t0 p p0 i i0 own' new.own0 small new.small0 hit in
              let path : p ≡ p0 = some-injective p p0 (sym own' ∙ ap owner here ∙ new.own0) in
              (u, rw (here, index) new.link.leads, rw (index, path) grown_self)
          | no miss ↦
              let kept' = kept t p i own' small miss in
              let (v, leads, owned) =
                tree.down t p i n own' small sum (rw kept' at there) (rw kept' at plain) in
              (v, rw kept' leads, grows v (i ∷ p) owned)
        ]
  ]

  grown-up :
      (v : VirtAddr) (p : List ℕ) (i : ℕ)
      → grown v ≡ some (i ∷ p)
      → (t : VirtAddr) × (n : ℕ) × (grown t ≡ some p)
        × (i < 512)
        × (length p + (n + 2) ≡ 4)
        × Link offset n (mem' (slot t i)) v
  grown-up v p i own = elim (ℕ_discrete v u) [
    | yes same ↦
        let lists : ◌≡◌ {A = Option (List ℕ)} (some (i0 ∷ p0)) (some (i ∷ p)) =
          sym grown_self ∙ ap grown (sym same) ∙ own in
        let (head, tail) : (i0 ≡ i) × (p0 ≡ p) = ground (arith, lists) in
        rw (← head, ← tail, same) (t0, left, grows t0 p0 new.own0, new.small0, new.depth, new.link)
    | no ne ↦
        let (t, n, own', small, sum, l) = tree.up v p i (sym (grown_ne v ne) ∙ own) in
        let miss : slot t i ≢ slot t0 i0 = λ hit. true-false l.present (rw hit new.absent) in
        (t, n, grows t p own', small, sum, rw (kept t p i own' small miss) l)
  ]

  -- The tables with the new one are a tree.
  pub grown-IsTree : IsTree offset Held' root mem' grown
  grown-IsTree = record {
    top = grows root [] tree.top;
    only = λ t own. elim (ℕ_discrete t u) [
      | yes same ↦ absurd (ground (arith, sym grown_self ∙ ap grown (sym same) ∙ own))
      | no ne ↦ tree.only t (sym (grown_ne t ne) ∙ own)
    ];
    frame = grown-frame;
    down = grown-down;
    up = grown-up;
  }

  lookup-new :
      (is : List ℕ) → AreIndices is → 0 < length is → lookup offset mem' u is ≡ done unmapped
  unfolding lookup step
  lookup-new [] below pos = refl
  lookup-new (i ∷ []) (small, below) pos = rw (empty-absent i small) refl
  lookup-new (i ∷ j ∷ js) (small, below) pos =
      rw (empty-small i (length js) small, empty-absent i small) refl

  -- Every lookup from the root gives what it gave before.
  pub grown-lookup :
      (is : List ℕ)
      → AreIndices is
      → length is ≡ 4
      → is_huge left (mem (slot t0 i0)) ≡ false
      → lookup offset mem' root is ≡ lookup offset mem root is
  unfolding lookup step
  grown-lookup is below four plain =
      lookup-same tree mem' t0 p0 i0 new.own0 new.small0 kept is through [] is root tree.top refl
        below (omega (arith, four))
    where
      through :
          (js : List ℕ)
          → onto p0 (i0 ∷ js) ≡ is
          → AreIndices js
          → length p0 + suc (length js) ≡ 4
          → lookup offset mem' t0 (i0 ∷ js) ≡ lookup offset mem t0 (i0 ∷ js)
      through [] on low sum = absurd (omega (arith, new.depth, sum))
      through (j ∷ js) on low sum =
          let same : length js ≡ left = omega arith in
          rw (same, new.link.small, new.link.present, new.link.leads, plain, new.absent)
            (lookup-new (j ∷ js) low (omega arith))
