-- ===== src/Memory/Virt/Live/Keep.antt =====
-- Each call of `alloc_pages` and `dealloc_pages` of src/memory/virt.rs keeps the pages that are given
-- out safe.
use native.Mathlib.Decide.{dec_le, dec_lt}
use os_test.Prelude.{
  ℕ, ◌+◌, ◌^◌, ◌≤◌, ◌<◌, ◌≡◌, ◌≢◌, ◌⊎◌, refl, sym, ap, ◌∙◌, inl, inr, true, false, if◌then◌else◌,
  arith,
}
use os_test.Memory.Addr.{VirtAddr}
use os_test.Memory.FrameSource.{PhysicalAllocator}
use os_test.Memory.FrameSource.Supply.{Supply}
use os_test.Memory.Paging.Entry.{PageTableEntry, addr}
use os_test.Memory.Paging.Page.{Page, canonical_num}
use os_test.Memory.Paging.Table.{Mem}
use os_test.Memory.Paging.Table.Enter.{true-false}
use os_test.Memory.Paging.Tree.{unmapped, mapped, Owner}
use os_test.Memory.Virt.{Inner}
use os_test.Memory.Virt.Alloc.{Says, RunBacked}
use os_test.Memory.Virt.Dealloc.{IsOwned, AreOwned, RunFreed}
use os_test.Memory.Virt.Dealloc.Whole.{view_same}
use os_test.Memory.Virt.Live.{Live, in_run, with_run, without_run, IsSafe}

in_run-cases :
    (start count : ℕ) (p : Page)
    → ((in_run start count p ≡ true) × (start ≤ p) × (p < start + count))
      ⊎ (in_run start count p ≡ false) × ¬ ((start ≤ p) × (p < start + count))
in_run-cases start count p = elim (dec_le start p) [
  | no before ↦ inr (ground (arith, before), λ w. before w.0)
  | yes from ↦ elim (dec_lt p (start + count)) [
    | no behind ↦ inr (ground (arith, behind), λ w. behind w.1)
    | yes to ↦ inl (ground (arith, from, to), from, to)
  ]
]

module _ {A : Type 0} {alloc : PhysicalAllocator A} (supply : Supply alloc) (offset : ℕ)
    (root cr3 : VirtAddr) (store_byte : VirtAddr → ℕ → Mem → Mem) where
  -- A page that is mapped is not one that is unmapped.
  mapped_apart :
      (s : Inner A) (p q : Page) (word : PageTableEntry)
      → Says supply offset root cr3 store_byte s p (mapped word)
      → Says supply offset root cr3 store_byte s q unmapped
      → canonical_num p ≢ canonical_num q
  mapped_apart s p q word there absent same =
      ground (arith, sym there ∙ view_same offset s.mem root p q same ∙ absent)

  one_word :
      (s : Inner A) (p q : Page) (word other : PageTableEntry)
      → Says supply offset root cr3 store_byte s p (mapped word)
      → Says supply offset root cr3 store_byte s q (mapped other)
      → canonical_num p ≡ canonical_num q
      → word ≡ other
  one_word s p q word other there here same =
      ground (arith, sym there ∙ view_same offset s.mem root p q same ∙ here)

  -- A run that was unmapped and is backed by frames.
  module _ (start count : ℕ) (s t : Inner A) (live : Live)
      (safe : IsSafe supply offset root cr3 store_byte s live) (owner' : Owner)
      (backs : RunBacked supply offset root cr3 store_byte start count s safe.owner t owner')
      (absent : (p : Page)
        → start ≤ p
        → p < start + count
        → Says supply offset root cr3 store_byte s p unmapped) where
    word : Page → PageTableEntry
    word p = if in_run start count p then backs.word p else safe.word p

    IsOwned-later :
        (p : Page)
        → live p ≡ true
        → IsOwned supply offset root cr3 store_byte t owner' p (safe.word p)
    IsOwned-later p alive =
        let o = safe.owned p alive in
        record {
          here =
              backs.others p
                (λ q from to. mapped_apart s p q (safe.word p) o.here (absent q from to))
              ∙ o.here;
          given = backs.gives_on (addr (safe.word p)) o.given;
          no_table = λ u path own same. elim (backs.news u path own) [
            | inl before ↦ o.no_table u path before same
            | inr (f, lies, unheld) ↦
                let equal : f ≡ addr (safe.word p) = omega (arith, lies, same) in
                unheld
                  (rw equal (supply.Given-Held s.physical_allocator (addr (safe.word p)) o.given))
          ];
        }

    IsOwned-with_run :
        (p : Page)
        → with_run start count live p ≡ true
        → IsOwned supply offset root cr3 store_byte t owner' p (word p)
    unfolding word
    IsOwned-with_run p alive = elim (in_run-cases start count p) [
      | inl (here, from, to) ↦
          let b = backs.backed p from to in
          rw here (record { here = b.here; given = b.given; no_table = b.no_table })
      | inr (elsewhere, away) ↦ rw elsewhere (IsOwned-later p (rw elsewhere at alive))
    ]

    new_old :
        (p q : Page)
        → start ≤ p
        → p < start + count
        → live q ≡ true
        → addr (backs.word p) ≢ addr (safe.word q)
    new_old p q from to alive same = (backs.backed p from to).was_free (
        rw same
          (supply.Given-Held s.physical_allocator (addr (safe.word q)) (safe.owned q alive).given))

    new_new :
        (p q : Page)
        → start ≤ p
        → p < start + count
        → start ≤ q
        → q < start + count
        → p ≢ q
        → addr (backs.word p) ≢ addr (backs.word q)
    new_new p q from to from' to' ne same = elim (dec_lt p q) [
      | yes less ↦ backs.distinct p q from less to' same
      | no more ↦ backs.distinct q p from' (omega (arith, more, ne)) to (sym same)
    ]

    distinct_with_run :
        (p q : Page)
        → with_run start count live p ≡ true
        → with_run start count live q ≡ true
        → p ≢ q
        → addr (word p) ≢ addr (word q)
    unfolding word
    distinct_with_run p q alive_p alive_q ne same = elim (in_run-cases start count p) [
      | inl (in_p, from, to) ↦ elim (in_run-cases start count q) [
        | inl (in_q, from', to') ↦ new_new p q from to from' to' ne (rw (in_p, in_q) at same)
        | inr (out_q, away) ↦ new_old p q from to (rw out_q at alive_q) (rw (in_p, out_q) at same)
      ]
      | inr (out_p, away) ↦ elim (in_run-cases start count q) [
        | inl (in_q, from, to) ↦
            new_old q p from to (rw out_p at alive_p) (sym (rw (out_p, in_q) at same))
        | inr (out_q, away') ↦
            safe.distinct p q (rw out_p at alive_p) (rw out_q at alive_q) ne
              (rw (out_p, out_q) at same)
      ]
    ]

    pub with_run-IsSafe :
        t.last_page_alloc < 2 ^ 52
        → IsSafe supply offset root cr3 store_byte t (with_run start count live)
    with_run-IsSafe small = record {
      owner = owner';
      state = backs.state;
      small = small;
      word = word;
      owned = IsOwned-with_run;
      distinct = distinct_with_run;
    }

  -- A run of pages that were given out is unmapped.
  module _ (start count : ℕ) (s t : Inner A) (live : Live)
      (safe : IsSafe supply offset root cr3 store_byte s live)
      (all_live : (p : Page) → start ≤ p → p < start + count → live p ≡ true) where
    pub run-AreOwned : AreOwned supply offset root cr3 store_byte start count s safe.owner safe.word
    run-AreOwned = record {
      owned = λ p from to. safe.owned p (all_live p from to);
      distinct = λ p q from less to.
          safe.distinct p q (all_live p from (omega arith)) (all_live q (omega arith) to)
            (λ same. omega (arith, same, less));
    }

    module _
        (freed : RunFreed supply offset root cr3 store_byte start count safe.word s t
          safe.owner) where
      IsOwned-without_run :
          (p : Page)
          → without_run start count live p ≡ true
          → IsOwned supply offset root cr3 store_byte t safe.owner p (safe.word p)
      IsOwned-without_run p alive = elim (in_run-cases start count p) [
        | inl (here, from, to) ↦ absurd (true-false alive (rw here refl))
        | inr (elsewhere, away) ↦
            let still : live p ≡ true = rw elsewhere at alive in
            let o = safe.owned p still in
            let ne : (q : Page) → start ≤ q → q < start + count → p ≢ q =
              λ q from to same. away (rw same (from, to)) in
            record {
              here =
                  freed.others p (λ q from to same.
                    safe.distinct p q still (all_live q from to) (ne q from to) (
                      ap addr (
                        one_word s p q (safe.word p) (safe.word q) o.here
                          (safe.owned q (all_live q from to)).here same)))
                  ∙ o.here;
              given =
                  freed.gives_on (addr (safe.word p))
                    (λ q from to. safe.distinct p q still (all_live q from to) (ne q from to))
                    o.given;
              no_table = o.no_table;
            }
      ]

      still_live : (p : Page) → without_run start count live p ≡ true → live p ≡ true
      still_live p alive = elim (in_run-cases start count p) [
        | inl (here, from, to) ↦ absurd (true-false alive (rw here refl))
        | inr (elsewhere, away) ↦ rw elsewhere at alive
      ]

      pub without_run-IsSafe :
          IsSafe supply offset root cr3 store_byte t (without_run start count live)
      without_run-IsSafe = record {
        owner = safe.owner;
        state = freed.state;
        small = rw freed.last safe.small;
        word = safe.word;
        owned = IsOwned-without_run;
        distinct =
            λ p q alive_p alive_q. safe.distinct p q (still_live p alive_p) (still_live q alive_q);
      }
