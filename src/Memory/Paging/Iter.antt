-- ===== src/Memory/Paging/Iter.antt =====
-- `PageIter` of src/memory/paging.rs: the pages from `start` to `end`, both included.
use mathlib.Core.Path.{fun_ext}
use os_test.Prelude.{
  refl, inl, inr, ap, ℕ, zero, suc, ◌+◌, ◌%◌, ◌^◌, ◌≤◌, ◌<◌, ◌≡◌, Option, none, some, List, [], ◌∷◌,
  arith, leb, if◌then◌else◌, le→leb, lt→ltb,
}
use os_test.Prelude.Outcome.{Outcome, done, panic, ◌>>=◌, unwrap, Outcome-cases}
use os_test.Memory.Paging.Page
use os_test.Memory.Paging.Page.{Page}
use os_test.Memory.Paging.Page.Index.{next_by_lem}

pub record PageIter : Type 0 where
  pub start : Page
  pub end : Page

-- `next`: the page that is handed out, and the iterator after it. It panics where the page that
-- follows has no number below the bound, also when that page would not be asked for.
unfoldable pub next_item : PageIter → Outcome (PageIter × Option Page)
next_item it =
    if leb it.start it.end
    then (do
      following ← Page.next it.start
      start ← unwrap following
      done (record it { start = start }, some it.start))
    else done (it, none)

-- A `for` loop over the pages of an iterator, on fuel: more than the number of pages is enough.
module _ {S : Type 0} (body : Page → S → Outcome S) where
  unfoldable pub for_pages : ℕ → PageIter → S → Outcome S
  unfolding next_item
  for_pages zero it s = panic
  for_pages (suc fuel) it s = do
    (rest, item) ← next_item it
    elim item [ none ↦ done s | some page ↦ (do s' ← body page s; for_pages fuel rest s') ]

  -- The same over a list.
  unfoldable pub for_each : List Page → S → Outcome S
  for_each [] s = done s
  for_each (page ∷ pages) s = do s' ← body page s; for_each pages s'

next_item-some :
    (start end : ℕ)
    → start ≤ end
    → start % 2 ^ 36 + 1 < 2 ^ 36
    → end < 2 ^ 52
    → next_item (record { start = start; end = end })
      ≡ done (record { start = start + 1; end = end }, some start)
unfolding next_item Page.next
next_item-some start end le low small = rw (
  le→leb start end le,
  next_by_lem start 1 (omega arith),
  lt→ltb (start % 2 ^ 36 + 1) (2 ^ 36) low,
)

next_item-none :
    (start end : ℕ)
    → end < start
    → let it : PageIter = record { start = start; end = end } in next_item it ≡ done (it, none)
unfolding next_item
next_item-none start end lt = ground arith

-- The numbers `from`, `from + 1`, and so on.
abbrev pub run : ℕ → ℕ → List ℕ
run from zero = []
run from (suc count) = from ∷ run (from + 1) count

-- A `for` loop over the `count` pages from `start` to `end` runs its body on them in order and
-- adds no panic of its own, where their numbers have 52 bits, and where they lie in the same
-- 2^36 pages as the first and do not reach the last of these; a fuel above `count` is enough.
pub for_pages-run :
    {S : Type 0} (body : Page → S → Outcome S) (fuel count start end : ℕ) (s : S)
    → count < fuel
    → start + count ≡ end + 1
    → start % 2 ^ 36 + count < 2 ^ 36
    → end < 2 ^ 52
    → for_pages body fuel (record { start = start; end = end }) s
      ≡ for_each body (run start count) s
unfolding for_pages for_each
for_pages-run body zero count start end s enough e low small = absurd (omega arith)
for_pages-run body (suc fuel) zero start end s enough e low small =
    rw (next_item-none start end (omega arith))
for_pages-run body (suc fuel) (suc count) start end s enough e low small =
    rw (next_item-some start end (omega arith) (omega arith) small) (
      ap (λ rest. body start s >>= rest)
        (fun_ext λ t.
          for_pages-run body fuel count (start + 1) end t (omega arith) (omega arith) (omega arith)
            small))

next_item-edge :
    (start end : ℕ)
    → start ≤ end
    → start % 2 ^ 36 + 1 ≡ 2 ^ 36
    → end < 2 ^ 52
    → next_item (record { start = start; end = end }) ≡ panic
unfolding next_item Page.next
next_item-edge start end le edge small =
    rw (le→leb start end le, next_by_lem start 1 (omega arith)) (ground (arith, edge))

-- A `for` loop over the `count` pages from `start` to `end`, at least one, of 52 bits, that
-- reaches the last page of the 2^36 pages of `start` panics, whatever its body does.
pub for_pages-edge :
    {S : Type 0} (body : Page → S → Outcome S) (fuel count start end : ℕ) (s : S)
    → 0 < count
    → start + count ≡ end + 1
    → start % 2 ^ 36 + count ≡ 2 ^ 36
    → end < 2 ^ 52
    → for_pages body fuel (record { start = start; end = end }) s ≡ panic
unfolding for_pages
for_pages-edge body zero count start end s pos e edge small = refl
for_pages-edge body (suc fuel) zero start end s pos e edge small = absurd (omega arith)
for_pages-edge body (suc fuel) (suc zero) start end s pos e edge small =
    rw (next_item-edge start end (omega arith) edge small) refl
for_pages-edge body (suc fuel) (suc (suc count)) start end s pos e edge small =
    rw (next_item-some start end (omega arith) (omega arith) small)
      (elim (Outcome-cases (body start s)) [
        | inr panics ↦ rw panics refl
        | inl (t, runs) ↦ rw runs (
            for_pages-edge body fuel (suc count) (start + 1) end t (omega arith) (omega arith)
              (omega arith) small)
      ])
