-- ===== src/Memory/Paging/Search/FirstFit.antt =====
-- `find_free_pages` gives the first run of free pages that is long enough.
use native.Mathlib.Decide.{ℕ_discrete, dec_lt}
use os_test.Prelude.{
  ℕ, zero, suc, ◌+◌, ◌-◌, ◌%◌, ◌^◌, ◌≤◌, ◌<◌, ◌≡◌, refl, ◌∙◌, ◌⊎◌, inl, inr, Bool, true, false,
  Option, none, some, arith, ltb, ltb→lt, lt→ltb, ◌==◌, if◌then◌else◌, Bool-cases,
}
use os_test.Prelude.Outcome.{Outcome, done, ◌>>=◌}
use os_test.Memory.Paging.Page
use os_test.Memory.Paging.Page.{Page, max_page_canonical_num}
use os_test.Memory.Paging.Page.Index.{next_by_lem}
use os_test.Memory.Paging.Iter.{PageIter}
use os_test.Memory.Paging.Search.{Scan, advance, scan, find_free_pages}

-- Some page of the `count` pages from `q` on is present.
abbrev pub IsBlocked : (Page → Bool) → ℕ → Page → Type 0
IsBlocked used count q = (p : Page) × (q ≤ p) × (p < q + count) × (used p ≡ true)

-- The end of the numbers that the search goes through: the next multiple of 2 ^ 36.
abbrev pub search_end : Page → ℕ
search_end start = start + 2 ^ 36 - start % 2 ^ 36

-- The run of free pages that ends at the current page begins at `begin`, and no run of `count`
-- pages that starts before it is free.
record Inv (used : Page → Bool) (start count begin : ℕ) (s : Scan) : Type 0 where
  span : begin + s.free_page_count ≡ s.page + 1
  after : start ≤ begin
  reached : start ≤ s.page
  first : 0 < s.free_page_count → s.first_page ≡ begin
  free : (p : Page) → begin ≤ p → p ≤ s.page → used p ≡ false
  blocked : (q : Page) → start ≤ q → q < begin → IsBlocked used count q
  few : s.free_page_count ≤ count
  inside : s.page < search_end start

module _ (is_present : Page → Outcome Bool) (used : Page → Bool)
    (answers : (p : Page) → is_present p ≡ done (used p)) (start count : ℕ) (pos : 0 < count)
    (small : start < 2 ^ 52) where
  -- One round keeps the invariant.
  advance_free :
      (begin : ℕ) (s : Scan)
      → Inv used start count begin s
      → s.free_page_count < count
      → s.page + 1 < search_end start
      → used (s.page + 1) ≡ false
      → Inv used start count begin (advance s (s.page + 1) false)
  unfolding advance
  advance_free begin s i more room f = record {
    span = omega (arith, i.span);
    after = i.after;
    reached = omega (arith, i.reached);
    first = λ h. ground (arith, i.first, i.span);
    free = λ p lo hi. elim (ℕ_discrete p (s.page + 1)) [
      | yes e ↦ rw e f
      | no ne ↦ i.free p lo (omega arith)
    ];
    blocked = i.blocked;
    few = omega arith;
    inside = room;
  }

  advance_used :
      (begin : ℕ) (s : Scan)
      → Inv used start count begin s
      → s.free_page_count < count
      → s.page + 1 < search_end start
      → used (s.page + 1) ≡ true
      → Inv used start count (s.page + 2) (advance s (s.page + 1) true)
  unfolding advance
  advance_used begin s i more room u = record {
    span = omega arith;
    after = omega (arith, i.reached);
    reached = omega (arith, i.reached);
    first = λ h. absurd (omega arith);
    free = λ p lo hi. absurd (omega arith);
    blocked = λ q lo hi. elim (dec_lt q begin) [
      | yes h ↦ i.blocked q lo h
      | no h ↦ (s.page + 1, omega arith, omega (arith, i.span), u)
    ];
    few = omega arith;
    inside = room;
  }

  -- Where the search stops: with enough free pages, or at the end of the numbers.
  abbrev Stopped : Outcome Scan → Type 0
  Stopped r =
      (t : Scan) × (begin : ℕ) × (r ≡ done t)
      × Inv used start count begin t
      × ((t.free_page_count ≡ count) ⊎ (t.page + 1 ≡ search_end start))

  -- The next page, in terms of the end of the search.
  next_inside :
      (page : Page)
      → start ≤ page
      → page + 1 < search_end start
      → Page.next page ≡ done (some (page + 1))
  unfolding Page.next
  next_inside page lo hi =
      next_by_lem page 1 (omega arith) ∙ rw (lt→ltb (page % 2 ^ 36 + 1) (2 ^ 36) (omega arith))

  next_end : (page : Page) → start ≤ page → page + 1 ≡ search_end start → Page.next page ≡ done none
  unfolding Page.next
  next_end page lo e = next_by_lem page 1 (omega arith) ∙ ground arith

  -- What is left of the loop after the page behind the current one was looked at.
  round :
      (fuel begin : ℕ) (s : Scan)
      → Inv used start count begin s
      → s.page + 1 < search_end start
      → s.free_page_count < count
      → ((begin : ℕ) (t : Scan)
          → Inv used start count begin t
          → search_end start ≤ t.page + fuel
          → Stopped (scan is_present fuel count t))
      → search_end start ≤ s.page + suc fuel
      → Stopped (scan is_present fuel count (advance s (s.page + 1) (used (s.page + 1))))
  unfolding advance
  round fuel begin s i room fewer rest enough = elim (Bool-cases (used (s.page + 1))) [
    | inl u ↦ rw u (
        rest (s.page + 2) (advance s (s.page + 1) true) (advance_used begin s i fewer room u)
          (omega arith))
    | inr f ↦ rw f (
        rest begin (advance s (s.page + 1) false) (advance_free begin s i fewer room f)
          (omega arith))
  ]

  scan_stops :
      (fuel begin : ℕ) (s : Scan)
      → Inv used start count begin s
      → search_end start ≤ s.page + fuel
      → Stopped (scan is_present fuel count s)
  unfolding scan
  scan_stops zero begin s i enough = absurd (omega (arith, i.inside))
  scan_stops (suc fuel) begin s i enough = elim (Bool-cases (ltb s.free_page_count count)) [
    | inr full ↦ (s, begin, rw full, i, inl (ground (arith, i.few)))
    | inl more ↦ elim (ℕ_discrete (s.page + 1) (search_end start)) [
      | yes e ↦ (s, begin, rw (more, next_end s.page i.reached e), i, inr e)
      | no ne ↦
          rw (more, next_inside s.page i.reached (omega (arith, i.inside)), answers (s.page + 1))
            (round fuel begin s i (omega (arith, i.inside)) (ltb→lt s.free_page_count count more)
              (λ next_begin t keep ahead. scan_stops fuel next_begin t keep ahead) enough)
    ]
  ]

  -- The loop starts at the first page.
  abbrev begin_scan : Bool → Scan
  begin_scan u = record { first_page = start; free_page_count = if u then 0 else 1; page = start }

  begin-Inv :
      (u : Bool)
      → used start ≡ u
      → Inv used start count (if u then start + 1 else start) (begin_scan u)
  begin-Inv true e = record {
    span = omega arith;
    after = omega arith;
    reached = omega arith;
    first = λ h. absurd (omega arith);
    free = λ p lo hi. absurd (omega arith);
    blocked = λ q lo hi. (start, omega arith, omega arith, e);
    few = omega arith;
    inside = omega arith;
  }
  begin-Inv false e = record {
    span = omega arith;
    after = omega arith;
    reached = omega arith;
    first = λ h. refl;
    free = λ p lo hi. let same : p ≡ start = omega arith in rw same e;
    blocked = λ q lo hi. absurd (omega arith);
    few = omega arith;
    inside = omega arith;
  }

-- What the search promises. `found`: the pages from `it.start` to `it.end` are `count` pages, none
-- is present, they lie below the end of the search, and every run of `count` pages that starts
-- earlier has a page that is present. `exhausted`: so has every run that the search could reach.
pub data FirstFit (used : Page → Bool) (start count : ℕ) : Option PageIter → Type 0 where
  found :
      (it : PageIter)
      → start ≤ it.start
      → it.start + count ≡ it.end + 1
      → it.end < search_end start
      → ((p : Page) → it.start ≤ p → p ≤ it.end → used p ≡ false)
      → ((q : Page) → start ≤ q → q < it.start → IsBlocked used count q)
      → FirstFit used start count (some it)
  exhausted :
      ((q : Page) → start ≤ q → q + count ≤ search_end start → IsBlocked used count q)
      → FirstFit used start count none

-- The test after the loop turns the invariant into the promise.
conclude :
    (used : Page → Bool) (start count begin : ℕ) (t : Scan)
    → 0 < count
    → Inv used start count begin t
    → (t.free_page_count ≡ count) ⊎ (t.page + 1 ≡ search_end start)
    → FirstFit used start count (
        if t.free_page_count == count
        then some (record { start = t.first_page; end = t.page })
        else none)
conclude used start count begin t pos i stop = elim (Bool-cases (t.free_page_count == count)) [
  | inl e ↦
      let enough : t.free_page_count ≡ count = ground arith in
      let at : t.first_page ≡ begin = i.first (omega arith) in
      rw e (
        found (record { start = t.first_page; end = t.page }) (omega (arith, i.after))
          (omega (arith, i.span)) i.inside (λ p lo hi. i.free p (omega arith) hi)
          (λ q lo hi. i.blocked q lo (omega arith)))
  | inr e ↦
      let fewer : t.free_page_count < count = ground (arith, i.few) in
      let ended : t.page + 1 ≡ search_end start = ground arith in
      rw e (exhausted (λ q lo hi. i.blocked q lo (omega (arith, i.span))))
]

-- Where `is_present` answers for every page, for at least one page, and from a start page whose
-- number has 52 bits: `find_free_pages` ends within its rounds, does not panic, and gives the
-- first run of that many absent pages at or after the start page; it gives none only if there is
-- no such run before the end of the numbers.
pub find_free_pages-FirstFit :
    (is_present : Page → Outcome Bool) (used : Page → Bool)
    → ((p : Page) → is_present p ≡ done (used p))
    → (start count : ℕ) → 0 < count
    → start < 2 ^ 52
    → (r : Option PageIter) × (find_free_pages is_present start count ≡ done r)
      × FirstFit used start count r
unfolding find_free_pages
find_free_pages-FirstFit is_present used answers start count pos small = rw (answers start) (
    finish (
      scan_stops is_present used answers start count pos small max_page_canonical_num
        (if used start then start + 1 else start)
        (begin_scan is_present used answers start count pos small (used start))
        (begin-Inv is_present used answers start count pos small (used start) refl) (omega arith)))
  where
    finish :
        Stopped is_present used answers start count pos small (
          scan is_present max_page_canonical_num count
            (begin_scan is_present used answers start count pos small (used start)))
        → (r : Option PageIter) × ((scan is_present max_page_canonical_num count
                (begin_scan is_present used answers start count pos small (used start))
              >>= λ s. done (
                  if s.free_page_count == count
                  then some (record { start = s.first_page; end = s.page })
                  else none))
            ≡ done r)
          × FirstFit used start count r
    finish (t, begin, e, i, stop) = (_, rw e, conclude used start count begin t pos i stop)
