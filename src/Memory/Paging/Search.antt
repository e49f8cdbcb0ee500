-- ===== src/Memory/Paging/Search.antt =====
-- `find_free_pages` of src/memory/paging.rs, over the answer of `is_present` for each page.
pub mod FirstFit
use os_test.Prelude.{
  ℕ, zero, suc, ◌+◌, Bool, true, false, not, Option, none, some, ltb, ◌==◌, if◌then◌else◌,
}
use os_test.Prelude.Outcome.{Outcome, done, panic, ◌>>=◌}
use os_test.Memory.Paging.Page
use os_test.Memory.Paging.Page.{Page, max_page_canonical_num}
use os_test.Memory.Paging.Iter.{PageIter}

-- The variables of the loop.
pub record Scan : Type 0 where
  pub first_page : Page
  pub free_page_count : ℕ
  pub page : Page

-- The body of the loop, once the next page is known and whether it is present.
unfoldable pub advance : Scan → Page → Bool → Scan
advance s next_page true = record s { free_page_count = 0; page = next_page }
advance s next_page false = record {
  first_page = if s.free_page_count == 0 then next_page else s.first_page;
  free_page_count = s.free_page_count + 1;
  page = next_page;
}

module _ (is_present : Page → Outcome Bool) where
  -- The `while` loop, on fuel.
  unfoldable pub scan : ℕ → (num_pages : ℕ) → Scan → Outcome Scan
  unfolding advance
  scan zero num_pages s = panic
  scan (suc fuel) num_pages s =
      let body : Outcome Scan = do
        following ← Page.next s.page
        elim following [
          | none ↦ done s
          | some next_page ↦ (do
            used ← is_present next_page
            scan fuel num_pages (advance s next_page used))
        ]
      in if ltb s.free_page_count num_pages then body else done s

  -- The loop moves to a page with a greater canonical number in each round, so that it ends
  -- within as many rounds as there are canonical numbers.
  unfoldable pub find_free_pages : (start_page : Page) → (num_pages : ℕ) → Outcome (Option PageIter)
  find_free_pages start_page num_pages = do
    used ← is_present start_page
    s ← scan max_page_canonical_num num_pages (record {
      first_page = start_page;
      free_page_count = if used then 0 else 1;
      page = start_page;
    })
    done (
        if s.free_page_count == num_pages
        then some (record { start = s.first_page; end = s.page })
        else none)
