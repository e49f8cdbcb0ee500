-- ===== src/Memory/Virt/Area/Longest.antt =====
-- `init` of src/memory/virt.rs takes the longest usable area.
use mathlib.Core.List.{Memᴰ}
use mathlib.Core.List.Memᴰ.{head, tail, not-nil}
use os_test.Prelude.{
  ℕ, ◌+◌, ◌%◌, ◌^◌, ◌≤◌, ◌<◌, ◌≡◌, refl, ap, ◌∙◌, inl, inr, true, none, some, List, [], ◌∷◌, ◌==◌,
  ltb, if◌then◌else◌, arith, Bool-cases, Option-cases,
}
use os_test.Prelude.Outcome.{done}
use os_test.Memory.Physical.{BasicPhysicalAllocator, frame_size}
use os_test.Memory.Virt.{Inner}
use os_test.Memory.Virt.Area.{
  MapEntry, only_usable, longest, sum_lengths, configure_physical_area, init,
}

-- An entry that is usable, and as long as every usable entry.
pub record IsLongest (entries : List MapEntry) (e : MapEntry) : Type 0 where
  pub from : Memᴰ e entries
  pub is_usable : e.usable ≡ true
  pub greatest :
      (other : MapEntry) → Memᴰ other entries → other.usable ≡ true → other.length ≤ e.length

abbrev pub total : List MapEntry → ℕ
total [] = 0
total (e ∷ entries) = (if e.usable then e.length else 0) + total entries

sum_lengths-total :
    (entries : List MapEntry) (start : ℕ)
    → start + total entries < 2 ^ 64
    → sum_lengths start (only_usable entries) ≡ done (start + total entries)
unfolding sum_lengths only_usable
sum_lengths-total [] start small = ap done (omega arith)
sum_lengths-total (e ∷ entries) start small = elim (Bool-cases e.usable) [
  | inl used ↦
      let fits : ltb (start + e.length) (2 ^ 64) ≡ true = ground (arith, small, used) in
      rw (used, fits)
        (sum_lengths-total entries (start + e.length) (ground (arith, small, used))
          ∙ ap done (omega arith))
  | inr other ↦
      rw other
        (sum_lengths-total entries start (ground (arith, small, other)) ∙ ap done (omega arith))
]

longest-none :
    (entries : List MapEntry) (e : MapEntry)
    → Memᴰ e entries
    → e.usable ≡ true
    → longest (only_usable entries) ≡ none
    → ⊥
unfolding longest only_usable
longest-none [] e m u h = not-nil m
longest-none (x ∷ entries) e (head same) u h =
    let used : x.usable ≡ true = rw (← same) u in
    elim (Option-cases (longest (only_usable entries))) [
      | inl nothing ↦ ground (arith, h, used, nothing)
      | inr (m, there) ↦ ground (arith, h, used, there)
    ]
longest-none (x ∷ entries) e (tail m) u h = longest-none entries e m u (ground (arith, h))

IsLongest-head :
    (x : MapEntry) (entries : List MapEntry)
    → x.usable ≡ true
    → ((o : MapEntry) → Memᴰ o entries → o.usable ≡ true → o.length ≤ x.length)
    → IsLongest (x ∷ entries) x
IsLongest-head x entries used below = record {
  from = head refl;
  is_usable = used;
  greatest = λ o at u. elim at [ head same ↦ rw same (omega arith) | tail m ↦ below o m u ];
}

IsLongest-tail :
    (x : MapEntry) (entries : List MapEntry) (e : MapEntry)
    → (x.usable ≡ true → x.length ≤ e.length)
    → IsLongest entries e
    → IsLongest (x ∷ entries) e
IsLongest-tail x entries e below l = record {
  from = tail l.from;
  is_usable = l.is_usable;
  greatest =
      λ o at u. elim at [ head same ↦ rw same (below (rw (← same) u)) | tail m ↦ l.greatest o m u ];
}

longest-IsLongest :
    (entries : List MapEntry) (e : MapEntry)
    → longest (only_usable entries) ≡ some e
    → IsLongest entries e
unfolding longest only_usable
longest-IsLongest [] e h = absurd (ground (arith, h))
longest-IsLongest (x ∷ entries) e h = elim (Bool-cases x.usable) [
  | inr other ↦
      IsLongest-tail x entries e (λ u. ground (arith, other, u))
        (longest-IsLongest entries e (ground (arith, h, other)))
  | inl used ↦ elim (Option-cases (longest (only_usable entries))) [
    | inl nothing ↦
        let same : x ≡ e = ground (arith, h, used, nothing) in
        rw (← same)
          (IsLongest-head x entries used (λ o m u. absurd (longest-none entries o m u nothing)))
    | inr (m, there) ↦
        let below = longest-IsLongest entries m there in
        elim (Bool-cases (ltb m.length x.length)) [
          | inl more ↦
              let same : x ≡ e = ground (arith, h, used, there, more) in
              rw (← same) (
                IsLongest-head x entries used
                  (λ o at u. ground (arith, below.greatest o at u, more)))
          | inr less ↦
              let same : m ≡ e = ground (arith, h, used, there, less) in
              rw (← same) (IsLongest-tail x entries m (λ u. ground (arith, less)) below)
        ]
  ]
]

-- For a memory map with a usable entry, whose usable entries have bases that are aligned to frames
-- and lengths with a sum of 64 bits: `init` returns, and the allocator then has the base and the length of an entry
-- that is usable and as long as every usable entry; the bitmap and all else are as before.
pub init-IsLongest :
    (entries : List MapEntry) (some_entry : MapEntry) (s : Inner BasicPhysicalAllocator)
    → Memᴰ some_entry entries
    → some_entry.usable ≡ true
    → ((e : MapEntry) → Memᴰ e entries → e.usable ≡ true → e.base % frame_size ≡ 0)
    → total entries < 2 ^ 64
    → (e : MapEntry) × (init (some entries) s
        ≡ done (record s {
          physical_allocator = record s.physical_allocator { offset = e.base; limit = e.length };
        }))
      × IsLongest entries e
unfolding init configure_physical_area
init-IsLongest entries some_entry s at usable aligned small =
    elim (Option-cases (longest (only_usable entries))) [
      | inl nothing ↦ absurd (longest-none entries some_entry at usable nothing)
      | inr (e, found) ↦
          let l = longest-IsLongest entries e found in
          let whole : (e.base % frame_size == 0) ≡ true =
            ground (arith, aligned e l.from l.is_usable) in
          (e, rw (found, sum_lengths-total entries 0 (omega (arith, small)), whole) refl, l)
    ]
