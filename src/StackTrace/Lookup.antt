-- ===== src/StackTrace/Lookup.antt =====
-- What a symbol file says, and that `lookup_symbol` of src/stack_trace.rs finds it.
use mathlib.Core.List.{Memᴰ}
use mathlib.Core.List.Memᴰ.{head, tail, not-nil}
use os_test.Prelude.{
  ℕ, ◌≤◌, ◌≡◌, refl, ap, inl, inr, Bool, true, Option, none, some, List, [], ◌∷◌, ◌==◌, ltb,
  if◌then◌else◌, arith, Bool-cases,
}
use os_test.Prelude.Outcome.{done}
use os_test.StackTrace.Symbols.{Str, fields, line_addr, lookup_lines}

-- A line of the file: an address, and a name where there is one.
abbrev pub Entry : Type 0
Entry = ℕ × Option Str

pub data IsName (is_utf8 : List ℕ → Bool) : Option Str → Type 0 where
  unnamed : IsName is_utf8 none
  named : {name : Str} → is_utf8 name ≡ true → IsName is_utf8 (some name)

-- The lines of a file and its entries, without the empty lines.
pub data Parsed (is_utf8 : List ℕ → Bool) : List (List ℕ) → List Entry → Type 0 where
  nil : Parsed is_utf8 [] []
  blank :
      {lines : List (List ℕ)} {es : List Entry}
      → Parsed is_utf8 lines es
      → Parsed is_utf8 ([] ∷ lines) es
  line :
      {c : ℕ} {l : List ℕ} {lines : List (List ℕ)} {es : List Entry} {a : ℕ} {name : Option Str}
      → line_addr is_utf8 (c ∷ l) ≡ done a
      → (fields (c ∷ l)).1 ≡ name
      → IsName is_utf8 name
      → Parsed is_utf8 lines es
      → Parsed is_utf8 ((c ∷ l) ∷ lines) ((a, name) ∷ es)

-- The addresses ascend, from `from` on.
pub data Ascending : (from : ℕ) → List Entry → Type 0 where
  nil : {from : ℕ} → Ascending from []
  cons :
      {from a : ℕ} {name : Option Str} {es : List Entry}
      → from ≤ a
      → Ascending a es
      → Ascending from ((a, name) ∷ es)

pub find_in : List Entry → ℕ → Option Str
find_in [] addr = none
find_in ((a, name) ∷ es) addr =
    let rest = find_in es addr in
    if ltb addr a
    then none
    else elim name [ none ↦ rest | some n ↦ if a == addr then some n else rest ]

pub lookup_lines-find_in :
    {is_utf8 : List ℕ → Bool} {lines : List (List ℕ)} {es : List Entry}
    → Parsed is_utf8 lines es
    → (addr : ℕ) → lookup_lines is_utf8 lines addr ≡ done (find_in es addr)
unfolding lookup_lines find_in
lookup_lines-find_in nil addr = refl
lookup_lines-find_in (blank more) addr = lookup_lines-find_in more addr
lookup_lines-find_in (line at called unnamed more) addr =
    rw (at, called, lookup_lines-find_in more addr) (ground arith)
lookup_lines-find_in (line at called (named valid) more) addr =
    rw (at, called, valid, lookup_lines-find_in more addr) (ground arith)

pub find_in-Memᴰ :
    (es : List Entry) (addr : ℕ) (n : Str) → find_in es addr ≡ some n → Memᴰ (addr, some n) es
unfolding find_in
find_in-Memᴰ [] addr n h = absurd (ground arith)
find_in-Memᴰ ((a, none) ∷ es) addr n h = tail (find_in-Memᴰ es addr n (ground arith))
find_in-Memᴰ ((a, some m) ∷ es) addr n h = elim (Bool-cases (a == addr)) [
  | inl here ↦
      let at : addr ≡ a = ground (arith, here) in
      let called : n ≡ m = ground arith in head (rw (at, called) refl)
  | inr elsewhere ↦ tail (find_in-Memᴰ es addr n (ground arith))
]

Ascending-least :
    {from : ℕ} {es : List Entry} {e : Entry} → Ascending from es → Memᴰ e es → from ≤ e.0
Ascending-least nil m = absurd (not-nil m)
Ascending-least (cons low more) (head same) = rw (ap (λ x. x.0) same) low
Ascending-least (cons low more) (tail m) = omega (arith, low, Ascending-least more m)

pub find_in-none :
    {from : ℕ} {es : List Entry}
    → Ascending from es
    → (addr : ℕ) (n : Str) → find_in es addr ≡ none
    → ¬ Memᴰ (addr, some n) es
unfolding find_in
find_in-none nil addr n h m = absurd (not-nil m)
find_in-none (cons {a = a} {name = none} low more) addr n h (head same) = cc
find_in-none (cons {a = a} {name = some m} low more) addr n h (head same) =
    let at : addr ≡ a = ap (λ x. x.0) same in ground (arith, at)
find_in-none (cons {a = a} {name = none} low more) addr n h (tail m) =
    find_in-none more addr n (ground (arith, Ascending-least more m)) m
find_in-none (cons {a = a} {name = some k} low more) addr n h (tail m) =
    find_in-none more addr n (ground (arith, Ascending-least more m)) m
