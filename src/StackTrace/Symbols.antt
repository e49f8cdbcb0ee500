-- ===== src/StackTrace/Symbols.antt =====
-- `lookup_symbol` of src/stack_trace.rs: the symbol file is searched line by line.
use os_test.Prelude.{
  ℕ, ◌+◌, ◌-◌, ◌*◌, ◌^◌, Bool, true, false, ◌&&◌, ◌||◌, Option, none, some, List, [], ◌∷◌, ◌==◌,
  ltb, leb, if◌then◌else◌,
}
use os_test.Prelude.Outcome.{Outcome, done, ◌>>=◌, ◌>>◌, assert, unwrap}

-- Bytes. A `str` is its bytes, which are UTF-8.
abbrev pub Str : Type 0
Str = List ℕ

-- A file that the boot loader loaded.
pub record Module : Type 0 where
  pub path : List ℕ
  pub bytes : List ℕ

-- `b"kernel.symbols"`, the path of `KERNEL_SYMBOL_MODULE`
abbrev pub kernel_symbols : List ℕ
kernel_symbols =
    b'k' ∷ b'e' ∷ b'r' ∷ b'n' ∷ b'e' ∷ b'l' ∷ b'.' ∷ b's' ∷ b'y' ∷ b'm' ∷ b'b' ∷ b'o' ∷ b'l' ∷ b's'
    ∷ []

unfoldable pub bytes_eq : List ℕ → List ℕ → Bool
bytes_eq [] [] = true
bytes_eq [] (y ∷ ys) = false
bytes_eq (x ∷ xs) [] = false
bytes_eq (x ∷ xs) (y ∷ ys) = x == y && bytes_eq xs ys

-- `ends_with` of a slice
unfoldable pub ends_with : List ℕ → List ℕ → Bool
unfolding bytes_eq
ends_with [] needle = bytes_eq [] needle
ends_with (x ∷ xs) needle = bytes_eq (x ∷ xs) needle || ends_with xs needle

unfoldable pub find_module : List Module → Option Module
unfolding ends_with
find_module [] = none
find_module (f ∷ more) = if ends_with f.path kernel_symbols then some f else find_module more

-- `split(|s| *s == b'\n')`: always at least one line
unfoldable pub split_lines : List ℕ → List (List ℕ)
split_lines [] = [] ∷ []
split_lines (b ∷ bytes) =
    if b == 10
    then [] ∷ split_lines bytes
    else elim (split_lines bytes) [ [] ↦ (b ∷ []) ∷ [] | line ∷ more ↦ (b ∷ line) ∷ more ]

-- `is_ascii_whitespace`
abbrev pub is_ascii_whitespace : ℕ → Bool
is_ascii_whitespace c = c == 32 || c == 9 || c == 10 || c == 12 || c == 13

-- The part before the first white space, and what comes behind it where there is one.
unfoldable pub split_space : List ℕ → List ℕ × Option (List ℕ)
split_space [] = ([], none)
split_space (c ∷ line) =
    if is_ascii_whitespace c
    then ([], some line)
    else (let (before, after) = split_space line in (c ∷ before, after))

-- The first and the third part of `splitn(3, is_ascii_whitespace)`
unfoldable pub fields : List ℕ → List ℕ × Option (List ℕ)
unfolding split_space
fields line =
    let (sym_addr, rest) = split_space line in
    (sym_addr, elim rest [ none ↦ none | some more ↦ (split_space more).1 ])

-- A digit of `from_str_radix` to the base 16
abbrev pub hex_digit : ℕ → Option ℕ
hex_digit c =
    if leb 48 c && leb c 57
    then some (c - 48)
    else if leb 97 c && leb c 102
    then some (c - 87)
    else if leb 65 c && leb c 70
    then some (c - 55)
    else none

-- The digits of a `u64`; an overflow is an error.
unfoldable pub hex_digits : (value : ℕ) → List ℕ → Option ℕ
hex_digits value [] = some value
hex_digits value (c ∷ more) = elim (hex_digit c) [
  | none ↦ none
  | some d ↦
      let rest = hex_digits (value * 16 + d) more in
      if ltb (value * 16 + d) (2 ^ 64) then rest else none
]

-- `u64::from_str_radix(s, 16)`: a plus sign may come first, and there is at least one digit.
unfoldable pub from_hex : Str → Option ℕ
unfolding hex_digits
from_hex [] = none
from_hex (c ∷ []) = hex_digits 0 (c ∷ [])
from_hex (c ∷ d ∷ more) = if c == 43 then hex_digits 0 (d ∷ more) else hex_digits 0 (c ∷ d ∷ more)

-- `is_utf8` is the check of `str::from_utf8`.
module _ (is_utf8 : List ℕ → Bool) where
  -- The address and the name of a line that is not empty; `unwrap` is used on both.
  unfoldable pub line_addr : List ℕ → Outcome ℕ
  unfolding fields from_hex
  line_addr line = assert (is_utf8 (fields line).0) >> unwrap (from_hex (fields line).0)

  -- The loop of `lookup_symbol`.
  unfoldable pub lookup_lines : List (List ℕ) → ℕ → Outcome (Option Str)
  unfolding line_addr
  lookup_lines [] addr = done none
  lookup_lines ([] ∷ lines) addr = lookup_lines lines addr
  lookup_lines ((c ∷ line) ∷ lines) addr =
      let rest = lookup_lines lines addr in
      do
        addr_as_num ← line_addr (c ∷ line)
        if ltb addr addr_as_num then done none else elim (fields (c ∷ line)).1 [
          | none ↦ rest
          | some name ↦
              if addr_as_num == addr then (assert (is_utf8 name) >> done (some name)) else rest
        ]

  unfoldable pub lookup_symbol : Option (List Module) → ℕ → Outcome (Option Str)
  unfolding find_module split_lines lookup_lines
  lookup_symbol modules addr = do
    response ← unwrap modules
    symbols_module ← unwrap (find_module response)
    lookup_lines (split_lines symbols_module.bytes) addr
