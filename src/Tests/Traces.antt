-- ===== src/Tests/Traces.antt =====
-- A stack of two frames and a symbol file of two lines, for src/stack_trace.rs.
use os_test.Prelude.{
  ℕ, suc, ◌≡◌, refl, Bool, true, ◌&&◌, Option, some, List, [], ◌∷◌, ◌==◌, ltb, if◌then◌else◌, arith,
  length,
}
use os_test.Prelude.Outcome.{done}
use os_test.StackTrace.Symbols.{
  Str, Module, kernel_symbols, bytes_eq, ends_with, find_module, split_lines, split_space, fields,
  hex_digits, from_hex, line_addr,
}
use os_test.StackTrace.Lookup.{Entry, Parsed, nil, blank, line, named, Ascending, nil, cons}
use os_test.StackTrace.Nearest.{Nearest, lookup_symbol_from_return_addr-Nearest}
use os_test.StackTrace.Frames.{Frames, last, called, lines_of, trace_lines-Frames}
use os_test.StackTrace.{new, or_unknown, lookup_symbol_from_return_addr, trace_lines}

abbrev is_ascii : List ℕ → Bool
is_ascii [] = true
is_ascii (b ∷ bytes) = ltb b 128 && is_ascii bytes

-- `10 T a` and `20 T b`
abbrev symbols : Module
symbols = record {
  path = kernel_symbols;
  bytes = b'1' ∷ b'0' ∷ 32 ∷ b'T' ∷ 32 ∷ b'a' ∷ 10 ∷ b'2' ∷ b'0' ∷ 32 ∷ b'T' ∷ 32 ∷ b'b' ∷ 10 ∷ [];
}

abbrev entries : List Entry
entries = (0x10, some (b'a' ∷ [])) ∷ (0x20, some (b'b' ∷ [])) ∷ []

finds : find_module (symbols ∷ []) ≡ some symbols
unfolding find_module ends_with bytes_eq
finds = refl

parsed : Parsed is_ascii (split_lines symbols.bytes) entries
unfolding split_lines line_addr fields split_space from_hex hex_digits
parsed = line refl refl (named refl) (line refl refl (named refl) (blank nil))

ascending : Ascending 0 entries
ascending = cons (omega arith) (cons (omega arith) nil)

lookup_symbol_from_return_addr-Nearest_example :
    (r : Option Str) × (lookup_symbol_from_return_addr is_ascii (some (symbols ∷ [])) 8 0x1f
      ≡ done r)
    × Nearest entries 8 0x1f r
lookup_symbol_from_return_addr-Nearest_example =
    lookup_symbol_from_return_addr-Nearest is_ascii (symbols ∷ []) symbols entries finds parsed
      ascending 8 0x1f (omega arith)

-- The frame at 0x1000 is called from the one at 0x2000.
abbrev stack : ℕ → ℕ
stack at =
    if at == 0x1000 then 0x2000 else if at == 0x1008 then 0x25 else if at == 0x2008 then 0x15 else 0

abbrev returns : List ℕ
returns = 0x25 ∷ 0x15 ∷ []

walked_twice : Frames stack 0x1000 returns
walked_twice = called (λ h. omega (arith, h)) (last refl)

abbrev answer : ℕ → Option Str
answer addr =
    (lookup_symbol_from_return_addr-Nearest is_ascii (symbols ∷ []) symbols entries finds parsed
      ascending 0 addr (omega arith)).0

answers :
    (addr : ℕ)
    → lookup_symbol_from_return_addr is_ascii (some (symbols ∷ [])) 0 addr ≡ done (answer addr)
answers addr =
    (lookup_symbol_from_return_addr-Nearest is_ascii (symbols ∷ []) symbols entries finds parsed
      ascending 0 addr (omega arith)).1

trace_lines-Frames_example :
    trace_lines is_ascii
      (some (symbols ∷ []))
      0
      (suc (length returns))
      stack
      (new 0x1000)
      (b'b' ∷ [])
    ≡ done (some (lines_of (λ a. or_unknown (answer a)) (b'b' ∷ []) returns))
trace_lines-Frames_example =
    trace_lines-Frames is_ascii (some (symbols ∷ [])) 0 answer answers walked_twice (b'b' ∷ [])
