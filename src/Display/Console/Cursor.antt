-- ===== src/Display/Console/Cursor.antt =====
-- Where the console of src/console.rs keeps its cursor, and when a character fits the screen.
use os_test.Prelude.{
  ℕ, ◌+◌, ◌%◌, ◌^◌, ◌≤◌, ◌<◌, ◌≡◌, ◌≢◌, refl, ap, sym, ◌∙◌, false, ◌==◌, List, [], ◌∷◌,
  if◌then◌else◌, ltb, length, arith, Bool-cases, inl, inr, ltb→lt,
}
use os_test.Prelude.Outcome.{done, panic, add64}
use os_test.Display.Console.Drawing.{
  IsAddressable, SameSize, SameSize-refl, SameSize-IsAddressable, draw_char-done, draw_char_at_edge,
}
use os_test.Display.Console.{
  Console, print_char_colored, print_char, write_str, newline, next_line, next_pos,
}

-- The screen has room for a character at the cursor, by the guards of `print_char_colored`, and
-- the cursor is at a multiple of the width of a character with its space.
pub record IsPlaced {M : Type 0} (console : Console M) : Type 0 where
  pub wide : 8 ≤ console.screen.width
  pub high : 16 ≤ console.screen.height
  pub column : console.cursor_pos.0 % 9 ≡ 0
  pub right : console.cursor_pos.0 + 8 ≤ console.screen.width
  pub below : console.cursor_pos.1 + 16 ≤ console.screen.height

next_line-below :
    (height y : ℕ)
    → 16 ≤ height
    → y + 16 ≤ height
    → height + 16 < 2 ^ 64
    → (line : ℕ) × (next_line height y ≡ done line) × (line + 16 ≤ height)
next_line-below height y high below room =
    (if ltb height (y + 32) then 0 else y + 16, ground (arith, below, room), ground (arith, high))

next_pos-below :
    (width height x y : ℕ)
    → 8 ≤ width
    → 16 ≤ height
    → x % 9 ≡ 0
    → x + 8 ≤ width
    → y + 16 ≤ height
    → width + 9 < 2 ^ 64
    → height + 16 < 2 ^ 64
    → (x' : ℕ) × (y' : ℕ) × (next_pos width height x y ≡ done (x', y'))
      × (x' % 9 ≡ 0)
      × (x' + 8 ≤ width)
      × (y' + 16 ≤ height)
next_pos-below width height x y wide high column right below across down =
    let (line, moves, fits) = next_line-below height y high below down in
    let step : add64 x 9 ≡ done (x + 9) = ground (arith, right, across) in
    let edge : add64 (x + 9) 8 ≡ done (x + 17) = ground (arith, right, across) in
    elim (Bool-cases (ltb width (x + 17))) [
      | inl behind ↦ (0, line, rw (step, edge, behind, moves) refl, refl, wide, fits)
      | inr inside ↦ (
        x + 9,
        y,
        rw (step, edge, inside) refl,
        omega (arith, column),
        ground (arith, inside),
        below,
      )
    ]

module _ {M : Type 0} (store : ℕ → ℕ → M → M) (font_bytes : List ℕ) where
  -- On a screen whose width is not 8 above a multiple of 9, every byte is printed, and the cursor
  -- is again at a place with room for a character.
  print_char-done :
      (console : Console M) (c : ℕ)
      → IsAddressable console.screen
      → length font_bytes ≡ 4096
      → c < 256
      → console.screen.width % 9 ≢ 8
      → IsPlaced console
      → (after : Console M) × (print_char store font_bytes console c ≡ done after)
        × IsPlaced after
        × SameSize store font_bytes console.screen after.screen
  unfolding print_char print_char_colored
  print_char-done console c a full hc spare placed = elim (Bool-cases (c == newline)) [
    | inl line ↦
        let (y, moves, fits) =
          next_line-below console.screen.height console.cursor_pos.1 placed.high placed.below
            a.down in
        (
          record console { cursor_pos = (0, y) },
          rw (line, moves) refl,
          record {
            wide = placed.wide;
            high = placed.high;
            column = refl;
            right = placed.wide;
            below = fits;
          },
          SameSize-refl store font_bytes console.screen,
        )
    | inr shown ↦
        let (screen, e, same) =
          draw_char-done store font_bytes console.screen c console.cursor_pos.0 console.cursor_pos.1
            console.fg_color console.bg_color a full hc
            (omega (arith, placed.column, placed.right, spare)) placed.below in
        let (x, y, moves, column, right, below) =
          next_pos-below console.screen.width console.screen.height console.cursor_pos.0
            console.cursor_pos.1 placed.wide placed.high placed.column placed.right placed.below
            a.across a.down in
        (
          record console { screen = screen; cursor_pos = (x, y) },
          rw (shown, e, moves) refl,
          record {
            wide = rw same.width placed.wide;
            high = rw same.height placed.high;
            column = column;
            right = rw same.width right;
            below = rw same.height below;
          },
          same,
        )
  ]

  -- With a font of 4096 bytes, on a screen of at least one character whose pixels have offsets of
  -- 64 bits, whose width and height are at least 9 and 16 less than 2^64, and whose width is not 8
  -- above a multiple of 9, and from a cursor at a place with room for a character, `write_str` writes every text without a
  -- panic and leaves the cursor at such a place.
  pub write_str-done :
      (text : List ℕ) (console : Console M)
      → IsAddressable console.screen
      → length font_bytes ≡ 4096
      → console.screen.width % 9 ≢ 8
      → IsPlaced console
      → (after : Console M) × (write_str store font_bytes console text ≡ done after)
        × IsPlaced after
  unfolding write_str
  write_str-done [] console a full spare placed = (console, refl, placed)
  write_str-done (c ∷ text) console a full spare placed = elim (Bool-cases (ltb c (2 ^ 7))) [
    | inl ascii ↦
        let small = ltb→lt c (2 ^ 7) ascii in
        let (next, e, placed', same) =
          print_char-done console c a full (omega (arith, small)) spare placed in
        let (after, e', placed'') =
          write_str-done text next (SameSize-IsAddressable store font_bytes same a) full
            (λ h. spare (sym (ap (λ w. w % 9) same.width) ∙ h)) placed' in
        (after, rw (ascii, e) e', placed'')
    | inr other ↦
        let (after, e, placed') = write_str-done text console a full spare placed in
        (after, rw other e, placed')
  ]

  -- With the cursor 8 pixels before the right edge, where the guard lets it stand, every byte but
  -- the newline makes `print_char` panic.
  pub print_char_at_edge :
      (console : Console M) (c : ℕ)
      → console.cursor_pos.0 + 8 ≡ console.screen.width
      → c ≢ newline
      → print_char store font_bytes console c ≡ panic
  unfolding print_char print_char_colored
  print_char_at_edge console c edge shown =
      let other : (c == newline) ≡ false = ground (arith, shown) in
      rw (other, print_char_colored)
        (rw (
          draw_char_at_edge store font_bytes console.screen c console.cursor_pos.0
            console.cursor_pos.1 console.fg_color console.bg_color edge))
