-- ===== src/Display/Console.antt =====
-- src/console.rs: characters of 8 times 16 pixels, one pixel apart, drawn from the cursor on.
pub mod Drawing
pub mod Cursor
use os_test.Prelude.{
  ℕ, zero, suc, ◌+◌, ◌-◌, ◌*◌, ◌^◌, ◌==◌, not, List, [], ◌∷◌, Option, none, some, if◌then◌else◌,
  ltb, get_elem?, bit_and, ◌<<<◌,
}
use os_test.Prelude.Outcome.{Outcome, done, panic, ◌>>=◌, unwrap, add64}
use os_test.Display.Screen.{Screen, Color, draw_pixel, draw_all}

abbrev pub char_width : ℕ
char_width = 8

abbrev pub char_height : ℕ
char_height = 16

abbrev pub space_between_chars : ℕ
space_between_chars = 1

pub record Console (M : Type 0) : Type 0 where
  pub screen : Screen M
  pub cursor_pos : ℕ × ℕ
  pub bg_color : Color
  pub fg_color : Color

abbrev pub newline : ℕ
newline = 10

-- The line after the one at `y`, from the top again where the screen ends.
abbrev pub next_line : (height y : ℕ) → Outcome ℕ
next_line height y = do
  below ← add64 y char_height
  bottom ← add64 below char_height
  done (if ltb height bottom then 0 else below)

-- The cursor after a character was drawn at `x` and `y`.
abbrev pub next_pos : (width height x y : ℕ) → Outcome (ℕ × ℕ)
next_pos width height x y = do
  right ← add64 x (char_width + space_between_chars)
  edge ← add64 right char_width
  if ltb width edge then (do line ← next_line height y; done (0, line)) else done (right, y)

-- `font_bytes` are the bytes of the font file, `store` is that of the screen.
module _ {M : Type 0} (store : ℕ → ℕ → M → M) (font_bytes : List ℕ) where
  -- `Console::new`
  unfoldable pub new : Screen M → Color → Color → Outcome (Console M)
  new screen bg_color fg_color = do
    screen ← draw_all store screen bg_color
    done (record { screen = screen; cursor_pos = (0, 0); bg_color = bg_color; fg_color = fg_color })

  -- The loop of `draw_char` over `n` bits of a byte of the font, from bit `i` on.
  pub draw_bits : (n i display_byte x y : ℕ) → Color → Color → Screen M → Outcome (Screen M)
  draw_bits zero i display_byte x y fg_color bg_color s = done s
  draw_bits (suc n) i display_byte x y fg_color bg_color s = do
    let is_set = not (bit_and display_byte (1 <<< i) == 0)
    column ← add64 x (char_width - i)
    s ← draw_pixel store s column y (if is_set then fg_color else bg_color)
    draw_bits n (suc i) display_byte x y fg_color bg_color s

  -- Its loop over `n` rows, with the position in the font.
  pub draw_lines : (n pos x y : ℕ) → Color → Color → Screen M → Outcome (Screen M)
  unfolding draw_bits
  draw_lines zero pos x y fg_color bg_color s = done s
  draw_lines (suc n) pos x y fg_color bg_color s = do
    display_byte ← unwrap (get_elem? font_bytes pos)
    s ← draw_bits char_width 0 display_byte x y fg_color bg_color s
    below ← add64 y 1
    draw_lines n (pos + 1) x below fg_color bg_color s

  pub draw_char : Screen M → ℕ → ℕ → ℕ → Color → Color → Outcome (Screen M)
  unfolding draw_lines
  draw_char s c x y fg_color bg_color =
      draw_lines char_height (c * char_height) x y fg_color bg_color s

  pub print_char_colored : Console M → ℕ → Color → Color → Outcome (Console M)
  unfolding draw_char
  print_char_colored console c fg_color bg_color =
      let (x, y) = console.cursor_pos in
      let width = console.screen.width in
      let height = console.screen.height in
      if c == newline
      then (do line ← next_line height y; done (record console { cursor_pos = (0, line) }))
      else (do
        screen ← draw_char console.screen c x y fg_color bg_color
        moved ← next_pos width height x y
        done (record console { screen = screen; cursor_pos = moved }))

  pub print_char : Console M → ℕ → Outcome (Console M)
  unfolding print_char_colored
  print_char console c = print_char_colored console c console.fg_color console.bg_color

  unfoldable pub clear : Console M → Outcome (Console M)
  clear console = do
    screen ← draw_all store console.screen console.bg_color
    done (record console { cursor_pos = (0, 0); screen = screen })

  -- `write_str`: characters that are not ASCII are left out.
  pub write_str : Console M → List ℕ → Outcome (Console M)
  unfolding print_char
  write_str console [] = done console
  write_str console (c ∷ s) =
      if ltb c (2 ^ 7)
      then (do console ← print_char console c; write_str console s)
      else write_str console s
