-- ===== src/Display/Screen.antt =====
-- src/screen.rs. The pixels are in the memory of the framebuffer: M is that memory, and `store`
-- writes 32 bits at an offset from its beginning.
use os_test.Prelude.{ℕ, zero, suc, ◌/◌, ltb, ◌&&◌}
use os_test.Prelude.Outcome.{Outcome, done, ◌>>=◌, ◌>>◌, assert, add64, mul64}

abbrev pub Color : Type 0
Color = ℕ

abbrev pub red : Color
red = 0xFF0000

abbrev pub green : Color
green = 0xFF00

abbrev pub blue : Color
blue = 0xFF

abbrev pub white : Color
white = 0xFFFFFF

abbrev pub black : Color
black = 0

-- What the boot loader says of the framebuffer.
pub record Framebuffer : Type 0 where
  pub width : ℕ
  pub height : ℕ
  pub bpp : ℕ
  pub pitch : ℕ

pub record Screen (M : Type 0) : Type 0 where
  pub framebuffer : M
  pub width : ℕ
  pub height : ℕ
  pub bytes_per_pixel : ℕ
  pub bytes_per_row : ℕ

-- `Screen::new`
abbrev pub new : {M : Type 0} → Framebuffer → M → Screen M
new framebuffer memory = record {
  framebuffer = memory;
  width = framebuffer.width;
  height = framebuffer.height;
  bytes_per_pixel = framebuffer.bpp / 8;
  bytes_per_row = framebuffer.pitch;
}

module _ {M : Type 0} (store : ℕ → ℕ → M → M) where
  abbrev pub write_pixel : Screen M → ℕ → Color → Screen M
  write_pixel s offset color = record s { framebuffer = store offset color s.framebuffer }

  unfoldable pub draw_pixel : Screen M → ℕ → ℕ → Color → Outcome (Screen M)
  draw_pixel s x y color = do
    assert (ltb x s.width && ltb y s.height)
    across ← mul64 x s.bytes_per_pixel
    down ← mul64 y s.bytes_per_row
    pixel_offset ← add64 across down
    done (write_pixel s pixel_offset color)

  -- The loop of `draw_all` over `n` pixels of a row.
  pub draw_row : (n offset : ℕ) → Color → Screen M → Outcome (Screen M)
  draw_row zero offset color s = done s
  draw_row (suc n) offset color s = do
    following ← add64 offset s.bytes_per_pixel
    draw_row n following color (write_pixel s offset color)

  -- Its loop over the `n` rows from row `y` on.
  pub draw_rows : (n y : ℕ) → Color → Screen M → Outcome (Screen M)
  unfolding draw_row
  draw_rows zero y color s = done s
  draw_rows (suc n) y color s = do
    offset ← mul64 y s.bytes_per_row
    s ← draw_row s.width offset color s
    draw_rows n (suc y) color s

  unfoldable pub draw_all : Screen M → Color → Outcome (Screen M)
  unfolding draw_rows
  draw_all s color = draw_rows s.height 0 color s
