-- ===== src/Display/Console/Drawing.antt =====
-- The drawing of a character of src/console.rs: its pixels lie on the screen, or it panics.
use native.Mathlib.Nat.{mul-le-mul_right}
use os_test.Prelude.{
  ℕ, zero, suc, ◌+◌, ◌-◌, ◌*◌, ◌^◌, ◌≤◌, ◌<◌, ◌≡◌, refl, ◌∙◌, false, ◌==◌, not, List, if◌then◌else◌,
  ltb, length, arith, Bool-cases, Option-cases, inl, inr, lt→ltb, get_elem?, get_elem?-below,
  bit_and, ◌<<<◌,
}
use os_test.Prelude.Outcome.{done, panic, add64}
use os_test.Display.Screen.{Screen, Color, draw_pixel, write_pixel}
use os_test.Display.Console.{draw_bits, draw_lines, draw_char}

-- The offsets of the pixels have 64 bits, and so have the sides with a character more.
pub record IsAddressable {M : Type 0} (s : Screen M) : Type 0 where
  pub area : s.width * s.bytes_per_pixel + s.height * s.bytes_per_row < 2 ^ 64
  pub across : s.width + 9 < 2 ^ 64
  pub down : s.height + 16 < 2 ^ 64

module _ {M : Type 0} (store : ℕ → ℕ → M → M) (font_bytes : List ℕ) where
  pub record SameSize (s s' : Screen M) : Type 0 where
    pub width : s'.width ≡ s.width
    pub height : s'.height ≡ s.height
    pub pixel : s'.bytes_per_pixel ≡ s.bytes_per_pixel
    pub row : s'.bytes_per_row ≡ s.bytes_per_row

  pub SameSize-refl : (s : Screen M) → SameSize s s
  SameSize-refl s = record { width = refl; height = refl; pixel = refl; row = refl }

  SameSize-trans : {s t u : Screen M} → SameSize s t → SameSize t u → SameSize s u
  SameSize-trans a b = record {
    width = b.width ∙ a.width;
    height = b.height ∙ a.height;
    pixel = b.pixel ∙ a.pixel;
    row = b.row ∙ a.row;
  }

  pub SameSize-IsAddressable :
      {s s' : Screen M} → SameSize s s' → IsAddressable s → IsAddressable s'
  SameSize-IsAddressable same a = record {
    area = rw (same.width, same.height, same.pixel, same.row) a.area;
    across = rw same.width a.across;
    down = rw same.height a.down;
  }

  draw_pixel-done :
      (s : Screen M) (x y : ℕ) (color : Color)
      → IsAddressable s
      → x < s.width
      → y < s.height
      → draw_pixel store s x y color
        ≡ done (write_pixel store s (x * s.bytes_per_pixel + y * s.bytes_per_row) color)
  unfolding draw_pixel
  draw_pixel-done s x y color a hx hy =
      let left : x ≤ s.width = omega (arith, hx) in
      let up : y ≤ s.height = omega (arith, hy) in
      let across = mul-le-mul_right s.bytes_per_pixel left in
      let down = mul-le-mul_right s.bytes_per_row up in
      rw
        (
          lt→ltb x s.width hx,
          lt→ltb y s.height hy,
          lt→ltb (x * s.bytes_per_pixel) (2 ^ 64) (omega (arith, a.area, across)),
          lt→ltb (y * s.bytes_per_row) (2 ^ 64) (omega (arith, a.area, down)),
          lt→ltb (x * s.bytes_per_pixel + y * s.bytes_per_row) (2 ^ 64)
              (omega (arith, a.area, across, down)),
        )
        refl

  draw_bits-done :
      (n i display_byte x y : ℕ) (fg_color bg_color : Color) (s : Screen M)
      → IsAddressable s
      → x + 8 < s.width
      → y < s.height
      → (s' : Screen M) × (draw_bits store font_bytes n i display_byte x y fg_color bg_color s
          ≡ done s')
        × SameSize s s'
  unfolding draw_bits
  draw_bits-done zero i b x y fg bg s a hx hy = (s, refl, SameSize-refl s)
  draw_bits-done (suc n) i b x y fg bg s a hx hy =
      let color = if not (bit_and b (1 <<< i) == 0) then fg else bg in
      let column : add64 x (8 - i) ≡ done (x + (8 - i)) = ground (arith, hx, a.across) in
      let drawn : Screen M =
        write_pixel store s ((x + (8 - i)) * s.bytes_per_pixel + y * s.bytes_per_row) color in
      let (s', e, same) =
        draw_bits-done n (suc i) b x y fg bg drawn
          (record { area = a.area; across = a.across; down = a.down }) hx hy in
      (
        s',
        rw (column, draw_pixel-done s (x + (8 - i)) y color a (omega (arith, hx)) hy) e,
        record { width = same.width; height = same.height; pixel = same.pixel; row = same.row },
      )

  draw_lines-done :
      (n pos x y : ℕ) (fg_color bg_color : Color) (s : Screen M)
      → IsAddressable s
      → pos + n ≤ length font_bytes
      → x + 8 < s.width
      → y + n ≤ s.height
      → (s' : Screen M) × (draw_lines store font_bytes n pos x y fg_color bg_color s ≡ done s')
        × SameSize s s'
  unfolding draw_lines
  draw_lines-done zero pos x y fg bg s a hp hx hy = (s, refl, SameSize-refl s)
  draw_lines-done (suc n) pos x y fg bg s a hp hx hy =
      let (b, found) = get_elem?-below font_bytes pos (omega (arith, hp)) in
      let (s', e, same) = draw_bits-done 8 0 b x y fg bg s a hx (omega (arith, hy)) in
      let below : add64 y 1 ≡ done (y + 1) = ground (arith, hy, a.down) in
      let (s'', e', same') =
        draw_lines-done n (pos + 1) x (y + 1) fg bg s' (SameSize-IsAddressable same a)
          (omega (arith, hp)) (omega (arith, hx, same.width)) (omega (arith, hy, same.height)) in
      (s'', rw (found, e, below) e', SameSize-trans same same')

  pub draw_char-done :
      (s : Screen M) (c x y : ℕ) (fg_color bg_color : Color)
      → IsAddressable s
      → length font_bytes ≡ 4096
      → c < 256
      → x + 8 < s.width
      → y + 16 ≤ s.height
      → (s' : Screen M) × (draw_char store font_bytes s c x y fg_color bg_color ≡ done s')
        × SameSize s s'
  unfolding draw_char
  draw_char-done s c x y fg bg a full hc hx hy =
      draw_lines-done 16 (c * 16) x y fg bg s a (omega (arith, full, hc)) hx hy

  draw_bits_at_edge :
      (n b x y : ℕ) (fg_color bg_color : Color) (s : Screen M)
      → x + 8 ≡ s.width
      → draw_bits store font_bytes (suc n) 0 b x y fg_color bg_color s ≡ panic
  unfolding draw_bits draw_pixel
  draw_bits_at_edge n b x y fg bg s edge =
      let outside : ltb (x + 8) s.width ≡ false = ground (arith, edge) in
      elim (Bool-cases (ltb (x + 8) (2 ^ 64))) [
        | inl small ↦ rw (small, outside) refl
        | inr large ↦ rw large refl
      ]

  pub draw_char_at_edge :
      (s : Screen M) (c x y : ℕ) (fg_color bg_color : Color)
      → x + 8 ≡ s.width
      → draw_char store font_bytes s c x y fg_color bg_color ≡ panic
  unfolding draw_char draw_lines
  draw_char_at_edge s c x y fg bg edge = elim (Option-cases (get_elem? font_bytes (c * 16))) [
    | inl missing ↦ rw missing refl
    | inr (b, found) ↦ rw (found, draw_bits_at_edge 7 b x y fg bg s edge) refl
  ]
