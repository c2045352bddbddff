-- ===== src/Paperpad/Mxcfb/SystemPixels.antt =====
-- src/mxcfb/system_pixels.rs: the pixels of the strip with Exit and the connection indicator.
pub mod Loops
pub mod Drawn
pub mod Strip
use Prim.Native.Nat.{bit_and}
use rust_x11_hello.Prelude.{
  ℕ, zero, suc, ◌+◌, ◌-◌, ◌*◌, ◌/◌, ◌^◌, ◌≡◌, List, [], ◌∷◌, Bool, true, false, ◌&&◌, ◌||◌, not,
  Option, none, some, Result, ok, err, ◌>>=◌, ◌>>◌, guard, ok_or, ltb, leb, ◌==◌, min, max,
  if◌then◌else◌, replicate,
}
use rust_x11_hello.Prelude.Checked.{checked_times}
use rust_x11_hello.Paperpad.Ui.Screen.{ScreenRect, ScreenLayout, system_ui_height}
use rust_x11_hello.Paperpad.Ui.System.{LogicalRect, exit_bounds, connection_indicator_bounds}
use rust_x11_hello.Paperpad.Mxcfb.Memory.{set, write_bytes}
use rust_x11_hello.Paperpad.Mxcfb.Mapped.{SystemUiPixels}

abbrev pub border_thickness : ℕ
border_thickness = 2

abbrev pub max_glyph_scale : ℕ
max_glyph_scale = 5

abbrev pub glyph_width : ℕ
glyph_width = 5

abbrev pub glyph_height : ℕ
glyph_height = 7

abbrev pub text_units : ℕ
text_units = 4 * glyph_width + 3

-- E, X, I and T
abbrev pub exit_glyphs : List (List ℕ)
exit_glyphs =
    (31 ∷ 16 ∷ 16 ∷ 30 ∷ 16 ∷ 16 ∷ 31 ∷ [])
    ∷ (17 ∷ 17 ∷ 10 ∷ 4 ∷ 10 ∷ 17 ∷ 17 ∷ [])
    ∷ (31 ∷ 4 ∷ 4 ∷ 4 ∷ 4 ∷ 4 ∷ 31 ∷ [])
    ∷ (31 ∷ 4 ∷ 4 ∷ 4 ∷ 4 ∷ 4 ∷ 4 ∷ [])
    ∷ []

pub data RasterError : Type 0 where
  no_exit incomplete_strip length_overflow : RasterError

-- `for i in i..i + rounds`
unfoldable pub for_range : ℕ → ℕ → (ℕ → List ℕ → List ℕ) → List ℕ → List ℕ
for_range i zero body bytes = bytes
for_range i (suc rounds) body bytes = for_range (i + 1) rounds body (body i bytes)

-- A pixel of Exit at column `dx` and row `dy` of it is in the border.
unfoldable pub in_border : ℕ → ℕ → ℕ → ℕ → Bool
in_border width height dx dy =
    ltb dx border_thickness
    || (ltb (width - 1 - dx) border_thickness
        || (ltb dy border_thickness || ltb (height - 1 - dy) border_thickness))

-- The two loops over the pixels of Exit, counted from its corner
unfoldable pub draw_border : ℕ → ℕ → ℕ → ℕ → ℕ → List ℕ → List ℕ
draw_border stride left top width height bytes =
    for_range 0 height
      (λ dy. for_range 0 width λ dx bytes.
        if in_border width height dx dy
        then set bytes ((top + dy) * stride + (left + dx)) 0x00
        else bytes)
      bytes

-- `.fill(BLACK)` on `scale` rows of `scale` pixels
unfoldable pub fill_square : ℕ → ℕ → ℕ → ℕ → List ℕ → List ℕ
fill_square stride scale x y bytes =
    for_range y scale
      (λ pixel_y bytes. write_bytes bytes (pixel_y * stride + x) (replicate scale 0x00)) bytes

-- A row of a glyph: its pixels from the left
unfoldable pub draw_glyph_row : ℕ → ℕ → ℕ → ℕ → ℕ → List ℕ → List ℕ
draw_glyph_row stride scale left y row bytes =
    for_range 0 glyph_width
      (λ glyph_x bytes.
        if bit_and row (2 ^ (glyph_width - 1 - glyph_x)) == 0
        then bytes
        else fill_square stride scale (left + glyph_x * scale) y bytes)
      bytes

unfoldable pub draw_glyph : ℕ → ℕ → ℕ → ℕ → List ℕ → List ℕ → List ℕ
draw_glyph stride scale left y [] bytes = bytes
draw_glyph stride scale left y (row ∷ rows) bytes =
    draw_glyph stride scale left (y + scale) rows (draw_glyph_row stride scale left y row bytes)

unfoldable pub draw_glyphs : ℕ → ℕ → ℕ → ℕ → List (List ℕ) → List ℕ → List ℕ
draw_glyphs stride scale left y [] bytes = bytes
draw_glyphs stride scale left y (glyph ∷ glyphs) bytes =
    draw_glyphs stride scale (left + (glyph_width + 1) * scale) y glyphs
      (draw_glyph stride scale left y glyph bytes)

abbrev pub glyph_scale : ℕ → ℕ
glyph_scale width = min max_glyph_scale ((width - 2 * border_thickness) / text_units)

unfoldable pub draw_text : ℕ → ℕ → ℕ → ℕ → ℕ → List ℕ → List ℕ
draw_text stride left top width height bytes =
    let scale = glyph_scale width in
    let text_left = left + (width - text_units * scale) / 2 in
    let text_top = top + (height - glyph_height * scale) / 2 in
    let text = draw_glyphs stride scale text_left text_top exit_glyphs bytes in
    if ltb 0 scale then text else bytes

-- `(2 * x + 1) as isize - diameter as isize`, of which only the square is used
abbrev pub from_centre : ℕ → ℕ → ℕ
from_centre x diameter = max (2 * x + 1) diameter - min (2 * x + 1) diameter

unfoldable pub in_indicator : Bool → ℕ → ℕ → ℕ → Bool
in_indicator connected diameter x y =
    let dx = from_centre x diameter in
    let dy = from_centre y diameter in
    let inner_diameter = diameter - border_thickness * 2 in
    let distance_squared = dx * dx + dy * dy in
    leb distance_squared (diameter * diameter)
    && (connected || not (ltb distance_squared (inner_diameter * inner_diameter)))

unfoldable pub draw_indicator : Bool → ℕ → ℕ → ℕ → ℕ → List ℕ → List ℕ
draw_indicator connected stride left top diameter bytes =
    for_range 0 diameter
      (λ y. for_range 0 diameter λ x bytes.
        if in_indicator connected diameter x y
        then set bytes ((top + y) * stride + left + x) 0x00
        else bytes)
      bytes

unfoldable pub draw_if_present : Bool → ScreenRect → Option LogicalRect → List ℕ → List ℕ
draw_if_present connected region none bytes = bytes
draw_if_present connected region (some indicator) bytes =
    draw_indicator connected region.width (indicator.x - region.x) (indicator.y - region.y)
      indicator.width bytes

-- The bytes of a white strip with everything drawn
unfoldable pub strip_pixels : Bool → ScreenRect → LogicalRect → Option LogicalRect → ℕ → List ℕ
strip_pixels connected region bounds indicator len =
    let left = bounds.x - region.x in
    let top = bounds.y - region.y in
    draw_if_present connected region indicator (
      draw_text region.width left top bounds.width bounds.height
        (draw_border region.width left top bounds.width bounds.height (replicate len 0xff)))

-- The reservation of the bytes is taken to succeed.
unfoldable pub rasterize_system_ui : ScreenLayout → Bool → Result RasterError SystemUiPixels
rasterize_system_ui screen connected = do
  let region = screen.system_ui_region
  bounds ← ok_or no_exit (exit_bounds screen.physical_size.0 screen.physical_size.1)
  guard (region.height == system_ui_height) incomplete_strip
  len ← ok_or length_overflow (checked_times 32 region.width region.height)
  ok (record {
    region = region;
    stride = region.width;
    bytes =
        strip_pixels connected region bounds
          (connection_indicator_bounds screen.physical_size.0 screen.physical_size.1) len;
  })
