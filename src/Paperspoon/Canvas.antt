-- ===== src/Paperspoon/Canvas.antt =====
-- tools/paperspoon/src/mono_renderer.rs: a Mono1 image that is drawn on.
pub mod Pixels
pub mod Fill
mod Tests
use Prim.Native.Nat.{bit_and, bit_or}
use rust_x11_hello.Prelude.{
  ℕ, zero, suc, ◌+◌, ◌-◌, ◌*◌, ◌/◌, ◌%◌, ◌^◌, ◌≡◌, List, [], ◌∷◌, Bool, true, false, ◌||◌, not, ltb,
  leb, ◌==◌, if◌then◌else◌, min, Result, ok, err, ◌>>=◌, ◌>>◌, guard, ok_or, replicate, length,
  get_or,
}
use rust_x11_hello.Protocol.Frame.{
  Mono1Pixel, black, white, Mono1Frame, Mono1FrameError, mono1_stride, mono1_payload_len, new_mono1,
}
use rust_x11_hello.Paperpad.Mxcfb.Memory.{set}

pub record MonoCanvas : Type 0 where
  pub width : ℕ
  pub height : ℕ
  pub stride : ℕ
  pub pixels : List ℕ

-- `MonoCanvas::new`
unfoldable pub new_canvas : ℕ → ℕ → Result Mono1FrameError MonoCanvas
new_canvas width height = do
  guard (not (width == 0 || height == 0)) (Mono1FrameError.zero_dimension width height)
  pixel_len ←
      ok_or (Mono1FrameError.payload_size_overflow width height) (mono1_payload_len width height)
  ok (record {
    width = width;
    height = height;
    stride = mono1_stride width;
    pixels = replicate pixel_len 0;
  })

-- `MonoCanvas::dimensions`
unfoldable pub canvas_dimensions : MonoCanvas → ℕ × ℕ
canvas_dimensions c = (c.width, c.height)

-- `self.pixels[(row + 1) * self.stride - 1] = visible_mask`, for each row, from `row` on with `rows`
-- left
unfoldable pub mask_rows : ℕ → ℕ → ℕ → ℕ → List ℕ → List ℕ
mask_rows visible_mask stride zero row pixels = pixels
mask_rows visible_mask stride (suc rows) row pixels =
    mask_rows visible_mask stride rows (row + 1) (set pixels ((row + 1) * stride - 1) visible_mask)

-- `MonoCanvas::clear`; the shift is of a byte.
unfoldable pub clear_canvas : MonoCanvas → Mono1Pixel → MonoCanvas
clear_canvas c white = record c { pixels = replicate (length c.pixels) 0 }
clear_canvas c black =
    let used_bits = c.width % 8 in
    let filled = replicate (length c.pixels) 255 in
    record c {
      pixels =
          if used_bits == 0
          then filled
          else mask_rows (255 * 2 ^ (8 - used_bits) % 256) c.stride c.height 0 filled;
    }

-- `&= !mask` and `|= mask`, on a byte
unfoldable pub coloured : Mono1Pixel → ℕ → ℕ → ℕ
coloured white byte mask = bit_and byte (255 - mask)
coloured black byte mask = bit_or byte mask

-- `MonoCanvas::set_pixel`
unfoldable pub set_pixel : MonoCanvas → ℕ → ℕ → Mono1Pixel → Bool × MonoCanvas
set_pixel c x y color =
    let byte = y * c.stride + x / 8 in
    let mask = 0x80 / 2 ^ (x % 8) in
    if leb c.width x || leb c.height y then (false, c) else (
      true,
      record c { pixels = set c.pixels byte (coloured color (get_or c.pixels byte 0) mask) },
    )

-- `for column in …`, from `column` on with `columns` left
unfoldable pub fill_columns : Mono1Pixel → ℕ → ℕ → ℕ → MonoCanvas → MonoCanvas
fill_columns color row zero column c = c
fill_columns color row (suc columns) column c =
    fill_columns color row columns (column + 1) (set_pixel c column row color).1

-- `for row in …`, over the columns `left..right`
unfoldable pub fill_rows : Mono1Pixel → ℕ → ℕ → ℕ → ℕ → MonoCanvas → MonoCanvas
fill_rows color left columns zero row c = c
fill_rows color left columns (suc rows) row c =
    fill_rows color left columns rows (row + 1) (fill_columns color row columns left c)

-- `MonoCanvas::fill_rect`; the sums are of `u32`s.
unfoldable pub fill_rect : MonoCanvas → ℕ → ℕ → ℕ → ℕ → Mono1Pixel → MonoCanvas
fill_rect c x y width height color =
    let right = min (x + width) c.width in
    let bottom = min (y + height) c.height in
    let left = min x right in
    let top = min y bottom in fill_rows color left (right - left) (bottom - top) top c

-- `u16::saturating_add`
abbrev pub saturating_add : ℕ → ℕ → ℕ
saturating_add a b = min (a + b) 65535

-- `MonoCanvas::outline_rect`
unfoldable pub outline_sides : MonoCanvas → ℕ → ℕ → ℕ → ℕ → Mono1Pixel → MonoCanvas
outline_sides c x y width height color =
    let left = fill_rect c x (saturating_add y 1) 1 (height - 2) color in
    let both =
      fill_rect left (saturating_add x (width - 1)) (saturating_add y 1) 1 (height - 2) color in
    if ltb 2 height then (if ltb 1 width then both else left) else c

unfoldable pub outline_rect : MonoCanvas → ℕ → ℕ → ℕ → ℕ → Mono1Pixel → MonoCanvas
outline_rect c x y width height color =
    let top = fill_rect c x y width 1 color in
    let bottom = fill_rect top x (saturating_add y (height - 1)) width 1 color in
    if width == 0 || height == 0
    then c
    else outline_sides (if ltb 1 height then bottom else top) x y width height color

-- `MonoCanvas::into_frame`
unfoldable pub into_frame : MonoCanvas → Result Mono1FrameError Mono1Frame
into_frame c = new_mono1 c.width c.height c.pixels
