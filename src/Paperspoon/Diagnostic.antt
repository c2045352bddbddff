-- ===== src/Paperspoon/Diagnostic.antt =====
-- tools/paperspoon/src/diagnostic.rs: the patterns that PaperSpoon draws to test a display.
pub mod Bits
pub mod Drawn
mod Mono
mod Grays
pub mod Built
pub mod Encoder
mod Tests
use Prim.Native.Nat.{bit_and, bit_or, bit_xor}
use rust_x11_hello.Prelude.Checked.{checked_add}
use rust_x11_hello.Prelude.{
  ℕ, zero, suc, ◌+◌, ◌-◌, ◌*◌, ◌/◌, ◌%◌, ◌^◌, ◌≡◌, List, [], ◌∷◌, ◌++◌, Bool, true, false, ◌&&◌,
  ◌||◌, Option, none, some, ltb, leb, ◌==◌, if◌then◌else◌, min, Result, ok, err, ◌>>=◌, ◌>>◌, guard,
  ok_or, map_err, replicate, get_or,
}
use rust_x11_hello.Protocol.Frame.{
  PixelFormat, mono1, gray8, Frame, mono1_frame, gray8_frame, mono1_stride, mono1_payload_len,
  gray8_payload_len, new_mono1, new_gray8,
}
use rust_x11_hello.Protocol.Message.{v2_max_payload_len}
use rust_x11_hello.Protocol.Payload.{v2_frame_prefix_len, encode_v2_frame}
use rust_x11_hello.Paperpad.Mxcfb.Memory.{set}

pub data DiagnosticPattern : Type 0 where
  white_pattern black_pattern horizontal checkerboard border corners gray_gradient gray_bars :
      DiagnosticPattern
  gray : ℕ → DiagnosticPattern

pub record DiagnosticFrame : Type 0 where
  pub pattern : DiagnosticPattern
  pub width : ℕ
  pub height : ℕ

pub data DiagnosticError : Type 0 where
  dimensions_overflow payload_too_large build_failed encode_failed : DiagnosticError

-- `DiagnosticPattern::pixel_format`
unfoldable pub pattern_format : DiagnosticPattern → PixelFormat
pattern_format white_pattern = mono1
pattern_format black_pattern = mono1
pattern_format horizontal = mono1
pattern_format checkerboard = mono1
pattern_format border = mono1
pattern_format corners = mono1
pattern_format gray_gradient = gray8
pattern_format gray_bars = gray8
pattern_format (gray value) = gray8

abbrev max_one : ℕ → ℕ
max_one n = if n == 0 then 1 else n

-- `saturating_sub` stops at 0 too.
unfoldable pub corner_marker : ℕ → ℕ → ℕ → ℕ → Bool
corner_marker x y width height =
    let largest = min (min width height) 256 in
    let top_right = max_one (largest * 3 / 4) in
    let bottom_left = max_one (largest / 2) in
    let bottom_right = max_one (largest / 4) in
    (ltb x largest && ltb y largest)
    || ((leb (width - top_right) x && ltb y top_right)
        || ((ltb x bottom_left && leb (height - bottom_left) y)
            || (leb (width - bottom_right) x && leb (height - bottom_right) y)))

-- The Gray8 patterns are never asked:
-- `unreachable!`.
unfoldable pub is_black : DiagnosticPattern → ℕ → ℕ → ℕ → ℕ → Bool
is_black white_pattern x y width height = false
is_black black_pattern x y width height = true
is_black horizontal x y width height = bit_and y 1 == 0
is_black checkerboard x y width height = bit_and (bit_xor x y) 1 == 0
is_black border x y width height = x == 0 || (y == 0 || (x == width - 1 || y == height - 1))
is_black corners x y width height = corner_marker x y width height
is_black gray_gradient x y width height = false
is_black gray_bars x y width height = false
is_black (gray value) x y width height = false

-- The casts are to a byte; the Mono1 patterns are never asked.
unfoldable pub gray8_value : DiagnosticPattern → ℕ → ℕ → ℕ
gray8_value gray_gradient x width = if width == 1 then 0 else x * 255 / (width - 1) % 256
gray8_value gray_bars x width = min (x * 16 / width) 15 * 17
gray8_value (gray value) x width = value
gray8_value white_pattern x width = 0
gray8_value black_pattern x width = 0
gray8_value horizontal x width = 0
gray8_value checkerboard x width = 0
gray8_value border x width = 0
gray8_value corners x width = 0

-- `pixels[byte] |= 0x80 >> (x % 8)`
unfoldable pub draw_black : ℕ → List ℕ → ℕ → ℕ → List ℕ
draw_black stride pixels x y =
    let byte = y * stride + x / 8 in
    set pixels byte (bit_or (get_or pixels byte 0) (0x80 / 2 ^ (x % 8)))

-- `if self.pattern.is_black(…)`
unfoldable pub draw_pixel : Bool → ℕ → List ℕ → ℕ → ℕ → List ℕ
draw_pixel false stride pixels x y = pixels
draw_pixel true stride pixels x y = draw_black stride pixels x y

-- `for x in 0..self.width`, from `x` on with `columns` left
unfoldable pub draw_columns : (ℕ → ℕ → Bool) → ℕ → ℕ → ℕ → ℕ → List ℕ → List ℕ
draw_columns black stride y zero x pixels = pixels
draw_columns black stride y (suc columns) x pixels =
    draw_columns black stride y columns (x + 1) (draw_pixel (black x y) stride pixels x y)

-- `for y in 0..self.height`
unfoldable pub draw_rows : (ℕ → ℕ → Bool) → ℕ → ℕ → ℕ → ℕ → List ℕ → List ℕ
draw_rows black stride width zero y pixels = pixels
draw_rows black stride width (suc rows) y pixels =
    draw_rows black stride width rows (y + 1) (draw_columns black stride y width 0 pixels)

-- `for (x, pixel) in row.iter_mut().enumerate()`
unfoldable pub gray_row : DiagnosticPattern → ℕ → ℕ → ℕ → List ℕ
gray_row pattern width zero x = []
gray_row pattern width (suc columns) x =
    gray8_value pattern x width ∷ gray_row pattern width columns (x + 1)

-- `for row in pixels.chunks_exact_mut(…)`: the buffer holds `height` rows, and the width is not 0,
-- since the command that asks for it is refused.
unfoldable pub gray_rows : DiagnosticPattern → ℕ → ℕ → List ℕ
gray_rows pattern width zero = []
gray_rows pattern width (suc rows) = gray_row pattern width width 0 ++ gray_rows pattern width rows

-- `match self.pixel_format()`, of the lengths
unfoldable pub diagnostic_payload_len : PixelFormat → ℕ → ℕ → Option ℕ
diagnostic_payload_len mono1 width height = mono1_payload_len width height
diagnostic_payload_len gray8 width height = gray8_payload_len width height

unfoldable pub build_mono1 : DiagnosticFrame → ℕ → Result DiagnosticError Frame
build_mono1 d pixel_bytes = do
  frame ←
      map_err (λ e. build_failed)
        (new_mono1 d.width d.height (
          draw_rows (λ x y. is_black d.pattern x y d.width d.height) (mono1_stride d.width) d.width
            d.height 0 (replicate pixel_bytes 0)))
  ok (mono1_frame frame)

unfoldable pub build_gray8 : DiagnosticFrame → Result DiagnosticError Frame
build_gray8 d = do
  frame ←
      map_err (λ e. build_failed)
        (new_gray8 d.width d.height (gray_rows d.pattern d.width d.height))
  ok (gray8_frame frame)

-- `match self.pixel_format()`, of the frames
unfoldable pub build_frame : DiagnosticFrame → PixelFormat → ℕ → Result DiagnosticError Frame
build_frame d mono1 pixel_bytes = build_mono1 d pixel_bytes
build_frame d gray8 pixel_bytes = build_gray8 d

-- `DiagnosticFrame::encode`
unfoldable pub encode_diagnostic_frame : DiagnosticFrame → ℕ → Result DiagnosticError (List ℕ)
encode_diagnostic_frame d frame_id = do
  let format = pattern_format d.pattern
  pixel_bytes ← ok_or dimensions_overflow (diagnostic_payload_len format d.width d.height)
  payload_bytes ← ok_or dimensions_overflow (checked_add 32 v2_frame_prefix_len pixel_bytes)
  guard (leb payload_bytes v2_max_payload_len) payload_too_large
  frame ← build_frame d format pixel_bytes
  map_err (λ e. encode_failed) (encode_v2_frame frame_id frame)
