-- ===== src/Paperspoon/GrayCanvas.antt =====
-- tools/paperspoon/src/gray_renderer.rs: a Gray8 image that is drawn on.
pub mod Fill
mod Tests
use rust_x11_hello.Prelude.Checked.{checked_add}
use rust_x11_hello.Prelude.{
  ℕ, zero, suc, ◌+◌, ◌-◌, ◌*◌, List, Bool, true, false, ◌||◌, not, ltb, leb, ◌==◌, if◌then◌else◌,
  min, Result, ok, err, ◌>>=◌, ◌>>◌, guard, ok_or, replicate,
}
use rust_x11_hello.Protocol.Frame.{checked_mul}
use rust_x11_hello.Protocol.Message.{v2_max_payload_len}
use rust_x11_hello.Protocol.Payload.{v2_frame_prefix_len}
use rust_x11_hello.Paperpad.Mxcfb.Memory.{set, write_rows}
use rust_x11_hello.Paperspoon.Canvas.{saturating_add}

pub record GrayCanvas : Type 0 where
  pub width : ℕ
  pub height : ℕ
  pub pixels : List ℕ

pub data GrayCanvasError : Type 0 where
  zero_target target_overflow target_too_large : GrayCanvasError

-- `GrayCanvas::new`
unfoldable pub new_gray_canvas : ℕ → ℕ → Result GrayCanvasError GrayCanvas
new_gray_canvas width height = do
  guard (not (width == 0 || height == 0)) zero_target
  pixel_bytes ← ok_or target_overflow (checked_mul width height)
  payload_bytes ← ok_or target_overflow (checked_add 32 v2_frame_prefix_len pixel_bytes)
  guard (leb payload_bytes v2_max_payload_len) target_too_large
  ok (record { width = width; height = height; pixels = replicate pixel_bytes 255 })

-- `GrayCanvas::dimensions`
unfoldable pub gray_canvas_dimensions : GrayCanvas → ℕ × ℕ
gray_canvas_dimensions c = (c.width, c.height)

-- `GrayCanvas::set_pixel`
unfoldable pub set_gray_pixel : GrayCanvas → ℕ → ℕ → ℕ → Bool × GrayCanvas
set_gray_pixel c x y luminance =
    if leb c.width x || leb c.height y
    then (false, c)
    else (true, record c { pixels = set c.pixels (y * c.width + x) luminance })

-- `GrayCanvas::fill_rect`; `self.pixels[start..end].fill(luminance)` stores `end - start` bytes.
unfoldable pub fill_gray_rect : GrayCanvas → ℕ → ℕ → ℕ → ℕ → ℕ → GrayCanvas
fill_gray_rect c x y width height luminance =
    let right = min (x + width) c.width in
    let bottom = min (y + height) c.height in
    let left = min x c.width in
    let top = min y bottom in
    record c {
      pixels =
          write_rows (λ row. row * c.width + left) (λ row. replicate (right - left) luminance)
            (bottom - top) top c.pixels;
    }

-- `GrayCanvas::outline_rect`
unfoldable pub outline_gray_sides : GrayCanvas → ℕ → ℕ → ℕ → ℕ → ℕ → GrayCanvas
outline_gray_sides c x y width height luminance =
    let left = fill_gray_rect c x (saturating_add y 1) 1 (height - 2) luminance in
    if ltb 2 height
    then fill_gray_rect left (saturating_add x (width - 1)) (saturating_add y 1) 1 (height - 2)
        luminance
    else c

unfoldable pub outline_gray_rect : GrayCanvas → ℕ → ℕ → ℕ → ℕ → ℕ → GrayCanvas
outline_gray_rect c x y width height luminance =
    let top = fill_gray_rect c x y width 1 luminance in
    let bottom = fill_gray_rect top x (saturating_add y (height - 1)) width 1 luminance in
    if width == 0 || height == 0
    then c
    else outline_gray_sides (if ltb 1 height then bottom else top) x y width height luminance
