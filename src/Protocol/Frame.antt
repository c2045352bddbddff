-- ===== src/Protocol/Frame.antt =====
-- crates/paper-protocol/src/framebuffer.rs: validated Mono1 and Gray8 frames.
pub mod Masks
pub mod Validity
pub mod Pixels
pub mod Owned
mod Tests
use rust_x11_hello.Prelude.{
  ℕ, zero, suc, ◌+◌, ◌-◌, ◌*◌, ◌/◌, ◌%◌, ◌^◌, List, Bool, ◌||◌, Option, none, some, if◌then◌else◌,
  ltb, leb, ◌==◌, length, get_or, Result, ok, err, ◌>>=◌, ◌>>◌, guard, map_ok, map_err, ok_or,
}
use Prim.Native.Nat.{bit_and}

pub data PixelFormat : Type 0 where
  mono1 gray8 : PixelFormat

pub data Mono1Pixel : Type 0 where
  white black : Mono1Pixel

pub data Mono1FrameError : Type 0 where
  zero_dimension : (width height : ℕ) → Mono1FrameError
  payload_size_overflow : (width height : ℕ) → Mono1FrameError
  payload_length : (expected actual : ℕ) → Mono1FrameError
  non_white_padding : (row byte : ℕ) → Mono1FrameError

pub data Gray8FrameError : Type 0 where
  zero_dimension : (width height : ℕ) → Gray8FrameError
  payload_size_overflow : (width height : ℕ) → Gray8FrameError
  payload_length : (expected actual : ℕ) → Gray8FrameError

pub data FrameError : Type 0 where
  mono1_error : Mono1FrameError → FrameError
  gray8_error : Gray8FrameError → FrameError

-- `usize` of the 32-bit Kindle, the smaller of the program's two targets.
abbrev pub usize_mod : ℕ
usize_mod = 2 ^ 32

-- `usize::checked_mul`
unfoldable pub checked_mul : ℕ → ℕ → Option ℕ
checked_mul a b = if ltb (a * b) usize_mod then some (a * b) else none

-- `usize::from(width).div_ceil(8)`
unfoldable pub mono1_stride : ℕ → ℕ
mono1_stride width = if width % 8 == 0 then width / 8 else width / 8 + 1

unfoldable pub mono1_payload_len : ℕ → ℕ → Option ℕ
mono1_payload_len width height = checked_mul (mono1_stride width) height

unfoldable pub gray8_stride : ℕ → ℕ
gray8_stride width = width

unfoldable pub gray8_payload_len : ℕ → ℕ → Option ℕ
gray8_payload_len width height = checked_mul (gray8_stride width) height

-- `!(u8::MAX << (8 - used_bits))`, on `u8`
unfoldable pub padding_mask : ℕ → ℕ
padding_mask used_bits = 255 - 255 * 2 ^ (8 - used_bits) % 256

-- `for row in 0..height`, from `row` on with `rows` rounds left
unfoldable pub check_padding : ℕ → ℕ → List ℕ → ℕ → ℕ → Result Mono1FrameError (Unit {0})
check_padding mask stride pixels zero row = ok tt
check_padding mask stride pixels (suc rows) row =
    let rest = check_padding mask stride pixels rows (row + 1) in
    let final_byte = get_or pixels ((row + 1) * stride - 1) 0 in
    if bit_and final_byte mask == 0 then rest else err (non_white_padding row final_byte)

unfoldable pub validate_mono1_pixels : ℕ → ℕ → List ℕ → Result Mono1FrameError ℕ
validate_mono1_pixels width height pixels =
    if width == 0 || height == 0 then err (Mono1FrameError.zero_dimension width height) else do
      let stride = mono1_stride width
      expected ←
          ok_or (Mono1FrameError.payload_size_overflow width height)
            (mono1_payload_len width height)
      guard (length pixels == expected) (Mono1FrameError.payload_length expected (length pixels))
      if width % 8 == 0
          then ok tt
          else check_padding (padding_mask (width % 8)) stride pixels height 0
      ok stride

unfoldable pub validate_gray8_pixels : ℕ → ℕ → List ℕ → Result Gray8FrameError ℕ
validate_gray8_pixels width height pixels =
    if width == 0 || height == 0 then err (Gray8FrameError.zero_dimension width height) else do
      let stride = gray8_stride width
      expected ←
          ok_or (Gray8FrameError.payload_size_overflow width height)
            (gray8_payload_len width height)
      guard (length pixels == expected) (Gray8FrameError.payload_length expected (length pixels))
      ok stride

pub record Mono1Frame : Type 0 where
  pub width : ℕ
  pub height : ℕ
  pub stride : ℕ
  pub pixels : List ℕ

pub record Gray8Frame : Type 0 where
  pub width : ℕ
  pub height : ℕ
  pub stride : ℕ
  pub pixels : List ℕ

-- `Mono1Frame::new`
unfoldable pub new_mono1 : ℕ → ℕ → List ℕ → Result Mono1FrameError Mono1Frame
new_mono1 width height pixels = do
  stride ← validate_mono1_pixels width height pixels
  ok (record { width = width; height = height; stride = stride; pixels = pixels })

-- `Gray8Frame::new`
unfoldable pub new_gray8 : ℕ → ℕ → List ℕ → Result Gray8FrameError Gray8Frame
new_gray8 width height pixels = do
  stride ← validate_gray8_pixels width height pixels
  ok (record { width = width; height = height; stride = stride; pixels = pixels })

-- `Mono1Frame::pixel`
unfoldable pub mono1_pixel : Mono1Frame → ℕ → ℕ → Option Mono1Pixel
mono1_pixel f x y =
    if leb f.width x || leb f.height y
    then none
    else let byte = get_or f.pixels (y * f.stride + x / 8) 0 in
      let mask = 0x80 / 2 ^ (x % 8) in some (if bit_and byte mask == 0 then white else black)

-- `Gray8Frame::pixel`
unfoldable pub gray8_pixel : Gray8Frame → ℕ → ℕ → Option ℕ
gray8_pixel f x y =
    if leb f.width x || leb f.height y then none else some (get_or f.pixels (y * f.stride + x) 0)

pub data Frame : Type 0 where
  mono1_frame : Mono1Frame → Frame
  gray8_frame : Gray8Frame → Frame

-- `Frame::new`
unfoldable pub new_frame : ℕ → ℕ → PixelFormat → List ℕ → Result FrameError Frame
new_frame width height mono1 pixels =
    map_err mono1_error (map_ok mono1_frame (new_mono1 width height pixels))
new_frame width height gray8 pixels =
    map_err gray8_error (map_ok gray8_frame (new_gray8 width height pixels))

unfoldable pub frame_width : Frame → ℕ
frame_width (mono1_frame f) = f.width
frame_width (gray8_frame f) = f.width

unfoldable pub frame_height : Frame → ℕ
frame_height (mono1_frame f) = f.height
frame_height (gray8_frame f) = f.height

unfoldable pub frame_pixel_format : Frame → PixelFormat
frame_pixel_format (mono1_frame f) = mono1
frame_pixel_format (gray8_frame f) = gray8

unfoldable pub frame_stride : Frame → ℕ
frame_stride (mono1_frame f) = f.stride
frame_stride (gray8_frame f) = f.stride

unfoldable pub frame_pixels : Frame → List ℕ
frame_pixels (mono1_frame f) = f.pixels
frame_pixels (gray8_frame f) = f.pixels
