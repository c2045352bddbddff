-- ===== src/Paperspoon/Diagnostic/Built.antt =====
-- DiagnosticFrame::encode: the frame that is built is a valid one, and each pixel is the pattern's.
use rust_x11_hello.Prelude.{
  ℕ, ◌+◌, ◌*◌, ◌^◌, ◌<◌, ◌≤◌, ◌≡◌, ◌∙◌, refl, sym, ap, arith, List, length, Bool, if◌then◌else◌,
  get_or, some, ok, err, map_err,
}
use rust_x11_hello.Prelude.Bytes.{IsU16, IsU64}
use rust_x11_hello.Protocol.Frame.{
  PixelFormat, mono1, gray8, black, white, Mono1Frame, Gray8Frame, Frame, mono1_frame, gray8_frame,
  mono1_stride, new_mono1, new_gray8, mono1_pixel, gray8_pixel, frame_width, frame_height,
  frame_pixel_format, frame_stride, frame_pixels, validate_gray8_pixels, gray8_stride,
}
use rust_x11_hello.Protocol.Frame.Validity.{
  mono1_payload_len-eq, gray8_payload_len-eq, product_fits, mono1_stride-le,
  validate_mono1_pixels_iff, validate_gray8_pixels_iff,
}
use rust_x11_hello.Protocol.Frame.Owned.{IsFrame}
use rust_x11_hello.Protocol.Payload.RoundTrip.{Carries, frame_view, decode-encode_frame}
use rust_x11_hello.Paperspoon.Diagnostic.{
  DiagnosticFrame, is_black, gray8_value, gray_rows, build_mono1, build_gray8, build_frame,
  diagnostic_payload_len, encode_diagnostic_frame, pattern_format, payload_too_large, encode_failed,
}
use rust_x11_hello.Protocol.Message.{v2_max_payload_len}
use rust_x11_hello.Protocol.Payload.{encode_v2_frame, frame_payload}
use rust_x11_hello.Paperspoon.Diagnostic.Mono.{
  drawn, drawn-validated, drawn_self, mono1_drawn, drawn-IsU8, length-drawn,
}
use rust_x11_hello.Paperspoon.Diagnostic.Grays.{
  IsBytePattern, gray_rows-IsU8, gray_rows_at, length-gray_rows,
}

-- What a diagnostic frame shows at a point
abbrev pub Shows : DiagnosticFrame → ℕ → ℕ → Frame → Type 0
Shows d x y (mono1_frame f) =
    mono1_pixel f x y ≡ some (if is_black d.pattern x y d.width d.height then black else white)
Shows d x y (gray8_frame f) = gray8_pixel f x y ≡ some (gray8_value d.pattern x d.width)

pub record IsDiagnostic (d : DiagnosticFrame) (frame : Frame) : Type 0 where
  pub width : frame_width frame ≡ d.width
  pub height : frame_height frame ≡ d.height
  pub format : frame_pixel_format frame ≡ pattern_format d.pattern
  pub valid : IsFrame frame
  pub shows : (x y : ℕ) → x < d.width → y < d.height → Shows d x y frame

-- The bytes of the image, for a format
abbrev pub image_len : PixelFormat → ℕ → ℕ → ℕ
image_len mono1 width height = mono1_stride width * height
image_len gray8 width height = width * height

module _ (d : DiagnosticFrame) (wide : 0 < d.width) (high : 0 < d.height) (hw : IsU16 d.width)
    (hh : IsU16 d.height) (byte : IsBytePattern d.pattern) where
  abbrev black_at : ℕ → ℕ → Bool
  black_at x y = is_black d.pattern x y d.width d.height

  built_mono1 :
      pattern_format d.pattern ≡ mono1
      → (frame : Frame) × IsDiagnostic d frame
        × (length (frame_pixels frame) ≡ mono1_stride d.width * d.height)
        × (build_frame d mono1 (mono1_stride d.width * d.height) ≡ ok frame)
  unfolding build_frame build_mono1 new_mono1 frame_width frame_height frame_pixel_format
      frame_stride frame_pixels
  built_mono1 e =
      let f : Mono1Frame = record {
        width = d.width;
        height = d.height;
        stride = mono1_stride d.width;
        pixels = drawn black_at d.width d.height wide;
      } in
      (
        mono1_frame f,
        record {
          width = refl;
          height = refl;
          format = sym e;
          valid = record {
            width16 = hw;
            height16 = hh;
            bytes = drawn-IsU8 black_at d.width d.height wide;
            image =
                (validate_mono1_pixels_iff d.width d.height f.pixels hw hh
                    (drawn-IsU8 black_at d.width d.height wide) f.stride).0
                  (drawn-validated black_at d.width d.height wide high hw hh);
          };
          shows = λ x y hx hy.
              mono1_drawn black_at f x y hx hy
                (drawn_self black_at d.width d.height wide x y hx hy);
        },
        length-drawn black_at d.width d.height wide,
        rw (drawn-validated black_at d.width d.height wide high hw hh) refl,
      )

  gray_shown :
      (f : Gray8Frame) (x y : ℕ)
      → x < f.width
      → y < f.height
      → get_or f.pixels (y * f.stride + x) 0 ≡ gray8_value d.pattern x d.width
      → gray8_pixel f x y ≡ some (gray8_value d.pattern x d.width)
  unfolding gray8_pixel
  gray_shown f x y hx hy e = ground (arith, e)

  gray_validated :
      validate_gray8_pixels d.width d.height (gray_rows d.pattern d.width d.height) ≡ ok d.width
  unfolding validate_gray8_pixels gray8_stride
  gray_validated = ground (
    arith,
    gray8_payload_len-eq d.width d.height hw hh,
    length-gray_rows d.pattern d.width d.height,
  )

  built_gray8 :
      pattern_format d.pattern ≡ gray8
      → (frame : Frame) × IsDiagnostic d frame
        × (length (frame_pixels frame) ≡ d.width * d.height)
        × (build_frame d gray8 (d.width * d.height) ≡ ok frame)
  unfolding build_frame build_gray8 new_gray8 frame_width frame_height frame_pixel_format
      frame_stride frame_pixels
  built_gray8 e =
      let f : Gray8Frame = record {
        width = d.width;
        height = d.height;
        stride = d.width;
        pixels = gray_rows d.pattern d.width d.height;
      } in
      (
        gray8_frame f,
        record {
          width = refl;
          height = refl;
          format = sym e;
          valid = record {
            width16 = hw;
            height16 = hh;
            bytes = gray_rows-IsU8 d.pattern d.width d.height byte;
            image =
                (validate_gray8_pixels_iff d.width d.height f.stride f.pixels hw hh).0
                  gray_validated;
          };
          shows = λ x y hx hy.
              gray_shown f x y hx hy (gray_rows_at d.pattern d.width d.height x y hx hy);
        },
        length-gray_rows d.pattern d.width d.height,
        rw gray_validated refl,
      )

  built :
      (format : PixelFormat)
      → pattern_format d.pattern ≡ format
      → (frame : Frame) × IsDiagnostic d frame
        × (length (frame_pixels frame) ≡ image_len format d.width d.height)
        × (build_frame d format (image_len format d.width d.height) ≡ ok frame)
  built mono1 e = built_mono1 e
  built gray8 e = built_gray8 e

  payload_len-eq :
      (format : PixelFormat)
      → (diagnostic_payload_len format d.width d.height ≡ some (image_len format d.width d.height))
        × (16 + image_len format d.width d.height < 2 ^ 32)
  unfolding diagnostic_payload_len
  payload_len-eq mono1 = (
    mono1_payload_len-eq d.width d.height hw hh,
    product_fits (mono1_stride d.width) d.height (mono1_stride-le d.width hw) hh,
  )
  payload_len-eq gray8 =
      (gray8_payload_len-eq d.width d.height hw hh, product_fits d.width d.height hw hh)

  encoded :
      (frame : Frame) (frame_id : ℕ)
      → build_frame d
          (pattern_format d.pattern)
          (image_len (pattern_format d.pattern) d.width d.height)
        ≡ ok frame
      → 16 + image_len (pattern_format d.pattern) d.width d.height ≤ v2_max_payload_len
      → encode_diagnostic_frame d frame_id
        ≡ map_err (λ e. encode_failed) (encode_v2_frame frame_id frame)
  unfolding encode_diagnostic_frame
  encoded frame frame_id e fits =
      let (len, small) = payload_len-eq (pattern_format d.pattern) in
      ground (arith, len, small, fits, e)

  too_large :
      (frame_id : ℕ)
      → v2_max_payload_len < 16 + image_len (pattern_format d.pattern) d.width d.height
      → encode_diagnostic_frame d frame_id ≡ err payload_too_large
  unfolding encode_diagnostic_frame
  too_large frame_id large =
      let (len, small) = payload_len-eq (pattern_format d.pattern) in
      ground (arith, len, small, large)

-- A diagnostic frame with no empty dimension, whose gray value is a byte and whose payload is not too
-- large, is built as a valid frame of its dimensions and its format, in which each pixel is the one of
-- the pattern. Encoding it under a 64-bit number succeeds, and from any buffer that begins with its
-- bytes exactly this frame is decoded, under this number. A larger one is refused.
pub encode_diagnostic_frame_lem :
    (d : DiagnosticFrame) (frame_id : ℕ)
    → 0 < d.width
    → 0 < d.height
    → IsU16 d.width
    → IsU16 d.height
    → IsBytePattern d.pattern
    → IsU64 frame_id
    → (16 + image_len (pattern_format d.pattern) d.width d.height ≤ v2_max_payload_len
        → (frame : Frame) × IsDiagnostic d frame
          × ((bytes : List ℕ) × (encode_diagnostic_frame d frame_id ≡ ok bytes)
              × Carries bytes (frame_payload (frame_view frame_id frame))))
      × (v2_max_payload_len < 16 + image_len (pattern_format d.pattern) d.width d.height
          → encode_diagnostic_frame d frame_id ≡ err payload_too_large)
encode_diagnostic_frame_lem d frame_id wide high hw hh byte id64 = (
  λ fits.
      let (frame, is, len, e) = built d wide high hw hh byte (pattern_format d.pattern) refl in
      let (bytes, made, carried) = decode-encode_frame frame_id frame id64 is.valid (rw len fits) in
      (
        frame,
        is,
        (
          bytes,
          encoded d wide high hw hh byte frame frame_id e fits
              ∙ ap (λ r. map_err (λ e. encode_failed) r) made,
          carried,
        ),
      ),
  too_large d wide high hw hh byte frame_id,
)
