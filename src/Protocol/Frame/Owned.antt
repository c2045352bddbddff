-- ===== src/Protocol/Frame/Owned.antt =====
-- `Frame`: a valid image in either format.
use rust_x11_hello.Prelude.{ℕ, ◌≡◌, refl, arith, List, All, ok, ◌<◌, length, ◌+◌}
use rust_x11_hello.Prelude.Bytes.{IsU8, IsU16}
use rust_x11_hello.Protocol.Frame.{
  PixelFormat, mono1, gray8, Frame, mono1_frame, gray8_frame, new_mono1, new_gray8, new_frame,
  frame_width, frame_height, frame_stride, frame_pixel_format, frame_pixels, usize_mod,
  validate_mono1_pixels, validate_gray8_pixels,
}
use rust_x11_hello.Protocol.Frame.Validity.{
  IsMono1, IsGray8, validate_mono1_pixels_iff, validate_gray8_pixels_iff, product_fits,
  mono1_stride-le,
}

abbrev pub IsImage : PixelFormat → ℕ → ℕ → ℕ → List ℕ → Type 0
IsImage mono1 = IsMono1
IsImage gray8 = IsGray8

-- A frame of byte pixels and 16-bit dimensions whose image is valid.
pub record IsFrame (f : Frame) : Type 0 where
  pub width16 : IsU16 (frame_width f)
  pub height16 : IsU16 (frame_height f)
  pub bytes : All IsU8 (frame_pixels f)
  pub image :
      IsImage
        (frame_pixel_format f)
        (frame_width f)
        (frame_height f)
        (frame_stride f)
        (frame_pixels f)

-- Of bytes and 16-bit dimensions, `Frame::new` returns only valid frames, with the format, dimensions
-- and pixels that it was given.
pub new_frame-IsFrame :
    (w h : ℕ) (format : PixelFormat) (pixels : List ℕ) {f : Frame}
    → IsU16 w
    → IsU16 h
    → All IsU8 pixels
    → new_frame w h format pixels ≡ ok f
    → IsFrame f
      × (frame_width f ≡ w)
      × (frame_height f ≡ h)
      × (frame_pixel_format f ≡ format)
      × (frame_pixels f ≡ pixels)
unfolding new_frame new_mono1 new_gray8 frame_width frame_height frame_pixel_format frame_pixels
    frame_stride
new_frame-IsFrame w h mono1 pixels {f = mono1_frame f} hw hh bytes e =
    let fields : (f.width ≡ w)
        × (f.height ≡ h)
        × (f.pixels ≡ pixels)
        × (validate_mono1_pixels w h pixels ≡ ok f.stride) =
      ground arith in
    let v : IsMono1 w h f.stride pixels =
      (validate_mono1_pixels_iff w h pixels hw hh bytes f.stride).0 fields.3 in
    let (ew, eh, ep, es) = fields in
    (
      record {
        width16 = rw ew hw;
        height16 = rw eh hh;
        bytes = rw ep bytes;
        image = rw (ew, eh, ep) v;
      },
      ew,
      eh,
      refl,
      ep,
    )
new_frame-IsFrame w h mono1 pixels {f = gray8_frame f} hw hh bytes e = absurd (ground arith)
new_frame-IsFrame w h gray8 pixels {f = mono1_frame f} hw hh bytes e = absurd (ground arith)
new_frame-IsFrame w h gray8 pixels {f = gray8_frame f} hw hh bytes e =
    let fields : (f.width ≡ w)
        × (f.height ≡ h)
        × (f.pixels ≡ pixels)
        × (validate_gray8_pixels w h pixels ≡ ok f.stride) =
      ground arith in
    let v : IsGray8 w h f.stride pixels =
      (validate_gray8_pixels_iff w h f.stride pixels hw hh).0 fields.3 in
    let (ew, eh, ep, es) = fields in
    (
      record {
        width16 = rw ew hw;
        height16 = rw eh hh;
        bytes = rw ep bytes;
        image = rw (ew, eh, ep) v;
      },
      ew,
      eh,
      refl,
      ep,
    )

-- A valid frame is what `Frame::new` makes of its own parts.
pub new_frame_self :
    (f : Frame)
    → IsFrame f
    → new_frame (frame_width f) (frame_height f) (frame_pixel_format f) (frame_pixels f) ≡ ok f
unfolding new_frame new_mono1 new_gray8 frame_width frame_height frame_pixel_format frame_pixels
    frame_stride
new_frame_self (mono1_frame f) v = ground (
  arith,
  (validate_mono1_pixels_iff f.width f.height f.pixels v.width16 v.height16 v.bytes f.stride).1
      v.image,
)
new_frame_self (gray8_frame f) v = ground (
  arith,
  (validate_gray8_pixels_iff f.width f.height f.stride f.pixels v.width16 v.height16).1 v.image,
)

-- With the metadata before its pixels, a valid frame still fits `usize`.
pub frame_size : (f : Frame) → IsFrame f → 16 + length (frame_pixels f) < usize_mod
unfolding frame_width frame_height frame_pixel_format frame_pixels frame_stride
frame_size (mono1_frame f) v = omega (
  arith,
  v.image.size,
  product_fits f.stride f.height
      (omega (arith, v.image.stride_eq, mono1_stride-le f.width v.width16)) v.height16,
)
frame_size (gray8_frame f) v = omega (
  arith,
  v.image.size,
  product_fits f.stride f.height (omega (arith, v.image.stride_eq, v.width16)) v.height16,
)
