-- ===== src/Paperpad/Display.antt =====
-- src/display/mod.rs and src/display/cache.rs: the frames that a display shows, and the last one
-- that it has shown.
pub mod Presented
pub mod Cached
mod Tests
use rust_x11_hello.Prelude.{
  ℕ, ◌≡◌, List, [], ◌∷◌, Bool, true, false, ◌&&◌, not, Option, none, some, Result, ok, err, ◌>>=◌,
  ◌>>◌, guard, map_err, ◌==◌, if◌then◌else◌,
}
use rust_x11_hello.Protocol.Frame.{
  PixelFormat, mono1, gray8, Mono1FrameError, Gray8FrameError, validate_mono1_pixels,
  validate_gray8_pixels,
}
use rust_x11_hello.Paperpad.Net.Frames.{ReceivedFrame, received_pixels}

pub record RemoteFrame : Type 0 where
  pub frame_id : ℕ
  pub width : ℕ
  pub height : ℕ
  pub pixel_format : PixelFormat
  pub stride : ℕ
  pub pixels : List ℕ
  pub receive_decode_us : ℕ

pub data RemoteFrameError : Type 0 where
  mono1_refused : Mono1FrameError → RemoteFrameError
  gray8_refused : Gray8FrameError → RemoteFrameError
  stride_mismatch : (expected actual : ℕ) → RemoteFrameError

unfoldable pub validated_stride : PixelFormat → ℕ → ℕ → List ℕ → Result RemoteFrameError ℕ
validated_stride mono1 width height pixels =
    map_err mono1_refused (validate_mono1_pixels width height pixels)
validated_stride gray8 width height pixels =
    map_err gray8_refused (validate_gray8_pixels width height pixels)

-- `RemoteFrame::new`
unfoldable pub new_remote_frame :
    ℕ → ℕ → ℕ → PixelFormat → ℕ → List ℕ → ℕ → Result RemoteFrameError RemoteFrame
new_remote_frame frame_id width height pixel_format stride pixels receive_decode_us = do
  expected ← validated_stride pixel_format width height pixels
  guard (stride == expected) (stride_mismatch expected stride)
  ok (record {
    frame_id = frame_id;
    width = width;
    height = height;
    pixel_format = pixel_format;
    stride = stride;
    pixels = pixels;
    receive_decode_us = receive_decode_us;
  })

-- What src/x11/events.rs makes of a frame that it has polled
unfoldable pub presentable : ReceivedFrame → Result RemoteFrameError RemoteFrame
presentable f =
    new_remote_frame f.frame_id f.width f.height f.pixel_format f.stride (received_pixels f)
      f.receive_decode_elapsed

-- What a backend keeps of a frame is a type of its own, `T`.
pub record CachedRemoteFrame {ℓ} (T : Type ℓ) : Type ℓ where
  pub frame_id : ℕ
  pub width : ℕ
  pub height : ℕ
  pub pixel_format : PixelFormat
  pub stride : ℕ
  pub payload : T

pub record RemoteFrameCache {ℓ} (T : Type ℓ) : Type ℓ where
  pub current : Option (CachedRemoteFrame T)

-- `RemoteFrameCache::default`
abbrev pub empty_cache {ℓ} : (T : Type ℓ) → RemoteFrameCache T
empty_cache T = record { current = none }

abbrev pub dimensions {ℓ} : {T : Type ℓ} → CachedRemoteFrame T → ℕ × ℕ
dimensions c = (c.width, c.height)

unfoldable pub replace {ℓ} :
    {T : Type ℓ} → RemoteFrameCache T → RemoteFrame → T → RemoteFrameCache T
replace cache frame payload = record {
  current = some (record {
    frame_id = frame.frame_id;
    width = frame.width;
    height = frame.height;
    pixel_format = frame.pixel_format;
    stride = frame.stride;
    payload = payload;
  });
}

-- `frame.dimensions() != viewport`
abbrev pub differs {ℓ} : {T : Type ℓ} → CachedRemoteFrame T → ℕ × ℕ → Bool
differs c viewport = not ((c.width == viewport.0) && (c.height == viewport.1))

-- The cached frame taken out, if it is there and differs, and what stays
unfoldable pub take_mismatched {ℓ} :
    {T : Type ℓ}
    → Option (CachedRemoteFrame T)
    → ℕ × ℕ
    → Option (CachedRemoteFrame T) × Option (CachedRemoteFrame T)
take_mismatched none viewport = (none, none)
take_mismatched (some c) viewport = if differs c viewport then (some c, none) else (none, some c)

unfoldable pub invalidate_mismatched {ℓ} :
    {T : Type ℓ} → RemoteFrameCache T → ℕ × ℕ → Option (CachedRemoteFrame T) × RemoteFrameCache T
unfolding take_mismatched
invalidate_mismatched cache viewport =
    let (mismatched, kept) = take_mismatched cache.current viewport in
    (mismatched, record { current = kept })
