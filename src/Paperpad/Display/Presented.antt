-- ===== src/Paperpad/Display/Presented.antt =====
-- Which frames reach a display.
use rust_x11_hello.Prelude.{ℕ, ◌≡◌, ◌↔◌, arith, List, ok, >>=-eq-ok, All}
use rust_x11_hello.Prelude.Bytes.{IsU8, IsU16}
use rust_x11_hello.Protocol.Frame.{PixelFormat, mono1, gray8}
use rust_x11_hello.Protocol.Frame.Validity.{validate_mono1_pixels_iff, validate_gray8_pixels_iff}
use rust_x11_hello.Protocol.Frame.Owned.{IsImage}
use rust_x11_hello.Paperpad.Net.Frames.{ReceivedFrame, received_pixels, read_v2_frame}
use rust_x11_hello.Paperpad.Net.Frames.Image.{read_v2_frame-IsImage, received_pixels-IsU8}
use rust_x11_hello.Paperpad.Display.{validated_stride, new_remote_frame, presentable}

validated_stride_iff :
    (format : PixelFormat) (w h s : ℕ) (pixels : List ℕ)
    → IsU16 w
    → IsU16 h
    → All IsU8 pixels
    → (validated_stride format w h pixels ≡ ok s) ↔ IsImage format w h s pixels
unfolding validated_stride
validated_stride_iff mono1 w h s pixels hw hh bytes =
    let (to, from) = validate_mono1_pixels_iff w h pixels hw hh bytes s in
    (λ e. to (ground (arith, e)), λ v. ground (arith, from v))
validated_stride_iff gray8 w h s pixels hw hh bytes =
    let (to, from) = validate_gray8_pixels_iff w h s pixels hw hh in
    (λ e. to (ground (arith, e)), λ v. ground (arith, from v))

-- `RemoteFrame::new` accepts bytes of 16-bit dimensions exactly if they are an image of the format
-- and the stride that it is given.
pub new_remote_frame_iff :
    (id w h : ℕ) (format : PixelFormat) (s : ℕ) (pixels : List ℕ) (us : ℕ)
    → IsU16 w
    → IsU16 h
    → All IsU8 pixels
    → (new_remote_frame id w h format s pixels us
        ≡ ok (record {
          frame_id = id;
          width = w;
          height = h;
          pixel_format = format;
          stride = s;
          pixels = pixels;
          receive_decode_us = us;
        }))
      ↔ IsImage format w h s pixels
unfolding new_remote_frame
new_remote_frame_iff id w h format s pixels us hw hh bytes = (
  λ e.
      let (expected, valid, k) = >>=-eq-ok (validated_stride format w h pixels) _ e in
      (validated_stride_iff format w h s pixels hw hh bytes).0 (ground (arith, valid, k)),
  λ v. ground (arith, (validated_stride_iff format w h s pixels hw hh bytes).1 v),
)

-- A frame that PaperPad has read is presentable, whatever bytes the stream held: the event loop
-- never refuses it, and shows its pixels under its id, dimensions, format and stride.
pub read_v2_frame-presentable :
    (elapsed : ℕ) (input : List ℕ) {r : ReceivedFrame} {rest : List ℕ}
    → All IsU8 input
    → read_v2_frame elapsed input ≡ ok (r, rest)
    → presentable r
      ≡ ok (record {
        frame_id = r.frame_id;
        width = r.width;
        height = r.height;
        pixel_format = r.pixel_format;
        stride = r.stride;
        pixels = received_pixels r;
        receive_decode_us = r.receive_decode_elapsed;
      })
unfolding presentable
read_v2_frame-presentable elapsed input {r} bytes e =
    let (wide, high, image) = read_v2_frame-IsImage elapsed input bytes e in
    (new_remote_frame_iff r.frame_id r.width r.height r.pixel_format r.stride (received_pixels r)
        r.receive_decode_elapsed wide high (received_pixels-IsU8 elapsed input bytes e)).1
      image
