-- ===== src/Protocol/Payload/Tests.antt =====
-- Witnesses and tests of the typed payloads.
use rust_x11_hello.Prelude.{ℕ, ◌≡◌, refl, List, [], ◌∷◌, arith, ok}
use rust_x11_hello.Protocol.Message.{frame, encode_v2_message}
use rust_x11_hello.Protocol.Frame.{
  gray8, Frame, gray8_frame, validate_gray8_pixels, gray8_stride, gray8_payload_len, checked_mul,
  frame_width, frame_height, frame_pixel_format, frame_pixels, frame_stride,
}
use rust_x11_hello.Protocol.Frame.Owned.{IsFrame}
use rust_x11_hello.Protocol.Payload.{
  V2Hello, V2Pointer, V2Viewport, down, V2FramePayload, frame_payload, from_mask, encode_v2_frame,
  decode_hello, decode_frame, decode_pixel_format, validate_pixels, to_owned_frame,
}
use rust_x11_hello.Protocol.Payload.RoundTrip.{Carries, decode-encode_frame, frame_view}
use rust_x11_hello.Protocol.Payload.Canonical.{encode-decode_frame}

abbrev kindle : V2Hello
kindle = record {
  viewport_width = 1272;
  viewport_height = 1624;
  pixel_formats = record { mask = 3 };
}

abbrev kindle_payload : List ℕ
kindle_payload = 2 ∷ 3 ∷ 0 ∷ 0 ∷ 4 ∷ 248 ∷ 6 ∷ 88 ∷ []

kindle_decodes : decode_hello kindle_payload ≡ ok kindle
unfolding decode_hello from_mask
kindle_decodes = refl

abbrev tap : V2Pointer
tap = record { phase = down; x = 12; y = 34 }

abbrev rotated : V2Viewport
rotated = record { width = 1696; height = 1200 }

abbrev shades : Frame
shades = gray8_frame (record { width = 2; height = 1; stride = 2; pixels = 7 ∷ 255 ∷ [] })

shades-IsFrame : IsFrame shades
unfolding frame_width frame_height frame_pixel_format frame_pixels frame_stride
shades-IsFrame = record {
  width16 = omega arith;
  height16 = omega arith;
  bytes = omega arith;
  image = record { wide = omega arith; high = omega arith; stride_eq = refl; size = refl };
}

abbrev shades_payload : List ℕ
shades_payload = 0 ∷ 0 ∷ 0 ∷ 0 ∷ 0 ∷ 0 ∷ 0 ∷ 5 ∷ 0 ∷ 2 ∷ 0 ∷ 1 ∷ 2 ∷ 0 ∷ 0 ∷ 0 ∷ 7 ∷ 255 ∷ []

abbrev shades_shown : V2FramePayload
shades_shown = record {
  frame_id = 5;
  width = 2;
  height = 1;
  pixel_format = gray8;
  stride = 2;
  pixels = 7 ∷ 255 ∷ [];
}

shades_decode : decode_frame shades_payload ≡ ok shades_shown
unfolding decode_frame decode_pixel_format validate_pixels validate_gray8_pixels gray8_stride
    gray8_payload_len checked_mul
shades_decode = refl

decode-encode_frame_example :
    (bytes : List ℕ) × (encode_v2_frame 5 shades ≡ ok bytes)
    × Carries bytes (frame_payload (frame_view 5 shades))
unfolding frame_pixels
decode-encode_frame_example =
    decode-encode_frame 5 shades (omega arith) shades-IsFrame (omega arith)

encode-decode_frame_example :
    (f : Frame) × (to_owned_frame shades_shown ≡ ok f)
    × IsFrame f
    × (shades_shown ≡ frame_view 5 f)
    × (encode_v2_frame 5 f ≡ encode_v2_message frame shades_payload)
encode-decode_frame_example = encode-decode_frame shades_payload (omega arith) shades_decode
