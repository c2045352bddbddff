-- ===== src/Paperpad/Net/Frames/Tests.antt =====
-- Witnesses and tests of the frame reader.
use rust_x11_hello.Prelude.{ℕ, ◌≡◌, refl, List, [], ◌∷◌, ◌++◌, arith, ok, some}
use rust_x11_hello.Protocol.Message.{decode_v2_message, try_from, decode_body}
use rust_x11_hello.Protocol.Frame.{
  gray8, Frame, gray8_frame, validate_gray8_pixels, gray8_stride, gray8_payload_len, checked_mul,
  frame_width, frame_height, frame_pixel_format, frame_pixels, frame_stride,
}
use rust_x11_hello.Protocol.Frame.Owned.{IsFrame}
use rust_x11_hello.Protocol.Payload.{
  encode_v2_frame, decode_v2_payload, decode_frame, decode_pixel_format, validate_pixels,
}
use rust_x11_hello.Stream.{read_exact, read_encoded, additional_bytes, take_complete}
use rust_x11_hello.Paperpad.Net.Frames.{
  ReceivedFrame, received_pixels, require_frame, frame_of, read_v2_frame, read_inbound_frame,
}
use rust_x11_hello.Paperpad.Net.Frames.Received.{received, read_inbound_frame-encode}

abbrev shades : Frame
shades = gray8_frame (record { width = 2; height = 1; stride = 2; pixels = 7 ∷ 255 ∷ [] })

shades-IsFrame : IsFrame shades
unfolding frame_width frame_height frame_pixel_format frame_pixels frame_stride
shades-IsFrame = record {
  width16 = omega arith;
  height16 = omega arith;
  bytes = omega arith;
  image = record { wide = omega arith; high = omega arith; stride_eq = refl; size = refl };
}

abbrev wire : List ℕ
wire =
    80 ∷ 80 ∷ 70 ∷ 66 ∷ 2 ∷ 5 ∷ 0 ∷ 0 ∷ 0 ∷ 0 ∷ 0 ∷ 18 ∷ 0 ∷ 0 ∷ 0 ∷ 0 ∷ 0 ∷ 0 ∷ 0 ∷ 5 ∷ 0 ∷ 2 ∷ 0
    ∷ 1 ∷ 2 ∷ 0 ∷ 0 ∷ 0 ∷ 7 ∷ 255 ∷ []

abbrev wire_frame : ReceivedFrame
wire_frame = record {
  frame_id = 5;
  width = 2;
  height = 1;
  pixel_format = gray8;
  stride = 2;
  encoded = wire;
  receive_decode_elapsed = 0;
}

wire_read : read_v2_frame 0 wire ≡ ok (wire_frame, [])
unfolding read_v2_frame require_frame frame_of read_encoded read_exact additional_bytes
    take_complete decode_v2_message try_from decode_body decode_v2_payload decode_frame
    decode_pixel_format validate_pixels validate_gray8_pixels gray8_stride gray8_payload_len
    checked_mul
wire_read = refl

read_inbound_frame-encode_example :
    (bytes : List ℕ) × (encode_v2_frame 5 shades ≡ ok bytes)
    × (read_inbound_frame 0 (bytes ++ 1 ∷ []) ≡ ok (some (received 5 0 shades bytes), 1 ∷ []))
    × (received_pixels (received 5 0 shades bytes) ≡ frame_pixels shades)
unfolding frame_pixels
read_inbound_frame-encode_example =
    read_inbound_frame-encode 5 0 shades (1 ∷ []) (omega arith) shades-IsFrame (omega arith)
