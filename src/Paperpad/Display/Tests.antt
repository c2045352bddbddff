-- ===== src/Paperpad/Display/Tests.antt =====
-- A frame of two grey pixels, read and cached
use rust_x11_hello.Prelude.{ℕ, ◌≡◌, ◌↔◌, refl, arith, List, [], ◌∷◌, none, some, ok}
use rust_x11_hello.Protocol.Message.{decode_v2_message, try_from, decode_body}
use rust_x11_hello.Protocol.Frame.{
  gray8, validate_gray8_pixels, gray8_stride, gray8_payload_len, checked_mul,
}
use rust_x11_hello.Protocol.Payload.{
  decode_v2_payload, decode_payload, decode_frame, decode_pixel_format, validate_pixels,
}
use rust_x11_hello.Stream.{read_exact, read_encoded, additional_bytes, take_complete}
use rust_x11_hello.Paperpad.Net.Frames.{
  ReceivedFrame, received_pixels, require_frame, frame_of, read_v2_frame,
}
use rust_x11_hello.Paperpad.Display.{
  RemoteFrame, presentable, replace, take_mismatched, invalidate_mismatched,
}
use rust_x11_hello.Paperpad.Display.Presented.{read_v2_frame-presentable}
use rust_x11_hello.Paperpad.Display.Cached.{
  CacheOp, presented, viewport_set, cache_step, cache_after, cached, IsShown, current_iff,
}

abbrev shown : RemoteFrame
shown = record {
  frame_id = 5;
  width = 2;
  height = 1;
  pixel_format = gray8;
  stride = 2;
  pixels = 7 ∷ 255 ∷ [];
  receive_decode_us = 0;
}

abbrev wire : List ℕ
wire =
    80 ∷ 80 ∷ 70 ∷ 66 ∷ 2 ∷ 5 ∷ 0 ∷ 0 ∷ 0 ∷ 0 ∷ 0 ∷ 18 ∷ 0 ∷ 0 ∷ 0 ∷ 0 ∷ 0 ∷ 0 ∷ 0 ∷ 5 ∷ 0 ∷ 2 ∷ 0
    ∷ 1 ∷ 2 ∷ 0 ∷ 0 ∷ 0 ∷ 7 ∷ 255 ∷ []

abbrev received : ReceivedFrame
received = record {
  frame_id = 5;
  width = 2;
  height = 1;
  pixel_format = gray8;
  stride = 2;
  encoded = wire;
  receive_decode_elapsed = 0;
}

read : read_v2_frame 0 wire ≡ ok (received, [])
unfolding read_v2_frame require_frame frame_of read_encoded read_exact additional_bytes
    take_complete decode_v2_message try_from decode_body decode_v2_payload decode_payload
    decode_frame decode_pixel_format validate_pixels validate_gray8_pixels gray8_stride
    gray8_payload_len checked_mul
read = refl

read_v2_frame-presentable_example : presentable received ≡ ok shown
unfolding received_pixels
read_v2_frame-presentable_example = read_v2_frame-presentable 0 wire (omega arith) read

abbrev history : List (CacheOp ℕ)
history = viewport_set (2, 1) ∷ presented shown 99 ∷ viewport_set (1, 1) ∷ []

gone : (cache_after (viewport_set (2, 2) ∷ history)).current ≡ none
unfolding cache_after cache_step replace invalidate_mismatched take_mismatched
gone = refl

current_iff_example :
    ((cache_after history).current ≡ some (cached shown 99)) ↔ IsShown (cached shown 99) history
current_iff_example = current_iff history (cached shown 99)
