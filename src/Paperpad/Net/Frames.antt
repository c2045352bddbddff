-- ===== src/Paperpad/Net/Frames.antt =====
-- src/net/mod.rs, `ReceivedFrame` and `read_v2_frame`: the frames that PaperPad reads.
pub mod Received
pub mod Image
mod Tests
use rust_x11_hello.Prelude.{
  ℕ, ◌+◌, ◌≤◌, ◌≡◌, List, [], ◌∷◌, ◌++◌, arith, length, drop, Option, none, some, Result, ok, err,
  ◌>>=◌, map_err,
}
use rust_x11_hello.Prelude.Bytes.{IsU64}
use rust_x11_hello.Protocol.Message.{
  V2MessageType, hello, pointer_down, pointer_up, viewport_changed, frame, v2_header_len,
  v2_max_payload_len,
}
use rust_x11_hello.Protocol.Frame.{PixelFormat, Frame, frame_pixels}
use rust_x11_hello.Protocol.Payload.{
  V2Payload, V2FramePayload, hello_payload, pointer_payload, viewport_payload, frame_payload,
  v2_frame_prefix_len, decode_v2_payload, encode_v2_frame,
}
use rust_x11_hello.Stream.{
  ReadError, invalid_payload, unexpected_message, payload_disagrees, read_encoded,
}

pub record ReceivedFrame : Type 0 where
  pub frame_id : ℕ
  pub width : ℕ
  pub height : ℕ
  pub pixel_format : PixelFormat
  pub stride : ℕ
  pub encoded : List ℕ
  pub receive_decode_elapsed : ℕ

-- `ReceivedFrame::pixels`
unfoldable pub received_pixels : ReceivedFrame → List ℕ
received_pixels f = drop (v2_header_len + v2_frame_prefix_len) f.encoded

-- `if message.message_type() != V2MessageType::Frame`
unfoldable pub require_frame : V2MessageType → Result ReadError (Unit {0})
require_frame frame = ok tt
require_frame other = err (unexpected_message other)

-- `let V2Payload::Frame(frame) = … else`
unfoldable pub frame_of : V2Payload → Result ReadError V2FramePayload
frame_of (frame_payload f) = ok f
frame_of other = err payload_disagrees

-- `elapsed` is what the clock says when the message has been read.
unfoldable pub read_v2_frame : ℕ → List ℕ → Result ReadError (ReceivedFrame × List ℕ)
read_v2_frame elapsed input = do
  (message, encoded, rest) ← read_encoded input
  _ ← require_frame message.header.message_type
  payload ← map_err invalid_payload (decode_v2_payload message)
  f ← frame_of payload
  ok (
    record {
      frame_id = f.frame_id;
      width = f.width;
      height = f.height;
      pixel_format = f.pixel_format;
      stride = f.stride;
      encoded = encoded;
      receive_decode_elapsed = elapsed;
    },
    rest,
  )

-- `None` at the end of the stream
unfoldable pub read_inbound_frame : ℕ → List ℕ → Result ReadError (Option ReceivedFrame × List ℕ)
read_inbound_frame elapsed [] = ok (none, [])
read_inbound_frame elapsed (b ∷ input) = do
  (f, rest) ← read_v2_frame elapsed (b ∷ input)
  ok (some f, rest)
