-- ===== src/Paperpad/Net/Frames/Received.antt =====
-- The frames that PaperPad reads are those that PaperSpoon encoded.
use rust_x11_hello.Prelude.{
  ℕ, ◌+◌, ◌≤◌, ◌≡◌, refl, List, [], ◌∷◌, ◌++◌, arith, length, length-append, drop, some, ok, ◌∙◌,
}
use rust_x11_hello.Prelude.Bytes.{IsU64}
use rust_x11_hello.Protocol.Message.{
  V2Header, frame, v2_max_payload_len, encode_header, encode_v2_message,
}
use rust_x11_hello.Protocol.Message.RoundTrip.{encode_v2_message-ok}
use rust_x11_hello.Protocol.Frame.{
  Frame, frame_pixels, frame_width, frame_height, frame_pixel_format, frame_stride,
}
use rust_x11_hello.Protocol.Frame.Owned.{IsFrame}
use rust_x11_hello.Protocol.Payload.{
  encode_v2_frame, frame_prefix, decode_v2_payload, decode_payload,
}
use rust_x11_hello.Protocol.Payload.RoundTrip.{
  encode_v2_frame-eq-encode_v2_message, decode_frame-encode,
}
use rust_x11_hello.Stream.{read_encoded, read_exact}
use rust_x11_hello.Stream.Framing.{read_encoded-encode}
use rust_x11_hello.Paperpad.Net.Frames.{
  ReceivedFrame, received_pixels, require_frame, frame_of, read_v2_frame, read_inbound_frame,
}

length-frame_prefix : (id : ℕ) (f : Frame) → length (frame_prefix id f) ≡ 16
unfolding frame_prefix
length-frame_prefix id f = refl

-- Behind the header and the metadata of a message lie its pixels.
drop-frame :
    (h : V2Header) (id : ℕ) (f : Frame)
    → drop 28 (encode_header h ++ (frame_prefix id f ++ frame_pixels f)) ≡ frame_pixels f
unfolding encode_header frame_prefix
drop-frame h id f = refl

-- A stream that a frame is read from is not at its end.
read_some :
    (elapsed : ℕ) (input : List ℕ) {r : ReceivedFrame} {rest : List ℕ}
    → read_v2_frame elapsed input ≡ ok (r, rest)
    → read_inbound_frame elapsed input ≡ ok (some r, rest)
unfolding read_inbound_frame
read_some elapsed [] e = absurd (unfold read_v2_frame read_encoded read_exact in ground arith)
read_some elapsed (b ∷ input) e = ground arith

module _ (id elapsed : ℕ) (f : Frame) where
  -- What is received of frame `f`.
  abbrev pub received : List ℕ → ReceivedFrame
  received bytes = record {
    frame_id = id;
    width = frame_width f;
    height = frame_height f;
    pixel_format = frame_pixel_format f;
    stride = frame_stride f;
    encoded = bytes;
    receive_decode_elapsed = elapsed;
  }

  read_one :
      (rest bytes : List ℕ)
      → IsU64 id
      → IsFrame f
      → encode_v2_message frame (frame_prefix id f ++ frame_pixels f) ≡ ok bytes
      → read_v2_frame elapsed (bytes ++ rest) ≡ ok (received bytes, rest)
  unfolding read_v2_frame require_frame frame_of decode_v2_payload decode_payload
  read_one rest bytes hid v written = ground (
    arith,
    read_encoded-encode frame (frame_prefix id f ++ frame_pixels f) rest written,
    decode_frame-encode id f hid v,
  )

  -- A valid frame under a 64-bit id whose message fits the maximum is encoded, and from a stream that
  -- begins with it PaperPad reads that frame: its id, dimensions, format, stride and pixels, and
  -- leaves the bytes behind it.
  pub read_inbound_frame-encode :
      (rest : List ℕ)
      → IsU64 id
      → IsFrame f
      → 16 + length (frame_pixels f) ≤ v2_max_payload_len
      → (bytes : List ℕ) × (encode_v2_frame id f ≡ ok bytes)
        × (read_inbound_frame elapsed (bytes ++ rest) ≡ ok (some (received bytes), rest))
        × (received_pixels (received bytes) ≡ frame_pixels f)
  read_inbound_frame-encode rest hid v fits =
      let payload = frame_prefix id f ++ frame_pixels f in
      let h : V2Header = record { message_type = frame; payload_len = length payload } in
      let size : length payload ≡ 16 + length (frame_pixels f) =
        omega
          (arith, length-append (frame_prefix id f) (frame_pixels f), length-frame_prefix id f) in
      let written = encode_v2_message-ok frame payload (omega arith) in
      (
        encode_header h ++ payload,
        encode_v2_frame-eq-encode_v2_message id f v ∙ written,
        read_some elapsed (encode_header h ++ payload ++ rest)
            (read_one rest (encode_header h ++ payload) hid v written),
        unfold received_pixels in drop-frame h id f,
      )
