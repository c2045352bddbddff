-- ===== src/Paperpad/Net/Frames/Image.antt =====
-- What PaperPad reads, from whatever bytes, is a valid image.
use mathlib.Core.Path.{subst}
use rust_x11_hello.Prelude.{
  All-append_left, All-drop, All-append_right, sym, take, All, >>=-eq-ok, map_err, ap, ℕ, ◌≡◌, refl,
  List, [], ◌∷◌, ◌++◌, arith, length, drop, ok, ◌∙◌,
}
use rust_x11_hello.Prelude.Bytes.{IsU8, IsU16, to_be16, to_be64}
use rust_x11_hello.Protocol.Message.{
  decode_v2_message, complete, V2MessageType, V2Message, V2Header, frame, encode_header,
}
use rust_x11_hello.Protocol.Message.Canonical.{encode-decode}
use rust_x11_hello.Protocol.Payload.Canonical.{decode_frame_inv, validate_pixels-IsImage}
use rust_x11_hello.Protocol.Message.RoundTrip.{encode_v2_message-eq-ok}
use rust_x11_hello.Protocol.Frame.Owned.{IsImage}
use rust_x11_hello.Protocol.Payload.{
  pixel_format_value, V2Payload, V2FramePayload, decode_frame, frame_payload, decode_v2_payload,
  decode_payload,
}
use rust_x11_hello.Stream.{invalid_payload, read_encoded}
use rust_x11_hello.Stream.Framing.{read_encoded_sound}
use rust_x11_hello.Paperpad.Net.Frames.{
  ReceivedFrame, received_pixels, require_frame, frame_of, read_v2_frame,
}

take-all {ℓ} : {A : Type ℓ} (xs : List A) → take (length xs) xs ≡ xs
take-all [] = refl
take-all (x ∷ xs) = ap (λ l. x ∷ l) (take-all xs)

drop-encoded :
    (h : V2Header) (a b c d : ℕ) (id w k : ℕ) (pixels : List ℕ)
    → drop 28
        (encode_header h ++ (to_be64 id ++ (to_be16 w ++ (to_be16 k ++ (a ∷ b ∷ c ∷ d ∷ pixels)))))
      ≡ pixels
unfolding encode_header
drop-encoded h a b c d id w k pixels = refl

frame_of-eq-ok : (p : V2Payload) (f : V2FramePayload) → frame_of p ≡ ok f → p ≡ frame_payload f
unfolding frame_of
frame_of-eq-ok (frame_payload g) f e = cc
frame_of-eq-ok _ f e = cc

decode_payload-frame :
    (t : V2MessageType) (payload : List ℕ) (f : V2FramePayload)
    → require_frame t ≡ ok tt
    → decode_payload t payload ≡ ok (frame_payload f)
    → (t ≡ frame) × (decode_frame payload ≡ ok f)
unfolding require_frame decode_payload
decode_payload-frame frame payload f e d = (refl, ground arith)
decode_payload-frame _ payload f e d = absurd (cc)

-- What has been read, when a frame has been.
read_v2_frame-eq-ok :
    (elapsed : ℕ) (input : List ℕ) (r : ReceivedFrame) (rest : List ℕ)
    → read_v2_frame elapsed input ≡ ok (r, rest)
    → (m : V2Message) × (f : V2FramePayload) × (read_encoded input ≡ ok (m, r.encoded, rest))
      × (m.header.message_type ≡ frame)
      × (decode_frame m.payload ≡ ok f)
      × (r ≡ record {
        frame_id = f.frame_id;
        width = f.width;
        height = f.height;
        pixel_format = f.pixel_format;
        stride = f.stride;
        encoded = r.encoded;
        receive_decode_elapsed = elapsed;
      })
unfolding read_v2_frame decode_v2_payload
read_v2_frame-eq-ok elapsed input r rest e =
    let (got, e1, k1) = >>=-eq-ok (read_encoded input) _ e in
    let (u, e2, k2) = >>=-eq-ok (require_frame got.0.header.message_type) _ k1 in
    let (payload, e3, k3) = >>=-eq-ok (map_err invalid_payload (decode_v2_payload got.0)) _ k2 in
    let (f, e4, k4) = >>=-eq-ok (frame_of payload) _ k3 in
    let (typed, decoded) =
      decode_payload-frame got.0.header.message_type got.0.payload f e2
        (ground (arith, e3, frame_of-eq-ok payload f e4)) in
    (got.0, f, ground (arith, e1, k4), typed, decoded, ground (arith, k4))

payload-IsU8 :
    (encoded : List ℕ) (m : V2Message)
    → All IsU8 encoded
    → decode_v2_message encoded ≡ ok (complete m (length encoded))
    → All IsU8 m.payload
payload-IsU8 encoded m bytes whole =
    let (fits, eq) =
      encode_v2_message-eq-ok m.header.message_type m.payload (take (length encoded) encoded)
        (encode-decode encoded bytes whole) in
    All-append_right IsU8
      (encode_header
        (record { message_type = m.header.message_type; payload_len = length m.payload }))
      m.payload (subst (All IsU8) (sym (take-all encoded) ∙ eq) bytes)

-- The pixels of a received frame are those of the payload that its bytes decode to.
received_pixels-eq :
    (r : ReceivedFrame) (m : V2Message) (f : V2FramePayload)
    → All IsU8 r.encoded
    → All IsU8 m.payload
    → decode_v2_message r.encoded ≡ ok (complete m (length r.encoded))
    → m.header.message_type ≡ frame
    → decode_frame m.payload ≡ ok f
    → received_pixels r ≡ f.pixels
unfolding received_pixels
received_pixels-eq r m f bytes payload_bytes whole typed decoded =
    let written = encode-decode r.encoded bytes whole in
    let (fits, eq) =
      encode_v2_message-eq-ok m.header.message_type m.payload (take (length r.encoded) r.encoded)
        written in
    let inv = decode_frame_inv m.payload payload_bytes decoded in
    let h : V2Header = record {
      message_type = m.header.message_type;
      payload_len = length m.payload;
    } in
    ap (drop 28) (sym (take-all r.encoded) ∙ eq ∙ ap (λ l. encode_header h ++ l) inv.4)
    ∙ drop-encoded h (pixel_format_value f.pixel_format) 0 0 0 f.frame_id f.width f.height f.pixels

-- A frame that PaperPad has read is a valid image: its dimensions are 16-bit, and these, its format
-- and its stride fit the pixels that it shows, whatever bytes the stream held.
pub read_v2_frame-IsImage :
    (elapsed : ℕ) (input : List ℕ) {r : ReceivedFrame} {rest : List ℕ}
    → All IsU8 input
    → read_v2_frame elapsed input ≡ ok (r, rest)
    → IsU16 r.width
      × IsU16 r.height
      × IsImage r.pixel_format r.width r.height r.stride (received_pixels r)
read_v2_frame-IsImage elapsed input {r} {rest} bytes e =
    let (m, f, read, typed, decoded, fields) = read_v2_frame-eq-ok elapsed input r rest e in
    let (parts, whole) = read_encoded_sound input read in
    let encoded_bytes : All IsU8 r.encoded = All-append_left IsU8 r.encoded rest (rw parts bytes) in
    let payload_bytes : All IsU8 m.payload = payload-IsU8 r.encoded m encoded_bytes whole in
    let (valid, hw, hh, pixels, _) = decode_frame_inv m.payload payload_bytes decoded in
    let shown = received_pixels-eq r m f encoded_bytes payload_bytes whole typed decoded in
    let image =
      validate_pixels-IsImage f.pixel_format f.width f.height f.pixels hw hh pixels valid in
    let ew : r.width ≡ f.width = ap (λ (x : ReceivedFrame). x.width) fields in
    let eh : r.height ≡ f.height = ap (λ (x : ReceivedFrame). x.height) fields in
    let ep : r.pixel_format ≡ f.pixel_format = ap (λ (x : ReceivedFrame). x.pixel_format) fields in
    let es : r.stride ≡ f.stride = ap (λ (x : ReceivedFrame). x.stride) fields in
    (rw ew hw, rw eh hh, rw (shown, ew, eh, ep, es) image)

pub received_pixels-IsU8 :
    (elapsed : ℕ) (input : List ℕ) {r : ReceivedFrame} {rest : List ℕ}
    → All IsU8 input
    → read_v2_frame elapsed input ≡ ok (r, rest)
    → All IsU8 (received_pixels r)
unfolding received_pixels
received_pixels-IsU8 elapsed input {r} {rest} bytes e =
    let (m, f, read, typed, decoded, fields) = read_v2_frame-eq-ok elapsed input r rest e in
    let (parts, whole) = read_encoded_sound input read in
    All-drop IsU8 28 r.encoded (All-append_left IsU8 r.encoded rest (rw parts bytes))
