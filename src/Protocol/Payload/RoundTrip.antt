-- ===== src/Protocol/Payload/RoundTrip.antt =====
-- What the typed encoders write is decoded to the same value, whatever follows in the buffer.
use rust_x11_hello.Prelude.{
  if◌then◌else◌, leb, ℕ, ◌+◌, ◌≤◌, ◌≡◌, refl, List, ◌∷◌, ◌++◌, arith, length, ok, err, some,
}
use rust_x11_hello.Prelude.Bytes.{IsU16, IsU64, to_be16, from_be-to_be16, from_be-to_be64}
use rust_x11_hello.Protocol.Message.{
  V2EncodeError, V2MessageType, hello, viewport_changed, frame, V2Message, v2_max_payload_len,
  complete, encode_header, encode_v2_message, decode_v2_message, new_header,
}
use rust_x11_hello.Protocol.Message.RoundTrip.{encode_v2_message-ok, decode-encode}
use rust_x11_hello.Protocol.Frame.{
  Frame, mono1_frame, gray8_frame, mono1, gray8, frame_width, frame_height, frame_stride,
  frame_pixel_format, frame_pixels, PixelFormat,
}
use rust_x11_hello.Protocol.Frame.Validity.{validate_mono1_pixels_iff, validate_gray8_pixels_iff}
use rust_x11_hello.Protocol.Frame.Owned.{IsFrame, frame_size}
use rust_x11_hello.Protocol.Payload.{
  V2Payload, V2Hello, V2Pointer, V2Viewport, hello_payload, pointer_payload, viewport_payload,
  frame_payload, encode_hello, encode_pointer, encode_viewport, encode_v2_frame, frame_prefix,
  pixel_format_value, decode_hello, decode_pointer, decode_viewport, decode_frame, decode_payload,
  decode_v2_payload, decode_pixel_format, validate_pixels, from_mask, phase_message_type,
  V2FramePayload,
}

-- `bytes` carries `p`: at the start of any buffer it is decoded, and consumed, as exactly `p`.
abbrev pub Carries : List ℕ → V2Payload → Type 0
Carries bytes p =
    (rest : List ℕ)
    → (m : V2Message) × (decode_v2_message (bytes ++ rest) ≡ ok (complete m (length bytes)))
      × (decode_v2_payload m ≡ ok p)

-- `bytes` are one framed message whose payload decodes to `p`.
abbrev pub Writes : List ℕ → V2Payload → Type 0
Writes bytes p =
    (t : V2MessageType) × (payload : List ℕ) × (encode_v2_message t payload ≡ ok bytes)
    × (decode_payload t payload ≡ ok p)

write_payload :
    (t : V2MessageType) (payload : List ℕ) (p : V2Payload)
    → length payload ≤ v2_max_payload_len
    → decode_payload t payload ≡ ok p
    → (bytes : List ℕ) × (encode_v2_message t payload ≡ ok bytes) × Writes bytes p
write_payload t payload p fits e =
    let written = encode_v2_message-ok t payload fits in (_, written, (t, payload, written, e))

Writes-Carries : (bytes : List ℕ) (p : V2Payload) → Writes bytes p → Carries bytes p
unfolding decode_v2_payload
Writes-Carries bytes p (t, payload, written, e) rest = (_, decode-encode t payload rest written, e)

pub write_hello :
    (h : V2Hello)
    → IsU16 h.viewport_width
    → IsU16 h.viewport_height
    → from_mask h.pixel_formats.mask ≡ some h.pixel_formats
    → (bytes : List ℕ) × (encode_hello h ≡ ok bytes) × Writes bytes (hello_payload h)
unfolding encode_hello
write_hello h hw hh known = write_payload hello _ (hello_payload h) (omega arith) decoded
  where
    decoded :
        decode_payload hello (
          2
          ∷ h.pixel_formats.mask
          ∷ 0
          ∷ 0
          ∷ (to_be16 h.viewport_width ++ to_be16 h.viewport_height))
        ≡ ok (hello_payload h)
    decoded =
        unfold decode_payload decode_hello in
        ground (arith, known, from_be-to_be16 h.viewport_width, from_be-to_be16 h.viewport_height)

pub write_pointer :
    (p : V2Pointer)
    → IsU16 p.x
    → IsU16 p.y
    → (bytes : List ℕ) × (encode_pointer p ≡ ok bytes) × Writes bytes (pointer_payload p)
unfolding encode_pointer
write_pointer p hx hy =
    write_payload (phase_message_type p.phase) _ (pointer_payload p) (omega arith) decoded
  where
    decoded :
        decode_payload (phase_message_type p.phase) (to_be16 p.x ++ to_be16 p.y)
        ≡ ok (pointer_payload p)
    decoded =
        unfold decode_payload decode_pointer phase_message_type in
        ground (arith, from_be-to_be16 p.x, from_be-to_be16 p.y)

pub write_viewport :
    (v : V2Viewport)
    → IsU16 v.width
    → IsU16 v.height
    → (bytes : List ℕ) × (encode_viewport v ≡ ok bytes) × Writes bytes (viewport_payload v)
unfolding encode_viewport decode_payload decode_viewport
write_viewport v hw hh =
    write_payload viewport_changed _ (viewport_payload v) (omega arith)
      (ground (arith, from_be-to_be16 v.width, from_be-to_be16 v.height))

-- A Hello of 16-bit dimensions and a decodable format set is encoded, and decoded to itself.
pub decode-encode_hello :
    (h : V2Hello)
    → IsU16 h.viewport_width
    → IsU16 h.viewport_height
    → from_mask h.pixel_formats.mask ≡ some h.pixel_formats
    → (bytes : List ℕ) × (encode_hello h ≡ ok bytes) × Carries bytes (hello_payload h)
decode-encode_hello h hw hh known =
    let (bytes, e, w) = write_hello h hw hh known in (bytes, e, Writes-Carries bytes _ w)

-- A pointer event of 16-bit coordinates is encoded, and decoded to itself, its phase included.
pub decode-encode_pointer :
    (p : V2Pointer)
    → IsU16 p.x
    → IsU16 p.y
    → (bytes : List ℕ) × (encode_pointer p ≡ ok bytes) × Carries bytes (pointer_payload p)
decode-encode_pointer p hx hy =
    let (bytes, e, w) = write_pointer p hx hy in (bytes, e, Writes-Carries bytes _ w)

-- A viewport of 16-bit dimensions is encoded, and decoded to itself.
pub decode-encode_viewport :
    (v : V2Viewport)
    → IsU16 v.width
    → IsU16 v.height
    → (bytes : List ℕ) × (encode_viewport v ≡ ok bytes) × Carries bytes (viewport_payload v)
decode-encode_viewport v hw hh =
    let (bytes, e, w) = write_viewport v hw hh in (bytes, e, Writes-Carries bytes _ w)

-- The frame that a `V2FramePayload` shows of a stored frame.
abbrev pub frame_view : ℕ → Frame → V2FramePayload
frame_view id f = record {
  frame_id = id;
  width = frame_width f;
  height = frame_height f;
  pixel_format = frame_pixel_format f;
  stride = frame_stride f;
  pixels = frame_pixels f;
}

-- `encode_v2_frame` writes one Frame message of the metadata and the pixels.
pub encode_v2_frame-eq-encode_v2_message :
    (id : ℕ) (f : Frame)
    → IsFrame f
    → encode_v2_frame id f ≡ encode_v2_message frame (frame_prefix id f ++ frame_pixels f)
unfolding encode_v2_frame encode_v2_message frame_prefix
encode_v2_frame-eq-encode_v2_message id f v = ground (arith, frame_size f v)

decode_pixel_format-value : (p : PixelFormat) → decode_pixel_format (pixel_format_value p) ≡ ok p
unfolding decode_pixel_format pixel_format_value
decode_pixel_format-value mono1 = refl
decode_pixel_format-value gray8 = refl

validate_pixels-IsFrame :
    (f : Frame)
    → IsFrame f
    → validate_pixels (frame_pixel_format f) (frame_width f) (frame_height f) (frame_pixels f)
      ≡ ok (frame_stride f)
unfolding validate_pixels frame_width frame_height frame_pixel_format frame_pixels frame_stride
validate_pixels-IsFrame (mono1_frame f) v = ground (
  arith,
  (validate_mono1_pixels_iff f.width f.height f.pixels v.width16 v.height16 v.bytes f.stride).1
      v.image,
)
validate_pixels-IsFrame (gray8_frame f) v = ground (
  arith,
  (validate_gray8_pixels_iff f.width f.height f.stride f.pixels v.width16 v.height16).1 v.image,
)

pub decode_frame-encode :
    (id : ℕ) (f : Frame)
    → IsU64 id
    → IsFrame f
    → decode_frame (frame_prefix id f ++ frame_pixels f) ≡ ok (frame_view id f)
unfolding decode_frame frame_prefix
decode_frame-encode id f hid v = ground (
  arith,
  from_be-to_be64 id hid,
  from_be-to_be16 (frame_width f) v.width16,
  from_be-to_be16 (frame_height f) v.height16,
  decode_pixel_format-value (frame_pixel_format f),
  validate_pixels-IsFrame f v,
)

pub write_frame :
    (id : ℕ) (f : Frame)
    → IsU64 id
    → IsFrame f
    → 16 + length (frame_pixels f) ≤ v2_max_payload_len
    → (bytes : List ℕ) × (encode_v2_frame id f ≡ ok bytes)
      × Writes bytes (frame_payload (frame_view id f))
unfolding decode_payload
write_frame id f hid v fits = rw (encode_v2_frame-eq-encode_v2_message id f v) (
    write_payload frame (frame_prefix id f ++ frame_pixels f) (frame_payload (frame_view id f))
      (unfold frame_prefix in omega arith) (ground (arith, decode_frame-encode id f hid v)))

-- A valid frame whose message fits the maximum is encoded under a 64-bit id, and decoded to the same
-- frame and id.
pub decode-encode_frame :
    (id : ℕ) (f : Frame)
    → IsU64 id
    → IsFrame f
    → 16 + length (frame_pixels f) ≤ v2_max_payload_len
    → (bytes : List ℕ) × (encode_v2_frame id f ≡ ok bytes)
      × Carries bytes (frame_payload (frame_view id f))
decode-encode_frame id f hid v fits =
    let (bytes, e, w) = write_frame id f hid v fits in (bytes, e, Writes-Carries bytes _ w)

-- A valid frame is encoded, as header, metadata and pixels, exactly if its message fits the maximum;
-- else it is refused with its size.
pub encode_v2_frame_lem :
    (id : ℕ) (f : Frame)
    → IsFrame f
    → encode_v2_frame id f ≡ (
        if leb (16 + length (frame_pixels f)) v2_max_payload_len
        then ok (
            encode_header
              (record { message_type = frame; payload_len = 16 + length (frame_pixels f) })
            ++ (frame_prefix id f ++ frame_pixels f))
        else err
            (V2EncodeError.payload_too_large (16 + length (frame_pixels f)) v2_max_payload_len))
unfolding encode_v2_frame new_header
encode_v2_frame_lem id f v = ground (arith, frame_size f v)
