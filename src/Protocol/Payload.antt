-- ===== src/Protocol/Payload.antt =====
-- crates/paper-protocol/src/v2_payload.rs: the typed payloads of framed messages.
pub mod RoundTrip
pub mod Canonical
pub mod Formats
mod Tests
use Prim.Native.Nat.{bit_and, bit_or}
use rust_x11_hello.Prelude.{
  ℕ, ◌+◌, ◌-◌, ◌*◌, ◌%◌, List, [], ◌∷◌, ◌++◌, Bool, ◌&&◌, not, Option, none, some, if◌then◌else◌,
  ltb, ◌==◌, length, get_or, slice, drop, Result, ok, err, ◌>>=◌, ◌>>◌, guard, map_ok, map_err,
  ok_or,
}
use rust_x11_hello.Prelude.Bytes.{to_be16, to_be64, from_be}
use rust_x11_hello.Protocol.Message.{
  V2MessageType, hello, pointer_down, pointer_up, viewport_changed, frame, V2EncodeError, V2Message,
  v2_version, new_header, encode_header, encode_v2_message,
}
use rust_x11_hello.Protocol.Frame.{
  PixelFormat, mono1, gray8, Mono1FrameError, Gray8FrameError, FrameError, Frame, usize_mod,
  validate_mono1_pixels, validate_gray8_pixels, new_frame, frame_width, frame_height,
  frame_pixel_format, frame_pixels,
}

abbrev pub v2_hello_payload_len : ℕ
v2_hello_payload_len = 8

abbrev pub v2_pointer_payload_len : ℕ
v2_pointer_payload_len = 4

abbrev pub v2_viewport_payload_len : ℕ
v2_viewport_payload_len = 4

abbrev pub v2_frame_prefix_len : ℕ
v2_frame_prefix_len = 16

abbrev pub mono1_format_value : ℕ
mono1_format_value = 1

abbrev pub gray8_format_value : ℕ
gray8_format_value = 2

abbrev pub mono1_format_mask : ℕ
mono1_format_mask = 1

abbrev pub gray8_format_mask : ℕ
gray8_format_mask = 2

abbrev pub supported_format_mask : ℕ
supported_format_mask = bit_or mono1_format_mask gray8_format_mask

unfoldable pub pixel_format_mask : PixelFormat → ℕ
pixel_format_mask mono1 = mono1_format_mask
pixel_format_mask gray8 = gray8_format_mask

unfoldable pub pixel_format_value : PixelFormat → ℕ
pixel_format_value mono1 = mono1_format_value
pixel_format_value gray8 = gray8_format_value

-- A set of pixel formats, one bit each.
pub record V2PixelFormats : Type 0 where
  pub mask : ℕ

-- `V2PixelFormats::new`
unfoldable pub only : PixelFormat → V2PixelFormats
unfolding pixel_format_mask
only format = record { mask = pixel_format_mask format }

-- `V2PixelFormats::with`
unfoldable pub with_format : V2PixelFormats → PixelFormat → V2PixelFormats
unfolding pixel_format_mask
with_format formats format = record { mask = bit_or formats.mask (pixel_format_mask format) }

unfoldable pub supports : V2PixelFormats → PixelFormat → Bool
unfolding pixel_format_mask
supports formats format = not (bit_and formats.mask (pixel_format_mask format) == 0)

-- `V2PixelFormats::from_mask`; `!SUPPORTED_FORMAT_MASK` on `u8`
unfoldable pub from_mask : ℕ → Option V2PixelFormats
from_mask mask =
    if not (mask == 0) && (bit_and mask (255 - supported_format_mask) == 0)
    then some (record { mask = mask })
    else none

pub record V2Hello : Type 0 where
  pub viewport_width : ℕ
  pub viewport_height : ℕ
  pub pixel_formats : V2PixelFormats

pub record V2Viewport : Type 0 where
  pub width : ℕ
  pub height : ℕ

pub data V2PointerPhase : Type 0 where
  down up : V2PointerPhase

-- `V2PointerPhase::message_type`
unfoldable pub phase_message_type : V2PointerPhase → V2MessageType
phase_message_type down = pointer_down
phase_message_type up = pointer_up

pub record V2Pointer : Type 0 where
  pub phase : V2PointerPhase
  pub x : ℕ
  pub y : ℕ

-- `V2Hello::encode_message`; bytes 2 and 3 stay zero
unfoldable pub encode_hello : V2Hello → Result V2EncodeError (List ℕ)
encode_hello h = encode_v2_message hello (
    v2_version
    ∷ h.pixel_formats.mask
    ∷ 0
    ∷ 0
    ∷ (to_be16 h.viewport_width ++ to_be16 h.viewport_height))

-- `V2Viewport::encode_message`
unfoldable pub encode_viewport : V2Viewport → Result V2EncodeError (List ℕ)
encode_viewport v = encode_v2_message viewport_changed (to_be16 v.width ++ to_be16 v.height)

-- `V2Pointer::encode_message`
unfoldable pub encode_pointer : V2Pointer → Result V2EncodeError (List ℕ)
encode_pointer p = encode_v2_message (phase_message_type p.phase) (to_be16 p.x ++ to_be16 p.y)

pub record V2FramePayload : Type 0 where
  pub frame_id : ℕ
  pub width : ℕ
  pub height : ℕ
  pub pixel_format : PixelFormat
  pub stride : ℕ
  pub pixels : List ℕ

-- `V2FramePayload::to_owned_frame`
unfoldable pub to_owned_frame : V2FramePayload → Result FrameError Frame
to_owned_frame p = new_frame p.width p.height p.pixel_format p.pixels

pub data V2Payload : Type 0 where
  hello_payload : V2Hello → V2Payload
  pointer_payload : V2Pointer → V2Payload
  viewport_payload : V2Viewport → V2Payload
  frame_payload : V2FramePayload → V2Payload

pub data V2PayloadError : Type 0 where
  invalid_length : (message_type : V2MessageType) (expected actual : ℕ) → V2PayloadError
  truncated_frame_metadata : (minimum actual : ℕ) → V2PayloadError
  hello_version : ℕ → V2PayloadError
  unsupported_pixel_format_mask : ℕ → V2PayloadError
  unsupported_pixel_format : ℕ → V2PayloadError
  non_zero_reserved : (message_type : V2MessageType) (value : ℕ) → V2PayloadError
  mono1_payload_error : Mono1FrameError → V2PayloadError
  gray8_payload_error : Gray8FrameError → V2PayloadError

-- Everything of a Frame message before its pixels.
unfoldable pub frame_prefix : ℕ → Frame → List ℕ
frame_prefix frame_id f =
    to_be64 frame_id
    ++ (to_be16 (frame_width f)
        ++ (to_be16 (frame_height f)
            ++ (pixel_format_value (frame_pixel_format f) ∷ 0 ∷ 0 ∷ 0 ∷ [])))

-- `encode_v2_frame`
unfoldable pub encode_v2_frame : ℕ → Frame → Result V2EncodeError (List ℕ)
encode_v2_frame frame_id f = do
  let payload_len = (v2_frame_prefix_len + length (frame_pixels f)) % usize_mod
  header ← new_header frame payload_len
  ok (encode_header header ++ (frame_prefix frame_id f ++ frame_pixels f))

unfoldable pub require_exact_length : V2MessageType → List ℕ → ℕ → Result V2PayloadError (Unit {0})
require_exact_length t payload expected =
    if length payload == expected then ok tt else err (invalid_length t expected (length payload))

unfoldable pub decode_hello : List ℕ → Result V2PayloadError V2Hello
unfolding require_exact_length
decode_hello payload = do
  require_exact_length hello payload v2_hello_payload_len
  guard (get_or payload 0 0 == v2_version) (hello_version (get_or payload 0 0))
  pixel_formats ←
      ok_or (unsupported_pixel_format_mask (get_or payload 1 0)) (from_mask (get_or payload 1 0))
  let reserved = from_be (slice payload 2 4)
  guard (reserved == 0) (non_zero_reserved hello reserved)
  ok (record {
    viewport_width = from_be (slice payload 4 6);
    viewport_height = from_be (slice payload 6 8);
    pixel_formats = pixel_formats;
  })

unfoldable pub decode_pointer : V2PointerPhase → List ℕ → Result V2PayloadError V2Pointer
unfolding require_exact_length
decode_pointer phase payload = do
  require_exact_length (phase_message_type phase) payload v2_pointer_payload_len
  ok (record { phase = phase; x = from_be (slice payload 0 2); y = from_be (slice payload 2 4) })

unfoldable pub decode_viewport : List ℕ → Result V2PayloadError V2Viewport
unfolding require_exact_length
decode_viewport payload = do
  require_exact_length viewport_changed payload v2_viewport_payload_len
  ok (record { width = from_be (slice payload 0 2); height = from_be (slice payload 2 4) })

-- The `match` on the byte of the pixel format
unfoldable pub decode_pixel_format : ℕ → Result V2PayloadError PixelFormat
decode_pixel_format value =
    if value == mono1_format_value
    then ok mono1
    else if value == gray8_format_value
    then ok gray8
    else err (unsupported_pixel_format value)

-- The `match` on the pixel format that validates the pixels
unfoldable pub validate_pixels : PixelFormat → ℕ → ℕ → List ℕ → Result V2PayloadError ℕ
validate_pixels mono1 width height pixels =
    map_err mono1_payload_error (validate_mono1_pixels width height pixels)
validate_pixels gray8 width height pixels =
    map_err gray8_payload_error (validate_gray8_pixels width height pixels)

unfoldable pub decode_frame : List ℕ → Result V2PayloadError V2FramePayload
decode_frame payload =
    if ltb (length payload) v2_frame_prefix_len
    then err (truncated_frame_metadata v2_frame_prefix_len (length payload))
    else do
      let frame_id = from_be (slice payload 0 8)
      let width = from_be (slice payload 8 10)
      let height = from_be (slice payload 10 12)
      pixel_format ← decode_pixel_format (get_or payload 12 0)
      let reserved = get_or payload 13 0 * 65536 + get_or payload 14 0 * 256 + get_or payload 15 0
      guard (reserved == 0) (non_zero_reserved frame reserved)
      let pixels = drop v2_frame_prefix_len payload
      stride ← validate_pixels pixel_format width height pixels
      ok (record {
        frame_id = frame_id;
        width = width;
        height = height;
        pixel_format = pixel_format;
        stride = stride;
        pixels = pixels;
      })

-- `decode_v2_payload`, on a message's type and payload
unfoldable pub decode_payload : V2MessageType → List ℕ → Result V2PayloadError V2Payload
decode_payload hello payload = map_ok hello_payload (decode_hello payload)
decode_payload pointer_down payload = map_ok pointer_payload (decode_pointer down payload)
decode_payload pointer_up payload = map_ok pointer_payload (decode_pointer up payload)
decode_payload viewport_changed payload = map_ok viewport_payload (decode_viewport payload)
decode_payload frame payload = map_ok frame_payload (decode_frame payload)

unfoldable pub decode_v2_payload : V2Message → Result V2PayloadError V2Payload
unfolding decode_payload
decode_v2_payload m = decode_payload m.header.message_type m.payload
