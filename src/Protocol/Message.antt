-- ===== src/Protocol/Message.antt =====
-- crates/paper-protocol/src/v2.rs: one framed message, a header of 12 bytes and a payload.
pub mod RoundTrip
pub mod Partial
pub mod Canonical
mod Tests
use rust_x11_hello.Prelude.{
  ℕ, ◌+◌, ◌-◌, ◌*◌, ◌%◌, ◌^◌, List, [], ◌∷◌, ◌++◌, if◌then◌else◌, ltb, leb, ◌==◌, length, get_or,
  slice, drop, Result, ok, err, ◌>>=◌, ◌>>◌, guard,
}
use rust_x11_hello.Prelude.Bytes.{to_be16, to_be32, from_be, bytes_eq}

-- `V2_MAGIC`, the bytes of "PPFB"
abbrev pub v2_magic : List ℕ
v2_magic = b'P' ∷ b'P' ∷ b'F' ∷ b'B' ∷ []

abbrev pub v2_version : ℕ
v2_version = 2

abbrev pub v2_header_len : ℕ
v2_header_len = 12

abbrev pub v2_max_payload_len : ℕ
v2_max_payload_len = 16 * 1024 * 1024

pub data V2MessageType : Type 0 where
  hello pointer_down pointer_up viewport_changed frame : V2MessageType

pub data V2EncodeError : Type 0 where
  payload_too_large : ℕ → ℕ → V2EncodeError

pub data V2DecodeError : Type 0 where
  invalid_magic : List ℕ → V2DecodeError
  unsupported_version : ℕ → V2DecodeError
  unknown_message_type : ℕ → V2DecodeError
  non_zero_flags : ℕ → V2DecodeError
  payload_too_large : ℕ → ℕ → V2DecodeError

-- `message_type as u8`
unfoldable pub type_value : V2MessageType → ℕ
type_value hello = 1
type_value pointer_down = 2
type_value pointer_up = 3
type_value viewport_changed = 4
type_value frame = 5

-- `V2MessageType::try_from`
unfoldable pub try_from : ℕ → Result V2DecodeError V2MessageType
try_from value =
    if value == 1
    then ok hello
    else if value == 2
    then ok pointer_down
    else if value == 3
    then ok pointer_up
    else if value == 4
    then ok viewport_changed
    else if value == 5
    then ok frame
    else err (unknown_message_type value)

pub record V2Header : Type 0 where
  pub message_type : V2MessageType
  pub payload_len : ℕ

-- `V2Header::new`. The maximum fits `u32`, so the second conversion cannot fail after the first.
unfoldable pub new_header : V2MessageType → ℕ → Result V2EncodeError V2Header
new_header t payload_len =
    if ltb v2_max_payload_len payload_len
    then err (V2EncodeError.payload_too_large payload_len v2_max_payload_len)
    else if ltb payload_len (2 ^ 32)
    then ok (record { message_type = t; payload_len = payload_len })
    else err (V2EncodeError.payload_too_large payload_len v2_max_payload_len)

-- `V2Header::encode`
unfoldable pub encode_header : V2Header → List ℕ
unfolding type_value
encode_header h =
    v2_magic ++ v2_version ∷ type_value h.message_type ∷ (to_be16 0 ++ to_be32 h.payload_len)

pub record V2Message : Type 0 where
  pub header : V2Header
  pub payload : List ℕ

pub data V2DecodeResult : Type 0 where
  incomplete : (additional : ℕ) → V2DecodeResult
  complete : (message : V2Message) (consumed : ℕ) → V2DecodeResult

unfoldable pub encode_v2_message : V2MessageType → List ℕ → Result V2EncodeError (List ℕ)
unfolding new_header encode_header
encode_v2_message t payload = do
  header ← new_header t (length payload)
  ok (encode_header header ++ payload)

-- The part of `decode_v2_message` behind the checks of the header.
unfoldable pub decode_body : V2MessageType → ℕ → List ℕ → V2DecodeResult
decode_body t payload_len input =
    let consumed = v2_header_len + payload_len in
    if ltb (length input) consumed
    then incomplete (consumed - length input)
    else complete
        (record {
          header = record { message_type = t; payload_len = payload_len % 2 ^ 32 };
          payload = slice input v2_header_len consumed;
        })
        consumed

-- The checks read bytes 0 to 11 only, and run when these are there.
unfoldable pub decode_v2_message : List ℕ → Result V2DecodeError V2DecodeResult
decode_v2_message input =
    if ltb (length input) v2_header_len then ok (incomplete (v2_header_len - length input)) else do
      let magic = slice input 0 4
      guard (bytes_eq magic v2_magic) (invalid_magic magic)
      guard (get_or input 4 0 == v2_version) (unsupported_version (get_or input 4 0))
      message_type ← try_from (get_or input 5 0)
      let flags = from_be (slice input 6 8)
      guard (flags == 0) (non_zero_flags flags)
      let payload_len = from_be (slice input 8 12)
      guard (leb payload_len v2_max_payload_len)
          (V2DecodeError.payload_too_large payload_len v2_max_payload_len)
      ok (decode_body message_type payload_len input)
