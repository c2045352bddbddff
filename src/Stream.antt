-- ===== src/Stream.antt =====
-- Reading framed messages from a byte stream: the part that
-- tools/paperspoon/src/inbound.rs (`read_v2_message`) and src/net/mod.rs (`read_v2_frame`) share.
-- A reader is the list of the bytes that its peer sends before it closes.
pub mod Framing
mod Tests
use rust_x11_hello.Prelude.{
  ℕ, ◌+◌, ◌-◌, List, [], ◌∷◌, ◌++◌, if◌then◌else◌, ltb, ◌==◌, length, take, drop, Result, ok, err,
  ◌>>=◌, ◌>>◌, guard, map_err,
}
use rust_x11_hello.Protocol.Message.{
  V2MessageType, V2Message, V2DecodeError, V2DecodeResult, incomplete, complete, v2_header_len,
  decode_v2_message,
}
use rust_x11_hello.Protocol.Payload.{V2PayloadError}

-- `io::Error`, with what the two readers put into it.
pub data ReadError : Type 0 where
  unexpected_eof : ReadError
  invalid_header : V2DecodeError → ReadError
  invalid_payload : V2PayloadError → ReadError
  still_incomplete : ReadError
  consumed_mismatch : ReadError
  unexpected_message : V2MessageType → ReadError
  payload_disagrees : ReadError
  hello_expected : ReadError
  duplicate_hello : ReadError

-- `Read::read_exact`, with the bytes left behind
unfoldable pub read_exact : ℕ → List ℕ → Result ReadError (List ℕ × List ℕ)
read_exact n input =
    if ltb (length input) n then err unexpected_eof else ok (take n input, drop n input)

-- The `match` on the first decoding of the header
unfoldable pub additional_bytes : V2DecodeResult → ℕ
additional_bytes (incomplete additional) = additional
additional_bytes (complete m consumed) = 0

-- The second decoding, of the whole message
unfoldable pub take_complete : List ℕ → V2DecodeResult → Result ReadError V2Message
take_complete encoded (incomplete additional) = err still_incomplete
take_complete encoded (complete m consumed) =
    if consumed == length encoded then ok m else err consumed_mismatch

-- The message, the bytes that it was read from, and the bytes left behind
unfoldable pub read_encoded : List ℕ → Result ReadError (V2Message × List ℕ × List ℕ)
read_encoded input = do
  (header, behind_header) ← read_exact v2_header_len input
  first ← map_err invalid_header (decode_v2_message header)
  (body, rest) ← read_exact (additional_bytes first) behind_header
  let encoded = header ++ body
  second ← map_err invalid_header (decode_v2_message encoded)
  message ← take_complete encoded second
  ok (message, encoded, rest)
