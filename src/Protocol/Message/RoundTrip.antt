-- ===== src/Protocol/Message/RoundTrip.antt =====
-- Framing and unframing are inverse.
use rust_x11_hello.Prelude.{
  ℕ, ap, ◌-◌, if◌then◌else◌, ltb, append_assoc, ◌+◌, ◌≤◌, ◌≡◌, refl, List, ◌++◌, arith, length,
  length-append, take, take-length-append, ok,
}
use rust_x11_hello.Prelude.Bytes.{from_be-to_be32}
use rust_x11_hello.Protocol.Message.{
  incomplete, V2MessageType, V2Header, v2_max_payload_len, encode_header, encode_v2_message,
  decode_v2_message, decode_body, complete, new_header, try_from, type_value,
}

pub length-encode_header : (h : V2Header) → length (encode_header h) ≡ 12
unfolding encode_header
length-encode_header h = refl

pub encode_v2_message-ok :
    (t : V2MessageType) (payload : List ℕ)
    → length payload ≤ v2_max_payload_len
    → encode_v2_message t payload
      ≡ ok (encode_header (record { message_type = t; payload_len = length payload }) ++ payload)
unfolding encode_v2_message
encode_v2_message-ok t payload h = ground arith

try_from-type_value : (t : V2MessageType) → try_from (type_value t) ≡ ok t
unfolding try_from type_value
try_from-type_value V2MessageType.hello = refl
try_from-type_value _ = refl

sub_header : (n : ℕ) → 12 + n - 12 ≡ n
sub_header n = omega arith

-- A buffer that begins with a valid header is judged by its length alone.
pub decode_header :
    (h : V2Header) (rest : List ℕ)
    → h.payload_len ≤ v2_max_payload_len
    → decode_v2_message (encode_header h ++ rest)
      ≡ ok (
          if ltb (length rest) h.payload_len
          then incomplete (h.payload_len - length rest)
          else complete
              (record { header = h; payload = take h.payload_len rest })
              (12 + h.payload_len))
unfolding decode_v2_message decode_body encode_header
decode_header h rest fits = ground (
  arith,
  try_from-type_value h.message_type,
  from_be-to_be32 h.payload_len,
  ap (λ (n : ℕ). take n rest) (sub_header h.payload_len),
)

-- What a successful `encode_v2_message` returns, and under which bound.
pub encode_v2_message-eq-ok :
    (t : V2MessageType) (payload bytes : List ℕ)
    → encode_v2_message t payload ≡ ok bytes
    → (length payload ≤ v2_max_payload_len)
      × (bytes
          ≡ encode_header (record { message_type = t; payload_len = length payload }) ++ payload)
unfolding encode_v2_message new_header
encode_v2_message-eq-ok t payload bytes h = ground arith

-- Decoding the encoding of a message gives back its type, its payload and its exact length, and
-- leaves whatever follows it in the buffer.
pub decode-encode :
    (t : V2MessageType) (payload rest : List ℕ) {bytes : List ℕ}
    → encode_v2_message t payload ≡ ok bytes
    → decode_v2_message (bytes ++ rest)
      ≡ ok (
          complete
            (record {
              header = record { message_type = t; payload_len = length payload };
              payload = payload;
            })
            (length bytes))
decode-encode t payload rest {bytes} e =
    let h : V2Header = record { message_type = t; payload_len = length payload } in
    let (fits, eq) = encode_v2_message-eq-ok t payload bytes e in
    ground (
      arith,
      fits,
      eq,
      append_assoc (encode_header h) payload rest,
      decode_header h (payload ++ rest),
      take-length-append payload rest,
      length-append payload rest,
      length-append (encode_header h) payload,
      length-encode_header h,
    )
