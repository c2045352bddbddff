-- ===== src/Protocol/Message/Canonical.antt =====
-- What decoding accepts is exactly what encoding writes.
use mathlib.Core.Path.{subst}
use rust_x11_hello.Prelude.{
  ℕ, take-append_add, Result-cases, inl, inr, ◌+◌, ◌≤◌, ◌≡◌, List, [], ◌∷◌, ◌++◌, arith, length,
  take, drop, ok, All, length-take,
}
use rust_x11_hello.Prelude.Bytes.{from_be, IsU8, to_be32-from_be}
use rust_x11_hello.Protocol.Message.{
  V2MessageType, V2Header, V2Message, v2_max_payload_len, encode_header, encode_v2_message,
  decode_v2_message, V2DecodeResult, complete, type_value, try_from,
}
use rust_x11_hello.Protocol.Message.RoundTrip.{
  length-encode_header, encode_v2_message-ok, decode_header,
}

type_value-try_from : (v : ℕ) (t : V2MessageType) → try_from v ≡ ok t → type_value t ≡ v
unfolding type_value try_from
type_value-try_from v t h = ground arith

long :
    (input : List ℕ) {m : V2Message} {consumed : ℕ}
    → decode_v2_message input ≡ ok (complete m consumed)
    → 12 ≤ length input
unfolding decode_v2_message
long input e = ground arith

take-header :
    (h : V2Header) (n : ℕ) (rest : List ℕ)
    → take (12 + n) (encode_header h ++ rest) ≡ encode_header h ++ take n rest
take-header h n rest =
    subst (λ k. take (k + n) (encode_header h ++ rest) ≡ encode_header h ++ take n rest)
      (length-encode_header h) (take-append_add (encode_header h) rest n)

-- Bytes that pass the header's checks are the encoding of a header.
decode-header_inv :
    (input : List ℕ) {r : V2DecodeResult}
    → All IsU8 input
    → 12 ≤ length input
    → decode_v2_message input ≡ ok r
    → (h : V2Header) × (h.payload_len ≤ v2_max_payload_len)
      × (input ≡ encode_header h ++ drop 12 input)
unfolding decode_v2_message encode_header
decode-header_inv (a ∷ b ∷ c ∷ d ∷ v ∷ ty ∷ f ∷ g ∷ l ∷ k ∷ n ∷ o ∷ rest) bytes long e =
    elim (Result-cases (try_from ty)) [
      | inl (t, known) ↦ (
        record { message_type = t; payload_len = from_be (l ∷ k ∷ n ∷ o ∷ []) },
        ground (arith, known),
        ground (arith, known, type_value-try_from ty t known, to_be32-from_be l k n o),
      )
      | inr (e', unknown) ↦ absurd (ground (arith, unknown))
    ]
decode-header_inv _ bytes long e = absurd (omega arith)

-- A buffer of bytes that decodes to a message begins with the encoding of that message, as long as
-- what was consumed.
pub encode-decode :
    (input : List ℕ) {m : V2Message} {consumed : ℕ}
    → All IsU8 input
    → decode_v2_message input ≡ ok (complete m consumed)
    → encode_v2_message m.header.message_type m.payload ≡ ok (take consumed input)
encode-decode input {m} {consumed} bytes e =
    let (h, fits, eq) = decode-header_inv input bytes (long input e) e in
    ground (
      arith,
      e,
      eq,
      fits,
      decode_header h (drop 12 input),
      encode_v2_message-ok m.header.message_type m.payload,
      length-take h.payload_len (drop 12 input),
      take-header h h.payload_len (drop 12 input),
    )
