-- ===== src/Stream/Framing.antt =====
-- Reading a stream takes off exactly one message, and fails only for a cause in the stream.
use rust_x11_hello.Prelude.{
  ℕ, take-append-drop, >>=-eq-ok, ◌≤◌, ◌≡◌, List, [], ◌∷◌, ◌++◌, arith, length, length-append,
  length-take, ok, err, inl, inr, append-nil, take-length-append, drop-length-append, append_assoc,
  map_err, ap, sym, >>=-eq-err, map_err-eq-err,
}
use mathlib.Core.Path.{subst}
use rust_x11_hello.Protocol.Message.{
  V2MessageType, V2Header, V2Message, encode_v2_message, encode_header, decode_v2_message,
  incomplete, complete, v2_max_payload_len, V2DecodeResult,
}
use rust_x11_hello.Protocol.Message.RoundTrip.{
  decode-encode, decode_header, encode_v2_message-eq-ok, length-encode_header,
}
use rust_x11_hello.Protocol.Message.Partial.{decode_consumed, decode_incomplete_enough}
use rust_x11_hello.Protocol.Payload.{V2Payload, decode_v2_payload}
use rust_x11_hello.Protocol.Payload.RoundTrip.{Writes}
use rust_x11_hello.Stream.{
  invalid_header, unexpected_eof, ReadError, read_exact, read_encoded, additional_bytes,
  take_complete,
}

read_exact-append : (xs ys : List ℕ) → read_exact (length xs) (xs ++ ys) ≡ ok (xs, ys)
unfolding read_exact
read_exact-append xs ys =
    ground (arith, length-append xs ys, take-length-append xs ys, drop-length-append xs ys)

header_alone :
    (h : V2Header)
    → h.payload_len ≤ v2_max_payload_len
    → (r : V2DecodeResult) × (decode_v2_message (encode_header h) ≡ ok r)
      × (additional_bytes r ≡ h.payload_len)
header_alone h fits =
    (_, rw append-nil at (decode_header h [] fits), unfold additional_bytes in ground arith)

-- Of an encoded message with anything behind it, the reader returns that message, the bytes of its
-- encoding, and what stands behind.
pub read_encoded-encode :
    (t : V2MessageType) (payload rest : List ℕ) {bytes : List ℕ}
    → encode_v2_message t payload ≡ ok bytes
    → read_encoded (bytes ++ rest)
      ≡ ok (
        record {
          header = record { message_type = t; payload_len = length payload };
          payload = payload;
        },
        bytes,
        rest,
      )
unfolding read_encoded take_complete
read_encoded-encode t payload rest {bytes} e =
    let h : V2Header = record { message_type = t; payload_len = length payload } in
    let (fits, eq) = encode_v2_message-eq-ok t payload bytes e in
    let (first, decoded, more) = header_alone h fits in
    ground (
      arith,
      eq,
      decoded,
      more,
      append_assoc (encode_header h) payload rest,
      length-encode_header h,
      read_exact-append (encode_header h) (payload ++ rest),
      read_exact-append payload rest,
      decode-encode t payload [] e,
      append-nil bytes,
    )

read_exact-eq-ok :
    (n : ℕ) (input taken rest : List ℕ)
    → read_exact n input ≡ ok (taken, rest)
    → (length taken ≡ n) × (taken ++ rest ≡ input)
unfolding read_exact
read_exact-eq-ok n input taken rest e =
    ground (arith, length-take n input, take-append-drop n input)

-- What the reader returns is the decoding of exactly the bytes that it took off the stream.
pub read_encoded_sound :
    (input : List ℕ) {m : V2Message} {encoded rest : List ℕ}
    → read_encoded input ≡ ok (m, encoded, rest)
    → (encoded ++ rest ≡ input) × (decode_v2_message encoded ≡ ok (complete m (length encoded)))
unfolding read_encoded take_complete
read_encoded_sound input e =
    let (front, e1, k1) = >>=-eq-ok (read_exact 12 input) _ e in
    let (first, e2, k2) = >>=-eq-ok (map_err invalid_header (decode_v2_message front.0)) _ k1 in
    let (body, e3, k3) = >>=-eq-ok (read_exact (additional_bytes first) front.1) _ k2 in
    let (second, e4, k4) =
      >>=-eq-ok (map_err invalid_header (decode_v2_message (front.0 ++ body.0))) _ k3 in
    ground (
      arith,
      e1,
      e2,
      e3,
      e4,
      k4,
      read_exact-eq-ok 12 input front.0 front.1,
      read_exact-eq-ok (additional_bytes first) front.1 body.0 body.1,
      append_assoc front.0 body.0 body.1,
    )

-- The second decoding finds one whole message, for all that follows the first one's answer.
second_decoding :
    (front body : List ℕ) (first : V2DecodeResult)
    → length front ≡ 12
    → decode_v2_message front ≡ ok first
    → length body ≡ additional_bytes first
    → (m : V2Message) × (decode_v2_message (front ++ body)
        ≡ ok (complete m (length (front ++ body))))
unfolding additional_bytes
second_decoding front body (incomplete additional) n e l =
    decode_incomplete_enough front body (omega arith) e l
second_decoding front [] (complete m consumed) n e l =
    (m, ground (arith, append-nil front, decode_consumed front e))
second_decoding front (x ∷ body) (complete m consumed) n e l = absurd (omega arith)

-- The causes that a stream can have: it ends too early, or its header is refused.
abbrev pub IsCause : ReadError → Type 0
IsCause unexpected_eof = Unit {0}
IsCause (invalid_header e) = Unit {0}
IsCause _ = ⊥

read_exact-IsCause :
    (n : ℕ) (input : List ℕ) {e : ReadError} → read_exact n input ≡ err e → e ≡ unexpected_eof
unfolding read_exact
read_exact-IsCause n input h = ground arith

header-IsCause :
    (input : List ℕ) {e : ReadError}
    → map_err invalid_header (decode_v2_message input) ≡ err e
    → IsCause e
header-IsCause input h =
    let (e', _, same) = map_err-eq-err invalid_header (decode_v2_message input) h in
    subst IsCause (sym same) tt

-- Whatever the stream holds, a failed read is an early end or a refused header: the two checks
-- behind the second decoding never fail.
pub read_encoded-IsCause : (input : List ℕ) {e : ReadError} → read_encoded input ≡ err e → IsCause e
unfolding read_encoded take_complete
read_encoded-IsCause input {e} h = elim (>>=-eq-err (read_exact 12 input) _ h) [
  | inl short ↦ subst IsCause (sym (read_exact-IsCause 12 input short)) tt
  | inr (front, e1, k1) ↦
      elim (>>=-eq-err (map_err invalid_header (decode_v2_message front.0)) _ k1) [
        | inl refused ↦ header-IsCause front.0 refused
        | inr (first, e2, k2) ↦
            elim (>>=-eq-err (read_exact (additional_bytes first) front.1) _ k2) [
              | inl short ↦
                  subst IsCause (sym (read_exact-IsCause (additional_bytes first) front.1 short)) tt
              | inr (body, e3, k3) ↦
                  let (m, whole) =
                    second_decoding front.0 body.0 first
                      (read_exact-eq-ok 12 input front.0 front.1 e1).0 (ground (arith, e2))
                      (read_exact-eq-ok (additional_bytes first) front.1 body.0 body.1 e3).0 in
                  absurd (ground (arith, whole, k3))
            ]
      ]
]

-- Of a framed typed payload with anything behind it, the reader returns a message that carries it.
pub read_encoded-Writes :
    (bytes rest : List ℕ) (p : V2Payload)
    → Writes bytes p
    → (m : V2Message) × (read_encoded (bytes ++ rest) ≡ ok (m, bytes, rest))
      × (decode_v2_payload m ≡ ok p)
unfolding decode_v2_payload
read_encoded-Writes bytes rest p (t, payload, written, e) =
    (_, read_encoded-encode t payload rest written, e)

-- A framed message is no empty stream.
pub Writes-length : (bytes : List ℕ) (p : V2Payload) → Writes bytes p → 12 ≤ length bytes
Writes-length bytes p (t, payload, written, e) =
    let h : V2Header = record { message_type = t; payload_len = length payload } in
    let (_, eq) = encode_v2_message-eq-ok t payload bytes written in
    omega (
      arith,
      ap (λ (l : List ℕ). length l) eq,
      length-append (encode_header h) payload,
      length-encode_header h,
    )
