-- ===== src/Protocol/Message/Partial.antt =====
-- A buffer that holds only part of a message, and what more bytes can change.
use rust_x11_hello.Prelude.{
  ℕ, Result-cases, inl, inr, ◌%◌, ◌^◌, ◌*◌, suc, ◌+◌, ◌-◌, ◌≤◌, ◌<◌, ◌≡◌, refl, List, [], ◌∷◌, ◌++◌,
  arith, length, length-append, take, ltb, if◌then◌else◌, take-append_le, Result, ok, err,
}
use rust_x11_hello.Prelude.Bytes.{from_be}
use rust_x11_hello.Protocol.Message.{
  try_from, V2MessageType, V2Message, encode_header, encode_v2_message, decode_v2_message,
  decode_body, V2DecodeResult, complete, incomplete, V2DecodeError,
}
use rust_x11_hello.Protocol.Message.RoundTrip.{encode_v2_message-eq-ok, decode_header}

-- Of every proper prefix of an encoded message, decoding asks for exactly the bytes that the header
-- still lacks or, once the header is there, for exactly those that the message still lacks.
pub decode_prefix :
    (t : V2MessageType) (payload front : List ℕ) (x : ℕ) (back : List ℕ)
    → encode_v2_message t payload ≡ ok (front ++ (x ∷ back))
    → decode_v2_message front
      ≡ ok (incomplete (if ltb (length front) 12 then 12 - length front else suc (length back)))
unfolding decode_v2_message encode_header
decode_prefix t payload [] x back e = ground arith
decode_prefix t payload (_ ∷ []) x back e = ground arith
decode_prefix t payload (_ ∷ _ ∷ []) x back e = ground arith
decode_prefix t payload (_ ∷ _ ∷ _ ∷ []) x back e = ground arith
decode_prefix t payload (a ∷ b ∷ c ∷ d ∷ v ∷ ty ∷ f ∷ g ∷ l ∷ m ∷ n ∷ o ∷ rest) x back e =
    let (fits, eq) = encode_v2_message-eq-ok t payload _ e in
    ground (
      arith,
      fits,
      eq,
      decode_header (record { message_type = t; payload_len = length payload }) rest,
      length-append rest (x ∷ back),
    )
decode_prefix t payload _ x back e = ground arith

decode_error_stable :
    (input more : List ℕ) {e : V2DecodeError}
    → decode_v2_message input ≡ err e
    → decode_v2_message (input ++ more) ≡ err e
unfolding decode_v2_message
decode_error_stable (a ∷ b ∷ c ∷ d ∷ v ∷ ty ∷ f ∷ g ∷ l ∷ m ∷ n ∷ o ∷ rest) more h = ground arith
decode_error_stable _ more h = ground arith

decode_complete_stable :
    (input more : List ℕ) {m : V2Message} {consumed : ℕ}
    → decode_v2_message input ≡ ok (complete m consumed)
    → decode_v2_message (input ++ more) ≡ ok (complete m consumed)
unfolding decode_v2_message decode_body
decode_complete_stable (a ∷ b ∷ c ∷ d ∷ v ∷ ty ∷ f ∷ g ∷ l ∷ m ∷ n ∷ o ∷ rest) more h = ground (
  arith,
  length-append rest more,
  take-append_le (12 + ((((0 + l) * 256 + m) * 256 + n) * 256 + o) - 12) rest more,
)
decode_complete_stable _ more h = ground arith

-- A buffer that asks for no more bytes.
abbrev pub IsDecided : Result V2DecodeError V2DecodeResult → Type 0
IsDecided (ok (incomplete additional)) = ⊥
IsDecided _ = Unit {0}

-- What a buffer has been judged to be stands whatever bytes follow: a decoded message is decoded the
-- same, and a rejected buffer is rejected with the same error.
pub decode_stable :
    (input more : List ℕ)
    → IsDecided (decode_v2_message input)
    → decode_v2_message (input ++ more) ≡ decode_v2_message input
decode_stable input more = by_result (decode_v2_message input) refl
  where
    by_result :
        (r : Result V2DecodeError V2DecodeResult)
        → decode_v2_message input ≡ r
        → IsDecided r
        → decode_v2_message (input ++ more) ≡ r
    by_result (ok (incomplete additional)) e h = absurd h
    by_result (ok (complete m consumed)) e h = decode_complete_stable input more e
    by_result (err x) e h = decode_error_stable input more e

-- `additional` is a true lower bound: with fewer bytes appended the buffer still holds no message.
pub decode_incomplete_minimal :
    (input more : List ℕ) {additional : ℕ}
    → decode_v2_message input ≡ ok (incomplete additional)
    → length more < additional
    → (m : V2Message) (consumed : ℕ)
    → ¬ (decode_v2_message (input ++ more) ≡ ok (complete m consumed))
unfolding decode_v2_message decode_body
decode_incomplete_minimal (a ∷ b ∷ c ∷ d ∷ v ∷ ty ∷ f ∷ g ∷ l ∷ m ∷ n ∷ o ∷ rest) more h lt msg
      consumed =
    ground (arith, length-append rest more)
decode_incomplete_minimal input more h lt msg consumed = ground (arith, length-append input more)

-- `additional` is enough once the header is there: with that many bytes appended the buffer is one
-- message, of all its bytes.
pub decode_incomplete_enough :
    (input more : List ℕ) {additional : ℕ}
    → 12 ≤ length input
    → decode_v2_message input ≡ ok (incomplete additional)
    → length more ≡ additional
    → (m : V2Message) × (decode_v2_message (input ++ more)
        ≡ ok (complete m (length (input ++ more))))
unfolding decode_v2_message decode_body
decode_incomplete_enough (a ∷ b ∷ c ∷ d ∷ v ∷ ty ∷ f ∷ g ∷ l ∷ m ∷ n ∷ o ∷ rest) more long h eq =
    let p = from_be (l ∷ m ∷ n ∷ o ∷ []) in
    elim (Result-cases (try_from ty)) [
      | inl (t, known) ↦ (
        record {
          header = record { message_type = t; payload_len = p % 2 ^ 32 };
          payload = take (12 + p - 12) (rest ++ more);
        },
        ground (arith, known, length-append rest more),
      )
      | inr (e, unknown) ↦ absurd (ground (arith, unknown))
    ]
decode_incomplete_enough _ more long h eq = absurd (omega arith)

-- A decoded message takes its header at least, and no more than the buffer.
pub decode_consumed :
    (input : List ℕ) {m : V2Message} {consumed : ℕ}
    → decode_v2_message input ≡ ok (complete m consumed)
    → (12 ≤ consumed) × (consumed ≤ length input)
unfolding decode_v2_message decode_body
decode_consumed input h = (ground arith, ground arith)
