-- ===== src/Protocol/Message/Tests.antt =====
-- Witnesses and tests of message framing.
use rust_x11_hello.Prelude.{ℕ, ◌≡◌, refl, List, [], ◌∷◌, ◌++◌, arith, ok, err, take}
use rust_x11_hello.Protocol.Message.{
  hello, V2Message, encode_v2_message, decode_v2_message, try_from, decode_body, incomplete,
  complete, unsupported_version,
}
use rust_x11_hello.Protocol.Message.RoundTrip.{decode-encode}
use rust_x11_hello.Protocol.Message.Canonical.{encode-decode}

-- A Hello message with the payload 1, 2
abbrev sample : List ℕ
sample = 80 ∷ 80 ∷ 70 ∷ 66 ∷ 2 ∷ 1 ∷ 0 ∷ 0 ∷ 0 ∷ 0 ∷ 0 ∷ 2 ∷ 1 ∷ 2 ∷ []

abbrev sample_message : V2Message
sample_message = record {
  header = record { message_type = hello; payload_len = 2 };
  payload = 1 ∷ 2 ∷ [];
}

abbrev header_only : List ℕ
header_only = 80 ∷ 80 ∷ 70 ∷ 66 ∷ 2 ∷ 1 ∷ 0 ∷ 0 ∷ 0 ∷ 0 ∷ 0 ∷ 2 ∷ []

sample_decodes : decode_v2_message sample ≡ ok (complete sample_message 14)
unfolding decode_v2_message try_from decode_body
sample_decodes = refl

header_decodes : decode_v2_message header_only ≡ ok (incomplete 2)
unfolding decode_v2_message try_from decode_body
header_decodes = refl

other_version :
    decode_v2_message (80 ∷ 80 ∷ 70 ∷ 66 ∷ 3 ∷ 1 ∷ 0 ∷ 0 ∷ 0 ∷ 0 ∷ 0 ∷ 2 ∷ [])
    ≡ err (unsupported_version 3)
unfolding decode_v2_message try_from decode_body
other_version = refl

decode-encode_example : decode_v2_message (sample ++ 9 ∷ []) ≡ ok (complete sample_message 14)
unfolding encode_v2_message
decode-encode_example = decode-encode hello (1 ∷ 2 ∷ []) (9 ∷ []) {bytes = sample} refl

encode-decode_example : encode_v2_message hello (1 ∷ 2 ∷ []) ≡ ok (take 14 sample)
encode-decode_example = encode-decode sample (omega arith) sample_decodes
