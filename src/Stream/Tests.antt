-- ===== src/Stream/Tests.antt =====
-- Witnesses and tests of the framed reader.
use rust_x11_hello.Prelude.{ℕ, ◌≡◌, refl, List, [], ◌∷◌, ◌++◌, ok, err}
use rust_x11_hello.Protocol.Message.{
  hello, V2Message, encode_v2_message, decode_v2_message, try_from, decode_body, invalid_magic,
}
use rust_x11_hello.Stream.{
  invalid_header, read_exact, read_encoded, additional_bytes, take_complete,
}
use rust_x11_hello.Stream.Framing.{read_encoded-encode, read_encoded-IsCause, IsCause}

abbrev sample : List ℕ
sample = 80 ∷ 80 ∷ 70 ∷ 66 ∷ 2 ∷ 1 ∷ 0 ∷ 0 ∷ 0 ∷ 0 ∷ 0 ∷ 2 ∷ 1 ∷ 2 ∷ []

abbrev sample_message : V2Message
sample_message = record {
  header = record { message_type = hello; payload_len = 2 };
  payload = 1 ∷ 2 ∷ [];
}

abbrev legacy : List ℕ
legacy = 108 ∷ 101 ∷ 103 ∷ 97 ∷ 99 ∷ 121 ∷ 32 ∷ 108 ∷ 105 ∷ 110 ∷ 101 ∷ 10 ∷ []

sample_read : read_encoded (sample ++ 9 ∷ []) ≡ ok (sample_message, sample, 9 ∷ [])
unfolding read_encoded read_exact additional_bytes take_complete decode_v2_message try_from
    decode_body
sample_read = refl

legacy_refused :
    read_encoded legacy ≡ err (invalid_header (invalid_magic (108 ∷ 101 ∷ 103 ∷ 97 ∷ [])))
unfolding read_encoded read_exact decode_v2_message
legacy_refused = refl

read_encoded-encode_example : read_encoded (sample ++ 9 ∷ []) ≡ ok (sample_message, sample, 9 ∷ [])
unfolding encode_v2_message
read_encoded-encode_example = read_encoded-encode hello (1 ∷ 2 ∷ []) (9 ∷ []) {bytes = sample} refl

read_encoded-IsCause_example : IsCause (invalid_header (invalid_magic (108 ∷ 101 ∷ 103 ∷ 97 ∷ [])))
read_encoded-IsCause_example = read_encoded-IsCause legacy legacy_refused
