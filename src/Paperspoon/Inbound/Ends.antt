-- ===== src/Paperspoon/Inbound/Ends.antt =====
-- The loop over a connection ends: every message takes bytes off the stream.
use rust_x11_hello.Prelude.{
  ℕ, zero, suc, ◌+◌, ◌<◌, ◌≡◌, ◌≢◌, refl, List, [], ◌∷◌, arith, Option, none, some, ok, err, Result,
  length, ap, length-append, >>=-eq-ok, map_err,
}
use rust_x11_hello.Protocol.Message.Partial.{decode_consumed}
use rust_x11_hello.Protocol.Payload.{V2Hello, decode_v2_payload}
use rust_x11_hello.Stream.{ReadError, read_encoded, invalid_payload}
use rust_x11_hello.Stream.Framing.{read_encoded_sound}
use rust_x11_hello.Paperspoon.Inbound.{
  InboundMessage, SessionMessage, to_inbound, read_v2_message, read_inbound_message,
  read_session_hello, read_session_message, session_message, serve_loop, serve_step, serve_from,
  serve_connection,
}

read_v2_message-shorter :
    (input rest : List ℕ) (m : InboundMessage)
    → read_v2_message input ≡ ok (m, rest)
    → length rest < length input
unfolding read_v2_message
read_v2_message-shorter input rest m e =
    let (message, e1, k1) = >>=-eq-ok (read_encoded input) _ e in
    let (payload, e2, k2) =
      >>=-eq-ok (map_err invalid_payload (decode_v2_payload message.0)) _ k1 in
    let (inbound, e3, k3) = >>=-eq-ok (to_inbound message.0.header.message_type payload) _ k2 in
    let (parts, decoded) = read_encoded_sound input e1 in
    let same : message.2 ≡ rest = ground (arith, k3) in
    omega (
      arith,
      decode_consumed message.1 decoded,
      length-append message.1 message.2,
      ap (λ (l : List ℕ). length l) parts,
      ap (λ (l : List ℕ). length l) same,
    )

read_inbound_message-shorter :
    (input rest : List ℕ) (m : InboundMessage)
    → read_inbound_message input ≡ ok (some m, rest)
    → length rest < length input
unfolding read_inbound_message
read_inbound_message-shorter [] rest m e = absurd (ground arith)
read_inbound_message-shorter (b ∷ input) rest m e =
    let (got, e1, k1) = >>=-eq-ok (read_v2_message (b ∷ input)) _ e in
    let same : got.1 ≡ rest = ground (arith, k1) in
    omega (
      arith,
      read_v2_message-shorter (b ∷ input) got.1 got.0 e1,
      ap (λ (l : List ℕ). length l) same,
    )

session_message-none : (m : Option InboundMessage) → session_message m ≡ ok none → m ≡ none
unfolding session_message
session_message-none m e = ground arith

session_message-some :
    (m : Option InboundMessage) (s : SessionMessage)
    → session_message m ≡ ok (some s)
    → (i : InboundMessage) × (m ≡ some i)
unfolding session_message
session_message-some none s e = absurd (ground arith)
session_message-some (some i) s e = (i, refl)

-- Each message that is handed on shortens the stream.
pub read_session_message-shorter :
    (input rest : List ℕ) (s : SessionMessage)
    → read_session_message input ≡ ok (some s, rest)
    → length rest < length input
unfolding read_session_message
read_session_message-shorter input rest s e =
    let (got, e1, k1) = >>=-eq-ok (read_inbound_message input) _ e in
    let (next, e2, k2) = >>=-eq-ok (session_message got.0) _ k1 in
    let (i, known) = session_message-some got.0 s (ground (arith, e2, k2)) in
    let read : read_inbound_message input ≡ ok (some i, rest) = ground (arith, e1, known, k2) in
    read_inbound_message-shorter input rest i read

step_total :
    (fuel : ℕ) (input : List ℕ)
    → ((rest : List ℕ) → length rest < length input → serve_loop fuel rest ≢ none)
    → (r : Result ReadError (Option SessionMessage × List ℕ)) → read_session_message input ≡ r
    → serve_step (serve_loop fuel) r ≢ none
unfolding serve_step
step_total fuel input more (ok (some s, rest)) e =
    λ h. ground (arith, more rest (read_session_message-shorter input rest s e))
step_total fuel input more (ok (none, rest)) e = λ h. ground arith
step_total fuel input more (err er) e = λ h. ground arith

-- The loop ends on every stream: fuel beyond its length is enough.
pub serve_loop_total :
    (fuel : ℕ) (input : List ℕ) → length input < fuel → serve_loop fuel input ≢ none
unfolding serve_loop
serve_loop_total zero input h = absurd (omega arith)
serve_loop_total (suc fuel) input h =
    step_total fuel input (λ rest lt. serve_loop_total fuel rest (omega arith))
      (read_session_message input) refl

-- Every connection is served to an end, whatever it sends.
pub serve_connection_total : (input : List ℕ) → serve_connection input ≢ none
unfolding serve_connection
serve_connection_total input = from (read_session_hello input)
  where
    from : (r : Result ReadError (Option V2Hello × List ℕ)) → serve_from r ≢ none
    from (ok (some h, rest)) =
        unfold serve_from in
        λ e. ground (arith, serve_loop_total (length rest + 1) rest (omega arith))
    from (ok (none, rest)) = unfold serve_from in λ e. ground arith
    from (err er) = unfold serve_from in λ e. ground arith
