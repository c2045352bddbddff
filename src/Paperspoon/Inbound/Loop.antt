-- ===== src/Paperspoon/Inbound/Loop.antt =====
-- The loop over a connection ends, and hands on what PaperPad sent.
use rust_x11_hello.Prelude.{
  ℕ, zero, suc, ◌+◌, ◌<◌, ◌≡◌, refl, List, [], ◌∷◌, ◌++◌, arith, some, ok, err, Result, length, All,
  ◌>>=◌,
}
use rust_x11_hello.Protocol.Message.{V2EncodeError}
use rust_x11_hello.Protocol.Payload.{
  V2Hello, hello_payload, pointer_payload, viewport_payload, encode_hello,
}
use rust_x11_hello.Protocol.Payload.RoundTrip.{write_hello, write_pointer, write_viewport}
use rust_x11_hello.Stream.{duplicate_hello, hello_expected}
use rust_x11_hello.Paperspoon.Inbound.Ends.{read_session_message-shorter}
use rust_x11_hello.Paperspoon.Inbound.{
  InboundMessage, SessionMessage, to_inbound, read_inbound_message, read_session_hello,
  read_session_message, session_hello, session_message, serve_loop, serve_step, serve_from,
  serve_connection, session, no_hello,
}
use rust_x11_hello.Paperspoon.Inbound.Session.{
  encode_session, IsSession, IsHello, read_inbound-Writes,
}

-- What PaperPad has written once it has sent `ms`.
abbrev pub encode_all : List SessionMessage → Result V2EncodeError (List ℕ)
encode_all [] = ok []
encode_all (m ∷ ms) = do bytes ← encode_session m; rest ← encode_all ms; ok (bytes ++ rest)

read_session-encode :
    (m : SessionMessage) (rest : List ℕ)
    → IsSession m
    → (bytes : List ℕ) × (encode_session m ≡ ok bytes)
      × (read_session_message (bytes ++ rest) ≡ ok (some m, rest))
unfolding read_session_message session_message
read_session-encode (SessionMessage.pointer p) rest (hx, hy) =
    let (bytes, written, w) = write_pointer p hx hy in
    (
      bytes,
      written,
      ground (
        arith,
        read_inbound-Writes bytes rest (pointer_payload p) (InboundMessage.pointer p) w
            (unfold to_inbound in λ t. refl),
      ),
    )
read_session-encode (SessionMessage.viewport_changed v) rest (hw, hh) =
    let (bytes, written, w) = write_viewport v hw hh in
    (
      bytes,
      written,
      ground (
        arith,
        read_inbound-Writes bytes rest (viewport_payload v) (InboundMessage.viewport_changed v) w
            (unfold to_inbound in λ t. refl),
      ),
    )

loop_end : (fuel : ℕ) → 0 < fuel → serve_loop fuel [] ≡ some ([], ok tt)
unfolding serve_loop serve_step read_session_message read_inbound_message session_message
loop_end zero h = absurd (omega arith)
loop_end (suc fuel) h = refl

loop_next :
    (m : SessionMessage) (ms : List SessionMessage) (input rest : List ℕ)
    → read_session_message input ≡ ok (some m, rest)
    → ((fuel : ℕ) → length rest < fuel → serve_loop fuel rest ≡ some (ms, ok tt))
    → (fuel : ℕ) → length input < fuel
    → serve_loop fuel input ≡ some (m ∷ ms, ok tt)
unfolding serve_loop serve_step
loop_next m ms input rest e more zero h = absurd (omega arith)
loop_next m ms input rest e more (suc fuel) h =
    ground (arith, e, more fuel (omega (arith, read_session_message-shorter input rest m e)))

serve_loop-encode_all :
    (ms : List SessionMessage)
    → All IsSession ms
    → (bytes : List ℕ) × (encode_all ms ≡ ok bytes)
      × ((fuel : ℕ) → length bytes < fuel → serve_loop fuel bytes ≡ some (ms, ok tt))
serve_loop-encode_all [] h = ([], refl, loop_end)
serve_loop-encode_all (m ∷ ms) h =
    let (rest, written, loops) = serve_loop-encode_all ms h.1 in
    let (bytes, first, read) = read_session-encode m rest h.0 in
    (bytes ++ rest, rw (first, written), loop_next m ms (bytes ++ rest) rest read loops)

-- A PaperPad that sends a Hello with known pixel formats and then any messages, all of 16-bit numbers,
-- is served exactly those: the Hello is accepted, each message is handed on in order, and the
-- connection ends without an error.
pub serve_connection-encode_all :
    (h : V2Hello) (ms : List SessionMessage)
    → IsHello h
    → All IsSession ms
    → (first bytes : List ℕ) × (encode_hello h ≡ ok first)
      × (encode_all ms ≡ ok bytes)
      × (serve_connection (first ++ bytes) ≡ some (session h ms (ok tt)))
unfolding serve_connection serve_from read_session_hello session_hello
serve_connection-encode_all h ms (hw, hh, known) all =
    let (first, written, w) = write_hello h hw hh known in
    let (bytes, rest, loops) = serve_loop-encode_all ms all in
    (
      first,
      bytes,
      written,
      rest,
      ground (
        arith,
        read_inbound-Writes first bytes (hello_payload h) (InboundMessage.hello h) w
            (unfold to_inbound in λ t. refl),
        loops (length bytes + 1) (omega arith),
      ),
    )

-- Within a session, another Hello of 16-bit numbers and known formats is read as an error.
pub second_hello :
    (h : V2Hello) (rest : List ℕ)
    → IsHello h
    → (bytes : List ℕ) × (encode_hello h ≡ ok bytes)
      × (read_session_message (bytes ++ rest) ≡ err duplicate_hello)
unfolding read_session_message session_message
second_hello h rest (hw, hh, known) =
    let (bytes, written, w) = write_hello h hw hh known in
    (
      bytes,
      written,
      ground (
        arith,
        read_inbound-Writes bytes rest (hello_payload h) (InboundMessage.hello h) w
            (unfold to_inbound in λ t. refl),
      ),
    )

-- A connection that starts with a pointer or viewport message of 16-bit numbers is refused, whatever
-- follows.
pub hello_first :
    (m : SessionMessage) (rest : List ℕ)
    → IsSession m
    → (bytes : List ℕ) × (encode_session m ≡ ok bytes)
      × (serve_connection (bytes ++ rest) ≡ some (no_hello (err hello_expected)))
unfolding serve_connection serve_from read_session_hello session_hello
hello_first (SessionMessage.pointer p) rest (hx, hy) =
    let (bytes, written, w) = write_pointer p hx hy in
    (
      bytes,
      written,
      ground (
        arith,
        read_inbound-Writes bytes rest (pointer_payload p) (InboundMessage.pointer p) w
            (unfold to_inbound in λ t. refl),
      ),
    )
hello_first (SessionMessage.viewport_changed v) rest (hw, hh) =
    let (bytes, written, w) = write_viewport v hw hh in
    (
      bytes,
      written,
      ground (
        arith,
        read_inbound-Writes bytes rest (viewport_payload v) (InboundMessage.viewport_changed v) w
            (unfold to_inbound in λ t. refl),
      ),
    )
