-- ===== src/Paperspoon/Inbound.antt =====
-- tools/paperspoon/src/inbound.rs: what PaperSpoon reads from a PaperPad, and in which order.
pub mod Session
pub mod Ends
pub mod Loop
mod Tests
use mathlib.Core.Option
use rust_x11_hello.Prelude.{
  ℕ, zero, suc, length, ◌+◌, List, [], ◌∷◌, Option, none, some, Result, ok, err, ◌>>=◌, map_err,
}
use rust_x11_hello.Protocol.Message.{V2MessageType, V2Message}
use rust_x11_hello.Protocol.Payload.{
  V2Hello, V2Pointer, V2Viewport, V2Payload, hello_payload, pointer_payload, viewport_payload,
  frame_payload, decode_v2_payload,
}
use rust_x11_hello.Stream.{
  ReadError, invalid_payload, unexpected_message, hello_expected, duplicate_hello, read_encoded,
}

pub data InboundMessage : Type 0 where
  hello : V2Hello → InboundMessage
  pointer : V2Pointer → InboundMessage
  viewport_changed : V2Viewport → InboundMessage

pub data SessionMessage : Type 0 where
  pointer : V2Pointer → SessionMessage
  viewport_changed : V2Viewport → SessionMessage

-- The `match` on the typed payload
unfoldable pub to_inbound : V2MessageType → V2Payload → Result ReadError InboundMessage
to_inbound t (hello_payload h) = ok (hello h)
to_inbound t (pointer_payload p) = ok (InboundMessage.pointer p)
to_inbound t (viewport_payload v) = ok (InboundMessage.viewport_changed v)
to_inbound t (frame_payload f) = err (unexpected_message t)

unfoldable pub read_v2_message : List ℕ → Result ReadError (InboundMessage × List ℕ)
read_v2_message input = do
  (message, encoded, rest) ← read_encoded input
  payload ← map_err invalid_payload (decode_v2_payload message)
  inbound ← to_inbound message.header.message_type payload
  ok (inbound, rest)

-- `None` at the end of the stream
unfoldable pub read_inbound_message : List ℕ → Result ReadError (Option InboundMessage × List ℕ)
read_inbound_message [] = ok (none, [])
read_inbound_message (b ∷ input) = do
  (inbound, rest) ← read_v2_message (b ∷ input)
  ok (some inbound, rest)

unfoldable pub session_hello : Option InboundMessage → Result ReadError (Option V2Hello)
session_hello (some (hello h)) = ok (some h)
session_hello (some (InboundMessage.pointer p)) = err hello_expected
session_hello (some (InboundMessage.viewport_changed v)) = err hello_expected
session_hello none = ok none

unfoldable pub read_session_hello : List ℕ → Result ReadError (Option V2Hello × List ℕ)
read_session_hello input = do
  (message, rest) ← read_inbound_message input
  first ← session_hello message
  ok (first, rest)

unfoldable pub session_message : Option InboundMessage → Result ReadError (Option SessionMessage)
session_message (some (InboundMessage.pointer p)) = ok (some (SessionMessage.pointer p))
session_message (some (InboundMessage.viewport_changed v)) =
    ok (some (SessionMessage.viewport_changed v))
session_message (some (hello h)) = err duplicate_hello
session_message none = ok none

unfoldable pub read_session_message : List ℕ → Result ReadError (Option SessionMessage × List ℕ)
read_session_message input = do
  (message, rest) ← read_inbound_message input
  next ← session_message message
  ok (next, rest)

-- How the loop of tools/paperspoon/src/main.rs over one connection's messages goes on: it hands a
-- message on and reads again, and breaks at the end of the stream and at an error.
unfoldable pub serve_step :
    (List ℕ → Option (List SessionMessage × Result ReadError (Unit {0})))
    → Result ReadError (Option SessionMessage × List ℕ)
    → Option (List SessionMessage × Result ReadError (Unit {0}))
serve_step again (ok (some m, rest)) = Option.map (λ (ms, ended). (m ∷ ms, ended)) (again rest)
serve_step again (ok (none, rest)) = some ([], ok tt)
serve_step again (err e) = some ([], err e)

-- The messages handed on, and how the loop ended; `none` when the fuel runs out.
unfoldable pub serve_loop : ℕ → List ℕ → Option (List SessionMessage × Result ReadError (Unit {0}))
serve_loop zero input = none
serve_loop (suc fuel) input = serve_step (serve_loop fuel) (read_session_message input)

-- One connection: the Hello that installs it, if there is one, and then the loop. The log file is
-- opened and the system clones the socket that `install_for_hello` keeps; if not, main.rs goes on to
-- the next connection.
pub data Served : Type 0 where
  no_hello : Result ReadError (Unit {0}) → Served
  session : V2Hello → List SessionMessage → Result ReadError (Unit {0}) → Served

unfoldable pub serve_from : Result ReadError (Option V2Hello × List ℕ) → Option Served
serve_from (ok (some h, rest)) =
    Option.map (λ (ms, ended). session h ms ended) (serve_loop (length rest + 1) rest)
serve_from (ok (none, rest)) = some (no_hello (ok tt))
serve_from (err e) = some (no_hello (err e))

unfoldable pub serve_connection : List ℕ → Option Served
serve_connection input = serve_from (read_session_hello input)
