-- ===== src/Paperspoon/Inbound/Session.antt =====
-- A PaperPad's session, as PaperSpoon reads it.
use rust_x11_hello.Prelude.{ℕ, ◌≡◌, List, [], ◌∷◌, ◌++◌, arith, some, ok, Result}
use rust_x11_hello.Prelude.Bytes.{IsU16}
use rust_x11_hello.Protocol.Message.{V2MessageType, V2EncodeError}
use rust_x11_hello.Protocol.Payload.{V2Hello, V2Payload, encode_pointer, encode_viewport, from_mask}
use rust_x11_hello.Protocol.Payload.RoundTrip.{Writes}
use rust_x11_hello.Stream.Framing.{read_encoded-Writes, Writes-length}
use rust_x11_hello.Paperspoon.Inbound.{
  InboundMessage, SessionMessage, to_inbound, read_v2_message, read_inbound_message,
}

-- What PaperPad writes for each message of a session.
abbrev pub encode_session : SessionMessage → Result V2EncodeError (List ℕ)
encode_session (SessionMessage.pointer p) = encode_pointer p
encode_session (SessionMessage.viewport_changed v) = encode_viewport v

abbrev pub IsSession : SessionMessage → Type 0
IsSession (SessionMessage.pointer p) = IsU16 p.x × IsU16 p.y
IsSession (SessionMessage.viewport_changed v) = IsU16 v.width × IsU16 v.height

abbrev pub IsHello : V2Hello → Type 0
IsHello h =
    IsU16 h.viewport_width
    × IsU16 h.viewport_height
    × (from_mask h.pixel_formats.mask ≡ some h.pixel_formats)

pub read_inbound-Writes :
    (bytes rest : List ℕ) (p : V2Payload) (inbound : InboundMessage)
    → Writes bytes p
    → ((t : V2MessageType) → to_inbound t p ≡ ok inbound)
    → read_inbound_message (bytes ++ rest) ≡ ok (some inbound, rest)
unfolding read_inbound_message read_v2_message
read_inbound-Writes [] rest p inbound w known = absurd (omega (arith, Writes-length [] p w))
read_inbound-Writes (b ∷ bytes) rest p inbound w known =
    let (m, e, payload) = read_encoded-Writes (b ∷ bytes) rest p w in
    ground (arith, e, payload, known m.header.message_type)
