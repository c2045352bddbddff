-- ===== src/Protocol.antt =====
-- crates/paper-protocol: the wire protocol that PaperPad and PaperSpoon share.
pub mod Message
pub mod Frame
pub mod Payload
