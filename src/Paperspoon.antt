-- ===== src/Paperspoon.antt =====
-- tools/paperspoon/src: the companion on the Mac.
pub mod Inbound
pub mod Server
pub mod Sender
pub mod Session
pub mod Application
pub mod Diagnostic
pub mod Canvas
pub mod GrayCanvas
