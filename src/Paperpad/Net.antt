-- ===== src/Paperpad/Net.antt =====
-- src/net: the transport between the Kindle's event loop and PaperSpoon.
pub mod Frames
pub mod Mailbox
pub mod Connection
