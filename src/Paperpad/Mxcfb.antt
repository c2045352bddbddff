-- ===== src/Paperpad/Mxcfb.antt =====
-- src/mxcfb: the Kindle's framebuffer device.
pub mod Region
pub mod Request
pub mod Layout
pub mod Memory
pub mod Pixels
pub mod Mapped
pub mod Metadata
pub mod SystemPixels
pub mod Present
pub mod Backend
mod Tests
