-- ===== src/Paperpad.antt =====
-- src: the program on the Kindle.
pub mod Discovery
pub mod Net
pub mod Ui
pub mod App
pub mod Mxcfb
pub mod Display
