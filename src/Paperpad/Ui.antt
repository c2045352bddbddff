-- ===== src/Paperpad/Ui.antt =====
-- src/ui: the geometry of the screen and the local Exit control.
pub mod Screen
pub mod System
