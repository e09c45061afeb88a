-- ===== src/Drivers.antt =====
-- The kernel's drivers: the screen in text mode and the keyboard.
pub mod Screen
pub mod Keyboard
pub mod Terminal
mod Tests
