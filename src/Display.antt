-- ===== src/Display.antt =====
-- The screen and the console that draws characters on it.
pub mod Screen
pub mod Console
