-- ===== src/Digital.antt =====
-- The two digital lines of src/CommandProcessor.cpp.
pub mod Lines
pub mod Wiring
pub mod Setting
mod Tests
