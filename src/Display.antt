-- ===== src/Display.antt =====
-- The display of src/CommandProcessor.cpp: the frame buffer and what plays in it.
pub mod Buffer
pub mod Blocks
pub mod Patching
pub mod Player
pub mod Service
pub mod Advancing
pub mod Holding
pub mod Loading
pub mod Playing
pub mod Commanding
pub mod Rounds
pub mod Stepping
mod Tests
