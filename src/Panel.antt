-- ===== src/Panel.antt =====
-- src/G6PanelProtocol.h, src/Crc.h and src/ErrorGlyph.cpp: what goes to the panels, and its checks.
pub mod Protocol
pub mod Parity
pub mod Crc
pub mod Bitwise
pub mod Glyph
pub mod Frame
mod Tests
