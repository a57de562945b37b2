-- ===== src/Transport.antt =====
-- src/SerialManager.cpp and src/NetworkManager.cpp: the two command links, which share their framing.
pub mod Rx
pub mod Link
pub mod Filling
pub mod Session
pub mod Prompt
pub mod Draining
pub mod Tx
pub mod Sending
pub mod Stalling
pub mod Answering
pub mod Wire
pub mod Buffered
pub mod Framing
pub mod Parsing
pub mod Waiting
mod Tests
