-- ===== src/Transfers.antt =====
-- The transfers that src/CommandProcessor.cpp carries out piece by piece from the main loop: a file
-- down to the host, a file up to the card, and the card's contents as an archive.
pub mod Desk
pub mod Download
pub mod Downloading
pub mod Upload
pub mod Room
pub mod Taking
pub mod Uploaded
pub mod Archive
pub mod Format
pub mod Zip
pub mod Written
pub mod Streaming
pub mod Archived
pub mod Zipped
pub mod Handlers
pub mod Apart
pub mod Starting
pub mod Deleting
pub mod Interlock
pub mod Steps
pub mod Naming
pub mod Refusing
pub mod Resync
mod Tests
