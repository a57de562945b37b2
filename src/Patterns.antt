-- ===== src/Patterns.antt =====
-- src/SdManager.cpp: the list of the patterns on the card and the open pattern.
pub mod Catalog
pub mod Ordering
pub mod Header
pub mod Loading
pub mod Reading
pub mod Listing
pub mod Handle
pub mod Opening
mod Tests
