-- ===== src/Telemetry.antt =====
-- src/Telemetry.cpp and src/Telemetry.h: the telemetry ring that survives resets.
pub mod Layout
pub mod Ring
pub mod Chain
pub mod Evict
pub mod Write
pub mod Append
pub mod Log
pub mod Record
pub mod Producers
pub mod Boot
pub mod Drain
pub mod Walk
pub mod Repair
pub mod Acking
pub mod Fit
pub mod Peeking
pub mod Live
pub mod Keeping
pub mod Reset
pub mod Reboot
pub mod History
pub mod Crash
mod Tests
