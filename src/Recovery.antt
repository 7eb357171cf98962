-- ===== src/Recovery.antt =====
-- The trackers of harness/wasted_harness/behavior/recovery.py that need no perception of their own.
pub mod Bridge
pub mod Outage
pub mod Stall
pub mod Search
pub mod Idle
pub mod Still
mod Tests
pub mod Times
pub mod Backoff
pub mod Cleared
