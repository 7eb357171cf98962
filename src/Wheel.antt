-- ===== src/Wheel.antt =====
-- The movement wheel: one layer at a time may move him.
pub mod Owner
pub mod Arbiter
pub mod History
pub mod Fair
pub mod Latch
pub mod Grant
pub mod Lease
pub mod Ties
mod Tests
