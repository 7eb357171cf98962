-- ===== src/Totals.antt =====
-- The totals that outlive a restart, of harness/wasted_harness/totals.py.
pub mod Seed
pub mod Lifetime
pub mod Counting
pub mod Restart
mod Tests
