-- ===== src/Events.antt =====
-- The Supabase writer and its offline queue (harness/wasted_harness/events.py). The server is
-- outside the repository: what it answers to a request, given all that came before, is a parameter.
pub mod Entry
pub mod Coalesce
pub mod Runs
pub mod Writer
pub mod Queue
pub mod Delivery
pub mod Heartbeat
pub mod State
pub mod Flush
pub mod Buffer
pub mod Trim
mod Tests
