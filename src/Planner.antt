-- ===== src/Planner.antt =====
-- The planner: how a session alternates roam blocks and mission blocks.
pub mod State
pub mod Blocks
pub mod Trip
pub mod Update
mod Invariant
mod History
mod Trips
mod Posting
mod Owed
mod Tests
