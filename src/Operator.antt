-- ===== src/Operator.antt =====
-- The operator's commands (harness/wasted_harness/operator.py), and how the loop applies them.
pub mod Queue
pub mod Fifo
pub mod Apply
pub mod Answers
pub mod Followup
pub mod Posting
mod Tests
