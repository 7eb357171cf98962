-- ===== src/Predictions.antt =====
-- The prediction layer (harness/wasted_harness/predictions): windows and templates, the measured
-- base rate of a question. Time is in
-- milliseconds; clock readings are arguments.
pub mod Window
pub mod BaseRate
pub mod Measure
mod Record
pub mod Generator
pub mod Ticker
mod Tests
