-- ===== src/Predictions/Generator.antt =====
-- The generator of predictions: which question is asked, and when.
pub mod Config
pub mod Choice
pub mod Ask
pub mod Scan
pub mod Asked
pub mod Best
pub mod Memory
pub mod Spacing
