-- ===== src/Budget.antt =====
-- The budget (harness/wasted_harness/budget.py). Prices are in micro-dollars for a million tokens,
-- so a token times a price is a whole number of pico-dollars: all money is in those, and the
-- division by MTOK is the change of unit. Time is in milliseconds.
pub mod Pricing
pub mod Governor
pub mod Levels
pub mod Announcements
pub mod Restart
pub mod DayLedger
mod Tests
