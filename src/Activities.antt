-- ===== src/Activities.antt =====
-- Free-roam activities (harness/wasted_harness/behavior/activities.py): the picker, which chooses
-- one, and the runner, which drives its plan. Time is in milliseconds; weights, affinities and
-- chaos costs are in hundredths. Clock readings and random draws are arguments.
pub mod Picker
pub mod Chaos
pub mod Draw
pub mod Runner
pub mod Steps
mod Tests
