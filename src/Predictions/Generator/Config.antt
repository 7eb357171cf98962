-- ===== src/Predictions/Generator/Config.antt =====
-- `GeneratorConfig`, the state of `PredictionGenerator` and the row that it writes, of
-- harness/wasted_harness/predictions/generator.py. Moments are in milliseconds.
use wanted.Base.{ℕ, Bool, Option, List, Name}
use wanted.Predictions.Window.{Rule, Template}
use wanted.Predictions.BaseRate.{Calibration}

-- AMBIENT_MIN_SAMPLES, and AMBIENT_MIN_RATE and AMBIENT_MAX_RATE in hundredths
abbrev pub ambient_min_samples : ℕ
ambient_min_samples = 12

abbrev pub ambient_min_rate : ℕ
ambient_min_rate = 20

abbrev pub ambient_max_rate : ℕ
ambient_max_rate = 80

-- A pool is in the smallest unit of its asset; `event_rank_bonus` is in thousandths.
pub record GeneratorConfig : Type 0 where
  pub max_concurrent_open : ℕ
  pub min_gap_s : ℕ
  pub type_cooldown_s : ℕ
  pub round_interval_s : ℕ
  pub ambient_enabled : Bool
  pub event_cooldown_s : ℕ
  pub events_enabled : Bool
  pub base_reward_pool : ℕ
  pub event_reward_multiplier : ℕ
  pub reward_asset : Name
  pub event_rank_bonus : ℕ

-- A moment of minus infinity is `none`.
pub record Generator : Type 0 where
  pub last_generated_at : Option ℕ
  pub last_type : Option Name
  pub last_event_at : Option ℕ
  pub last_was_event : Bool
  pub last_picked_at : List (Name × ℕ)
  pub opens : List (Name × ℕ)

-- The fields of the row that the generator decides; the question's text, its outcomes and the HUD are
-- copied from the template and the snapshot.
pub record Row : Type 0 where
  pub session_id : Name
  pub prediction_type : Name
  pub opened_at : ℕ
  pub locks_at : ℕ
  pub resolves_at : ℕ
  pub telemetry_rule : Rule
  pub is_event : Bool
  pub calibration : Option Calibration
  pub reward_pool : ℕ
  pub reward_asset : Name

-- What `generate` comes to: None, a row, or the ValueError of a pool that is not positive.
pub data Answer : Type 0 where
  nothing : Answer
  row : Row → Answer
  raised : Answer

-- An ambient template with its measurement, and when its type was last picked.
pub record Measured (S : Type 0) : Type 0 where
  pub template : Template S
  pub calibration : Calibration
  pub last_picked : Option ℕ
