-- ===== src/Planner/State.antt =====
-- The snapshot as the planner reads it, and the state of `DayPlanner`, of
-- harness/wasted_harness/behavior/planner.py. Moments are in milliseconds.
use wanted.Base.{ℕ, Bool, Option, List, Name}
use wanted.Tasks.{Vec, Action}
use wanted.Activities.Runner.{TaskStatus}

-- UNKNOWN_PROTAGONIST
abbrev pub unknown_protagonist : Name
unknown_protagonist = 0

-- The mood "bored".
abbrev pub bored : Name
bored = 1

-- ROAM_BLOCK_S, ROAM_MIN_BLOCK_S, MISSION_OVERDUE_S, MISSION_BLOCK_TIMEOUT_S and MARKER_WAIT_S
abbrev pub roam_block_min : ℕ
roam_block_min = 360000

abbrev pub roam_block_max : ℕ
roam_block_max = 720000

abbrev pub roam_min_block : ℕ
roam_min_block = 120000

abbrev pub mission_overdue : ℕ
mission_overdue = 2400000

abbrev pub mission_block_timeout : ℕ
mission_block_timeout = 360000

abbrev pub marker_wait : ℕ
marker_wait = 45000

-- ROAM_BLOCKS_AFTER_A_MISSION, MAX_CONSECUTIVE_MISSION_FAILS and FAIL_BACKOFF_BLOCKS
abbrev pub roam_blocks_after_a_mission : ℕ
roam_blocks_after_a_mission = 1

abbrev pub max_consecutive_mission_fails : ℕ
max_consecutive_mission_fails = 3

abbrev pub fail_backoff_blocks : ℕ
fail_backoff_blocks = 1

-- MARKER_FINAL_APPROACH_M, MARKER_MOVED_THRESHOLD_M and HOSTILE_CLOSE_RADIUS_M, in metres
abbrev pub marker_final_approach : ℕ
marker_final_approach = 25

abbrev pub marker_moved_threshold : ℕ
marker_moved_threshold = 5

abbrev pub hostile_close_radius : ℕ
hostile_close_radius = 40

pub record MissionStart : Type 0 where
  pub pos : Vec
  pub protagonist : Name

pub record Ped : Type 0 where
  pub hostile : Bool
  pub distance : ℕ

-- `player`, `mission`, `nearby.peds` and `last_task` of the snapshot.
pub record GameState : Type 0 where
  pub pos : Vec
  pub in_vehicle : Bool
  pub dead : Bool
  pub arrested : Bool
  pub wanted_level : ℕ
  pub health : ℕ
  pub max_health : ℕ
  pub protagonist : Name
  pub switch_in_progress : Bool
  pub cutscene_active : Bool
  pub retry_in_flight : Bool
  pub starts : List MissionStart
  pub peds : List Ped
  pub task_id : Option Name
  pub task_status : TaskStatus

pub data Phase : Type 0 where
  roaming to_mission in_mission : Phase

-- Why roam blocks are owed.
pub data OwedReason : Type 0 where
  job_just_ended that_one_hurt : OwedReason
  failed_attempts : ℕ → OwedReason

-- `_blocked_reason`, where the empty text is `none`.
pub data Blocked : Type 0 where
  down cutscene switching retrying cops_interested fight banged_up no_marker : Blocked
  owing : Option OwedReason → Blocked

-- The outcome of a trip, in its `activity_end` event.
pub data Outcome : Type 0 where
  mission_started gave_up marker_gone marker_did_not_trigger : Outcome
  went_down wanted_by_police cutscene_playing switch_playing retry_playing : Outcome

pub data PlannerEvent : Type 0 where
  activity_start : Vec → Name → PlannerEvent
  activity_end : Outcome → ℕ → PlannerEvent

pub data MissionEvent : Type 0 where
  mission_start mission_fail other : MissionEvent

-- What `rng.uniform` and `rng.choice` draw for a roam block.
pub record Draw : Type 0 where
  pub length : ℕ
  pub idea : ℕ

pub record PlannerOutcome : Type 0 where
  pub task : Option Action
  pub events : List PlannerEvent

-- An idea is its index in ROAM_IDEAS.
pub record DayPlanner : Type 0 where
  pub missions_enabled : Bool
  pub phase : Phase
  pub block_started_at : ℕ
  pub block_length_s : ℕ
  pub roam_preference : Name
  pub roam_actual : Option Name
  pub activity_running : Bool
  pub last_mission_at : Option ℕ
  pub consecutive_fails : ℕ
  pub failed_this_mission : Bool
  pub roam_blocks_owed : ℕ
  pub owed_reason : Option OwedReason
  pub mission_requested : Option Name
  pub marker : Option Vec
  pub marker_protagonist : Name
  pub mission_deadline : ℕ
  pub trip_started_at : ℕ
  pub arrived_at : Option ℕ
  pub bound_task_id : Option Name
  pub player_pos : Vec
  pub next_marker : Option MissionStart
  pub blocked_reason : Option Blocked
