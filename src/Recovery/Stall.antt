-- ===== src/Recovery/Stall.antt =====
-- `TaskStallDetector` and `StrandedEscalator` of harness/wasted_harness/behavior/recovery.py. Moments are
-- in milliseconds and lengths in centimetres.
use wanted.Base.{
  ℕ, suc, ◌+◌, ◌-◌, Bool, true, false, not, ◌||◌, Option, none, some, List, [], ◌∷◌, Name, ltb,
  same, get_elem?, if◌then◌else◌,
}
use wanted.Tasks.{TaskType, Vec, planar_distance_squared, metres_squared}

-- STALL_MOVE_M in metres, and the times
abbrev pub stall_move : ℕ
stall_move = 2

abbrev pub stall_window : ℕ
stall_window = 20000

abbrev pub stall_intervention_gap : ℕ
stall_intervention_gap = 30000

abbrev pub stall_type_block : ℕ
stall_type_block = 45000

-- `STATIONARY_TASK_TYPES`
abbrev pub is_stationary : TaskType → Bool
is_stationary TaskType.seek_cover = true
is_stationary TaskType.follow_entity = true
is_stationary TaskType.stop = true
is_stationary TaskType.set_waypoint = true
is_stationary _ = false

-- What `feed` reads: `at_rest` if one of the reasons to stand still holds, from `suspended` to a retry
-- in flight.
pub record Watched : Type 0 where
  pub at_rest : Bool
  pub is_running : Bool
  pub type_ : Option TaskType
  pub task_id : Option Name
  pub pos : Vec

-- `_block_logged` is only for the log.
pub record TaskStall : Type 0 where
  pub anchor : Option Vec
  pub anchor_at : ℕ
  pub task_id : Option Name
  pub last_intervention_at : ℕ
  pub blocked_type : Option TaskType
  pub blocked_until : ℕ

abbrev pub moved_from : Option Vec → Vec → Bool
moved_from none here = true
moved_from (some a) here = ltb (metres_squared stall_move) (planar_distance_squared here a)

abbrev pub for_task : Option Name → TaskStall → TaskStall
for_task id d = if same id d.task_id then d else record d { task_id = id; anchor = none }

abbrev pub feed_running : ℕ → TaskType → Vec → TaskStall → TaskStall × Option TaskType
feed_running now t here d =
    if moved_from d.anchor here
    then (record d { anchor = some here; anchor_at = now }, none)
    else if ltb (now - d.anchor_at) stall_window
    then (d, none)
    else if ltb (now - d.last_intervention_at) stall_intervention_gap
    then (d, none)
    else (
      record d {
        last_intervention_at = now;
        anchor_at = now;
        blocked_type = some t;
        blocked_until = now + stall_type_block;
      },
      some t,
    )

abbrev pub feed_as : Option TaskType → ℕ → Watched → TaskStall → TaskStall × Option TaskType
feed_as none now w d = (record d { anchor = none }, none)
feed_as (some t) now w d =
    if w.at_rest || not w.is_running || is_stationary t
    then (record d { anchor = none }, none)
    else feed_running now t w.pos (for_task w.task_id d)

unfoldable pub feed : ℕ → Watched → TaskStall → TaskStall × Option TaskType
feed now w d = feed_as w.type_ now w d

-- `StrandedEscalator`
pub record Stranded : Type 0 where
  pub attempts : ℕ
  pub last_attempt_at : ℕ

abbrev pub stranded_radii : List ℕ
stranded_radii = 50 ∷ 90 ∷ 140 ∷ []

abbrev pub retry_gap : ℕ
retry_gap = 12000

abbrev pub attempt : ℕ → Option ℕ → Stranded → Stranded × Option ℕ
attempt now none s = (s, none)
attempt now (some radius) s =
    (record { attempts = suc s.attempts; last_attempt_at = now }, some radius)

-- `check`: the radius to search a vehicle within.
unfoldable pub check : ℕ → Bool → Bool → Stranded → Stranded × Option ℕ
check now in_vehicle task_is_running s =
    if in_vehicle || task_is_running
    then (record { attempts = 0; last_attempt_at = 0 }, none)
    else if ltb (now - s.last_attempt_at) retry_gap
    then (s, none)
    else attempt now (get_elem? stranded_radii s.attempts) s
