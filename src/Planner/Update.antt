-- ===== src/Planner/Update.antt =====
-- The tick of `DayPlanner` and what `main` tells it, of harness/wasted_harness/behavior/planner.py.
-- A method takes one reading of the clock, and the draws of the roam block that it may start.
use wanted.Base.{
  ℕ, suc, Bool, true, false, not, ◌||◌, Option, none, some, [], ◌∷◌, Name, leb, ◌==◌, same,
  if◌then◌else◌, is_nil, keep,
}
use wanted.Tasks.{Vec}
use wanted.Planner.State.{
  Phase, OwedReason, Blocked, Outcome, Draw, MissionStart, GameState, PlannerEvent, PlannerOutcome,
  MissionEvent, DayPlanner, unknown_protagonist, roam_blocks_after_a_mission,
  max_consecutive_mission_fails, fail_backoff_blocks,
}
use wanted.Planner.Blocks.{
  roam_ideas, next_idea, block_length, start_roam_block, roam_block_over, owe_roam_blocks,
  serve_one_owed_block, mission_block_allowed, nearest_eligible,
}
use wanted.Planner.Trip.{quiet, begin_trip, end_trip, navigation, advance_trip}

-- `__init__`, at a player who stands in the origin.
unfoldable pub init : Bool → ℕ → Draw → Vec → DayPlanner
init missions_enabled now drawn origin = record {
  missions_enabled = missions_enabled;
  phase = Phase.roaming;
  block_started_at = now;
  block_length_s = block_length drawn.length;
  roam_preference = next_idea 9 drawn.idea;
  roam_actual = none;
  activity_running = false;
  last_mission_at = none;
  consecutive_fails = 0;
  failed_this_mission = false;
  roam_blocks_owed = 0;
  owed_reason = none;
  mission_requested = none;
  marker = none;
  marker_protagonist = unknown_protagonist;
  mission_deadline = 0;
  trip_started_at = 0;
  arrived_at = none;
  bound_task_id = none;
  player_pos = origin;
  next_marker = none;
  blocked_reason = none;
}

abbrev pub is_roaming : Phase → Bool
is_roaming Phase.roaming = true
is_roaming _ = false

abbrev pub is_to_mission : Phase → Bool
is_to_mission Phase.to_mission = true
is_to_mission _ = false

-- `_IDEAS_BY_ACTIVITY.get`
abbrev pub idea_named : Name → Option Name
idea_named n = if is_nil (keep (λ i. i == n) roam_ideas) then none else some n

unfoldable pub roam_activity_started : Name → DayPlanner → DayPlanner
roam_activity_started n d = record d { activity_running = true; roam_actual = idea_named n }

unfoldable pub roam_activity_ended : DayPlanner → DayPlanner
roam_activity_ended d = record d { activity_running = false; roam_actual = none }

unfoldable pub request_mission_block : Name → DayPlanner → DayPlanner
request_mission_block reason d =
    if not d.missions_enabled
    then d
    else if not (is_roaming d.phase) || same d.mission_requested (some reason)
    then d
    else record d { mission_requested = some reason }

abbrev pub count_fail : DayPlanner → DayPlanner
count_fail d = record d { failed_this_mission = true; consecutive_fails = suc d.consecutive_fails }

unfoldable pub observe_mission_event : ℕ → MissionEvent → DayPlanner → DayPlanner
observe_mission_event now MissionEvent.mission_start d = record d {
  last_mission_at = some now;
  failed_this_mission = false;
}
observe_mission_event now MissionEvent.mission_fail d =
    if leb max_consecutive_mission_fails (suc d.consecutive_fails)
    then owe_roam_blocks fail_backoff_blocks (OwedReason.failed_attempts (suc d.consecutive_fails))
        (count_fail d)
    else count_fail d
observe_mission_event now MissionEvent.other d = d

unfoldable pub bind_task : Option Name → DayPlanner → DayPlanner
bind_task task_id d = record d { bound_task_id = task_id }

-- The head of `update`: what the notes read of this snapshot.
unfoldable pub look : GameState → DayPlanner → DayPlanner
look s d =
    let seen = record d { player_pos = s.pos; next_marker = nearest_eligible s } in
    record seen { blocked_reason = mission_block_allowed s seen }

abbrev pub first_moment : Option ℕ → ℕ → Option ℕ
first_moment none now = some now
first_moment (some at) now = some at

abbrev pub stand_back : ℕ → DayPlanner → DayPlanner
stand_back now d = record d {
  phase = Phase.in_mission;
  block_started_at = now;
  failed_this_mission = false;
  last_mission_at = first_moment d.last_mission_at now;
}

-- 1. A live job.
abbrev pub live_job_in : Phase → ℕ → DayPlanner → DayPlanner × PlannerOutcome
live_job_in Phase.to_mission now d =
    let (d', event) = end_trip now Outcome.mission_started d in
    (stand_back now d', record quiet { events = event ∷ [] })
live_job_in Phase.roaming now d = (stand_back now d, quiet)
live_job_in Phase.in_mission now d = (d, quiet)

abbrev pub live_job : ℕ → DayPlanner → DayPlanner × PlannerOutcome
live_job now d = live_job_in d.phase now d

-- 2. The job just ended: what it leaves, and the roam block that follows.
abbrev pub after_job_counted : DayPlanner → DayPlanner
after_job_counted d = record d {
  consecutive_fails = if d.failed_this_mission then d.consecutive_fails else 0;
}

abbrev pub after_job_reason : DayPlanner → OwedReason
after_job_reason d =
    if d.failed_this_mission then OwedReason.that_one_hurt else OwedReason.job_just_ended

abbrev pub after_job_owing : DayPlanner → DayPlanner
after_job_owing d =
    let owing =
      owe_roam_blocks roam_blocks_after_a_mission (after_job_reason d) (after_job_counted d) in
    record owing { failed_this_mission = false }

abbrev pub after_job : ℕ → Draw → DayPlanner → DayPlanner
after_job now drawn d = start_roam_block now drawn (after_job_owing d)

abbrev pub set_out : GameState → ℕ → MissionStart → DayPlanner → DayPlanner × PlannerOutcome
set_out s now m d =
    let (d', task) = navigation s (begin_trip m now d) in
    (d', record { task = task; events = PlannerEvent.activity_start m.pos m.protagonist ∷ [] })

-- `marker = self._next_marker if self._mission_block_allowed(state) else None`, and what follows.
abbrev pub begin_or_roam :
    GameState
    → ℕ
    → Draw
    → DayPlanner
    → Option Blocked
    → Option MissionStart
    → DayPlanner × PlannerOutcome
begin_or_roam s now drawn d none (some m) = set_out s now m d
begin_or_roam s now drawn d none none = (start_roam_block now drawn d, quiet)
begin_or_roam s now drawn d (some _) marker = (start_roam_block now drawn d, quiet)

-- 4. A roam block that is over.
unfoldable pub next_block : GameState → ℕ → Draw → DayPlanner → DayPlanner × PlannerOutcome
next_block s now drawn d =
    let served = serve_one_owed_block d in
    let blocked = mission_block_allowed s served in
    begin_or_roam s now drawn (record served { blocked_reason = blocked }) blocked
      served.next_marker

abbrev pub no_job : Phase → GameState → Name → ℕ → Draw → DayPlanner → DayPlanner × PlannerOutcome
no_job Phase.in_mission s mood now drawn d = (after_job now drawn d, quiet)
no_job Phase.to_mission s mood now drawn d = advance_trip s now drawn d
no_job Phase.roaming s mood now drawn d =
    if roam_block_over now mood d then next_block s now drawn d else (d, quiet)

unfoldable pub update :
    GameState → Name → Bool → ℕ → Draw → DayPlanner → DayPlanner × PlannerOutcome
update s mood true now drawn d = live_job now (look s d)
update s mood false now drawn d = let seen = look s d in no_job seen.phase s mood now drawn seen
