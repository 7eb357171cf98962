-- ===== src/Planner/Trip.antt =====
-- The trip to a marker, of harness/wasted_harness/behavior/planner.py.
use wanted.Base.{
  ℕ, ◌+◌, ◌-◌, Bool, false, not, ◌&&◌, ◌||◌, Option, none, some, List, [], ◌∷◌, ltb, leb, same,
  if◌then◌else◌, is_some,
}
use wanted.Base.Rounding.{round_to}
use wanted.Tasks.{Vec, Action}
use wanted.Navigation.{navigate_to, within, walk_arrive_radius}
use wanted.Activities.Runner.{is_running}
use wanted.Planner.State.{
  Phase, Outcome, Draw, MissionStart, GameState, PlannerEvent, PlannerOutcome, DayPlanner,
  mission_block_timeout, marker_wait, marker_final_approach, marker_moved_threshold,
}
use wanted.Planner.Blocks.{eligible, threat_close, start_roam_block}

abbrev pub quiet : PlannerOutcome
quiet = record { task = none; events = [] }

unfoldable pub trip_abort_reason : GameState → Option Outcome
trip_abort_reason s =
    if s.dead || s.arrested
    then some Outcome.went_down
    else if ltb 0 s.wanted_level
    then some Outcome.wanted_by_police
    else if s.cutscene_active
    then some Outcome.cutscene_playing
    else if s.switch_in_progress
    then some Outcome.switch_playing
    else if s.retry_in_flight
    then some Outcome.retry_playing
    else none

unfoldable pub begin_trip : MissionStart → ℕ → DayPlanner → DayPlanner
begin_trip m now d = record d {
  phase = Phase.to_mission;
  mission_requested = none;
  marker = some m.pos;
  marker_protagonist = m.protagonist;
  block_started_at = now;
  trip_started_at = now;
  mission_deadline = now + mission_block_timeout;
  arrived_at = none;
  bound_task_id = none;
  roam_actual = none;
}

-- `_end_trip`, with its event.
unfoldable pub end_trip : ℕ → Outcome → DayPlanner → DayPlanner × PlannerEvent
end_trip now outcome d = (
  record d { marker = none; arrived_at = none; bound_task_id = none },
  PlannerEvent.activity_end outcome (round_to 100 (now - d.trip_started_at)),
)

-- `_navigation` towards the marker: it forgets a bound task that has ended.
abbrev pub navigation_to : GameState → DayPlanner → Option Vec → DayPlanner × Option Action
navigation_to s d none = (d, none)
navigation_to s d (some m) =
    let action = navigate_to d.player_pos s.in_vehicle m (some marker_final_approach) in
    if is_running s.task_status
    then (d, none)
    else if is_some d.bound_task_id && same s.task_id d.bound_task_id
    then (record d { bound_task_id = none }, action)
    else (d, action)

unfoldable pub navigation : GameState → DayPlanner → DayPlanner × Option Action
navigation s d = navigation_to s d d.marker

abbrev pub target : MissionStart → DayPlanner → DayPlanner
target m d = record d { marker = some m.pos; marker_protagonist = m.protagonist }

-- The first eligible marker that the chosen one can be: it has moved by five metres at most.
abbrev pub still_there : Vec → List MissionStart → Option MissionStart
still_there chosen [] = none
still_there chosen (m ∷ ms) =
    if within marker_moved_threshold chosen m.pos then some m else still_there chosen ms

abbrev pub kept_marker : Option Vec → List MissionStart → Option MissionStart
kept_marker none ms = none
kept_marker (some chosen) ms = still_there chosen ms

abbrev pub target_or : MissionStart → Option MissionStart → DayPlanner → DayPlanner
target_or nearest none d = target nearest d
target_or nearest (some m) d = target m d

abbrev pub retarget_among : List MissionStart → DayPlanner → DayPlanner
retarget_among [] d = record d { marker = none }
retarget_among (nearest ∷ others) d = target_or nearest (kept_marker d.marker (nearest ∷ others)) d

unfoldable pub retarget : GameState → DayPlanner → DayPlanner
retarget s d = retarget_among (eligible s) d

-- `now - arrived_at > MARKER_WAIT_S`
abbrev pub waited_long : ℕ → Option ℕ → Bool
waited_long now none = false
waited_long now (some at) = ltb (at + marker_wait) now

-- Why the trip ends on this tick, once the marker is chosen again.
abbrev pub standing_reason : ℕ → DayPlanner → Option Outcome
standing_reason now d =
    if not (is_some d.marker)
    then some Outcome.marker_gone
    else if waited_long now d.arrived_at
    then some Outcome.marker_did_not_trigger
    else none

abbrev pub first_of : Option ℕ → ℕ → Option ℕ
first_of none now = some now
first_of (some at) now = some at

-- Whether he stands in the marker, and since when.
abbrev pub arrival : ℕ → GameState → Vec → Option ℕ → Option Vec → Option ℕ
arrival now s player_pos arrived_at none = arrived_at
arrival now s player_pos arrived_at (some m) =
    if not s.in_vehicle && within walk_arrive_radius player_pos m
    then first_of arrived_at now
    else none

abbrev pub note_arrival : ℕ → GameState → DayPlanner → DayPlanner
note_arrival now s d = record d { arrived_at = arrival now s d.player_pos d.arrived_at d.marker }

abbrev pub give_up : ℕ → Draw → Outcome → DayPlanner → DayPlanner × PlannerOutcome
give_up now drawn outcome d =
    let (d', event) = end_trip now outcome d in
    (start_roam_block now drawn d', record quiet { events = event ∷ [] })

abbrev pub carry_on : ℕ → GameState → DayPlanner → DayPlanner × PlannerOutcome
carry_on now s d =
    let (d', task) = navigation s (note_arrival now s d) in (d', record quiet { task = task })

abbrev pub end_or_go :
    Option Outcome → ℕ → GameState → Draw → DayPlanner → DayPlanner × PlannerOutcome
end_or_go none now s drawn d = carry_on now s d
end_or_go (some reason) now s drawn d = give_up now drawn reason d

-- The tick of a trip that nothing stops from outside.
abbrev pub unhindered : GameState → ℕ → Draw → DayPlanner → DayPlanner × PlannerOutcome
unhindered s now drawn d =
    let d' = retarget s d in
    if threat_close s
    then (record d { arrived_at = none }, quiet)
    else if leb d.mission_deadline now
    then give_up now drawn Outcome.gave_up d
    else end_or_go (standing_reason now d') now s drawn d'

abbrev pub abort_or_go :
    Option Outcome → GameState → ℕ → Draw → DayPlanner → DayPlanner × PlannerOutcome
abort_or_go none s now drawn d = unhindered s now drawn d
abort_or_go (some reason) s now drawn d = give_up now drawn reason d

unfoldable pub advance_trip : GameState → ℕ → Draw → DayPlanner → DayPlanner × PlannerOutcome
advance_trip s now drawn d = abort_or_go (trip_abort_reason s) s now drawn d
