-- ===== src/Planner/Blocks.antt =====
-- The roam block and the decision whether a mission block may begin, of
-- harness/wasted_harness/behavior/planner.py.
use wanted.Base.{
  ℕ, ◌+◌, ◌-◌, ◌*◌, ◌%◌, Bool, true, false, not, ◌&&◌, ◌||◌, Option, none, some, List, [], ◌∷◌,
  Name, ltb, leb, ◌==◌, if◌then◌else◌, is_some, get_or, get_elem?, length, keep, any,
}
use wanted.Base.Sort.{sort}
use wanted.Tasks.{planar_distance_squared}
use wanted.Planner.State.{
  Phase, OwedReason, Blocked, Draw, MissionStart, GameState, DayPlanner, unknown_protagonist, bored,
  roam_block_min, roam_block_max, roam_min_block, mission_overdue, max_consecutive_mission_fails,
  hostile_close_radius,
}

-- ROAM_IDEAS, by index.
abbrev pub roam_ideas : List Name
roam_ideas = 0 ∷ 1 ∷ 2 ∷ 3 ∷ 4 ∷ 5 ∷ 6 ∷ 7 ∷ 8 ∷ []

-- `rng.choice` of the ideas other than the one just held.
unfoldable pub next_idea : Name → ℕ → Name
next_idea previous drawn =
    let choices = keep (λ i. not (i == previous)) roam_ideas in
    get_or (get_elem? choices (drawn % length choices)) previous

-- `rng.uniform(*ROAM_BLOCK_S)`
unfoldable pub block_length : ℕ → ℕ
block_length drawn = roam_block_min + drawn % (roam_block_max - roam_block_min + 1)

unfoldable pub start_roam_block : ℕ → Draw → DayPlanner → DayPlanner
start_roam_block now drawn d = record d {
  phase = Phase.roaming;
  mission_requested = none;
  block_started_at = now;
  block_length_s = block_length drawn.length;
  marker = none;
  arrived_at = none;
  bound_task_id = none;
  roam_actual = none;
  roam_preference = next_idea d.roam_preference drawn.idea;
}

unfoldable pub overdue_for_a_mission : ℕ → DayPlanner → Bool
overdue_for_a_mission now d =
    if not d.missions_enabled
    then false
    else elim d.last_mission_at [ none ↦ true | some at ↦ leb (at + mission_overdue) now ]

unfoldable pub roam_block_over : ℕ → Name → DayPlanner → Bool
roam_block_over now mood d =
    if is_some d.mission_requested
    then true
    else if ltb now (d.block_started_at + roam_min_block)
    then false
    else if leb (d.block_started_at + d.block_length_s) now
    then true
    else if ltb 0 d.roam_blocks_owed
    then false
    else if d.activity_running
    then false
    else if mood == bored
    then true
    else overdue_for_a_mission now d

unfoldable pub owe_roam_blocks : ℕ → OwedReason → DayPlanner → DayPlanner
owe_roam_blocks count reason d =
    if ltb d.roam_blocks_owed count
    then record d { roam_blocks_owed = count; owed_reason = some reason }
    else d

unfoldable pub serve_one_owed_block : DayPlanner → DayPlanner
serve_one_owed_block d =
    if ltb 0 d.roam_blocks_owed
    then if d.roam_blocks_owed - 1 == 0
      then record d {
        roam_blocks_owed = 0;
        owed_reason = none;
        consecutive_fails =
            if leb max_consecutive_mission_fails d.consecutive_fails
            then 0
            else d.consecutive_fails;
      }
      else record d { roam_blocks_owed = d.roam_blocks_owed - 1 }
    else d

unfoldable pub threat_close : GameState → Bool
threat_close s = any (λ ped. ped.hostile && leb ped.distance (100 * hostile_close_radius)) s.peds

-- `_mission_block_allowed`: what it writes to `_blocked_reason`. It answers whether that is empty.
unfoldable pub mission_block_allowed : GameState → DayPlanner → Option Blocked
mission_block_allowed s d =
    if s.dead || s.arrested
    then some Blocked.down
    else if s.cutscene_active
    then some Blocked.cutscene
    else if s.switch_in_progress
    then some Blocked.switching
    else if s.retry_in_flight
    then some Blocked.retrying
    else if ltb 0 s.wanted_level
    then some Blocked.cops_interested
    else if threat_close s
    then some Blocked.fight
    else if ltb 0 s.max_health && ltb (2 * s.health) s.max_health
    then some Blocked.banged_up
    else if ltb 0 d.roam_blocks_owed
    then some (Blocked.owing d.owed_reason)
    else if not (is_some d.next_marker)
    then some Blocked.no_marker
    else none

-- A marker that the protagonist may start.
abbrev pub is_startable : Name → MissionStart → Bool
is_startable who s = s.protagonist == who || s.protagonist == unknown_protagonist

-- `_eligible`: the startable markers, nearest first.
unfoldable pub eligible : GameState → List MissionStart
eligible s =
    sort (λ m. planar_distance_squared s.pos m.pos)
      (if s.protagonist == unknown_protagonist
        then s.starts
        else keep (is_startable s.protagonist) s.starts)

unfoldable pub nearest_eligible : GameState → Option MissionStart
nearest_eligible s = get_elem? (eligible s) 0
