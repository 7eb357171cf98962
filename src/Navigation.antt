-- ===== src/Navigation.antt =====
-- `navigate_to` of harness/wasted_harness/behavior/navigation.py. `prefer` is left at its default.
use wanted.Base.{ℕ, Bool, false, Option, none, some, leb, ltb, if◌then◌else◌}
use wanted.Tasks.{TaskType, Vec, Action, planar_distance_squared, metres_squared}

-- DRIVE_ARRIVE_RADIUS_M, WALK_ARRIVE_RADIUS_M, WALK_SWITCH_RADIUS_M and VEHICLE_SEARCH_RADIUS_M
abbrev pub drive_arrive_radius : ℕ
drive_arrive_radius = 8

abbrev pub walk_arrive_radius : ℕ
walk_arrive_radius = 2

abbrev pub walk_switch_radius : ℕ
walk_switch_radius = 120

abbrev pub vehicle_search_radius : ℕ
vehicle_search_radius = 40

abbrev pub within : ℕ → Vec → Vec → Bool
within radius a b = leb (planar_distance_squared a b) (metres_squared radius)

abbrev pub farther : ℕ → Vec → Vec → Bool
farther radius a b = ltb (metres_squared radius) (planar_distance_squared a b)

abbrev pub exit_vehicle : Action
exit_vehicle = record {
  type_ = TaskType.exit_vehicle;
  target = none;
  arrive = 0;
  speed = 0;
  fast = false;
}

abbrev pub drive_to : Vec → Bool → Action
drive_to target rushed = record {
  type_ = TaskType.drive_to;
  target = some target;
  arrive = drive_arrive_radius;
  speed = if rushed then 34 else 24;
  fast = rushed;
}

abbrev pub walk_to : Vec → Bool → Action
walk_to target run = record {
  type_ = TaskType.walk_to;
  target = some target;
  arrive = 0;
  speed = 0;
  fast = run;
}

abbrev pub enter_nearest_vehicle : Action
enter_nearest_vehicle = record {
  type_ = TaskType.enter_nearest_vehicle;
  target = none;
  arrive = vehicle_search_radius;
  speed = 0;
  fast = false;
}

abbrev pub dismounts : Option ℕ → Vec → Vec → Bool
dismounts none a b = false
dismounts (some radius) a b = within radius a b

unfoldable pub navigate_to : Vec → Bool → Vec → Option ℕ → Option Action
navigate_to player_pos in_vehicle target final_approach_on_foot =
    if in_vehicle
    then if dismounts final_approach_on_foot player_pos target
      then some exit_vehicle
      else if within drive_arrive_radius player_pos target
      then none
      else some (drive_to target (farther 60 player_pos target))
    else if within walk_arrive_radius player_pos target
    then none
    else if within walk_switch_radius player_pos target
    then some (walk_to target (farther 15 player_pos target))
    else some enter_nearest_vehicle
