-- ===== src/Tasks.antt =====
-- The bridge's task vocabulary (BRIDGE_TASK_TYPES of harness/wasted_harness/bridge_client.py), the
-- actions made of it, and positions. Lengths are in centimetres, each coordinate counted from a
-- corner of the map, since only differences matter; a distance is compared by its square.
use wanted.Base.{ℕ, ◌+◌, ◌-◌, ◌*◌, Bool, true, false, Option, Name}

pub data TaskType : Type 0 where
  drive_to walk_to enter_nearest_vehicle exit_vehicle wander_drive flee_police : TaskType
  combat_hated_targets_around seek_cover follow_entity fight_ped set_waypoint stop : TaskType
  shoot_at drive_by enter_vehicle_seat answer_call reject_call flee_ped fly_to throw_at : TaskType
  primitive : Name → TaskType

-- `type in BRIDGE_TASK_TYPES`: what is not there is a primitive of the harness.
abbrev pub is_bridge_task : TaskType → Bool
is_bridge_task (primitive _) = false
is_bridge_task _ = true

pub record Vec : Type 0 where
  pub x : ℕ
  pub y : ℕ
  pub z : ℕ

-- `arrive` is an arrival radius in metres (the search radius, to enter a vehicle; 0 where the task
-- has none), `speed` in metres a second, and `fast` a rushed style
-- or a run.
pub record Action : Type 0 where
  pub type_ : TaskType
  pub target : Option Vec
  pub arrive : ℕ
  pub speed : ℕ
  pub fast : Bool

abbrev pub diff : ℕ → ℕ → ℕ
diff a b = (a - b) + (b - a)

-- The square of `planar_distance`.
abbrev pub planar_distance_squared : Vec → Vec → ℕ
planar_distance_squared a b = diff a.x b.x * diff a.x b.x + diff a.y b.y * diff a.y b.y

-- A radius in metres, squared in centimetres.
abbrev pub metres_squared : ℕ → ℕ
metres_squared r = (100 * r) * (100 * r)
