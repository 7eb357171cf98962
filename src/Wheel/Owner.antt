-- ===== src/Wheel/Owner.antt =====
-- The ladder of those who may move him: MOVEMENT_OWNER_TABLE of
-- harness/wasted_harness/behavior/vehicle.py. A name that is not in the table raises, and is no Owner.
use wanted.Base.{
  ℕ, ◌+◌, ◌*◌, ◌≡◌, refl, sym, ap, Bool, true, false, ◌≢◌, ◌==◌, some, get_or, List, [], ◌∷◌,
  get_elem?, ==→eq, ◌∙◌, arith,
}

pub data Owner : Type 0 where
  flip water road_dodge threat vehicle physical operator governor exit_interior house_escape : Owner
  stranded idle_breaker resume brain mission day_plan roam idle : Owner

-- WHEEL_REFLEX, WHEEL_MISSION, WHEEL_ROAM and WHEEL_IDLE
pub data Class : Type 0 where
  reflex_class mission_class roam_class idle_class : Class

abbrev pub class_of : Owner → Class
class_of Owner.brain = Class.mission_class
class_of Owner.mission = Class.mission_class
class_of Owner.day_plan = Class.mission_class
class_of Owner.roam = Class.roam_class
class_of Owner.idle = Class.idle_class
class_of _ = Class.reflex_class

abbrev pub class_number : Class → ℕ
class_number Class.reflex_class = 3
class_number Class.mission_class = 2
class_number Class.roam_class = 1
class_number Class.idle_class = 0

abbrev pub rank_of : Owner → ℕ
rank_of Owner.flip = 10
rank_of Owner.water = 9
rank_of Owner.road_dodge = 8
rank_of Owner.threat = 7
rank_of Owner.vehicle = 6
rank_of Owner.physical = 5
rank_of Owner.operator = 5
rank_of Owner.governor = 4
rank_of Owner.exit_interior = 3
rank_of Owner.house_escape = 2
rank_of Owner.stranded = 1
rank_of Owner.idle_breaker = 1
rank_of Owner.resume = 0
rank_of Owner.brain = 2
rank_of Owner.mission = 1
rank_of Owner.day_plan = 0
rank_of Owner.roam = 0
rank_of Owner.idle = 0

-- `_priority`: the pair of class and rank as one number, since a rank is below a hundred.
unfoldable pub priority : Owner → ℕ
priority o = 100 * class_number (class_of o) + rank_of o

-- The place in the table; two owners are the same if it is.
abbrev pub place : Owner → ℕ
place Owner.flip = 0
place Owner.water = 1
place Owner.road_dodge = 2
place Owner.threat = 3
place Owner.vehicle = 4
place Owner.physical = 5
place Owner.operator = 6
place Owner.governor = 7
place Owner.exit_interior = 8
place Owner.house_escape = 9
place Owner.stranded = 10
place Owner.idle_breaker = 11
place Owner.resume = 12
place Owner.brain = 13
place Owner.mission = 14
place Owner.day_plan = 15
place Owner.roam = 16
place Owner.idle = 17

unfoldable pub same_owner : Owner → Owner → Bool
same_owner a b = place a == place b

abbrev table : List Owner
table =
    Owner.flip ∷ Owner.water ∷ Owner.road_dodge ∷ Owner.threat ∷ Owner.vehicle ∷ Owner.physical
    ∷ Owner.operator ∷ Owner.governor ∷ Owner.exit_interior ∷ Owner.house_escape ∷ Owner.stranded
    ∷ Owner.idle_breaker ∷ Owner.resume ∷ Owner.brain ∷ Owner.mission ∷ Owner.day_plan ∷ Owner.roam
    ∷ Owner.idle ∷ []

table-place : (o : Owner) → get_elem? table (place o) ≡ some o
table-place Owner.flip = refl
table-place Owner.water = refl
table-place Owner.road_dodge = refl
table-place Owner.threat = refl
table-place Owner.vehicle = refl
table-place Owner.physical = refl
table-place Owner.operator = refl
table-place Owner.governor = refl
table-place Owner.exit_interior = refl
table-place Owner.house_escape = refl
table-place Owner.stranded = refl
table-place Owner.idle_breaker = refl
table-place Owner.resume = refl
table-place Owner.brain = refl
table-place Owner.mission = refl
table-place Owner.day_plan = refl
table-place Owner.roam = refl
table-place Owner.idle = refl

pub same_owner→eq : (a b : Owner) → same_owner a b ≡ true → a ≡ b
unfolding same_owner
same_owner→eq a b h =
    ap (λ o. get_or o a)
      (sym (table-place a) ∙ ap (get_elem? table) (==→eq (place a) (place b) h) ∙ table-place b)

pub same_owner_refl : (a : Owner) → same_owner a a ≡ true
unfolding same_owner
same_owner_refl a = ground arith

pub same_owner→ne : (a b : Owner) → same_owner a b ≡ false → a ≢ b
same_owner→ne a b h e = cc (same_owner_refl a, h, e)
