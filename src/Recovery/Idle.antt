-- ===== src/Recovery/Idle.antt =====
-- `IdleBreaker` of harness/wasted_harness/behavior/recovery.py. Moments are in milliseconds and lengths
-- in centimetres. Where a walk goes to is left out: a point at the distance, on a bearing that is drawn.
use wanted.Base.{
  get_or, ℕ, suc, ◌+◌, ◌-◌, ◌%◌, Bool, true, false, not, ◌&&◌, ◌||◌, Option, none, some, List, [],
  ◌∷◌, Name, ltb, leb, ◌==◌, if◌then◌else◌, is_nil,
}
use wanted.Recovery.Times.{lookup, put}
use wanted.Tasks.{Vec, planar_distance_squared, metres_squared}

-- IDLE_MOVE_M, GOING_NOWHERE_RADIUS_M, IDLE_WALK_NEAR_M, IDLE_WALK_FAR_M and HOSTILE_CLOSE_RADIUS_M in
-- metres, and the times
abbrev pub idle_move : ℕ
idle_move = 6

abbrev pub going_nowhere_radius : ℕ
going_nowhere_radius = 15

abbrev pub idle_walk_near : ℕ
idle_walk_near = 55

abbrev pub idle_walk_far : ℕ
idle_walk_far = 110

abbrev pub hostile_close_radius : ℕ
hostile_close_radius = 4000

abbrev pub idle_window : ℕ
idle_window = 25000

abbrev pub idle_rung_hold : ℕ
idle_rung_hold = 9000

abbrev pub idle_type_ban : ℕ
idle_type_ban = 30000

abbrev pub going_nowhere_window : ℕ
going_nowhere_window = 60000

abbrev pub going_nowhere_sample : ℕ
going_nowhere_sample = 500

-- A ped nearby: `is_protagonist` if its model names one of the three.
pub record Ped : Type 0 where
  pub handle : ℕ
  pub distance : ℕ
  pub is_protagonist : Bool

-- What of a snapshot the breaker reads.
pub record Seen : Type 0 where
  pub pos : Vec
  pub health : ℕ
  pub dead : Bool
  pub arrested : Bool
  pub control_enabled : Bool
  pub cutscene_active : Bool
  pub in_vehicle : Bool
  pub last_type : Option Name
  pub last_failed : Bool
  pub has_gun : Bool
  pub peds : List Ped

-- The trail is newest first, and a ban holds until its moment.
pub record IdleBreaker : Type 0 where
  pub anchor : Option Vec
  pub anchor_at : ℕ
  pub rung : ℕ
  pub fired_at : ℕ
  pub health : Option ℕ
  pub banned : List (Name × ℕ)
  pub trail : List (ℕ × Vec)

pub data IdleAction : Type 0 where
  walk fight_ped shoot_at : ℕ → IdleAction

unfoldable pub reset : ℕ → IdleBreaker → IdleBreaker
reset now b = record b { anchor = none; anchor_at = now; rung = 0; fired_at = 0; trail = [] }

-- `self._banned.get(task_type, 0.0)`
abbrev pub banned_until : Name → List (Name × ℕ) → ℕ
banned_until t bs = get_or (lookup t bs) 0

unfoldable pub bans : ℕ → Name → IdleBreaker → Bool
bans now t b = ltb now (banned_until t b.banned)

unfoldable pub ban : ℕ → Name → ℕ → IdleBreaker → IdleBreaker
ban now t ms b = record b { banned = put t (now + ms) b.banned }

-- `while self._trail and ...: self._trail.popleft()`, from the oldest on.
abbrev pub expire : ℕ → List (ℕ × Vec) → List (ℕ × Vec)
expire now [] = []
expire now (p ∷ ps) =
    let rest = expire now ps in
    if is_nil rest && ltb going_nowhere_window (now - p.0) then [] else p ∷ rest

abbrev pub sample_due : ℕ → List (ℕ × Vec) → Bool
sample_due now [] = true
sample_due now (p ∷ _) = leb going_nowhere_sample (now - p.0)

-- How far back the trail stays within the circle around its newest point.
abbrev pub oldest_near : Vec → ℕ → List (ℕ × Vec) → ℕ
oldest_near here oldest [] = oldest
oldest_near here oldest (p ∷ ps) =
    let rest = oldest_near here p.0 ps in
    if ltb (metres_squared going_nowhere_radius) (planar_distance_squared p.1 here)
    then oldest
    else rest

abbrev pub nowhere_in : List (ℕ × Vec) → ℕ
nowhere_in [] = 0
nowhere_in (p ∷ ps) = p.0 - oldest_near p.1 p.0 (p ∷ ps)

unfoldable pub going_nowhere_s : IdleBreaker → ℕ
going_nowhere_s b = nowhere_in b.trail

abbrev pub loses_health : Option ℕ → ℕ → Bool
loses_health none health = false
loses_health (some before) health = ltb health before

abbrev pub has_moved : Vec → Vec → Bool
has_moved anchor here = leb (metres_squared idle_move) (planar_distance_squared here anchor)

abbrev pub anchored : Option Vec → ℕ → Bool → Vec → IdleBreaker → IdleBreaker
anchored none now hurt here b = record b { anchor = some here; anchor_at = now }
anchored (some a) now hurt here b =
    if has_moved a here || hurt
    then record b { anchor = some here; anchor_at = now; rung = 0 }
    else b

abbrev pub remember : ℕ → Seen → IdleBreaker → IdleBreaker
remember now s b = record b {
  trail = if sample_due now b.trail then expire now ((now, s.pos) ∷ b.trail) else b.trail;
  health = some s.health;
}

unfoldable pub observe : ℕ → Seen → IdleBreaker → IdleBreaker
observe now s b = anchored b.anchor now (loses_health b.health s.health) s.pos (remember now s b)

abbrev pub still_since : Option Vec → ℕ → ℕ → ℕ
still_since none at now = 0
still_since (some _) at now = now - at

unfoldable pub still_for_s : ℕ → IdleBreaker → ℕ
still_for_s now b = still_since b.anchor b.anchor_at now

-- `_nearest_ped`: the first of the nearest that is no protagonist, within the radius.
abbrev pub nearest : Option Ped → List Ped → Option Ped
nearest best [] = best
nearest none (p ∷ ps) = nearest (if p.is_protagonist then none else some p) ps
nearest (some best) (p ∷ ps) =
    nearest (if not p.is_protagonist && ltb p.distance best.distance then some p else some best) ps

abbrev pub if_close : Option Ped → Option ℕ
if_close none = none
if_close (some p) = if leb p.distance hostile_close_radius then some p.handle else none

unfoldable pub nearest_ped : Seen → Option ℕ
nearest_ped s = if_close (nearest none s.peds)

abbrev pub fight : Option ℕ → IdleAction
fight none = IdleAction.walk idle_walk_near
fight (some h) = IdleAction.fight_ped h

abbrev pub shoot : Bool → Option ℕ → IdleAction
shoot armed none = IdleAction.walk idle_walk_near
shoot armed (some h) = if armed then IdleAction.shoot_at h else IdleAction.walk idle_walk_near

unfoldable pub rung_action : Seen → ℕ → IdleAction
rung_action s rung =
    if rung == 1
    then fight (nearest_ped s)
    else if rung == 3
    then shoot s.has_gun (nearest_ped s)
    else if rung == 2
    then IdleAction.walk idle_walk_far
    else IdleAction.walk idle_walk_near

abbrev pub is_free : Seen → Bool
is_free s =
    not (s.dead || s.arrested || not s.control_enabled || s.cutscene_active) && not s.in_vehicle

abbrev pub ban_failed : ℕ → Option Name → Bool → List (Name × ℕ) → List (Name × ℕ)
ban_failed now none failed bs = bs
ban_failed now (some t) failed bs = if failed then put t (now + idle_type_ban) bs else bs

-- The rung that is due, once the tests have passed.
unfoldable pub fire : ℕ → Seen → IdleBreaker → IdleBreaker × Option IdleAction
fire now s b = (
  record b {
    banned = ban_failed now s.last_type s.last_failed b.banned;
    fired_at = now;
    rung = (suc b.rung) % 4;
  },
  some (rung_action s (b.rung % 4)),
)

-- `check`; it observes first.
unfoldable pub check : ℕ → Seen → IdleBreaker → IdleBreaker × Option IdleAction
check now s b =
    let seen = observe now s b in
    if not (is_free s)
    then (reset now seen, none)
    else if ltb (still_for_s now seen) idle_window
    then (seen, none)
    else if ltb (now - seen.fired_at) idle_rung_hold
    then (seen, none)
    else fire now s seen
