-- ===== src/Operator/Apply.antt =====
-- How the loop applies the operator's directives: `blocking_reason` of
-- harness/wasted_harness/operator.py, and `_reflex_act`, `_apply_operator`,
-- `_apply_one_operator_directive` and `_operator_choice` of harness/wasted_harness/main.py. The status
-- document and the notes of the feed are left out.
use wanted.Base.{
  ℕ, ◌+◌, Bool, true, false, not, ◌&&◌, Option, none, some, List, [], ◌∷◌, ◌++◌, leb, if◌then◌else◌,
}
use wanted.Tasks.{TaskType, is_bridge_task}
use wanted.Wheel.Owner.{Owner}
use wanted.Wheel.Arbiter.{MovementToken, Wheel, acquire, release_owner, note, post}
use wanted.Operator.Queue.{
  Command, Arg, Directive, Step, steps, nudge_type_ban, operator_goal_window,
}

-- What a tick shows the operator's code: the snapshot, the goals on the menu, and which task types the
-- other checks of `_execute_action` let through.
pub record Scene : Type 0 where
  pub now : ℕ
  pub dead : Bool
  pub arrested : Bool
  pub cutscene_active : Bool
  pub switch_in_progress : Bool
  pub retry_in_flight : Bool
  pub control_enabled : Bool
  pub mission_is_active : Bool
  pub in_vehicle : Bool
  pub last_type : Option TaskType
  pub last_failed : Bool
  pub offered : Arg → Bool
  pub passes : TaskType → Bool

pub data Reason : Type 0 where
  he_is_dead being_arrested cutscene_playing switch_playing retrying no_control mission_owns_him :
      Reason
  not_on_menu nothing_to_post wheel_refused : Reason

abbrev pub is_pick : Command → Bool
is_pick Command.nudge = true
is_pick Command.goal = true
is_pick _ = false

unfoldable pub blocking_reason : Scene → Directive → Option Reason
blocking_reason s d =
    if s.dead
    then some Reason.he_is_dead
    else if s.arrested
    then some Reason.being_arrested
    else if s.cutscene_active
    then some Reason.cutscene_playing
    else if s.switch_in_progress
    then some Reason.switch_playing
    else if s.retry_in_flight
    then some Reason.retrying
    else if not s.control_enabled
    then some Reason.no_control
    else if is_pick d.cmd && s.mission_is_active
    then some Reason.mission_owns_him
    else none

-- The wheel, and what the operator's code keeps in the loop: the second half of `drive`, the armed
-- goal and until when, the pick to force, and the types banned, with their duration.
pub record Desk : Type 0 where
  pub wheel : Wheel
  pub followup : Option Step
  pub goal : Option Arg
  pub goal_until : ℕ
  pub force_pick : Bool
  pub banned : List (TaskType × ℕ)

pub data Effect : Type 0 where
  posted : TaskType → Effect
  ended_activity : Effect
  refused : Directive → Reason → Effect
  -- `applied`, and the event of the feed.
  applied : Directive → Effect
  recorded : Directive → Effect

-- MOVEMENT_TASKS: the bridge's tasks but for those of the phone.
abbrev pub is_movement : TaskType → Bool
is_movement TaskType.answer_call = false
is_movement TaskType.reject_call = false
is_movement t = is_bridge_task t

abbrev pub posted_as : TaskType → Option Owner → List Effect
posted_as t none = []
posted_as t (some _) = posted t ∷ []

pub record Acted : Type 0 where
  pub wheel : Wheel
  pub attempted : Bool
  pub effects : List Effect

abbrev pub act_with : Scene → TaskType → Wheel × Option MovementToken → Acted
act_with s t (w, none) = record { wheel = w; attempted = false; effects = [] }
act_with s t (w, some token) =
    let (w', sent) = post (s.passes t) (some token) w in
    record { wheel = w'; attempted = true; effects = posted_as t sent }

-- `_reflex_act`, of a movement task or another, which notes a reflex and takes no token.
unfoldable pub reflex_act : Scene → Owner → TaskType → Wheel → Acted
reflex_act s owner t w =
    if not (is_movement t)
    then record {
      wheel = note owner w;
      attempted = true;
      effects = if is_bridge_task t && s.passes t then posted t ∷ [] else [];
    }
    else act_with s t (acquire owner 1 (some 1) w)

-- `_end_activity_if_running` gives free roam's hold back.
abbrev pub end_activity : Desk → Desk
end_activity k = record k { wheel = (release_owner Owner.roam k.wheel).0 }

-- `idle_breaker.ban`, for a type that failed.
abbrev pub ban : Option TaskType → Bool → List (TaskType × ℕ) → List (TaskType × ℕ)
ban none failed bs = bs
ban (some t) failed bs = if failed then (t, nudge_type_ban) ∷ bs else bs

abbrev pub accept : Directive → List Effect → List Effect
accept d es = es ++ applied d ∷ recorded d ∷ []

-- `_apply_one_operator_directive`, with what `_apply_operator` does on its answer.
abbrev pub pick_anew : Scene → Desk → Desk
pick_anew s k = record (end_activity k) {
  banned = ban s.last_type s.last_failed k.banned;
  force_pick = true;
}

-- `if rest: self._operator_followup = rest[0]`
abbrev pub then_follows : List Step → Option Step → Option Step
then_follows [] old = old
then_follows (next ∷ _) old = some next

abbrev pub first_step : Scene → Directive → List Step → Desk → Desk × List Effect
first_step s d [] k = (k, refused d Reason.nothing_to_post ∷ [])
first_step s d (first ∷ rest) k =
    let acted = reflex_act s Owner.operator first.type_ k.wheel in
    if acted.attempted
    then (
      record k { wheel = acted.wheel; followup = then_follows rest k.followup },
      accept d acted.effects,
    )
    else (record k { wheel = acted.wheel }, refused d Reason.wheel_refused ∷ [])

unfoldable pub apply_one : Scene → Directive → Command → Desk → Desk × List Effect
apply_one s d Command.stop k =
    let ended = end_activity k in
    let acted = reflex_act s Owner.operator TaskType.stop ended.wheel in
    (record ended { wheel = acted.wheel }, accept d (ended_activity ∷ acted.effects))
apply_one s d Command.nudge k = (pick_anew s k, accept d (ended_activity ∷ []))
apply_one s d Command.goal k =
    if not (s.offered d.arg) then (k, refused d Reason.not_on_menu ∷ []) else (
      record (pick_anew s k) { goal = some d.arg; goal_until = s.now + operator_goal_window },
      accept d (ended_activity ∷ []),
    )
apply_one s d Command.task k = first_step s d (steps d) k

-- The gate of `_apply_operator` on a directive.
abbrev pub apply_as : Option Reason → Scene → Directive → Desk → Desk × List Effect
apply_as none s d k = apply_one s d d.cmd k
apply_as (some reason) s d k = (k, refused d reason ∷ [])

unfoldable pub apply_each : Scene → List Directive → Desk → Desk × List Effect
apply_each s [] k = (k, [])
apply_each s (d ∷ ds) k =
    let (k', es) = apply_as (blocking_reason s d) s d k in
    let (k'', rest) = apply_each s ds k' in (k'', es ++ rest)

-- The second half of `drive`, once he is seated.
abbrev pub follow_up : Scene → Option Step → Desk → Desk × List Effect
follow_up s none k = (k, [])
follow_up s (some step) k =
    if s.in_vehicle
    then (let acted = reflex_act s Owner.operator step.type_ k.wheel in
        (record k { wheel = acted.wheel; followup = none }, acted.effects))
    else (k, [])

-- `_apply_operator`, on what the queue drained to.
unfoldable pub apply_operator : Scene → List Directive → Desk → Desk × List Effect
apply_operator s ds k =
    let (k', es) = follow_up s k.followup k in
    let (k'', rest) = apply_each s ds k' in (k'', es ++ rest)

-- `_operator_choice`: what the pick chooses, the armed goal or the model's own choice.
abbrev pub choice_of : Scene → Option Arg → Option Arg → Desk → Desk × Option Arg
choice_of s none chosen k = (k, chosen)
choice_of s (some goal) chosen k =
    if leb k.goal_until s.now
    then (record k { goal = none }, chosen)
    else if s.offered goal
    then (record k { goal = none }, some goal)
    else (k, chosen)

unfoldable pub operator_choice : Scene → Option Arg → Desk → Desk × Option Arg
operator_choice s chosen k = choice_of s k.goal chosen k
