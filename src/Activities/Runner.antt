-- ===== src/Activities/Runner.antt =====
-- `ActivityRunner` of harness/wasted_harness/behavior/activities.py. A method takes each reading
-- of the clock that it makes and, where it draws one, the jittered gap to the next activity.
use wanted.Base.{
  ℕ, suc, ◌+◌, ◌-◌, Bool, true, false, not, ◌&&◌, Option, none, some, List, [], ◌∷◌, Name, ltb, leb,
  same, if◌then◌else◌, is_some, get_elem?, length,
}
use wanted.Base.Rounding.{round_to}
use wanted.Tasks.{Action, is_bridge_task}
use wanted.Activities.Picker.{Activity, Picker, Readings, commit, peek}

-- ACTIVITY_GAP_S[0] and STEP_TIMEOUT_S
abbrev pub activity_gap_min : ℕ
activity_gap_min = 150000

abbrev pub step_timeout : ℕ
step_timeout = 210000

-- `last_task.status` of the bridge.
pub data TaskStatus : Type 0 where
  idle running done failed : TaskStatus

abbrev pub is_running : TaskStatus → Bool
is_running TaskStatus.running = true
is_running _ = false

-- `_TASK_DONE`
abbrev pub is_done : TaskStatus → Bool
is_done TaskStatus.running = false
is_done _ = true

pub record RunningActivity : Type 0 where
  pub activity : Activity
  pub plan : List Action
  pub step : ℕ
  pub started_at : ℕ
  pub step_started_at : ℕ

abbrev pub finished : RunningActivity → Bool
finished r = leb (length r.plan) r.step

pub record Runner : Type 0 where
  pub current : Option RunningActivity
  pub next_allowed_at : ℕ
  pub step_task_id : Option Name
  pub step_expects_task : Bool

unfoldable pub due : ℕ → Runner → Bool
due now r = not (is_some r.current) && leb r.next_allowed_at now

abbrev pub begin_activity : ℕ → Activity → List Action → Runner → Runner
begin_activity now activity plan r = record r {
  current = some (record {
    activity = activity;
    plan = plan;
    step = 0;
    started_at = now;
    step_started_at = now;
  });
  step_task_id = none;
  step_expects_task = false;
}

-- `start`, with the plan that `build_plan` makes of the activity. The readings of the clock are those of
-- the choice, and then that of the activity's start or of the next gap.
unfoldable pub start :
    List Activity
    → (Activity → Name → List Action)
    → Readings
    → ℕ
    → ℕ
    → Name
    → Name
    → Option Name
    → Picker × Runner
    → (Picker × Runner) × Option (Activity × Action)
start catalog build_plan t begun draw mood mood_style prefer (p, r) =
    let (p', chosen) = peek catalog t.now t.later draw mood prefer p in
    let waiting = record r { next_allowed_at = begun + activity_gap_min } in
    elim chosen [
      | none ↦ ((p', waiting), none)
      | some activity ↦ elim (build_plan activity mood_style) [
        | [] ↦ ((p', waiting), none)
        | first ∷ rest ↦ (
          (
            commit t.run t.spent t.logged activity p',
            begin_activity begun activity (first ∷ rest) r,
          ),
          some (activity, first),
        )
      ]
    ]

unfoldable pub start_plan : ℕ → Activity → List Action → Runner → Runner × Option Action
start_plan now activity plan r = if is_some r.current then (r, none) else elim plan [
  | [] ↦ (r, none)
  | first ∷ rest ↦ (begin_activity now activity (first ∷ rest) r, some first)
]

abbrev pub replaced : ℕ → List Action → RunningActivity → Runner → Runner
replaced now plan act r = record r {
  current = some (record act { plan = plan; step = 0; step_started_at = now });
  step_task_id = none;
  step_expects_task = false;
}

unfoldable pub replace_plan : ℕ → List Action → Runner → Runner × Option Action
replace_plan now plan r = elim r.current [
  | none ↦ (r, none)
  | some act ↦ elim plan [
    | [] ↦ (r, none)
    | first ∷ rest ↦ (replaced now (first ∷ rest) act r, some first)
  ]
]

unfoldable pub bind_step_task : Option Name → Runner → Runner
bind_step_task task_id r = elim r.current [
  | none ↦ r
  | some act ↦ elim (get_elem? act.plan act.step) [
    | none ↦ r
    | some action ↦ record r {
      step_expects_task = is_bridge_task action.type_;
      step_task_id = task_id;
    }
  ]
]

-- The payload of `activity_end`: the name, the outcome and the duration.
pub data Outcome : Type 0 where
  completed preempted timed_out replanned : Outcome
  other : Name → Outcome

pub record Ended : Type 0 where
  pub activity : Name
  pub outcome : Outcome
  pub duration_s : ℕ

-- `now` is the reading for the next gap and `ended` the one for the duration, which is in milliseconds
-- and rounded to tenths of a second.
unfoldable pub finish : ℕ → ℕ → ℕ → Outcome → Runner → Runner × Option Ended
finish now ended gap outcome r =
    let cleared = record r {
      current = none;
      step_task_id = none;
      step_expects_task = false;
      next_allowed_at = now + gap;
    } in
    elim r.current [
      | none ↦ (cleared, none)
      | some act ↦ (
        cleared,
        some (record {
          activity = act.activity.name;
          outcome = outcome;
          duration_s = round_to 100 (ended - act.started_at);
        }),
      )
    ]

-- The last lines of `next_step`: on to the next step, or None at the end of the plan.
abbrev pub advance : ℕ → RunningActivity → Runner → Runner × Option Action
advance now act r = (
  record r {
    current = some (record act { step = suc act.step; step_started_at = now });
    step_task_id = none;
    step_expects_task = false;
  },
  get_elem? act.plan (suc act.step),
)

-- `now - running.step_started_at > STEP_TIMEOUT_S`
abbrev pub is_timed_out : ℕ → RunningActivity → Bool
is_timed_out now act = ltb (act.step_started_at + step_timeout) now

-- `now` is its own reading, and `later` the one that `abandon` takes for the next gap.
unfoldable pub next_step : ℕ → ℕ → ℕ → TaskStatus → Option Name → Runner → Runner × Option Action
next_step now later gap task_status task_id r = elim r.current [
  | none ↦ (r, none)
  | some act ↦
      if is_timed_out now act
      then advance now act r
      else if r.step_expects_task
      then (if not (is_some r.step_task_id)
          then (r, none)
          else if not (same task_id r.step_task_id)
          then (if is_running task_status
              then ((finish later later gap Outcome.preempted r).0, none)
              else (r, none))
          else if not (is_done task_status)
          then (r, none)
          else advance now act r)
      else if is_running task_status
      then (r, none)
      else advance now act r
]
