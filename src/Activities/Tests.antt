-- ===== src/Activities/Tests.antt =====
-- The picker over two activities, and the runner on a plan of two steps.
use wanted.Base.{ℕ, ◌+◌, ◌≤◌, ◌≡◌, refl, true, false, none, some, List, [], ◌∷◌, arith, keep}
use wanted.Tasks.{Action, TaskType}
use wanted.Activities.Picker.{
  Activity, Picker, Readings, chaos_budget_per_hour, chaos_sum, is_recent, is_eligible, prune_chaos,
  peek, commit, draw, eligible, weigh, variety_multiplier,
}
use wanted.Activities.Chaos.{Call, pick_all, pick_all-within_budget}
use wanted.Activities.Runner.{TaskStatus, Runner, RunningActivity, start_plan, next_step}
use wanted.Activities.Steps.{follow, follow-start_plan}

abbrev step_to : TaskType → Action
step_to t = record { type_ = t; target = none; arrive = 8; speed = 16; fast = false }

abbrev cruise : Activity
cruise = record {
  name = 1;
  weight = 100;
  cooldown_s = 600000;
  chaos_cost = 0;
  category = 1;
  mood_affinity = λ _. none;
  plan = step_to TaskType.set_waypoint ∷ step_to TaskType.drive_to ∷ [];
  needs_death_spot = false;
}

abbrev rampage : Activity
rampage = record cruise { name = 2; weight = 50; chaos_cost = 150; category = 2 }

abbrev catalog : List Activity
catalog = cruise ∷ rampage ∷ []

abbrev fresh : Picker
fresh = record {
  last_run = [];
  chaos_spent = [];
  recent_categories = [];
  last_name = none;
  last_death_pos = none;
}

abbrev now : ℕ
now = 10000000

abbrev booked : Picker
booked = record fresh {
  last_run = (2, 9000000) ∷ [];
  chaos_spent = (9000000, 150) ∷ [];
  recent_categories = 2 ∷ [];
  last_name = some 2;
}

-- A rampage in the last hour leaves too little chaos for another one.
picked :
    ((peek catalog now now 1 0 (some 2) booked).1 ≡ some cruise)
    × ((peek catalog now now 1 0 (some 2) fresh).1 ≡ some rampage)
unfolding peek prune_chaos eligible is_eligible weigh variety_multiplier draw
picked = (refl, refl)

peeked : (peek catalog now now 1 0 none booked).1 ≡ some cruise
unfolding peek prune_chaos eligible is_eligible weigh variety_multiplier draw
peeked = refl

peeked_later :
    (peek catalog 10600000 10600000 1 0 none (commit now now now cruise booked)).1 ≡ some cruise
unfolding peek prune_chaos eligible is_eligible weigh variety_multiplier draw commit
peeked_later = refl

-- A call whose readings are a millisecond apart.
abbrev at_once : ℕ → Readings
at_once t = record { now = t; later = t + 1; run = t + 2; spent = t + 3; logged = t + 4 }

abbrev calls : List Call
calls =
    record { at = at_once 10000000; draw = 1; mood = 0; prefer = some 2 }
    ∷ record { at = at_once 11000000; draw = 1; mood = 0; prefer = some 2 }
    ∷ []

pick_all-within_budget_example :
    chaos_sum (keep (is_recent 12000000) (pick_all catalog calls fresh []).1)
    ≤ chaos_budget_per_hour
pick_all-within_budget_example =
    pick_all-within_budget catalog calls 0 12000000 fresh []
      (record { remembers = refl; within = omega arith })
      (
        (omega arith, omega arith, omega arith, omega arith, omega arith),
        ((omega arith, omega arith, omega arith, omega arith, omega arith), omega arith),
      )

abbrev act : RunningActivity
act = record {
  activity = cruise;
  plan = cruise.plan;
  step = 0;
  started_at = 5;
  step_started_at = 5;
}

abbrev busy : Runner
busy = record {
  current = some act;
  next_allowed_at = 0;
  step_task_id = some 41;
  step_expects_task = true;
}

-- The task of the step before is still reported as done: nothing moves.
stale_snapshot : next_step 900 950 200000 TaskStatus.done (some 40) busy ≡ (busy, none)
unfolding next_step
stale_snapshot = refl

follow-start_plan_example :
    let idle_runner : Runner = record busy { current = none } in
    let (r', issued) =
      start_plan 5 cruise
        (step_to TaskType.set_waypoint ∷ step_to TaskType.drive_to ∷ [])
        idle_runner in
    (issued ≡ some (step_to TaskType.set_waypoint))
    × (step_to TaskType.set_waypoint ∷ (follow ((7, 100) ∷ (8, 900) ∷ []) r').0
        ≡ step_to TaskType.set_waypoint ∷ step_to TaskType.drive_to ∷ [])
    × ((last : RunningActivity) × ((follow ((7, 100) ∷ (8, 900) ∷ []) r').1.current ≡ some last)
        × (last.plan ≡ step_to TaskType.set_waypoint ∷ step_to TaskType.drive_to ∷ [])
        × (2 ≤ last.step)
        × (last.started_at ≡ 5))
follow-start_plan_example =
    follow-start_plan 5 cruise (step_to TaskType.set_waypoint) (step_to TaskType.drive_to ∷ [])
      ((7, 100) ∷ (8, 900) ∷ []) (record busy { current = none }) refl refl
