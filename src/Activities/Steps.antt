-- ===== src/Activities/Steps.antt =====
-- The steps of a running activity, `next_step` of harness/wasted_harness/behavior/activities.py: one
-- snapshot, and a plan that is followed over the bridge's answers.
use wanted.Base.{
  ℕ, zero, suc, ◌+◌, ◌≤◌, ◌<◌, ◌≡◌, refl, true, false, Option, none, some, List, [], ◌∷◌, Name,
  same, ◌⊎◌, inl, inr, is_some, get_elem?, length, drop, arith, Option-cases, same_refl, ap, sym,
  ◌∙◌,
}
use wanted.Tasks.{Action}
use wanted.Activities.Picker.{Activity}
use wanted.Activities.Runner.{
  TaskStatus, is_running, is_done, RunningActivity, Runner, begin_activity, start_plan, advance,
  bind_step_task, next_step,
}

-- When a step may end before its time is up: its own task has come to an end, or it has none and
-- nobody else's is running.
abbrev pub MayEnd : TaskStatus → Option Name → Runner → Type 0
MayEnd status task_id r =
    ((r.step_expects_task ≡ true)
      × (is_some r.step_task_id ≡ true)
      × (same task_id r.step_task_id ≡ true)
      × (is_done status ≡ true))
    ⊎ ((r.step_expects_task ≡ false) × (is_running status ≡ false))

-- When somebody else has taken the wheel.
abbrev pub IsTaken : TaskStatus → Option Name → Runner → Type 0
IsTaken status task_id r =
    (r.step_expects_task ≡ true)
    × (is_some r.step_task_id ≡ true)
    × (same task_id r.step_task_id ≡ false)
    × (is_running status ≡ true)

-- The plan is one step further on: the step counter, the moment at which the step began, no task yet,
-- and the action to issue.
abbrev pub IsMovedOn : ℕ → RunningActivity → Runner × Option Action → Type 0
IsMovedOn now act result =
    ((next : RunningActivity) × (result.0.current ≡ some next)
      × (next.step ≡ suc act.step)
      × (next.plan ≡ act.plan)
      × (next.started_at ≡ act.started_at)
      × (next.step_started_at ≡ now))
    × (result.0.step_task_id ≡ none)
    × (result.0.step_expects_task ≡ false)
    × (result.1 ≡ get_elem? act.plan (suc act.step))

-- The activity is over, and the next one is due after the gap.
abbrev pub IsAbandoned : ℕ → ℕ → Runner × Option Action → Type 0
IsAbandoned later gap result =
    (result.0.current ≡ none)
    × (result.0.step_task_id ≡ none)
    × (result.0.step_expects_task ≡ false)
    × (result.0.next_allowed_at ≡ later + gap)
    × (result.1 ≡ none)

-- What a snapshot does, by whether the time of the step is up, it may end, or the wheel is taken.
abbrev pub Stepped :
    ℕ
    → ℕ
    → ℕ
    → TaskStatus
    → Option Name
    → RunningActivity
    → Runner
    → Runner × Option Action
    → Type 0
Stepped now later gap status task_id act r result =
    (IsMovedOn now act result × ((act.step_started_at + 210000 < now) ⊎ MayEnd status task_id r))
    ⊎ ((now ≤ act.step_started_at + 210000)
        × ((IsAbandoned later gap result × IsTaken status task_id r)
            ⊎ ((result ≡ (r, none)) × ¬ (MayEnd status task_id r) × ¬ (IsTaken status task_id r))))

abbrev pub then_follow :
    (Runner → List Action × Runner) → Runner × Option Action → List Action × Runner
then_follow rest (r, none) = ([], r)
then_follow rest (r, some a) = let (as_, r') = rest r in (a ∷ as_, r')

-- The bridge's answers to the steps: each is bound to the id that its post returned, and ends.
unfoldable pub follow : List (Name × ℕ) → Runner → List Action × Runner
follow [] r = ([], r)
follow ((id, now) ∷ rest) r =
    then_follow (follow rest)
      (next_step now now 0 TaskStatus.done (some id) (bind_step_task (some id) r))

get_elem?-drop :
    {A : Type 0} (k : ℕ) (xs : List A) (a : A)
    → get_elem? xs k ≡ some a
    → drop k xs ≡ a ∷ drop (suc k) xs
get_elem?-drop k [] a h = absurd (cc)
get_elem?-drop zero (x ∷ xs) a h = ground arith
get_elem?-drop (suc k) (x ∷ xs) a h = get_elem?-drop k xs a h

get_elem?-none :
    {A : Type 0} (k : ℕ) (xs : List A) → get_elem? xs k ≡ none → (drop k xs ≡ []) × (length xs ≤ k)
get_elem?-none zero [] h = ground arith
get_elem?-none (suc k) [] h = ground arith
get_elem?-none zero (x ∷ xs) h = absurd (cc)
get_elem?-none (suc k) (x ∷ xs) h = let (d, l) = get_elem?-none k xs h in (d, omega arith)

get_elem?-le : {A : Type 0} (k : ℕ) (xs : List A) (a : A) → get_elem? xs k ≡ some a → k < length xs
get_elem?-le k [] a h = absurd (cc)
get_elem?-le zero (x ∷ xs) a h = omega arith
get_elem?-le (suc k) (x ∷ xs) a h = omega (arith, get_elem?-le k xs a h)

-- A step whose task was bound and has ended is followed by the next one.
bound_step-advances :
    (id now : ℕ) (act : RunningActivity) (r : Runner) (a : Action)
    → r.current ≡ some act
    → get_elem? act.plan act.step ≡ some a
    → next_step now now 0 TaskStatus.done (some id) (bind_step_task (some id) r) ≡ advance now act r
unfolding next_step bind_step_task
bound_step-advances id now act r a e here = ground (arith, same_refl (some id))

follow-rest :
    (answers : List (Name × ℕ)) (act : RunningActivity) (r : Runner) (a : Action)
    → r.current ≡ some act
    → get_elem? act.plan act.step ≡ some a
    → length act.plan ≤ act.step + length answers
    → ((follow answers r).0 ≡ drop (suc act.step) act.plan)
      × ((last : RunningActivity) × ((follow answers r).1.current ≡ some last)
          × (last.plan ≡ act.plan)
          × (length act.plan ≤ last.step)
          × (last.started_at ≡ act.started_at))
unfolding follow
follow-rest [] act r a e here enough = absurd (omega (arith, get_elem?-le act.step act.plan a here))
follow-rest ((id, now) ∷ rest) act r a e here enough =
    rw (ap (then_follow (follow rest)) (bound_step-advances id now act r a e here))
      (elim (Option-cases (get_elem? act.plan (suc act.step))) [
        | inl over ↦
            let (nothing, long) = get_elem?-none (suc act.step) act.plan over in
            rw over (
              sym nothing,
              (record act { step = suc act.step; step_started_at = now }, refl, refl, long, refl),
            )
        | inr (b, next) ↦
            let act' : RunningActivity = record act {
              step = suc act.step;
              step_started_at = now;
            } in
            let (rest_is, ends) =
              follow-rest rest act' (advance now act r).0 b refl next (omega arith) in
            rw next (ap (◌∷◌ b) rest_is ∙ sym (get_elem?-drop (suc act.step) act.plan b next), ends)
      ])

-- A plan that an idle runner starts, and whose posted tasks all end, is issued step for step: the
-- actions that the runner returns are the plan, whole and in order, and after the last one has ended
-- the activity is finished, with the start that it began with.
pub follow-start_plan :
    (now : ℕ) (activity : Activity) (first : Action) (rest : List Action)
    (answers : List (Name × ℕ)) (r : Runner)
    → r.current ≡ none
    → length answers ≡ length (first ∷ rest)
    → let (r', issued) = start_plan now activity (first ∷ rest) r in
      (issued ≡ some first)
      × (first ∷ (follow answers r').0 ≡ first ∷ rest)
      × ((last : RunningActivity) × ((follow answers r').1.current ≡ some last)
          × (last.plan ≡ first ∷ rest)
          × (length (first ∷ rest) ≤ last.step)
          × (last.started_at ≡ now))
unfolding start_plan
follow-start_plan now activity first rest answers r e many =
    let act : RunningActivity = record {
      activity = activity;
      plan = first ∷ rest;
      step = 0;
      started_at = now;
      step_started_at = now;
    } in
    let (rest_is, ends) =
      follow-rest answers act (begin_activity now activity (first ∷ rest) r) first refl refl
        (omega arith) in
    rw e (refl, ap (◌∷◌ first) rest_is, ends)
