-- ===== src/Planner/History.antt =====
-- A planner's life as a sequence of calls, and the events that it records.
use wanted.Base.{
  ℕ, ◌≡◌, refl, sym, subst, ◌∙◌, ap, Bool, true, false, Option, none, some, List, [], ◌∷◌, ◌++◌,
  Name, Bool-cases, is_some, inl, inr, arith, ◌&&◌, same, leb,
}
use wanted.Tasks.{Vec}
use wanted.Activities.Runner.{is_running}
use wanted.Planner.State.{
  Phase, Blocked, Outcome, Draw, MissionStart, GameState, MissionEvent, PlannerEvent, DayPlanner,
}
use wanted.Planner.Blocks.{
  roam_block_over, owe_roam_blocks, mission_block_allowed, serve_one_owed_block, threat_close,
  start_roam_block,
}
use wanted.Planner.Trip.{
  navigation, navigation_to, begin_trip, note_arrival, retarget, standing_reason, end_or_go,
  abort_or_go, advance_trip, trip_abort_reason, end_trip,
}
use wanted.Planner.Update.{
  request_mission_block, observe_mission_event, bind_task, roam_activity_started,
  roam_activity_ended, is_to_mission, look, live_job_in, no_job, begin_or_roam, next_block, update,
}
use wanted.Planner.Invariant.{
  IsPlan, request_mission_block-IsPlan, observe_mission_event-IsPlan, bind_task-IsPlan,
  update-IsPlan,
}

pub data Call : Type 0 where
  tick : GameState → Name → Bool → ℕ → Draw → Call
  requested : Name → Call
  observed : ℕ → MissionEvent → Call
  bound : Option Name → Call
  activity_started : Name → Call
  activity_ended : Call

abbrev pub step : Call → DayPlanner → DayPlanner × List PlannerEvent
step (tick s mood in_mission now drawn) d =
    let (d', out) = update s mood in_mission now drawn d in (d', out.events)
step (requested reason) d = (request_mission_block reason d, [])
step (observed now e) d = (observe_mission_event now e d, [])
step (bound id) d = (bind_task id d, [])
step (activity_started n) d = (roam_activity_started n d, [])
step activity_ended d = (roam_activity_ended d, [])

unfoldable pub run : List Call → DayPlanner → DayPlanner × List PlannerEvent
run [] d = (d, [])
run (c ∷ cs) d = let (d', es) = step c d in let (d'', more) = run cs d' in (d'', es ++ more)

-- The events alternate: from no trip under way or from one, to no trip or to one.
abbrev pub Bracketed : Bool → List PlannerEvent → Bool → Type 0
Bracketed before [] after = before ≡ after
Bracketed before (PlannerEvent.activity_start _ _ ∷ es) after =
    (before ≡ false) × Bracketed true es after
Bracketed before (PlannerEvent.activity_end _ _ ∷ es) after =
    (before ≡ true) × Bracketed false es after

abbrev pub travelling : DayPlanner → Bool
travelling d = is_to_mission d.phase

Bracketed-append :
    (a b c : Bool) (es fs : List PlannerEvent)
    → Bracketed a es b
    → Bracketed b fs c
    → Bracketed a (es ++ fs) c
Bracketed-append a b c [] fs h k = subst (λ x. Bracketed x fs c) (sym h) k
Bracketed-append a b c (PlannerEvent.activity_start _ _ ∷ es) fs h k =
    (h.0, Bracketed-append true b c es fs h.1 k)
Bracketed-append a b c (PlannerEvent.activity_end _ _ ∷ es) fs h k =
    (h.0, Bracketed-append false b c es fs h.1 k)

-- The navigation changes the bound task alone.
pub navigation-only_binds :
    (s : GameState) (d : DayPlanner)
    → (b : Option Name) × ((navigation s d).0 ≡ record d { bound_task_id = b })
unfolding navigation
navigation-only_binds s d = go d.marker
  where
    go :
        (m : Option Vec)
        → (b : Option Name) × ((navigation_to s d m).0 ≡ record d { bound_task_id = b })
    go none = (d.bound_task_id, refl)
    go (some m) = elim (Bool-cases (is_running s.task_status)) [
      | inl r ↦ rw r (d.bound_task_id, refl)
      | inr r ↦ elim (Bool-cases (is_some d.bound_task_id && same s.task_id d.bound_task_id)) [
        | inl own ↦ rw (r, own) (none, refl)
        | inr other ↦ rw (r, other) (d.bound_task_id, refl)
      ]
    ]

navigation-travelling :
    (s : GameState) (d : DayPlanner) → travelling (navigation s d).0 ≡ travelling d
navigation-travelling s d = let (b, e) = navigation-only_binds s d in ap travelling e

begin_or_roam-Bracketed :
    (s : GameState) (now : ℕ) (drawn : Draw) (d : DayPlanner) (r : Option Blocked)
    (m : Option MissionStart)
    → let (d', out) = begin_or_roam s now drawn d r m in Bracketed false out.events (travelling d')
unfolding begin_trip start_roam_block
begin_or_roam-Bracketed s now drawn d none (some m) =
    (refl, sym (navigation-travelling s (begin_trip m now d)))
begin_or_roam-Bracketed s now drawn d none none = refl
begin_or_roam-Bracketed s now drawn d (some _) m = refl

next_block-Bracketed :
    (s : GameState) (now : ℕ) (drawn : Draw) (d : DayPlanner)
    → let (d', out) = next_block s now drawn d in Bracketed false out.events (travelling d')
unfolding next_block
next_block-Bracketed s now drawn d =
    let served = serve_one_owed_block d in
    let r = mission_block_allowed s served in
    begin_or_roam-Bracketed s now drawn (record served { blocked_reason = r }) r served.next_marker

retarget-travelling : (s : GameState) (d : DayPlanner) → travelling (retarget s d) ≡ travelling d
unfolding retarget
retarget-travelling s d = ground arith

end_or_go-Bracketed :
    (r : Option Outcome) (now : ℕ) (s : GameState) (drawn : Draw) (d : DayPlanner)
    → travelling d ≡ true
    → let (d', out) = end_or_go r now s drawn d in Bracketed true out.events (travelling d')
unfolding start_roam_block end_trip
end_or_go-Bracketed none now s drawn d h =
    sym h ∙ sym (navigation-travelling s (note_arrival now s d))
end_or_go-Bracketed (some r) now s drawn d h = (refl, refl)

abort_or_go-Bracketed :
    (r : Option Outcome) (s : GameState) (now : ℕ) (drawn : Draw) (d : DayPlanner)
    → travelling d ≡ true
    → let (d', out) = abort_or_go r s now drawn d in Bracketed true out.events (travelling d')
unfolding start_roam_block end_trip
abort_or_go-Bracketed (some r) s now drawn d h = (refl, refl)
abort_or_go-Bracketed none s now drawn d h = elim (Bool-cases (threat_close s)) [
  | inl t ↦ rw t (sym h)
  | inr t ↦ elim (Bool-cases (leb d.mission_deadline now)) [
    | inl late ↦ rw (t, late) (refl, refl)
    | inr early ↦
        let d' = retarget s d in
        rw (t, early)
          (end_or_go-Bracketed (standing_reason now d') now s drawn d'
            (retarget-travelling s d ∙ h))
  ]
]

live_job_in-Bracketed :
    (p : Phase) (now : ℕ) (d : DayPlanner)
    → p ≡ d.phase
    → let (d', out) = live_job_in p now d in Bracketed (is_to_mission p) out.events (travelling d')
unfolding end_trip
live_job_in-Bracketed Phase.to_mission now d e = (refl, refl)
live_job_in-Bracketed Phase.roaming now d e = refl
live_job_in-Bracketed Phase.in_mission now d e = ap is_to_mission e

no_job-Bracketed :
    (p : Phase) (s : GameState) (mood : Name) (now : ℕ) (drawn : Draw) (d : DayPlanner)
    → p ≡ d.phase
    → let (d', out) = no_job p s mood now drawn d in
      Bracketed (is_to_mission p) out.events (travelling d')
unfolding advance_trip start_roam_block
no_job-Bracketed Phase.in_mission s mood now drawn d e = refl
no_job-Bracketed Phase.to_mission s mood now drawn d e =
    abort_or_go-Bracketed (trip_abort_reason s) s now drawn d (sym (ap is_to_mission e))
no_job-Bracketed Phase.roaming s mood now drawn d e =
    elim (Bool-cases (roam_block_over now mood d)) [
      | inl o ↦ rw o (next_block-Bracketed s now drawn d)
      | inr o ↦ rw o (ap is_to_mission e)
    ]

update-Bracketed :
    (s : GameState) (mood : Name) (in_mission : Bool) (now : ℕ) (drawn : Draw) (d : DayPlanner)
    → let (d', out) = update s mood in_mission now drawn d in
      Bracketed (travelling d) out.events (travelling d')
unfolding update look
update-Bracketed s mood true now drawn d = live_job_in-Bracketed d.phase now (look s d) refl
update-Bracketed s mood false now drawn d =
    no_job-Bracketed d.phase s mood now drawn (look s d) refl

step-IsPlan : (c : Call) (d : DayPlanner) → IsPlan d → IsPlan (step c d).0
unfolding roam_activity_started roam_activity_ended
step-IsPlan (tick s mood i now drawn) d h = update-IsPlan s mood i now drawn d h
step-IsPlan (requested r) d h = request_mission_block-IsPlan r d h
step-IsPlan (observed now e) d h = observe_mission_event-IsPlan now e d h
step-IsPlan (bound id) d h = bind_task-IsPlan id d h
step-IsPlan (activity_started n) d h = record { marked = h.marked; backs_off = h.backs_off }
step-IsPlan activity_ended d h = record { marked = h.marked; backs_off = h.backs_off }

step-Bracketed :
    (c : Call) (d : DayPlanner) → Bracketed (travelling d) (step c d).1 (travelling (step c d).0)
unfolding roam_activity_started roam_activity_ended request_mission_block bind_task
    observe_mission_event owe_roam_blocks
step-Bracketed (tick s mood i now drawn) d = update-Bracketed s mood i now drawn d
step-Bracketed (requested r) d = ground arith
step-Bracketed (observed now MissionEvent.mission_start) d = refl
step-Bracketed (observed now MissionEvent.mission_fail) d = ground arith
step-Bracketed (observed now MissionEvent.other) d = refl
step-Bracketed (bound id) d = refl
step-Bracketed (activity_started n) d = refl
step-Bracketed activity_ended d = refl

-- Every trip is recorded once at its start and once at its end, in turn: over any calls, a trip's start
-- comes only when none is under way, an end only when one is, and the planner is travelling exactly
-- if a start is left open.
pub run-Bracketed :
    (cs : List Call) (d : DayPlanner)
    → Bracketed (travelling d) (run cs d).1 (travelling (run cs d).0)
unfolding run
run-Bracketed [] d = refl
run-Bracketed (c ∷ cs) d =
    let (d', es) = step c d in
    Bracketed-append (travelling d) (travelling d') (travelling (run cs d').0) es (run cs d').1
      (step-Bracketed c d) (run-Bracketed cs d')

-- Over any calls, in any order, the planner stays well-formed. On a trip it has a marker and the
-- deadline six minutes after the trip's start; off a trip it has neither a marker nor an arrival; and
-- with three failed attempts in a row it owes a roam block.
pub run-IsPlan : (cs : List Call) (d : DayPlanner) → IsPlan d → IsPlan (run cs d).0
unfolding run
run-IsPlan [] d h = h
run-IsPlan (c ∷ cs) d h = run-IsPlan cs (step c d).0 (step-IsPlan c d h)
