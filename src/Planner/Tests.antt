-- ===== src/Planner/Tests.antt =====
-- A planner on a small map: one marker that is 300 m away, and one for another protagonist.
use wanted.Base.{ℕ, ◌≡◌, refl, inl, true, false, none, some, List, [], ◌∷◌, arith, All}
use wanted.Base.Rounding.{round_to}
use wanted.Tasks.{Vec}
use wanted.Navigation.{navigate_to, drive_to}
use wanted.Activities.Runner.{TaskStatus}
use wanted.Planner.State.{
  Phase, Outcome, Draw, MissionStart, GameState, MissionEvent, PlannerEvent, DayPlanner,
}
use wanted.Planner.Blocks.{
  block_length, start_roam_block, roam_block_over, owe_roam_blocks, serve_one_owed_block,
  mission_block_allowed, threat_close, eligible, nearest_eligible,
}
use wanted.Planner.Trip.{
  quiet, begin_trip, end_trip, navigation, retarget, advance_trip, trip_abort_reason,
}
use wanted.Planner.Update.{
  is_to_mission, look, next_block, update, bind_task, observe_mission_event,
}
use wanted.Planner.Invariant.{IsPlan}
use wanted.Planner.History.{Call, run, Bracketed, travelling, run-Bracketed, run-IsPlan}
use wanted.Planner.Trips.{IsBegun, update-begins}
use wanted.Planner.Posting.{IsLeg, update-IsLeg, update-gives_up}
use wanted.Planner.Owed.{Tick, run_ticks, after_job-waits, update-missions_disabled}

abbrev at : ℕ → ℕ → Vec
at x y = record { x = x; y = y; z = 0 }

abbrev marker : MissionStart
marker = record { pos = at 130000 100000; protagonist = 1 }

abbrev others : MissionStart
others = record { pos = at 101000 100000; protagonist = 2 }

abbrev street : GameState
street = record {
  pos = at 100000 100000;
  in_vehicle = true;
  dead = false;
  arrested = false;
  wanted_level = 0;
  health = 150;
  max_health = 200;
  protagonist = 1;
  switch_in_progress = false;
  cutscene_active = false;
  retry_in_flight = false;
  starts = others ∷ marker ∷ [];
  peds = [];
  task_id = none;
  task_status = TaskStatus.idle;
}

abbrev drawn : Draw
drawn = record { length = 0; idea = 2 }

abbrev fresh : DayPlanner
fresh = record {
  missions_enabled = false;
  phase = Phase.roaming;
  block_started_at = 0;
  block_length_s = 360000;
  roam_preference = 3;
  roam_actual = none;
  activity_running = false;
  last_mission_at = none;
  consecutive_fails = 0;
  failed_this_mission = false;
  roam_blocks_owed = 0;
  owed_reason = none;
  mission_requested = none;
  marker = none;
  marker_protagonist = 0;
  mission_deadline = 0;
  trip_started_at = 0;
  arrived_at = none;
  bound_task_id = none;
  player_pos = at 0 0;
  next_marker = none;
  blocked_reason = none;
}

abbrev travelling_there : DayPlanner
travelling_there = record fresh {
  phase = Phase.to_mission;
  block_started_at = 400000;
  trip_started_at = 400000;
  mission_deadline = 760000;
  marker = some (at 130000 100000);
  marker_protagonist = 1;
}

abbrev on_a_job : DayPlanner
on_a_job = record fresh {
  phase = Phase.in_mission;
  failed_this_mission = true;
  consecutive_fails = 1;
}

fresh-IsPlan : IsPlan fresh
fresh-IsPlan = record { marked = (refl, refl); backs_off = inl (omega arith) }

update-begins_example :
    (roam_block_over 400000 0 (look street fresh) ≡ true)
    × IsBegun street 400000 (update street 0 false 400000 drawn fresh).0
unfolding update look roam_block_over next_block serve_one_owed_block mission_block_allowed
    threat_close nearest_eligible eligible begin_trip navigation navigate_to
update-begins_example = update-begins street 0 400000 drawn fresh fresh-IsPlan refl refl

update-IsLeg_example :
    (false ≡ false)
    × IsLeg street
        (drive_to (at 130000 100000) true)
        (update street 0 false 500000 drawn travelling_there).0
unfolding update look advance_trip trip_abort_reason threat_close retarget eligible navigation
    navigate_to
update-IsLeg_example =
    update-IsLeg street 0 false 500000 drawn travelling_there (drive_to (at 130000 100000) true)
      refl

update-gives_up_example :
    let (d', out) = update street 0 false 760000 drawn travelling_there in
    (d'.phase ≡ Phase.roaming)
    × (out.task ≡ none)
    × ((o : Outcome) × (out.events ≡ PlannerEvent.activity_end o 360000 ∷ []))
unfolding threat_close round_to
update-gives_up_example =
    update-gives_up street 0 760000 drawn travelling_there refl (omega arith) refl

abbrev later : ℕ → Tick
later now = record { state = street; mood = 1; now = now; drawn = drawn }

after_job-waits_example :
    let (d', outs) =
      run_ticks
        (later 200000 ∷ later 459000 ∷ [])
        (update street 1 false 100000 drawn on_a_job).0 in
    (d'.phase ≡ Phase.roaming) × All (λ out. out ≡ quiet) outs
unfolding update look start_roam_block owe_roam_blocks block_length
after_job-waits_example =
    after_job-waits street 1 100000 drawn (later 200000 ∷ later 459000 ∷ []) on_a_job refl
      (omega arith, (omega arith, tt))

update-missions_disabled_example :
    is_to_mission (update street 0 false 400000 drawn fresh).0.phase ≡ true
unfolding mission_block_allowed look threat_close nearest_eligible eligible
update-missions_disabled_example =
    update-missions_disabled street 0 400000 drawn fresh refl refl (omega arith) (omega arith) refl

abbrev calls : List Call
calls =
    Call.tick street 0 false 400000 drawn
    ∷ Call.bound (some 7)
    ∷ Call.tick street 0 true 500000 drawn
    ∷ Call.observed 600000 MissionEvent.mission_fail
    ∷ Call.tick street 0 false 600000 drawn
    ∷ []

run-Bracketed_example : Bracketed false (run calls fresh).1 (travelling (run calls fresh).0)
run-Bracketed_example = run-Bracketed calls fresh

run-IsPlan_example : IsPlan (run calls fresh).0
run-IsPlan_example = run-IsPlan calls fresh fresh-IsPlan

-- The whole tour: a trip, the job that it starts, and its end.
tour :
    (run calls fresh).1
    ≡ PlannerEvent.activity_start (at 130000 100000) 1
      ∷ PlannerEvent.activity_end Outcome.mission_started 100000
      ∷ []
unfolding run update look roam_block_over next_block serve_one_owed_block mission_block_allowed
    threat_close nearest_eligible eligible begin_trip end_trip navigation navigate_to
    observe_mission_event start_roam_block owe_roam_blocks bind_task round_to
tour = refl
