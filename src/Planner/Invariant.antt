-- ===== src/Planner/Invariant.antt =====
-- What is true of a planner between two calls.
use wanted.Base.{
  ℕ, suc, ◌+◌, ◌<◌, ◌≡◌, refl, sym, subst, ◌⊎◌, inl, inr, Bool, true, false, Option, none, some,
  List, [], ◌∷◌, Name, ◌&&◌, same, arith, leb, is_some, Bool-cases,
}
use wanted.Tasks.{Vec}
use wanted.Planner.State.{
  Phase, Draw, MissionStart, GameState, MissionEvent, OwedReason, Outcome, Blocked, DayPlanner,
  mission_block_timeout, max_consecutive_mission_fails, fail_backoff_blocks,
  roam_blocks_after_a_mission,
}
use wanted.Activities.Runner.{is_running}
use wanted.Planner.Blocks.{
  roam_block_over, eligible, threat_close, start_roam_block, owe_roam_blocks, serve_one_owed_block,
  mission_block_allowed,
}
use wanted.Planner.Trip.{
  kept_marker, abort_or_go, navigation_to, trip_abort_reason, target_or, standing_reason,
  waited_long, note_arrival, end_or_go, begin_trip, navigation, advance_trip, end_trip, retarget,
  retarget_among, give_up,
}
use wanted.Planner.Update.{
  init, request_mission_block, observe_mission_event, bind_task, count_fail, stand_back,
  live_job_in, no_job, after_job_owing, after_job_reason, after_job_counted, look, begin_or_roam,
  live_job, after_job, next_block, set_out, update,
}

-- On a trip there are a marker, and the deadline that the trip's start gave it; off a trip, neither
-- a marker nor an arrival at one.
abbrev pub MarkedAt : Phase → Option Vec → Option ℕ → ℕ → ℕ → ℕ → Type 0
MarkedAt Phase.to_mission marker arrived deadline trip block =
    (is_some marker ≡ true) × (deadline ≡ trip + mission_block_timeout) × (trip ≡ block)
MarkedAt _ marker arrived deadline trip block = (marker ≡ none) × (arrived ≡ none)

abbrev pub Marked : DayPlanner → Type 0
Marked d =
    MarkedAt d.phase d.marker d.arrived_at d.mission_deadline d.trip_started_at d.block_started_at

abbrev pub BacksOff : DayPlanner → Type 0
BacksOff d = (d.consecutive_fails < max_consecutive_mission_fails) ⊎ (0 < d.roam_blocks_owed)

pub record IsPlan (d : DayPlanner) : Type 0 where
  pub marked : Marked d
  pub backs_off : BacksOff d

pub init-IsPlan :
    (missions_enabled : Bool) (now : ℕ) (drawn : Draw) (origin : Vec)
    → IsPlan (init missions_enabled now drawn origin)
unfolding init
init-IsPlan e now drawn origin = record { marked = (refl, refl); backs_off = inl (omega arith) }

start_roam_block-IsPlan :
    (now : ℕ) (drawn : Draw) (d : DayPlanner) → BacksOff d → IsPlan (start_roam_block now drawn d)
unfolding start_roam_block
start_roam_block-IsPlan now drawn d h = record { marked = (refl, refl); backs_off = h }

owe_roam_blocks-IsPlan :
    (count : ℕ) (reason : OwedReason) (d : DayPlanner)
    → Marked d
    → 0 < count
    → IsPlan (owe_roam_blocks count reason d)
unfolding owe_roam_blocks
owe_roam_blocks-IsPlan count reason d h k = ground arith

pub request_mission_block-IsPlan :
    (reason : Name) (d : DayPlanner) → IsPlan d → IsPlan (request_mission_block reason d)
unfolding request_mission_block
request_mission_block-IsPlan reason d h = ground arith

pub observe_mission_event-IsPlan :
    (now : ℕ) (e : MissionEvent) (d : DayPlanner)
    → IsPlan d
    → IsPlan (observe_mission_event now e d)
unfolding observe_mission_event
observe_mission_event-IsPlan now MissionEvent.mission_start d h = ground arith
observe_mission_event-IsPlan now MissionEvent.mission_fail d h =
    elim (Bool-cases (leb max_consecutive_mission_fails (suc d.consecutive_fails))) [
      | inl many ↦ rw many (
          owe_roam_blocks-IsPlan fail_backoff_blocks
            (OwedReason.failed_attempts (suc d.consecutive_fails)) (count_fail d) h.marked
            (omega arith))
      | inr few ↦ rw few (record { marked = h.marked; backs_off = inl (ground arith) })
    ]
observe_mission_event-IsPlan now MissionEvent.other d h = h

pub serve_one_owed_block-BacksOff :
    (d : DayPlanner) → BacksOff d → BacksOff (serve_one_owed_block d)
unfolding serve_one_owed_block
serve_one_owed_block-BacksOff d h = ground arith

pub bind_task-IsPlan : (id : Option Name) (d : DayPlanner) → IsPlan d → IsPlan (bind_task id d)
unfolding bind_task
bind_task-IsPlan id d h = record { marked = h.marked; backs_off = h.backs_off }

navigation_to-IsPlan :
    (s : GameState) (d : DayPlanner) (m : Option Vec) → IsPlan d → IsPlan (navigation_to s d m).0
unfolding bind_task
navigation_to-IsPlan s d none h = h
navigation_to-IsPlan s d (some m) h = elim (Bool-cases (is_running s.task_status)) [
  | inl r ↦ rw r h
  | inr r ↦ elim (Bool-cases (is_some d.bound_task_id && same s.task_id d.bound_task_id)) [
    | inl own ↦ rw (r, own) (bind_task-IsPlan none d h)
    | inr other ↦ rw (r, other) h
  ]
]

navigation-IsPlan : (s : GameState) (d : DayPlanner) → IsPlan d → IsPlan (navigation s d).0
unfolding navigation
navigation-IsPlan s d h = navigation_to-IsPlan s d d.marker h

set_out-IsPlan :
    (s : GameState) (now : ℕ) (m : MissionStart) (d : DayPlanner)
    → BacksOff d
    → IsPlan (set_out s now m d).0
unfolding begin_trip
set_out-IsPlan s now m d h =
    navigation-IsPlan s (begin_trip m now d) (record { marked = (refl, refl, refl); backs_off = h })

begin_or_roam-IsPlan :
    (s : GameState) (now : ℕ) (drawn : Draw) (d : DayPlanner) (blocked : Option Blocked)
    (m : Option MissionStart)
    → BacksOff d
    → IsPlan (begin_or_roam s now drawn d blocked m).0
begin_or_roam-IsPlan s now drawn d none (some m) h = set_out-IsPlan s now m d h
begin_or_roam-IsPlan s now drawn d none none h = start_roam_block-IsPlan now drawn d h
begin_or_roam-IsPlan s now drawn d (some _) m h = start_roam_block-IsPlan now drawn d h

next_block-IsPlan :
    (s : GameState) (now : ℕ) (drawn : Draw) (d : DayPlanner)
    → BacksOff d
    → IsPlan (next_block s now drawn d).0
unfolding next_block
next_block-IsPlan s now drawn d h =
    let served = serve_one_owed_block d in
    let blocked = mission_block_allowed s served in
    begin_or_roam-IsPlan s now drawn (record served { blocked_reason = blocked }) blocked
      served.next_marker (serve_one_owed_block-BacksOff d h)

give_up-IsPlan :
    (now : ℕ) (drawn : Draw) (o : Outcome) (d : DayPlanner)
    → BacksOff d
    → IsPlan (give_up now drawn o d).0
unfolding end_trip
give_up-IsPlan now drawn o d h = start_roam_block-IsPlan now drawn (end_trip now o d).0 h

-- A trip that has a marker, or whose marker has gone.
abbrev OnTrip : DayPlanner → Type 0
OnTrip d =
    (d.phase ≡ Phase.to_mission)
    × (d.mission_deadline ≡ d.trip_started_at + mission_block_timeout)
    × (d.trip_started_at ≡ d.block_started_at)
    × BacksOff d

OnTrip-IsPlan : (d : DayPlanner) → OnTrip d → is_some d.marker ≡ true → IsPlan d
OnTrip-IsPlan d h k = record {
  marked =
      subst
        (λ p.
          MarkedAt p d.marker d.arrived_at d.mission_deadline d.trip_started_at d.block_started_at)
        (sym h.0) (k, h.1, h.2);
  backs_off = h.3;
}

target_or-OnTrip :
    (m : MissionStart) (k : Option MissionStart) (d : DayPlanner)
    → OnTrip d
    → OnTrip (target_or m k d)
target_or-OnTrip m none d h = h
target_or-OnTrip m (some k) d h = h

retarget_among-OnTrip :
    (ms : List MissionStart) (d : DayPlanner) → OnTrip d → OnTrip (retarget_among ms d)
retarget_among-OnTrip [] d h = h
retarget_among-OnTrip (m ∷ ms) d h = target_or-OnTrip m (kept_marker d.marker (m ∷ ms)) d h

end_or_go-IsPlan :
    (now : ℕ) (s : GameState) (drawn : Draw) (d : DayPlanner)
    → OnTrip d
    → IsPlan (end_or_go (standing_reason now d) now s drawn d).0
end_or_go-IsPlan now s drawn d h = elim (Bool-cases (is_some d.marker)) [
  | inr gone ↦ rw gone (give_up-IsPlan now drawn Outcome.marker_gone d h.3)
  | inl there ↦ elim (Bool-cases (waited_long now d.arrived_at)) [
    | inl long ↦ rw (there, long) (give_up-IsPlan now drawn Outcome.marker_did_not_trigger d h.3)
    | inr brief ↦
        rw (there, brief)
          (navigation-IsPlan s (note_arrival now s d)
            (OnTrip-IsPlan (note_arrival now s d) h there))
  ]
]

retarget-OnTrip : (s : GameState) (d : DayPlanner) → OnTrip d → OnTrip (retarget s d)
unfolding retarget
retarget-OnTrip s d h = retarget_among-OnTrip (eligible s) d h

abort_or_go-IsPlan :
    (r : Option Outcome) (s : GameState) (now : ℕ) (drawn : Draw) (d : DayPlanner)
    → OnTrip d
    → is_some d.marker ≡ true
    → IsPlan (abort_or_go r s now drawn d).0
abort_or_go-IsPlan (some r) s now drawn d h k = give_up-IsPlan now drawn r d h.3
abort_or_go-IsPlan none s now drawn d h k = elim (Bool-cases (threat_close s)) [
  | inl t ↦ rw t (OnTrip-IsPlan (record d { arrived_at = none }) h k)
  | inr t ↦ elim (Bool-cases (leb d.mission_deadline now)) [
    | inl late ↦ rw (t, late) (give_up-IsPlan now drawn Outcome.gave_up d h.3)
    | inr early ↦
        rw (t, early) (end_or_go-IsPlan now s drawn (retarget s d) (retarget-OnTrip s d h))
  ]
]

stand_back-IsPlan :
    (now : ℕ) (d : DayPlanner)
    → d.marker ≡ none
    → d.arrived_at ≡ none
    → BacksOff d
    → IsPlan (stand_back now d)
stand_back-IsPlan now d e f h = record { marked = (e, f); backs_off = h }

live_job-IsPlan : (now : ℕ) (d : DayPlanner) → IsPlan d → IsPlan (live_job now d).0
unfolding end_trip
live_job-IsPlan now d h = go d.phase h.marked
  where
    go :
        (p : Phase)
        → MarkedAt p d.marker d.arrived_at d.mission_deadline d.trip_started_at d.block_started_at
        → IsPlan (live_job_in p now d).0
    go Phase.to_mission m =
        stand_back-IsPlan now (end_trip now Outcome.mission_started d).0 refl refl h.backs_off
    go Phase.roaming m = stand_back-IsPlan now d m.0 m.1 h.backs_off
    go Phase.in_mission m = h

owe_roam_blocks-BacksOff :
    (reason : OwedReason) (d : DayPlanner)
    → BacksOff (owe_roam_blocks roam_blocks_after_a_mission reason d)
unfolding owe_roam_blocks
owe_roam_blocks-BacksOff reason d = ground arith

after_job-IsPlan : (now : ℕ) (drawn : Draw) (d : DayPlanner) → IsPlan (after_job now drawn d)
after_job-IsPlan now drawn d =
    start_roam_block-IsPlan now drawn (after_job_owing d)
      (owe_roam_blocks-BacksOff (after_job_reason d) (after_job_counted d))

look-IsPlan : (s : GameState) (d : DayPlanner) → IsPlan d → IsPlan (look s d)
unfolding look
look-IsPlan s d h = record { marked = h.marked; backs_off = h.backs_off }

-- A tick keeps the plan well-formed, in every phase and on every branch.
pub update-IsPlan :
    (s : GameState) (mood : Name) (in_mission : Bool) (now : ℕ) (drawn : Draw) (d : DayPlanner)
    → IsPlan d
    → IsPlan (update s mood in_mission now drawn d).0
unfolding update advance_trip
update-IsPlan s mood true now drawn d h = live_job-IsPlan now (look s d) (look-IsPlan s d h)
update-IsPlan s mood false now drawn d h = go (look s d) (look-IsPlan s d h)
  where
    by :
        (p : Phase) (seen : DayPlanner)
        → p ≡ seen.phase
        → IsPlan seen
        → MarkedAt p seen.marker seen.arrived_at seen.mission_deadline seen.trip_started_at
            seen.block_started_at
        → IsPlan (no_job p s mood now drawn seen).0
    by Phase.in_mission seen e k m = after_job-IsPlan now drawn seen
    by Phase.to_mission seen e k m =
        abort_or_go-IsPlan (trip_abort_reason s) s now drawn seen (sym e, m.1, m.2, k.backs_off) m.0
    by Phase.roaming seen e k m = elim (Bool-cases (roam_block_over now mood seen)) [
      | inl o ↦ rw o (next_block-IsPlan s now drawn seen k.backs_off)
      | inr o ↦ rw o k
    ]

    go : (seen : DayPlanner) → IsPlan seen → IsPlan (no_job seen.phase s mood now drawn seen).0
    go seen k = by seen.phase seen refl k k.marked
