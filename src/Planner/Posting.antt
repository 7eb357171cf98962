-- ===== src/Planner/Posting.antt =====
-- What the planner posts, and how a trip ends.
use wanted.Base.{
  ℕ, ◌-◌, ◌≤◌, ◌≡◌, refl, sym, subst, ◌∙◌, ap, inl, inr, Bool, true, false, Option, none, some,
  List, [], ◌∷◌, Name, Bool-cases, leb, arith,
}
use wanted.Base.Rounding.{round_to}
use wanted.Tasks.{Vec, Action}
use wanted.Navigation.{navigate_to, within, walk_arrive_radius}
use wanted.Activities.Runner.{is_running}
use wanted.Planner.State.{
  Phase, Blocked, Outcome, Draw, MissionStart, GameState, PlannerEvent, DayPlanner,
  marker_final_approach,
}
use wanted.Planner.Blocks.{
  eligible, roam_block_over, mission_block_allowed, serve_one_owed_block, threat_close,
  start_roam_block,
}
use wanted.Planner.Trip.{
  target_or, kept_marker, retarget_among, navigation, navigation_to, begin_trip, note_arrival,
  retarget, standing_reason, end_or_go, abort_or_go, advance_trip, trip_abort_reason, end_trip,
}
use wanted.Planner.Update.{
  is_to_mission, look, live_job_in, no_job, begin_or_roam, next_block, update,
}
use wanted.Planner.History.{navigation-only_binds}

-- With the planner's final approach, nothing is posted only to a man on foot in the marker.
pub navigate_to-keeps_going :
    (player_pos : Vec) (in_vehicle : Bool) (target : Vec)
    → navigate_to player_pos in_vehicle target (some marker_final_approach) ≡ none
    → (in_vehicle ≡ false) × (within walk_arrive_radius player_pos target ≡ true)
unfolding navigate_to
navigate_to-keeps_going player_pos in_vehicle target h = ground arith

-- A posted task: nobody had the wheel, and it is the next leg of the trip, from where he is to the
-- marker that the planner keeps.
abbrev pub IsLeg : GameState → Action → DayPlanner → Type 0
IsLeg s a d' =
    (is_running s.task_status ≡ false)
    × (is_to_mission d'.phase ≡ true)
    × ((m : Vec) × (d'.marker ≡ some m)
        × (navigate_to s.pos s.in_vehicle m (some marker_final_approach) ≡ some a))

navigation_to-leg :
    (s : GameState) (d : DayPlanner) (m : Option Vec) (a : Action)
    → (navigation_to s d m).1 ≡ some a
    → (is_running s.task_status ≡ false)
      × ((v : Vec) × (m ≡ some v)
          × (navigate_to d.player_pos s.in_vehicle v (some marker_final_approach) ≡ some a))
navigation_to-leg s d none a h = absurd (cc)
navigation_to-leg s d (some m) a h = elim (Bool-cases (is_running s.task_status)) [
  | inl r ↦ absurd (ground arith)
  | inr r ↦ (r, (m, refl, ground arith))
]

navigation-IsLeg :
    (s : GameState) (d : DayPlanner) (a : Action)
    → d.player_pos ≡ s.pos
    → is_to_mission d.phase ≡ true
    → (navigation s d).1 ≡ some a
    → IsLeg s a (navigation s d).0
unfolding navigation
navigation-IsLeg s d a p t h =
    let (idle, (m, e, leg)) = navigation_to-leg s d d.marker a h in
    let (b, same_) = navigation-only_binds s d in
    subst (IsLeg s a) (sym same_) (
      idle,
      t,
      (m, e, subst (λ x. navigate_to x s.in_vehicle m (some marker_final_approach) ≡ some a) p leg),
    )

begin_or_roam-IsLeg :
    (s : GameState) (now : ℕ) (drawn : Draw) (d : DayPlanner) (r : Option Blocked)
    (m : Option MissionStart) (a : Action)
    → d.player_pos ≡ s.pos
    → (begin_or_roam s now drawn d r m).1.task ≡ some a
    → IsLeg s a (begin_or_roam s now drawn d r m).0
unfolding begin_trip
begin_or_roam-IsLeg s now drawn d none (some m) a p h =
    navigation-IsLeg s (begin_trip m now d) a p refl h
begin_or_roam-IsLeg s now drawn d none none a p h = absurd (cc)
begin_or_roam-IsLeg s now drawn d (some _) m a p h = absurd (cc)

-- Still on the trip, and seen from where he is.
abbrev Underway : GameState → DayPlanner → Type 0
Underway s d = (d.player_pos ≡ s.pos) × (is_to_mission d.phase ≡ true)

retarget-Underway : (s : GameState) (d : DayPlanner) → Underway s d → Underway s (retarget s d)
unfolding retarget
retarget-Underway s d h = go (eligible s)
  where
    to : (m : MissionStart) (k : Option MissionStart) → Underway s (target_or m k d)
    to m none = h
    to m (some k) = h

    go : (ms : List MissionStart) → Underway s (retarget_among ms d)
    go [] = h
    go (m ∷ ms) = to m (kept_marker d.marker (m ∷ ms))

end_or_go-IsLeg :
    (r : Option Outcome) (now : ℕ) (s : GameState) (drawn : Draw) (d : DayPlanner) (a : Action)
    → Underway s d
    → (end_or_go r now s drawn d).1.task ≡ some a
    → IsLeg s a (end_or_go r now s drawn d).0
end_or_go-IsLeg none now s drawn d a u h = navigation-IsLeg s (note_arrival now s d) a u.0 u.1 h
end_or_go-IsLeg (some r) now s drawn d a u h = absurd (cc)

abort_or_go-IsLeg :
    (r : Option Outcome) (s : GameState) (now : ℕ) (drawn : Draw) (d : DayPlanner) (a : Action)
    → Underway s d
    → (abort_or_go r s now drawn d).1.task ≡ some a
    → IsLeg s a (abort_or_go r s now drawn d).0
unfolding end_trip
abort_or_go-IsLeg (some r) s now drawn d a u h = absurd (cc)
abort_or_go-IsLeg none s now drawn d a u h = elim (Bool-cases (threat_close s)) [
  | inl t ↦ let bad : none ≡ some a = rw t at h in absurd (cc)
  | inr t ↦ elim (Bool-cases (leb d.mission_deadline now)) [
    | inl late ↦ let bad : none ≡ some a = rw (t, late) at h in absurd (cc)
    | inr early ↦
        let d' = retarget s d in
        let r = standing_reason now d' in
        let h' : (end_or_go r now s drawn d').1.task ≡ some a = rw (t, early) at h in
        rw (t, early) (end_or_go-IsLeg r now s drawn d' a (retarget-Underway s d u) h')
  ]
]

serve_one_owed_block-player_pos :
    (d : DayPlanner) → (serve_one_owed_block d).player_pos ≡ d.player_pos
unfolding serve_one_owed_block
serve_one_owed_block-player_pos d = ground arith

no_job-IsLeg :
    (p : Phase) (s : GameState) (mood : Name) (now : ℕ) (drawn : Draw) (d : DayPlanner) (a : Action)
    → p ≡ d.phase
    → d.player_pos ≡ s.pos
    → (no_job p s mood now drawn d).1.task ≡ some a
    → IsLeg s a (no_job p s mood now drawn d).0
unfolding advance_trip next_block
no_job-IsLeg Phase.in_mission s mood now drawn d a e p h = absurd (cc)
no_job-IsLeg Phase.to_mission s mood now drawn d a e p h =
    abort_or_go-IsLeg (trip_abort_reason s) s now drawn d a (p, sym (ap is_to_mission e)) h
no_job-IsLeg Phase.roaming s mood now drawn d a e p h =
    elim (Bool-cases (roam_block_over now mood d)) [
      | inr o ↦ let bad : none ≡ some a = rw o at h in absurd (cc)
      | inl o ↦
          let served = serve_one_owed_block d in
          let r = mission_block_allowed s served in
          let asked = record served { blocked_reason = r } in
          let h' : (begin_or_roam s now drawn asked r served.next_marker).1.task ≡ some a =
            rw o at h in
          rw o (
            begin_or_roam-IsLeg s now drawn asked r served.next_marker a
              (serve_one_owed_block-player_pos d ∙ p) h')
    ]

-- Whenever a tick posts a task, no job is live, the bridge is running no task (his own or another's)
-- and the planner is on a trip; the task is the next leg from where he is to the marker it keeps.
pub update-IsLeg :
    (s : GameState) (mood : Name) (in_mission : Bool) (now : ℕ) (drawn : Draw) (d : DayPlanner)
    (a : Action)
    → (update s mood in_mission now drawn d).1.task ≡ some a
    → (in_mission ≡ false) × IsLeg s a (update s mood in_mission now drawn d).0
unfolding update look
update-IsLeg s mood true now drawn d a h = absurd (live_job_in-posts_none d.phase now (look s d) h)
  where
    live_job_in-posts_none :
        (p : Phase) (now : ℕ) (d : DayPlanner) → (live_job_in p now d).1.task ≡ some a → ⊥
    live_job_in-posts_none Phase.to_mission now d h = cc
    live_job_in-posts_none Phase.roaming now d h = cc
    live_job_in-posts_none Phase.in_mission now d h = cc
update-IsLeg s mood false now drawn d a h =
    (refl, no_job-IsLeg d.phase s mood now drawn (look s d) a refl refl h)

gives_up :
    (r : Option Outcome) (s : GameState) (now : ℕ) (drawn : Draw) (d : DayPlanner)
    → d.mission_deadline ≤ now
    → threat_close s ≡ false
    → let (d', out) = abort_or_go r s now drawn d in
      (d'.phase ≡ Phase.roaming)
      × (out.task ≡ none)
      × ((o : Outcome) × (out.events
            ≡ PlannerEvent.activity_end o (round_to 100 (now - d.trip_started_at)) ∷ []))
unfolding end_trip start_roam_block
gives_up (some r) s now drawn d late calm = (refl, refl, (r, refl))
gives_up none s now drawn d late calm =
    let over : leb d.mission_deadline now ≡ true = ground arith in
    rw (calm, over) (refl, refl, (Outcome.gave_up, refl))

-- A trip is bounded: on the first tick at or after its deadline, unless a job has begun or a hostile
-- is close, it is over. The tick records its end and how long it took, rounded to tenths
-- of a second, posts nothing, and roams.
pub update-gives_up :
    (s : GameState) (mood : Name) (now : ℕ) (drawn : Draw) (d : DayPlanner)
    → d.phase ≡ Phase.to_mission
    → d.mission_deadline ≤ now
    → threat_close s ≡ false
    → let (d', out) = update s mood false now drawn d in
      (d'.phase ≡ Phase.roaming)
      × (out.task ≡ none)
      × ((o : Outcome) × (out.events
            ≡ PlannerEvent.activity_end o (round_to 100 (now - d.trip_started_at)) ∷ []))
unfolding update look advance_trip
update-gives_up s mood now drawn d p late calm =
    let seen = look s d in
    subst
      (λ x.
        let (d', out) = no_job x s mood now drawn seen in
        (d'.phase ≡ Phase.roaming)
        × (out.task ≡ none)
        × ((o : Outcome) × (out.events
              ≡ PlannerEvent.activity_end o (round_to 100 (now - d.trip_started_at)) ∷ [])))
      (sym p) (gives_up (trip_abort_reason s) s now drawn seen late calm)
