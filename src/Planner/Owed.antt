-- ===== src/Planner/Owed.antt =====
-- The roam block that is owed after a job, and what the operator's switch does not stop.
use wanted.Base.{
  ℕ, ◌+◌, ◌≤◌, ◌<◌, ◌≡◌, refl, sym, subst, ap, true, false, Option, none, some, List, [], ◌∷◌, Name,
  All, is_some, arith,
}
use wanted.Planner.State.{
  Phase, Draw, MissionStart, GameState, PlannerOutcome, DayPlanner, roam_min_block,
}
use wanted.Planner.Blocks.{
  start_roam_block, roam_block_over, owe_roam_blocks, serve_one_owed_block, mission_block_allowed,
}
use wanted.Planner.Trip.{quiet, begin_trip}
use wanted.Planner.Update.{is_to_mission, look, no_job, begin_or_roam, next_block, update}
use wanted.Planner.Trips.{mission_block_allowed-IsFit}
use wanted.Planner.History.{navigation-only_binds}

-- A roam block that is owed in full: no trip can begin before its length has passed.
pub record IsOwed (start length : ℕ) (d : DayPlanner) : Type 0 where
  pub roams : d.phase ≡ Phase.roaming
  pub owes : 0 < d.roam_blocks_owed
  pub unasked : d.mission_requested ≡ none
  pub since : d.block_started_at ≡ start
  pub lasts : d.block_length_s ≡ length

pub record Tick : Type 0 where
  pub state : GameState
  pub mood : Name
  pub now : ℕ
  pub drawn : Draw

-- Ticks with no live job, with what each of them posts and records.
unfoldable pub run_ticks : List Tick → DayPlanner → DayPlanner × List PlannerOutcome
run_ticks [] d = (d, [])
run_ticks (t ∷ ts) d =
    let (d', out) = update t.state t.mood false t.now t.drawn d in
    let (d'', more) = run_ticks ts d' in (d'', out ∷ more)

-- The roam block after a job: one is owed at least, and it begins now.
after_job-IsOwed :
    (s : GameState) (mood : Name) (now : ℕ) (drawn : Draw) (d : DayPlanner)
    → d.phase ≡ Phase.in_mission
    → let d' = (update s mood false now drawn d).0 in IsOwed now d'.block_length_s d'
unfolding update look start_roam_block owe_roam_blocks
after_job-IsOwed s mood now drawn d p =
    subst
      (λ x. let d' = (no_job x s mood now drawn (look s d)).0 in IsOwed now d'.block_length_s d')
      (sym p)
      (record { roams = refl; owes = ground arith; unasked = refl; since = refl; lasts = refl })

look-IsOwed :
    (s : GameState) (start length : ℕ) (d : DayPlanner)
    → IsOwed start length d
    → IsOwed start length (look s d)
unfolding look
look-IsOwed s start length d h = record {
  roams = h.roams;
  owes = h.owes;
  unasked = h.unasked;
  since = h.since;
  lasts = h.lasts;
}

IsOwed-holds :
    (mood : Name) (now start length : ℕ) (d : DayPlanner)
    → IsOwed start length d
    → now < start + length
    → roam_block_over now mood d ≡ false
unfolding roam_block_over
IsOwed-holds mood now start length d h early = ground (arith, h.owes, h.unasked, h.since, h.lasts)

tick-waits :
    (t : Tick) (start length : ℕ) (d : DayPlanner)
    → IsOwed start length d
    → t.now < start + length
    → update t.state t.mood false t.now t.drawn d ≡ (look t.state d, quiet)
unfolding update
tick-waits t start length d h early =
    let seen = look t.state d in
    let k = look-IsOwed t.state start length d h in
    subst (λ x. no_job x t.state t.mood t.now t.drawn seen ≡ (seen, quiet)) (sym k.roams)
      (rw (IsOwed-holds t.mood t.now start length seen k early) refl)

IsOwed-waits :
    (ts : List Tick) (start length : ℕ) (d : DayPlanner)
    → IsOwed start length d
    → All (λ t. t.now < start + length) ts
    → let (d', outs) = run_ticks ts d in (d'.phase ≡ Phase.roaming) × All (λ out. out ≡ quiet) outs
unfolding run_ticks
IsOwed-waits [] start length d h early = (h.roams, tt)
IsOwed-waits (t ∷ ts) start length d h early =
    let e = tick-waits t start length d h early.0 in
    let (p, q) =
      IsOwed-waits ts start length (look t.state d) (look-IsOwed t.state start length d h)
        early.1 in
    subst
      (λ x.
        let (d', outs) = run_ticks ts x.0 in
        (d'.phase ≡ Phase.roaming) × ((x.1 ≡ quiet) × All (λ out. out ≡ quiet) outs))
      (sym e) (p, (refl, q))

-- The tick on which a live job has ended starts a roam block, and every later tick before that block's
-- length has passed, as long as no job is live and none is requested, leaves the planner roaming and
-- posts and records nothing: win or lose, he does not go straight to the next job, whatever the mood.
pub after_job-waits :
    (s : GameState) (mood : Name) (now : ℕ) (drawn : Draw) (ts : List Tick) (d : DayPlanner)
    → d.phase ≡ Phase.in_mission
    → All (λ t. t.now < now + (update s mood false now drawn d).0.block_length_s) ts
    → let (d', outs) = run_ticks ts (update s mood false now drawn d).0 in
      (d'.phase ≡ Phase.roaming) × All (λ out. out ≡ quiet) outs
after_job-waits s mood now drawn ts d p early =
    let d' = (update s mood false now drawn d).0 in
    IsOwed-waits ts now d'.block_length_s d' (after_job-IsOwed s mood now drawn d p) early

begins :
    (s : GameState) (now : ℕ) (drawn : Draw) (d : DayPlanner) (m : Option MissionStart)
    → is_some m ≡ true
    → is_to_mission (begin_or_roam s now drawn d none m).0.phase ≡ true
unfolding begin_trip
begins s now drawn d none h = absurd (cc)
begins s now drawn d (some m) h =
    let (b, same_) = navigation-only_binds s (begin_trip m now d) in
    rw (ap (λ x. x.phase) same_) refl

serve_one_owed_block-none : (d : DayPlanner) → d.roam_blocks_owed ≡ 0 → serve_one_owed_block d ≡ d
unfolding serve_one_owed_block
serve_one_owed_block-none d h = ground arith

next_block-begins_when_allowed :
    (s : GameState) (now : ℕ) (drawn : Draw) (d : DayPlanner)
    → mission_block_allowed s d ≡ none
    → is_to_mission (next_block s now drawn d).0.phase ≡ true
unfolding next_block
next_block-begins_when_allowed s now drawn d allowed =
    let (fit, owes, marked) = mission_block_allowed-IsFit s d allowed in
    subst
      (λ x.
        let r = mission_block_allowed s x in
        is_to_mission
          (begin_or_roam s now drawn (record x { blocked_reason = r }) r x.next_marker).0.phase
        ≡ true)
      (sym (serve_one_owed_block-none d owes))
      (subst
        (λ r.
          is_to_mission
            (begin_or_roam s now drawn (record d { blocked_reason = r }) r d.next_marker).0.phase
          ≡ true)
        (sym allowed)
        (begins s now drawn (record d { blocked_reason = none }) d.next_marker marked))

roam_block_over-late :
    (mood : Name) (now : ℕ) (d : DayPlanner)
    → roam_min_block ≤ d.block_length_s
    → d.block_started_at + d.block_length_s ≤ now
    → roam_block_over now mood d ≡ true
unfolding roam_block_over
roam_block_over-late mood now d long late = ground arith

-- The operator's switch does not keep a planner from setting out: once a roam block's whole length
-- has passed and a mission block is allowed, a trip begins even though missions are not enabled.
pub update-missions_disabled :
    (s : GameState) (mood : Name) (now : ℕ) (drawn : Draw) (d : DayPlanner)
    → d.missions_enabled ≡ false
    → d.phase ≡ Phase.roaming
    → roam_min_block ≤ d.block_length_s
    → d.block_started_at + d.block_length_s ≤ now
    → mission_block_allowed s (look s d) ≡ none
    → is_to_mission (update s mood false now drawn d).0.phase ≡ true
unfolding update look
update-missions_disabled s mood now drawn d off p long late allowed =
    let seen = look s d in
    subst (λ x. is_to_mission (no_job x s mood now drawn seen).0.phase ≡ true) (sym p)
      (rw (roam_block_over-late mood now seen long late)
        (next_block-begins_when_allowed s now drawn seen allowed))
