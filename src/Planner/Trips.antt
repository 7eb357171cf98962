-- ===== src/Planner/Trips.antt =====
-- When a trip begins, what is posted on it, and when it ends.
use wanted.Base.{
  ℕ, ◌+◌, ◌*◌, ◌≤◌, ◌<◌, ◌≡◌, refl, sym, subst, ◌∙◌, ap, ◌⊎◌, inl, inr, true, false, Option, none,
  some, Name, Bool-cases, is_some, arith,
}
use wanted.Planner.State.{
  Phase, Blocked, Draw, MissionStart, GameState, DayPlanner, mission_block_timeout,
  max_consecutive_mission_fails,
}
use wanted.Planner.Blocks.{
  roam_block_over, mission_block_allowed, serve_one_owed_block, threat_close, start_roam_block,
  nearest_eligible,
}
use wanted.Planner.Trip.{begin_trip}
use wanted.Planner.Update.{is_to_mission, look, no_job, begin_or_roam, next_block, update}
use wanted.Planner.Invariant.{IsPlan, BacksOff, serve_one_owed_block-BacksOff}
use wanted.Planner.History.{navigation-only_binds}

-- A snapshot in which a job may be started.
pub record IsFit (s : GameState) : Type 0 where
  pub alive : (s.dead ≡ false) × (s.arrested ≡ false)
  pub playing :
      (s.cutscene_active ≡ false) × (s.switch_in_progress ≡ false) × (s.retry_in_flight ≡ false)
  pub unwanted : s.wanted_level ≡ 0
  pub safe : threat_close s ≡ false
  pub healthy : s.max_health ≤ 2 * s.health

pub mission_block_allowed-IsFit :
    (s : GameState) (d : DayPlanner)
    → mission_block_allowed s d ≡ none
    → IsFit s × (d.roam_blocks_owed ≡ 0) × (is_some d.next_marker ≡ true)
unfolding mission_block_allowed
mission_block_allowed-IsFit s d h = ground arith

-- A trip that has just begun.
pub record IsBegun (s : GameState) (now : ℕ) (d' : DayPlanner) : Type 0 where
  pub fit : IsFit s
  pub nearest : (m : MissionStart) × (nearest_eligible s ≡ some m) × (d'.marker ≡ some m.pos)
  pub deadline : d'.mission_deadline ≡ now + mission_block_timeout
  pub owes_none : d'.roam_blocks_owed ≡ 0
  pub few_fails : d'.consecutive_fails < max_consecutive_mission_fails

begun :
    (s : GameState) (now : ℕ) (drawn : Draw) (d : DayPlanner) (m : Option MissionStart)
    → IsFit s
    → nearest_eligible s ≡ m
    → d.roam_blocks_owed ≡ 0
    → d.consecutive_fails < max_consecutive_mission_fails
    → is_some m ≡ true
    → IsBegun s now (begin_or_roam s now drawn d none m).0
unfolding begin_trip
begun s now drawn d none f n o c e = absurd (cc)
begun s now drawn d (some m) f n o c e =
    let (b, same_) = navigation-only_binds s (begin_trip m now d) in
    subst (IsBegun s now) (sym same_)
      (record { fit = f; nearest = (m, n, refl); deadline = refl; owes_none = o; few_fails = c })

begin_or_roam-begins :
    (s : GameState) (now : ℕ) (drawn : Draw) (d : DayPlanner) (r : Option Blocked)
    → is_to_mission (begin_or_roam s now drawn d r d.next_marker).0.phase ≡ true
    → r ≡ none
unfolding start_roam_block
begin_or_roam-begins s now drawn d none h = refl
begin_or_roam-begins s now drawn d (some r) h = absurd (cc)

serve_one_owed_block-keeps : (d : DayPlanner) → (serve_one_owed_block d).next_marker ≡ d.next_marker
unfolding serve_one_owed_block
serve_one_owed_block-keeps d = ground arith

next_block-begins :
    (s : GameState) (now : ℕ) (drawn : Draw) (d : DayPlanner)
    → BacksOff d
    → d.next_marker ≡ nearest_eligible s
    → is_to_mission (next_block s now drawn d).0.phase ≡ true
    → IsBegun s now (next_block s now drawn d).0
unfolding next_block
next_block-begins s now drawn d b n h =
    let served = serve_one_owed_block d in
    let r = mission_block_allowed s served in
    let asked = record served { blocked_reason = r } in
    let none_ = begin_or_roam-begins s now drawn asked r h in
    let (fit, owes, marked) = mission_block_allowed-IsFit s served none_ in
    let few : served.consecutive_fails < max_consecutive_mission_fails =
      few_of (serve_one_owed_block-BacksOff d b) owes in
    subst (λ x. IsBegun s now (begin_or_roam s now drawn asked x served.next_marker).0) (sym none_)
      (begun s now drawn asked served.next_marker fit (sym n ∙ sym (serve_one_owed_block-keeps d))
        owes few marked)
  where
    few_of : {fails owed : ℕ} → (fails < 3) ⊎ (0 < owed) → owed ≡ 0 → fails < 3
    few_of h o = ground arith

no_job-begins :
    (p : Phase) (s : GameState) (mood : Name) (now : ℕ) (drawn : Draw) (d : DayPlanner)
    → p ≡ Phase.roaming
    → d.phase ≡ Phase.roaming
    → BacksOff d
    → d.next_marker ≡ nearest_eligible s
    → is_to_mission (no_job p s mood now drawn d).0.phase ≡ true
    → (roam_block_over now mood d ≡ true) × IsBegun s now (no_job p s mood now drawn d).0
no_job-begins Phase.in_mission s mood now drawn d e q b n h = absurd (cc)
no_job-begins Phase.to_mission s mood now drawn d e q b n h = absurd (cc)
no_job-begins Phase.roaming s mood now drawn d e q b n h =
    elim (Bool-cases (roam_block_over now mood d)) [
      | inl o ↦
          let h' : is_to_mission (next_block s now drawn d).0.phase ≡ true = rw o at h in
          (o, rw o (next_block-begins s now drawn d b n h'))
      | inr o ↦
          let h' : is_to_mission d.phase ≡ true = rw o at h in
          let bad : false ≡ true = sym (ap is_to_mission q) ∙ h' in absurd (cc)
    ]

-- A trip is begun from a roam block only when the block is over and the moment is fit for a job: he
-- is alive and free, unwanted, in no cutscene, switch, retry or fight and at half his health at
-- least, no roam block is owed, and fewer than three attempts have failed in a row. It goes to the
-- nearest marker that he may start, and its deadline is six minutes off.
pub update-begins :
    (s : GameState) (mood : Name) (now : ℕ) (drawn : Draw) (d : DayPlanner)
    → IsPlan d
    → d.phase ≡ Phase.roaming
    → is_to_mission (update s mood false now drawn d).0.phase ≡ true
    → (roam_block_over now mood (look s d) ≡ true)
      × IsBegun s now (update s mood false now drawn d).0
unfolding update look
update-begins s mood now drawn d h p begins =
    no_job-begins d.phase s mood now drawn (look s d) p p h.backs_off refl begins
