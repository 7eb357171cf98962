-- ===== src/Wheel/Tests.antt =====
-- Runs of the movement wheel.
use wanted.Base.{
  ℕ, suc, ◌≡◌, refl, Option, none, some, List, [], ◌∷◌, true, false, ◌+◌, ◌*◌, length, ◌≤◌, ◌⊎◌,
}
use wanted.Wheel.Owner.{Owner, priority, same_owner}
use wanted.Wheel.Arbiter.{
  Wheel, fresh, acquire, begin_tick, grant, open_tick, post, mission_active, mark_posted, holds,
  refuse, fire_hook, token_of, posted_this_tick,
}
use wanted.Wheel.History.{Call, Day, Posted, step, run, OnePerTick}
use wanted.Wheel.Latch.{run-OnePerTick}
use wanted.Wheel.Grant.{IsLatched, IsOutranked, IsRefused, IsTaken, acquire-cases}
use wanted.Wheel.Lease.{ticks, acquire-lasts}
use wanted.Wheel.Ties.{alternate, alternate-preempts}

-- Roam drives; the drive-away reflex preempts it and posts; roam tries its stale token, and the survival
-- layer comes too late in the tick and posts in the next.
abbrev busy : List Call
busy =
    Call.opens false false 1
    ∷ Call.acquires Owner.roam 2 none
    ∷ Call.posts true 0
    ∷ Call.opens false false 1
    ∷ Call.acquires Owner.vehicle 3 (some 1)
    ∷ Call.posts true 0
    ∷ Call.posts true 1
    ∷ Call.acquires Owner.threat 4 (some 1)
    ∷ Call.posts true 0
    ∷ Call.opens false false 1
    ∷ Call.acquires Owner.threat 4 (some 1)
    ∷ Call.posts true 0
    ∷ []

abbrev start : Day
start = record { wheel = fresh; issued = []; tasks = [] }

owners : List Posted → List (ℕ × Owner)
owners [] = []
owners (p ∷ ps) = (p.tick, p.owner) ∷ owners ps

busy-tasks :
    owners (run busy start).tasks
    ≡ (3, Owner.threat) ∷ (2, Owner.vehicle) ∷ (2, Owner.vehicle) ∷ (1, Owner.roam) ∷ []
unfolding owners run step open_tick acquire post holds mark_posted grant refuse fire_hook begin_tick
    mission_active priority same_owner
busy-tasks = refl

run-OnePerTick_example : OnePerTick (run busy start).tasks
run-OnePerTick_example = run-OnePerTick busy

-- The drive-away reflex at the wheel.
abbrev driven : Wheel
driven = grant Owner.vehicle 1 (some 1) fresh

acquire-cases_example :
    ((IsLatched Owner.roam driven ⊎ IsOutranked Owner.roam driven.holder)
      × IsRefused driven (acquire Owner.roam 2 none driven))
    ⊎ ((IsLatched Owner.roam driven ⊎ IsOutranked Owner.roam driven.holder → ⊥)
        × IsTaken Owner.roam driven (acquire Owner.roam 2 none driven))
acquire-cases_example = acquire-cases Owner.roam 2 none driven

abbrev three : Option ℕ
three = some 3

acquire-lasts_example :
    let w' = (acquire Owner.threat 2 three fresh).0 in
    ((n k : ℕ)
      → three ≡ some (suc n)
      → k ≤ n
      → (ticks k w').holder ≡ some (token_of Owner.threat 2 fresh))
    × ((n : ℕ) → three ≡ some (suc n) → (ticks (suc n) w').holder ≡ none)
    × ((k : ℕ) → three ≡ none → (ticks k w').holder ≡ some (token_of Owner.threat 2 fresh))
unfolding acquire
acquire-lasts_example =
    acquire-lasts Owner.threat 2 three fresh (token_of Owner.threat 2 fresh) refl

abbrev stopped : Wheel
stopped = grant Owner.operator 1 (some 1) fresh

alternate-preempts_example :
    length (alternate 5 Owner.physical Owner.operator stopped).preempted
    ≡ 2 * 5 + length stopped.preempted
unfolding grant posted_this_tick same_owner priority
alternate-preempts_example =
    alternate-preempts 5 Owner.physical Owner.operator stopped refl refl refl
      ((token_of Owner.operator 1 fresh, refl, refl), refl)
