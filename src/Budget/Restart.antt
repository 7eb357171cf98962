-- ===== src/Budget/Restart.antt =====
-- `snapshot` and `seed` of `BudgetGovernor`, harness/wasted_harness/budget.py: the ledger that one process
-- writes and the next one adopts.
use wanted.Base.{
  ℕ, ◌+◌, ◌-◌, ◌≤◌, ◌≡◌, ◌≢◌, refl, Bool, List, [], ◌∷◌, arith, keep, sum_by, Name, ltb,
  if◌then◌else◌, map, All, ◌∙◌, sym, ap,
}
use wanted.Base.Sort.{sort, sum_by-sort}
use wanted.Budget.Governor.{
  BudgetGovernor, Ledger, Spend, hour, in_window, adopt, level_for, hourly_spend_usd, prune,
  roll_day, seed, sort_spends, snapshot,
}
use wanted.Budget.Levels.{window_sum}

sum_by-keep {ℓ} :
    {A : Type ℓ} (f : A → ℕ) (p : A → Bool) (xs : List A)
    → sum_by f (keep p xs) ≡ sum_by (λ x. if p x then f x else 0) xs
sum_by-keep f p [] = refl
sum_by-keep f p (x ∷ xs) = ground (arith, sum_by-keep f p xs)

-- The sum of the window is that of the unsorted list.
pub window_sum-sort :
    (now : ℕ) (es : List Spend) → window_sum now (sort_spends es) ≡ window_sum now es
window_sum-sort now es =
    let value : Spend → ℕ = λ e. if in_window now e then e.1 else 0 in
    sum_by-keep (λ e. e.1) (in_window now) (sort_spends es)
    ∙ sum_by-sort (λ e. e.0) value (sort (λ e. e.1) es)
    ∙ sum_by-sort (λ e. e.1) value es
    ∙ sym (sum_by-keep (λ e. e.1) (in_window now) es)

-- Strictly younger than an hour at `now`.
abbrev pub younger : ℕ → Spend → Bool
younger now e = ltb now (e.0 + hour)

-- What an entry of the snapshot reads, taken at `now` and `epoch`.
abbrev stamp : ℕ → ℕ → Spend → Spend
stamp now epoch e = (epoch + e.0 - now, e.1)

-- `d` later, a process whose monotonic clock reads `now'` adopts the spends that are then younger
-- than an hour, and finds each inside its own window.
adopt-stamp :
    (now epoch d now' : ℕ) (es : List Spend)
    → hour ≤ epoch
    → hour ≤ now'
    → All (λ e. e.0 ≤ now) es
    → window_sum now' (adopt now' (epoch + d) (map (stamp now epoch) (keep (in_window now) es)))
      ≡ sum_by (λ e. e.1) (keep (younger (now + d)) es)
adopt-stamp now epoch d now' [] p q h = refl
adopt-stamp now epoch d now' (e ∷ es) p q h =
    ground (arith, adopt-stamp now epoch d now' es p q h.1)

younger-le-window :
    (now : ℕ) (es : List Spend) → sum_by (λ e. e.1) (keep (younger now) es) ≤ window_sum now es
younger-le-window now [] = omega arith
younger-le-window now (e ∷ es) = ground (arith, younger-le-window now es)

younger-eq-window :
    (now : ℕ) (es : List Spend)
    → All (λ e. e.0 + hour ≢ now) es
    → sum_by (λ e. e.1) (keep (younger now) es) ≡ window_sum now es
younger-eq-window now [] h = refl
younger-eq-window now (e ∷ es) h = ground (arith, younger-eq-window now es h.1)

abbrev pub restarted :
    ℕ → ℕ → ℕ → ℕ → Name → Name → BudgetGovernor → BudgetGovernor → BudgetGovernor
restarted now epoch d now' today today' old fresh =
    seed now' now' (epoch + d) today' (snapshot now epoch today old).1 fresh

seed_parts :
    (now now' epoch : ℕ) (today : Name) (state : Ledger) (g : BudgetGovernor)
    → g.spend ≡ []
    → let g' = seed now now' epoch today state g in
      (hourly_spend_usd g' ≡ window_sum now' (adopt now epoch state.recent_spend))
      × (g'.level ≡ level_for g.hourly_cap_usd (hourly_spend_usd g'))
      × (g'.announced ≡ g.announced)
unfolding seed prune hourly_spend_usd
seed_parts now now' epoch today state g z =
    (rw z (window_sum-sort now' (adopt now epoch state.recent_spend)), refl, refl)

snapshot_parts :
    (now epoch : ℕ) (today : Name) (g : BudgetGovernor)
    → (snapshot now epoch today g).1.recent_spend
      ≡ map (stamp now epoch) (keep (in_window now) g.spend)
unfolding snapshot roll_day prune
snapshot_parts now epoch today g = ground arith

-- A restart does not reset the window that the hourly cap is enforced on. A governor that has
-- recorded nothing and adopts, `d` after the snapshot, what the last process wrote, counts every
-- spend that is then younger than an hour, so at most what the old governor would count at that
-- moment. The level is the one of that spend, and no change of level is announced.
pub restarted-window :
    (now epoch d now' : ℕ) (today today' : Name) (old fresh : BudgetGovernor)
    → hour ≤ epoch
    → hour ≤ now'
    → All (λ e. e.0 ≤ now) old.spend
    → fresh.spend ≡ []
    → let g = restarted now epoch d now' today today' old fresh in
      (hourly_spend_usd g ≡ sum_by (λ e. e.1) (keep (younger (now + d)) old.spend))
      × (hourly_spend_usd g ≤ window_sum (now + d) old.spend)
      × (g.level ≡ level_for fresh.hourly_cap_usd (hourly_spend_usd g))
      × (g.announced ≡ fresh.announced)
restarted-window now epoch d now' today today' old fresh p q h z =
    let (counted, level, quiet) =
      seed_parts now' now' (epoch + d) today' (snapshot now epoch today old).1 fresh z in
    let young =
      counted
      ∙ ap (λ r. window_sum now' (adopt now' (epoch + d) r)) (snapshot_parts now epoch today old)
      ∙ adopt-stamp now epoch d now' old.spend p q h in
    (young, rw young (younger-le-window (now + d) old.spend), level, quiet)

-- In the same restart nothing is lost: where no spend is an hour old to the millisecond, the new
-- governor counts exactly what the old one would.
pub restarted-window_exact :
    (now epoch d now' : ℕ) (today today' : Name) (old fresh : BudgetGovernor)
    → hour ≤ epoch
    → hour ≤ now'
    → All (λ e. e.0 ≤ now) old.spend
    → fresh.spend ≡ []
    → All (λ e. e.0 + hour ≢ now + d) old.spend
    → hourly_spend_usd (restarted now epoch d now' today today' old fresh)
      ≡ window_sum (now + d) old.spend
restarted-window_exact now epoch d now' today today' old fresh p q h z x =
    (restarted-window now epoch d now' today today' old fresh p q h z).0
    ∙ younger-eq-window (now + d) old.spend x
