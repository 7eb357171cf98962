-- ===== src/Budget/Levels.antt =====
-- The levels of `BudgetGovernor`, harness/wasted_harness/budget.py, and `record`.
use wanted.Base.{
  zero, suc, inl, inr, ◌⊎◌, ℕ, ◌+◌, ◌*◌, ◌≤◌, ◌≡◌, refl, ◌↔◌, List, [], ◌∷◌, ◌++◌, arith, keep,
  sum_by, sum_by-append, keep-append, Name,
}
use wanted.Budget.Governor.{
  BudgetGovernor, Reason, Spend, hour, in_window, level_for, hourly_spend_usd, prune, recompute,
  record_spend, roll_day, set_level,
}

level_for-zero : (cap : ℕ) → (level_for cap 0 ≡ 0) ⊎ (cap ≡ 0)
unfolding level_for
level_for-zero zero = inr refl
level_for-zero (suc cap) = inl (ground arith)

-- The level is at least 1, 2, 3 exactly from 70%, 90%, 100% of the cap on, it is never above 3,
-- and an empty window is level 0 unless the cap is nothing.
pub level_for_thresholds :
    (cap spend : ℕ)
    → ((1 ≤ level_for cap spend) ↔ (70 * cap ≤ 100 * spend))
      × ((2 ≤ level_for cap spend) ↔ (90 * cap ≤ 100 * spend))
      × ((3 ≤ level_for cap spend) ↔ (cap ≤ spend))
      × (level_for cap spend ≤ 3)
      × ((level_for cap 0 ≡ 0) ⊎ (cap ≡ 0))
unfolding level_for
level_for_thresholds cap spend = (
  (ground arith, ground arith),
  (ground arith, ground arith),
  (ground arith, ground arith),
  ground arith,
  level_for-zero cap,
)

-- More spend never lowers the level, and a larger cap never raises it.
pub level_for_mono :
    (cap cap' spend spend' : ℕ)
    → cap' ≤ cap
    → spend ≤ spend'
    → level_for cap spend ≤ level_for cap' spend'
unfolding level_for
level_for_mono cap cap' spend spend' h k = ground arith

-- What the trailing hour before `now` holds of a list of spends.
abbrev pub window_sum : ℕ → List Spend → ℕ
window_sum now es = sum_by (λ e. e.1) (keep (in_window now) es)

pub recompute_parts :
    (now : ℕ) (r : Reason) (g : BudgetGovernor)
    → ((recompute now r g).spend ≡ keep (in_window now) g.spend)
      × ((recompute now r g).level ≡ level_for g.hourly_cap_usd (window_sum now g.spend))
      × ((recompute now r g).total_usd ≡ g.total_usd)
unfolding recompute set_level prune hourly_spend_usd
recompute_parts now r g = ground arith

-- The governor on which `record` recomputes the level.
abbrev pub recorded : ℕ → Name → ℕ → BudgetGovernor → BudgetGovernor
recorded now today usd g =
    let rolled =
      roll_day today
        (record g { spend = g.spend ++ (now, usd) ∷ []; total_usd = g.total_usd + usd }) in
    record rolled { day_usd = rolled.day_usd + usd }

pub recorded_parts :
    (now : ℕ) (today : Name) (usd : ℕ) (g : BudgetGovernor)
    → let r = recorded now today usd g in
      (r.spend ≡ g.spend ++ (now, usd) ∷ [])
      × (r.hourly_cap_usd ≡ g.hourly_cap_usd)
      × (r.total_usd ≡ g.total_usd + usd)
      × (r.level ≡ g.level)
      × (r.announced ≡ g.announced)
      × (r.wired ≡ g.wired)
unfolding roll_day
recorded_parts now today usd g = ground arith

-- A recorded call counts in full: afterwards the window holds the old spends of the trailing hour
-- and the new one, the published hourly cost is their sum, and the level is the one of that sum.
-- The clock must not have jumped by more than an hour between its two readings.
pub record_spend-window :
    (now now' : ℕ) (today : Name) (usd : ℕ) (g : BudgetGovernor)
    → now' ≤ now + hour
    → let g' = record_spend now now' today usd g in
      (hourly_spend_usd g' ≡ window_sum now' g.spend + usd)
      × (g'.level ≡ level_for g.hourly_cap_usd (hourly_spend_usd g'))
      × (g'.total_usd ≡ g.total_usd + usd)
unfolding record_spend hourly_spend_usd
record_spend-window now now' today usd g h = ground (
  arith,
  recompute_parts now' Reason.hourly_cap (recorded now today usd g),
  recorded_parts now today usd g,
  keep-append (in_window now') g.spend ((now, usd) ∷ []),
  sum_by-append (λ (e : Spend). e.1) (keep (in_window now') g.spend) ((now, usd) ∷ []),
)
