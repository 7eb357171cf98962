-- ===== src/Totals/Restart.antt =====
-- The governor's ledger, kept by the totals over a restart: harness/wasted_harness/totals.py and
-- harness/wasted_harness/budget.py.
use wanted.Base.{ℕ, ◌+◌, ◌*◌, ◌≤◌, true, Name}
use wanted.Budget.Governor.{Ledger}
use wanted.Totals.Lifetime.{LifetimeTotals, load, save, adopt_budget, budget_seed}

-- The ledger as the totals hand it out after a restart.
abbrev pub handed_out : ℕ → Name → Ledger → LifetimeTotals → Ledger
handed_out now today ledger t =
    budget_seed now today (load (save true (adopt_budget ledger t)).file)

-- Two amounts differ by half of `unit` at most.
abbrev pub Near : ℕ → ℕ → ℕ → Type 0
Near unit a b = (2 * a ≤ 2 * b + unit) × (2 * b ≤ 2 * a + unit)
