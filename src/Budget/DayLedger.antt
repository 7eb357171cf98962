-- ===== src/Budget/DayLedger.antt =====
-- `day_usd` of `BudgetGovernor`, harness/wasted_harness/budget.py, over calls recorded on several days.
use wanted.Base.{ℕ, ◌+◌, ◌≤◌, ◌≡◌, List, [], ◌∷◌, arith, Name, ◌==◌, if◌then◌else◌, sum_by}
use wanted.Budget.Governor.{
  BudgetGovernor, record_spend, recompute, roll_day, read_day_usd, set_level, prune,
}

-- The readings of one call of `record`, and its amount.
pub record Call : Type 0 where
  pub now : ℕ
  pub now' : ℕ
  pub today : Name
  pub usd : ℕ

unfoldable pub record_all : List Call → BudgetGovernor → BudgetGovernor
record_all [] g = g
record_all (c ∷ cs) g = record_all cs (record_spend c.now c.now' c.today c.usd g)

-- The days of the calls follow one another, from `first` up to `last`.
abbrev pub InOrder : Name → List Call → Name → Type 0
InOrder first [] last = first ≤ last
InOrder first (c ∷ cs) last = (first ≤ c.today) × InOrder c.today cs last

InOrder-le : (first : Name) (cs : List Call) (last : Name) → InOrder first cs last → first ≤ last
InOrder-le first [] last h = h
InOrder-le first (c ∷ cs) last h = omega (arith, InOrder-le c.today cs last h.1)

-- What the calls of one day come to.
abbrev pub spent_on : Name → List Call → ℕ
spent_on day = sum_by (λ (c : Call). if c.today == day then c.usd else 0)

record_spend_day :
    (c : Call) (g : BudgetGovernor)
    → let g' = record_spend c.now c.now' c.today c.usd g in
      (g'.day ≡ c.today) × (g'.day_usd ≡ (if c.today == g.day then g.day_usd else 0) + c.usd)
unfolding record_spend recompute roll_day set_level prune
record_spend_day c g = ground arith

-- With calls recorded over any number of days in order, the day ledger read on `day`, not before
-- the last of them, is what the calls of that very day came to, and what the ledger held before if
-- that was of the same day.
pub record_all-day_usd :
    (day : Name) (cs : List Call) (g : BudgetGovernor)
    → InOrder g.day cs day
    → (read_day_usd day (record_all cs g)).1
      ≡ spent_on day cs + (if g.day == day then g.day_usd else 0)
unfolding record_all read_day_usd roll_day
record_all-day_usd day [] g h = ground arith
record_all-day_usd day (c ∷ cs) g h =
    let (d, u) = record_spend_day c g in
    let g' = record_spend c.now c.now' c.today c.usd g in
    ground (arith, record_all-day_usd day cs g' (rw d h.1), d, u, InOrder-le c.today cs day h.1)
