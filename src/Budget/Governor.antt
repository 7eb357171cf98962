-- ===== src/Budget/Governor.antt =====
-- `BudgetGovernor` of harness/wasted_harness/budget.py. A method takes each reading of the clocks
-- that it makes: `now` of the monotonic clock, `today` of the UTC date, `epoch` of the wall clock.
-- The zero of the monotonic clock is arbitrary; it is taken more than an hour before the process.
use wanted.Base.{
  ℕ, ◌+◌, ◌-◌, ◌*◌, Bool, false, ◌&&◌, Option, none, some, List, [], ◌∷◌, ◌++◌, Name, ltb, leb,
  ◌==◌, if◌then◌else◌, keep, sum_by, map,
}
use wanted.Base.Sort.{sort}

abbrev pub hour : ℕ
hour = 3600000

abbrev pub Spend : Type 0
Spend = ℕ × ℕ

-- A call of `on_change(old, new, reason)`.
pub data Reason : Type 0 where
  hourly_cap reset manual : Reason

pub record Change : Type 0 where
  pub old : ℕ
  pub new : ℕ
  pub reason : Reason

-- `announced` is what `on_change` has been called with; `wired` is `on_change is not None`.
pub record BudgetGovernor : Type 0 where
  pub hourly_cap_usd : ℕ
  pub wired : Bool
  pub announced : List Change
  pub spend : List Spend
  pub level : ℕ
  pub total_usd : ℕ
  pub day : Name
  pub day_usd : ℕ

-- The constructor and `__post_init__`; `none` is the ConfigError.
unfoldable pub init : ℕ → Name → Option BudgetGovernor
init hourly_cap_usd today =
    if hourly_cap_usd == 0
    then none
    else some (record {
      hourly_cap_usd = hourly_cap_usd;
      wired = false;
      announced = [];
      spend = [];
      level = 0;
      total_usd = 0;
      day = today;
      day_usd = 0;
    })

unfoldable pub roll_day : Name → BudgetGovernor → BudgetGovernor
roll_day today g = if today == g.day then g else record g { day = today; day_usd = 0 }

-- Keeps `t >= now - 3600.0`.
abbrev pub in_window : ℕ → Spend → Bool
in_window now e = leb now (e.0 + hour)

unfoldable pub prune : ℕ → BudgetGovernor → BudgetGovernor
prune now g = record g { spend = keep (in_window now) g.spend }

-- The sum of the pruned window.
unfoldable pub hourly_spend_usd : BudgetGovernor → ℕ
hourly_spend_usd g = sum_by (λ e. e.1) g.spend

-- LEVEL_THRESHOLDS, in hundredths of the cap.
abbrev pub level_thresholds : List ℕ
level_thresholds = 70 ∷ 90 ∷ 100 ∷ []

-- The loop over `enumerate(LEVEL_THRESHOLDS)`: it does not stop at the first that is not met.
unfoldable pub level_loop : ℕ → ℕ → ℕ → List ℕ → ℕ → ℕ
level_loop cap spend i [] level = level
level_loop cap spend i (threshold ∷ rest) level =
    level_loop cap spend (i + 1) rest (if leb (threshold * cap) (100 * spend) then i + 1 else level)

unfoldable pub level_for : ℕ → ℕ → ℕ
unfolding level_loop
level_for cap spend = level_loop cap spend 0 level_thresholds 0

unfoldable pub set_level : ℕ → Reason → BudgetGovernor → BudgetGovernor
set_level new reason g = if g.level == new then g else record g {
  level = new;
  announced =
      if g.wired
      then g.announced ++ record { old = g.level; new = new; reason = reason } ∷ []
      else g.announced;
}

-- `_recompute`; the level that it returns is the field.
unfoldable pub recompute : ℕ → Reason → BudgetGovernor → BudgetGovernor
recompute now raise_reason g =
    let pruned = prune now g in
    let new = level_for g.hourly_cap_usd (hourly_spend_usd pruned) in
    set_level new (if ltb g.level new then raise_reason else reset) pruned

-- `record`: `now` is read first, `now'` by the window's own pruning.
unfoldable pub record_spend : ℕ → ℕ → Name → ℕ → BudgetGovernor → BudgetGovernor
record_spend now now' today usd g =
    let appended = record g { spend = g.spend ++ (now, usd) ∷ []; total_usd = g.total_usd + usd } in
    let rolled = roll_day today appended in
    recompute now' hourly_cap (record rolled { day_usd = rolled.day_usd + usd })

-- The property `level`.
unfoldable pub read_level : ℕ → BudgetGovernor → BudgetGovernor
read_level now g = recompute now reset g

-- `force_level`; `none` is the ValueError. A negative level is not a ℕ.
unfoldable pub force_level : ℕ → BudgetGovernor → Option BudgetGovernor
force_level level g = if leb level 3 then some (set_level level manual g) else none

-- The persisted ledger.
pub record Ledger : Type 0 where
  pub cost_day : Name
  pub cost_day_usd : ℕ
  pub recent_spend : List Spend

-- A spend's age on the wall clock is turned into a moment of this process's monotonic clock.
abbrev pub adopt : ℕ → ℕ → List Spend → List Spend
adopt now epoch [] = []
adopt now epoch ((at, usd) ∷ rest) =
    if leb at epoch && ltb epoch (at + hour)
    then (now - (epoch - at), usd) ∷ adopt now epoch rest
    else adopt now epoch rest

-- `_spend.sort()`, on pairs: by the moment, and at one moment by the amount.
abbrev pub sort_spends : List Spend → List Spend
sort_spends es = sort (λ (e : Spend). e.0) (sort (λ (e : Spend). e.1) es)

-- `now` is the reading for the ages, `now'` that of the last pruning.
unfoldable pub seed : ℕ → ℕ → ℕ → Name → Ledger → BudgetGovernor → BudgetGovernor
seed now now' epoch today state g =
    let day_usd = if state.cost_day == today then state.cost_day_usd else g.day_usd in
    let spend = sort_spends (g.spend ++ adopt now epoch state.recent_spend) in
    let seeded = prune now' (record g { day_usd = day_usd; spend = spend }) in
    record seeded { level = level_for g.hourly_cap_usd (hourly_spend_usd seeded) }

-- `snapshot`, with the governor that it rolls and prunes.
unfoldable pub snapshot : ℕ → ℕ → Name → BudgetGovernor → BudgetGovernor × Ledger
snapshot now epoch today g =
    let kept = prune now (roll_day today g) in
    (
      kept,
      record {
        cost_day = kept.day;
        cost_day_usd = kept.day_usd;
        recent_spend = map (λ e. (epoch + e.0 - now, e.1)) kept.spend;
      },
    )

-- The method `day_usd`.
unfoldable pub read_day_usd : Name → BudgetGovernor → BudgetGovernor × ℕ
read_day_usd today g = let rolled = roll_day today g in (rolled, rolled.day_usd)

-- The method `cost_per_hour_usd`: the window that throttles.
unfoldable pub cost_per_hour_usd : ℕ → BudgetGovernor → BudgetGovernor × ℕ
cost_per_hour_usd now g = let pruned = prune now g in (pruned, hourly_spend_usd pruned)
