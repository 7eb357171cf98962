-- ===== src/Budget/Tests.antt =====
-- The governor on a small history: a cap of 100, and calls of 60, 20 and 15.
use wanted.Base.{◌+◌, ◌≤◌, ◌≡◌, refl, true, none, some, [], ◌∷◌, List, arith, keep, sum_by}
use wanted.Budget.Pricing.{
  ModelPricing, Pricing, Usage, Charged, for_model, find_model, candidates, cost_usd, cost_of_usage,
  cost_of_usage-Charged,
}
use wanted.Budget.Governor.{
  BudgetGovernor, init, level_for, hourly_spend_usd, record_spend, recompute, roll_day, set_level,
  prune, read_day_usd,
}
use wanted.Budget.Levels.{window_sum, record_spend-window}
use wanted.Budget.Restart.{younger, restarted, restarted-window}
use wanted.Budget.DayLedger.{Call, record_all, record_all-day_usd}

abbrev haiku : ModelPricing
haiku = record {
  id = 1;
  input_per_mtok = 1000000;
  output_per_mtok = 5000000;
  cache_read_per_mtok = 100000;
  cache_write_5m_per_mtok = 1250000;
  min_cacheable_prefix_tokens = 4096;
}

abbrev sonnet : ModelPricing
sonnet = record haiku { id = 2; input_per_mtok = 3000000; output_per_mtok = 15000000 }

abbrev prices : Pricing
prices = record {
  source_url = 0;
  fetched = 0;
  tactical = haiku;
  director = sonnet;
  tactical_mission = none;
}

abbrev usage : Usage
usage = record {
  input_tokens = some 1000;
  output_tokens = some 10;
  cache_read_input_tokens = none;
  cache_creation_input_tokens = none;
}

cost_of_haiku : cost_of_usage prices 1 usage ≡ some 1050000000
unfolding cost_of_usage cost_usd for_model find_model candidates
cost_of_haiku = refl

cost_of_usage-Charged_example : Charged prices 2 usage (cost_of_usage prices 2 usage)
cost_of_usage-Charged_example = cost_of_usage-Charged prices 2 usage

abbrev start : BudgetGovernor
start = record {
  hourly_cap_usd = 100;
  wired = true;
  announced = [];
  spend = [];
  level = 0;
  total_usd = 0;
  day = 7;
  day_usd = 0;
}

abbrev later : BudgetGovernor
later = record start {
  spend = (4000000, 60) ∷ (5000000, 20) ∷ [];
  level = 1;
  total_usd = 80;
  day_usd = 80;
}

-- 60 + 20 + 15 is at 95%, and an hour on only the last call counts.
levels :
    ((record_spend 6000000 6000000 7 15 later).level ≡ 2)
    × ((record_spend 8600001 8600001 7 15 later).level ≡ 0)
unfolding record_spend roll_day recompute set_level prune hourly_spend_usd level_for
levels = (refl, refl)

init_refuses_zero : init 0 7 ≡ none
unfolding init
init_refuses_zero = refl

record_spend-window_example :
    let g' = record_spend 6000000 6000001 7 15 later in
    (hourly_spend_usd g' ≡ window_sum 6000001 later.spend + 15)
    × (g'.level ≡ level_for 100 (hourly_spend_usd g'))
    × (g'.total_usd ≡ 95)
record_spend-window_example = record_spend-window 6000000 6000001 7 15 later (omega arith)

restarted-window_example :
    let g = restarted 6000000 9000000 1700000 4000000 7 7 later start in
    (hourly_spend_usd g ≡ sum_by (λ e. e.1) (keep (younger 7700000) later.spend))
    × (hourly_spend_usd g ≤ window_sum 7700000 later.spend)
    × (g.level ≡ level_for 100 (hourly_spend_usd g))
    × (g.announced ≡ [])
restarted-window_example =
    restarted-window 6000000 9000000 1700000 4000000 7 7 later start (omega arith) (omega arith)
      (omega arith) refl

abbrev calls : List Call
calls =
    record { now = 4000000; now' = 4000000; today = 7; usd = 5 }
    ∷ record { now = 5000000; now' = 5000000; today = 8; usd = 6 }
    ∷ []

record_all-day_usd_example : (read_day_usd 8 (record_all calls later)).1 ≡ 6
record_all-day_usd_example = record_all-day_usd 8 calls later (omega arith)
