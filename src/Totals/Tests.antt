-- ===== src/Totals/Tests.antt =====
-- Totals of a rig with two old rows and two later ones.
use wanted.Base.{
  ℕ, ◌*◌, ◌≤◌, ◌≡◌, refl, true, false, none, some, List, [], ◌∷◌, arith, max, keep, sum_by, All,
}
use wanted.Budget.Governor.{BudgetGovernor, Ledger, seed}
use wanted.Base.Rounding.{round_to}
use wanted.Totals.Restart.{handed_out}
use wanted.Totals.Seed.{Counter, Row, is_lifetime_version, count_rows, summarise_lifetime_seed}
use wanted.Totals.Lifetime.{
  LifetimeTotals, adopt_budget, budget_seed, published_hours, load, to_dict, save, bump, apply_seed,
}
use wanted.Totals.Counting.{
  is_lifetime, is_legacy, value_of, hours_of, greatest, IsPublished,
  summarise_lifetime_seed-Counted, apply_seed-published,
}

abbrev row : List ℕ → ℕ → ℕ → Row
row version n hours = record {
  version = some version;
  counter = λ _. some n;
  hours_alive = some hours;
}

abbrev later : List Row
later = row (0 ∷ 2 ∷ 0 ∷ []) 4 0 ∷ row (0 ∷ 10 ∷ []) 6 2 ∷ []

abbrev rows : List Row
rows = row (0 ∷ 1 ∷ 9 ∷ []) 3 9000 ∷ row (0 ∷ 2 ∷ []) 5 9000 ∷ later

-- Two old rows with three and five deaths, and a later total of six.
seeded : (summarise_lifetime_seed rows).counter Counter.deaths ≡ 8
unfolding summarise_lifetime_seed count_rows is_lifetime_version
seeded = refl

abbrev totals : LifetimeTotals
totals = record {
  counter = λ _. 6;
  played_seconds = 5400;
  cost_day = 3;
  cost_day_usd = 10;
  recent_spend = [];
  seeded = true;
  existed = true;
  file = none;
}

-- A death is counted, and is there after a restart.
bumped : (load (bump true Counter.deaths totals).0.file).counter Counter.deaths ≡ 7
unfolding bump load save to_dict
bumped = refl

summarise_lifetime_seed-Counted_example :
    let seed = summarise_lifetime_seed rows in
    (seed.counter Counter.busted
      ≡ max
          (sum_by (value_of Counter.busted) (keep is_legacy rows))
          (greatest (value_of Counter.busted) (keep is_lifetime rows)))
    × (seed.played_seconds ≡ 3600 * greatest hours_of (keep is_lifetime rows))
summarise_lifetime_seed-Counted_example = summarise_lifetime_seed-Counted rows Counter.busted

-- 5.4 seconds are one and a half thousandths of an hour, and published as two.
published : published_hours totals ≡ 2
unfolding published_hours round_to
published = refl

later-IsPublished : All (IsPublished totals) later
unfolding is_lifetime_version published_hours round_to
later-IsPublished = (
  (refl, (λ _. omega arith), (record totals { played_seconds = 1700 }, omega arith, refl)),
  ((refl, (λ _. omega arith), (totals, omega arith, refl)), tt),
)

apply_seed-published_example :
    let t' = apply_seed true (summarise_lifetime_seed later) totals in
    (t'.counter Counter.deaths ≡ 6) × (5400 ≤ t'.played_seconds) × (t'.played_seconds ≤ 7200)
apply_seed-published_example =
    apply_seed-published true later totals Counter.deaths later-IsPublished

abbrev ledger : Ledger
ledger = record {
  cost_day = 4;
  cost_day_usd = 12600000;
  recent_spend = (9000000, 5001) ∷ (9900000, 7000) ∷ [];
}

abbrev governor : BudgetGovernor
governor = record {
  hourly_cap_usd = 100;
  day = 4;
  day_usd = 0;
  total_usd = 0;
  spend = [];
  level = 0;
  announced = [];
  wired = false;
}

-- On the same day: the file holds 13 microdollars, and a hundredth of one for each of the spends.
handed_out_rounded : handed_out 9990000 4 ledger totals ≡ record ledger {
  cost_day_usd = 13000000;
  recent_spend = (9000000, 10000) ∷ (9900000, 10000) ∷ [];
}
unfolding load save to_dict adopt_budget budget_seed round_to
handed_out_rounded = refl

abbrev gaps : List ℕ
gaps = 500 ∷ 60000 ∷ []
