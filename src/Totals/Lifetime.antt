-- ===== src/Totals/Lifetime.antt =====
-- `LifetimeTotals` of harness/wasted_harness/totals.py, with the file that it is kept in.
use wanted.Base.{
  ℕ, ◌+◌, Bool, true, false, Option, none, some, List, [], Name, ltb, ◌==◌, if◌then◌else◌, max, min,
  keep, map, ◌/◌,
}
use wanted.Base.Rounding.{round_to}
use wanted.Budget.Governor.{Ledger}
use wanted.Totals.Seed.{Counter, Seed}

-- PLAY_GAP_MAX_S, and the hour of the ledger.
abbrev pub play_gap_max : ℕ
play_gap_max = 6000

abbrev pub hour : ℕ
hour = 3600000

-- `round(usd, 6)` and `round(usd, 8)`, in picodollars.
abbrev pub micro_dollar : ℕ
micro_dollar = 1000000

abbrev pub cent_of_micro_dollar : ℕ
cent_of_micro_dollar = 10000

-- What `to_dict` writes.
pub record Saved : Type 0 where
  pub counter : Counter → ℕ
  pub played_seconds : ℕ
  pub cost_day : Name
  pub cost_day_usd : ℕ
  pub recent_spend : List (ℕ × ℕ)
  pub seeded : Bool

-- `file` is what stands on the disk, where there is a file that can be read.
pub record LifetimeTotals : Type 0 where
  pub counter : Counter → ℕ
  pub played_seconds : ℕ
  pub cost_day : Name
  pub cost_day_usd : ℕ
  pub recent_spend : List (ℕ × ℕ)
  pub seeded : Bool
  pub existed : Bool
  pub file : Option Saved

-- The day of an empty text is 0.
unfoldable pub load : Option Saved → LifetimeTotals
load none = record {
  counter = λ _. 0;
  played_seconds = 0;
  cost_day = 0;
  cost_day_usd = 0;
  recent_spend = [];
  seeded = false;
  existed = false;
  file = none;
}
load (some s) = record {
  counter = s.counter;
  played_seconds = s.played_seconds;
  cost_day = s.cost_day;
  cost_day_usd = s.cost_day_usd;
  recent_spend = s.recent_spend;
  seeded = s.seeded;
  existed = true;
  file = some s;
}

abbrev pub round_spend : ℕ × ℕ → ℕ × ℕ
round_spend e = (e.0, round_to cent_of_micro_dollar e.1)

-- Moments and played time are whole milliseconds, so `round(t, 3)` leaves them as they are.
unfoldable pub to_dict : LifetimeTotals → Saved
to_dict t = record {
  counter = t.counter;
  played_seconds = t.played_seconds;
  cost_day = t.cost_day;
  cost_day_usd = round_to micro_dollar t.cost_day_usd;
  recent_spend = map round_spend t.recent_spend;
  seeded = t.seeded;
}

-- `save`; `ok` is whether the file could be replaced, and a failure leaves the old one.
unfoldable pub save : Bool → LifetimeTotals → LifetimeTotals
save ok t = if ok then record t { file = some (to_dict t) } else t

abbrev pub same_counter : Counter → Counter → Bool
same_counter Counter.deaths Counter.deaths = true
same_counter Counter.busted Counter.busted = true
same_counter Counter.missions_passed Counter.missions_passed = true
same_counter _ _ = false

-- `bump` of a known key, and the value that it returns.
unfoldable pub bump : Bool → Counter → LifetimeTotals → LifetimeTotals × ℕ
bump ok key t =
    let value = t.counter key + 1 in
    (save ok (record t { counter = λ k. if same_counter key k then value else t.counter k }), value)

unfoldable pub apply_seed : Bool → Seed → LifetimeTotals → LifetimeTotals
apply_seed ok seed t = save ok (record t {
  counter = λ key. max (t.counter key) (seed.counter key);
  played_seconds = max t.played_seconds seed.played_seconds;
  seeded = true;
})

-- A gap that is not positive adds nothing, as `min` with a zero gap.
unfoldable pub add_play_seconds : ℕ → LifetimeTotals → LifetimeTotals
add_play_seconds seconds t = record t {
  played_seconds = t.played_seconds + min seconds play_gap_max;
}

unfoldable pub adopt_budget : Ledger → LifetimeTotals → LifetimeTotals
adopt_budget snapshot t = record t {
  cost_day = snapshot.cost_day;
  cost_day_usd = snapshot.cost_day_usd;
  recent_spend = snapshot.recent_spend;
}

-- `now - t < 3600.0`, also for a spend that is dated after now.
abbrev pub is_recent : ℕ → ℕ × ℕ → Bool
is_recent now e = ltb now (e.0 + hour)

unfoldable pub budget_seed : ℕ → Name → LifetimeTotals → Ledger
budget_seed now today t = record {
  cost_day = today;
  cost_day_usd = if t.cost_day == today then t.cost_day_usd else 0;
  recent_spend = keep (is_recent now) t.recent_spend;
}

-- `round(self.totals.played_hours, 3)`, in thousandths of an hour.
unfoldable pub published_hours : LifetimeTotals → ℕ
published_hours t = round_to 3600 t.played_seconds / 3600
