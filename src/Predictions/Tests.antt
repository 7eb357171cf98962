-- ===== src/Predictions/Tests.antt =====
-- A base rate over three events, of which one came late, and windows at the limits.
use mathlib.Core.List.{Memᴰ}
use wanted.Base.{
  ℕ, ◌+◌, ◌-◌, ◌≡◌, refl, true, false, Option, none, some, List, [], ◌∷◌, arith, max, get_or,
  length, ◌≤◌, map, keep,
}
use wanted.Predictions.Window.{Window, RuleKind, Template}
use wanted.Predictions.BaseRate.{
  Event, BaseRate, Calibration, prune, observe, observe_many, matches_of, measure, sample,
  rule_matcher,
}
use wanted.Predictions.Measure.{IsHistory, Sampled, has_hit, measure-Sampled}
use wanted.Predictions.Generator.Config.{GeneratorConfig, Generator}
use wanted.Predictions.Generator.Ask.{
  prune_open, generate, row_of, is_candidate, may_ask, scan, events_offerable, ambient_round_open,
  build_row, pool_for,
}
use wanted.Predictions.Generator.Choice.{pick_ambient, calibration_for, is_fair}
use wanted.Predictions.Generator.Asked.{IsAsked, generate-IsAsked}
use wanted.Predictions.Generator.Best.{IsBest, generate-IsBest}
use wanted.Predictions.Generator.Scan.{rank_of}
use wanted.Predictions.Generator.Memory.{IsSpaced, is_running}
use wanted.Predictions.Generator.Spacing.{Call, run, run-IsSpaced}
use wanted.Predictions.Ticker
use wanted.Predictions.Ticker.{Ticker, count_ticks, count_ticks-bound}

abbrev window : Window
window = record { lock_delay_s = 30000; resolve_delay_s = 60000 }

abbrev seen : ℕ → ℕ → Event
seen ts type_ = record { ts = ts; type_ = type_; payload = [] }

abbrev empty : BaseRate
empty = record {
  history_s = 10800000;
  round_interval_s = 300000;
  events = [];
  origin = none;
  hits = [];
}

abbrev rows : List (ℕ × Event)
rows = (1000000, seen 100000 1) ∷ (1000000, seen 900000 2) ∷ (1000000, seen 850000 1) ∷ []

empty-IsHistory : IsHistory empty
empty-IsHistory = record { ordered = tt; filled = tt }

abbrev question : Template Unit
question = record {
  prediction_type = 1;
  window = window;
  telemetry_rule = record { kind = RuleKind.event_occurs; event_type = some 1; payload_match = [] };
  is_event = false;
  ambient = true;
  reliability = 900;
  trigger = λ _. some true;
  score = λ _. some 500;
}

abbrev recorded : BaseRate
recorded = record empty {
  events = seen 100000 1 ∷ seen 850000 1 ∷ seen 900000 2 ∷ [];
  origin = some 100000;
}

recorded-IsHistory : IsHistory recorded
recorded-IsHistory = record {
  ordered = (omega arith, (omega arith, (omega arith, tt)));
  filled = tt;
}

-- Loading the rows puts the late one in its place.
loaded : (observe_many rows empty).0.events ≡ recorded.events
unfolding observe_many observe prune
loaded = refl

-- Three windows have closed; the newest one has a hit.
counted : sample 5 930000 100000 300000 30000 60000 (100000 ∷ 900000 ∷ []) 90000 ≡ (1, 3)
unfolding sample
counted = refl

measure-Sampled_example :
    let (c, b') = measure 930000 question recorded in
    let floor = max (get_or recorded.origin 0) (930000 - recorded.history_s) in
    let hit = has_hit 930000 30000 60000 (matches_of question.telemetry_rule recorded.events) in
    Sampled 930000 floor 300000 hit (30000 + 60000) (c.yes_count, c.n) × IsHistory b'
unfolding rule_matcher
measure-Sampled_example = measure-Sampled 930000 question recorded recorded-IsHistory refl

-- A live session over two templates: `question`, which is ambient, and one of an event.
abbrev config : GeneratorConfig
config = record {
  max_concurrent_open = 2;
  min_gap_s = 60000;
  type_cooldown_s = 300000;
  round_interval_s = 300000;
  ambient_enabled = true;
  event_cooldown_s = 600000;
  events_enabled = true;
  base_reward_pool = 100;
  event_reward_multiplier = 5;
  reward_asset = 1;
  event_rank_bonus = 250;
}

abbrev chase : Template Unit
chase = record question { prediction_type = 2; ambient = false; is_event = true }

abbrev unasked : Generator
unasked = record {
  last_generated_at = none;
  last_type = none;
  last_event_at = none;
  last_was_event = false;
  last_picked_at = [];
  opens = [];
}

abbrev rate : Option (Template Unit → Option Calibration)
rate = some (λ t. some (record { yes_count = 10; n = 20; window_s = 90000; history_s = 10800000 }))

abbrev catalog : List (Template Unit)
catalog = question ∷ chase ∷ []

generate-IsAsked_example :
    IsAsked config rate catalog tt 1000000 5 7
      (prune_open 1000000 unasked)
      (generate config rate catalog tt 1000000 5 (some 7) unasked).0
      (row_of config chase 5 7 none 500)
unfolding generate may_ask prune_open scan is_candidate events_offerable ambient_round_open
    build_row pool_for
generate-IsAsked_example =
    generate-IsAsked config rate catalog tt 1000000 5 7 unasked (row_of config chase 5 7 none 500)
      refl

generate-IsBest_example :
    IsBest config rate catalog tt 1000000 unasked
      (rank_of config rate tt 1000000 unasked chase)
      (generate config rate catalog tt 1000000 5 (some 7) unasked).1
unfolding may_ask is_candidate prune_open events_offerable ambient_round_open
generate-IsBest_example =
    generate-IsBest config rate catalog tt 1000000 5 7 unasked chase (omega arith) (omega arith)
      refl (Memᴰ.tail (Memᴰ.head refl)) refl refl

abbrev asks : ℕ → Call config rate
asks now = record { state = tt; now = now; wall = now; session = some 7 }

abbrev session : List (Call config rate)
session = asks 1000000 ∷ asks 1030000 ∷ asks 1300000 ∷ asks 1900000 ∷ []

run-IsSpaced_example :
    let log = (run config rate catalog session unasked []).1 in
    IsSpaced config log × (length (keep (is_running 1900000) log) ≤ 2)
run-IsSpaced_example =
    run-IsSpaced config rate catalog session 1000000 1900000 unasked (refl, refl, refl, refl)
      (omega arith, (omega arith, (omega arith, (omega arith, omega arith))))

-- The event, then the ambient round, and the event again.
run-asks :
    map (λ q. q.at) (run config rate catalog session unasked []).1
    ≡ 1900000 ∷ 1300000 ∷ 1000000 ∷ []
unfolding run generate may_ask prune_open scan is_candidate events_offerable ambient_round_open
    build_row pool_for pick_ambient calibration_for is_fair
run-asks = refl

abbrev polls : List Ticker.Call
polls = poll 1000 ∷ poll 6000 ∷ poll 12000 ∷ []
  where
    poll : ℕ → Ticker.Call
    poll now = record {
      session_id = some 7;
      configured = true;
      now = now;
      lock = none;
      settle = some (some 2);
    }

abbrev ticker : Ticker
ticker = record { interval_s = 10000; last_tick_at = none }
