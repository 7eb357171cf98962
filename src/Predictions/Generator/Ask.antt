-- ===== src/Predictions/Generator/Ask.antt =====
-- `PredictionGenerator.generate` of harness/wasted_harness/predictions/generator.py. The snapshot and
-- the recent events are one value; `now` is the monotonic clock, `wall` the other one.
use mathlib.Core.Option
use wanted.Base.{
  ℕ, ◌+◌, ◌*◌, Bool, true, false, not, ◌&&◌, ◌||◌, Option, none, some, List, [], ◌∷◌, ◌++◌, Name,
  ltb, ◌==◌, same, if◌then◌else◌, get_or, elapsed, keep, length,
}
use wanted.Predictions.Window.{Template, total_s}
use wanted.Predictions.BaseRate.{Calibration}
use wanted.Predictions.Generator.Config.{GeneratorConfig, Generator, Row, Answer, Measured}
use wanted.Predictions.Generator.Choice.{rank, better, calibration_for, pick_ambient}

abbrev pub picked_at : Name → List (Name × ℕ) → Option ℕ
picked_at t [] = none
picked_at t ((k, at) ∷ rest) = if k == t then some at else picked_at t rest

abbrev pub set_picked : Name → ℕ → List (Name × ℕ) → List (Name × ℕ)
set_picked t at [] = (t, at) ∷ []
set_picked t at ((k, v) ∷ rest) = if k == t then (t, at) ∷ rest else (k, v) ∷ set_picked t at rest

abbrev pub is_open : ℕ → Name × ℕ → Bool
is_open now e = ltb now e.1

unfoldable pub prune_open : ℕ → Generator → Generator
prune_open now g = record g { opens = keep (is_open now) g.opens }

unfoldable pub events_offerable : GeneratorConfig → ℕ → Generator → Bool
events_offerable config now g =
    config.events_enabled
    && (not g.last_was_event && elapsed g.last_event_at config.event_cooldown_s now)

unfoldable pub ambient_round_open : GeneratorConfig → ℕ → Generator → Bool
ambient_round_open config now g =
    config.ambient_enabled
    && (config.round_interval_s == 0 || elapsed g.last_generated_at config.round_interval_s now)

-- `none` is the ValueError.
unfoldable pub pool_for : {S : Type 0} → GeneratorConfig → Template S → Option ℕ
pool_for config t =
    let pool =
      if t.is_event
      then config.base_reward_pool * config.event_reward_multiplier
      else config.base_reward_pool in
    if pool == 0 then none else some pool

abbrev pub row_of :
    {S : Type 0} → GeneratorConfig → Template S → ℕ → Name → Option Calibration → ℕ → Row
row_of config t opened session_id calibration pool = record {
  session_id = session_id;
  prediction_type = t.prediction_type;
  opened_at = opened;
  locks_at = opened + t.window.lock_delay_s;
  resolves_at = opened + t.window.lock_delay_s + t.window.resolve_delay_s;
  telemetry_rule = t.telemetry_rule;
  is_event = t.is_event;
  calibration = calibration;
  reward_pool = pool;
  reward_asset = config.reward_asset;
}

-- `_build_row`; `none` is the ValueError of the pool.
unfoldable pub build_row :
    {S : Type 0} → GeneratorConfig → Template S → ℕ → Name → Option Calibration → Option Row
build_row config t opened session_id calibration =
    Option.map (row_of config t opened session_id calibration) (pool_for config t)

-- The tests of the loop, which a template passes over one after another.
unfoldable pub is_candidate : {S : Type 0} → GeneratorConfig → S → ℕ → Generator → Template S → Bool
is_candidate config s now g t =
    not (same (some t.prediction_type) g.last_type)
    && (not t.is_event || events_offerable config now g)
    && (not t.ambient || ambient_round_open config now g)
    && elapsed (picked_at t.prediction_type g.last_picked_at) config.type_cooldown_s now
    && get_or (t.trigger s) false

-- The best template so far with its rank, and the ambient ones that have been measured.
pub record Found (S : Type 0) : Type 0 where
  pub best : Option (Template S × ℕ)
  pub ambient : List (Measured S)

module _ {S : Type 0} (config : GeneratorConfig)
    (base_rate : Option (Template S → Option Calibration)) where
  abbrev pub add_measured :
      Template S → Option ℕ → Option Calibration → List (Measured S) → List (Measured S)
  add_measured t last none ms = ms
  add_measured t last (some c) ms =
      ms ++ record { template = t; calibration = c; last_picked = last } ∷ []

  -- One round of the loop over the catalog, by whether the template is a candidate and ambient.
  abbrev pub consider : Bool → Bool → S → ℕ → Generator → Template S → Found S → Found S
  consider false ambient s now g t f = f
  consider true true s now g t f =
      let last = picked_at t.prediction_type g.last_picked_at in
      record f { ambient = add_measured t last (calibration_for base_rate t) f.ambient }
  consider true false s now g t f =
      let last = picked_at t.prediction_type g.last_picked_at in
      record f { best = better f.best t (rank config s now t last) }

  unfoldable pub scan : S → ℕ → Generator → List (Template S) → Found S → Found S
  scan s now g [] f = f
  scan s now g (t ∷ ts) f =
      scan s now g ts (consider (is_candidate config s now g t) t.ambient s now g t f)

  -- A situational question goes before an ambient one.
  abbrev pub decide :
      Option (Template S × ℕ) → Option (Measured S) → Option (Template S × Option Calibration)
  decide (some best) m = some (best.0, none)
  decide none none = none
  decide none (some m) = some (m.template, some m.calibration)

  abbrev pub book : ℕ → Template S → Generator → Generator
  book now t g = record g {
    last_generated_at = some now;
    last_type = some t.prediction_type;
    last_picked_at = set_picked t.prediction_type now g.last_picked_at;
    last_event_at = if t.is_event then some now else g.last_event_at;
    last_was_event = t.is_event;
    opens = g.opens ++ (t.prediction_type, now + total_s t.window) ∷ [];
  }

  abbrev pub finish : ℕ → Template S → Generator → Option Row → Generator × Answer
  finish now t g none = (g, Answer.raised)
  finish now t g (some r) = (book now t g, Answer.row r)

  abbrev pub ask :
      ℕ → ℕ → Name → Generator → Option (Template S × Option Calibration) → Generator × Answer
  ask now wall session_id g none = (g, Answer.nothing)
  ask now wall session_id g (some choice) =
      finish now choice.0 g (build_row config choice.0 wall session_id choice.1)

  abbrev pub choose :
      List (Template S) → S → ℕ → Generator → Option (Template S × Option Calibration)
  choose catalog s now g =
      let f = scan s now g catalog (record { best = none; ambient = [] }) in
      decide f.best (pick_ambient now f.ambient)

  -- Whether the two gates that look at no template are passed.
  unfoldable pub may_ask : ℕ → Generator → Bool
  may_ask now g =
      elapsed g.last_generated_at config.min_gap_s now
      && ltb (length g.opens) config.max_concurrent_open

  unfoldable pub generate :
      List (Template S) → S → ℕ → ℕ → Option Name → Generator → Generator × Answer
  generate catalog s now wall none g = (g, Answer.nothing)
  generate catalog s now wall (some session_id) g =
      let pruned = prune_open now g in
      if may_ask now pruned
      then ask now wall session_id pruned (choose catalog s now pruned)
      else (pruned, Answer.nothing)
