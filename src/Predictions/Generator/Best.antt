-- ===== src/Predictions/Generator/Best.antt =====
-- Which template `generate` of harness/wasted_harness/predictions/generator.py asks of.
use mathlib.Core.List.{Memᴰ}
use mathlib.Core.Option
use wanted.Base.{
  ℕ, ◌*◌, ◌≤◌, ◌<◌, ◌≡◌, refl, ap, subst, true, false, Option, none, some, List, [], Name, arith,
  OnSome, if◌then◌else◌,
}
use wanted.Predictions.Window.{Template}
use wanted.Predictions.BaseRate.{Calibration}
use wanted.Predictions.Generator.Config.{GeneratorConfig, Generator, Row, Answer, Measured}
use wanted.Predictions.Generator.Choice.{pick_ambient}
use wanted.Predictions.Generator.Ask.{
  is_candidate, scan, decide, finish, ask, may_ask, generate, prune_open, build_row, row_of,
  pool_for,
}
use wanted.Predictions.Generator.Scan.{
  IsSituational, Dominates, rank_of, catalog-Origins, scan-Dominates,
}

module _ {S : Type 0} (config : GeneratorConfig)
    (base_rate : Option (Template S → Option Calibration)) where
  -- The answer is a row of a situational template whose rank is `r` at least.
  abbrev pub IsBest : List (Template S) → S → ℕ → Generator → ℕ → Answer → Type 0
  IsBest catalog s now g r answer =
      (t : Template S) × (made : Row) × (answer ≡ Answer.row made)
      × Memᴰ t catalog
      × (made.prediction_type ≡ t.prediction_type)
      × (made.calibration ≡ none)
      × (t.ambient ≡ false)
      × (r ≤ rank_of config base_rate s now g t)

  pool_for-some :
      (t : Template S)
      → 0 < config.base_reward_pool
      → 0 < config.base_reward_pool * config.event_reward_multiplier
      → (pool : ℕ) × (pool_for config t ≡ some pool)
  unfolding pool_for
  pool_for-some t h k =
      let pool : ℕ =
        if t.is_event
        then config.base_reward_pool * config.event_reward_multiplier
        else config.base_reward_pool in
      (pool, ground arith)

  ask-IsBest :
      (catalog : List (Template S)) (s : S) (now wall : ℕ) (session : Name) (g : Generator) (r : ℕ)
      (b : Option (Template S × ℕ)) (m : Option (Measured S))
      → 0 < config.base_reward_pool
      → 0 < config.base_reward_pool * config.event_reward_multiplier
      → OnSome (IsSituational config base_rate s now g catalog) b
      → Dominates config base_rate s now g b r
      → IsBest catalog s now g r
          (ask config base_rate now wall session g (decide config base_rate b m)).1
  unfolding build_row
  ask-IsBest catalog s now wall session g r none m h k i d = absurd d
  ask-IsBest catalog s now wall session g r (some (t, q)) m h k (mem, _, situational, is_rank) d =
      let (pool, e) = pool_for-some t h k in
      let made = row_of config t wall session none pool in
      (
        t,
        made,
        ap
            (λ p.
              (finish config base_rate now t g
                (Option.map (row_of config t wall session none) p)).1)
            e,
        mem,
        refl,
        refl,
        situational,
        subst (λ x. r ≤ x) is_rank d,
      )

  -- When the gap is over, fewer than the most allowed are open and a session is live, then as soon as
  -- one situational template of the catalog passes the tests, a question is asked: of a situational
  -- template, never an ambient one, and of one whose rank is that template's at least. Pools are above
  -- nothing.
  pub generate-IsBest :
      (catalog : List (Template S)) (s : S) (now wall : ℕ) (session : Name) (g : Generator)
      (t : Template S)
      → 0 < config.base_reward_pool
      → 0 < config.base_reward_pool * config.event_reward_multiplier
      → may_ask config base_rate now (prune_open now g) ≡ true
      → Memᴰ t catalog
      → is_candidate config s now (prune_open now g) t ≡ true
      → t.ambient ≡ false
      → let pruned = prune_open now g in
        IsBest catalog s now pruned
          (rank_of config base_rate s now pruned t)
          (generate config base_rate catalog s now wall (some session) g).1
  unfolding generate
  generate-IsBest catalog s now wall session g t h k gates mem passes situational =
      let pruned = prune_open now g in
      let f = scan config base_rate s now pruned catalog (record { best = none; ambient = [] }) in
      rw gates (
        ask-IsBest catalog s now wall session pruned (rank_of config base_rate s now pruned t)
          f.best (pick_ambient now f.ambient) h k
          (catalog-Origins config base_rate s now pruned catalog).0
          (scan-Dominates config base_rate s now pruned catalog
            (record { best = none; ambient = [] }) t mem passes situational))
