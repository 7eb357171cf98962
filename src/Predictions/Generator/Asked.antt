-- ===== src/Predictions/Generator/Asked.antt =====
-- The questions that `generate` of harness/wasted_harness/predictions/generator.py asks, one by one.
use mathlib.Core.List.{Memᴰ}
use mathlib.Core.Option
use wanted.Base.{
  ℕ, ◌+◌, ◌*◌, ◌≤◌, ◌<◌, ◌≡◌, refl, sym, ap, ◌∙◌, subst, inl, inr, true, false, Option, none, some,
  List, [], Name, Bool-cases, arith, OnSome, if◌then◌else◌,
}
use wanted.Predictions.Window.{Template, total_s}
use wanted.Predictions.BaseRate.{Calibration}
use wanted.Predictions.Generator.Config.{GeneratorConfig, Generator, Row, Answer, Measured}
use wanted.Predictions.Generator.Choice.{is_fair, calibration_for, pick_ambient, if_fair}
use wanted.Predictions.Generator.Ask.{
  is_candidate, scan, decide, book, finish, ask, choose, may_ask, generate, prune_open, build_row,
  row_of, pool_for,
}
use wanted.Predictions.Generator.Scan.{IsSituational, IsAmbient, catalog-Origins, pick_ambient-All}

-- A situational question carries no measurement. An ambient one carries one that the estimator made
-- of this very template: twelve windows at least, between 20% and 80% of them with a hit.
abbrev pub IsHonest :
    {S : Type 0}
    → Option (Template S → Option Calibration)
    → Template S
    → Option Calibration
    → Type 0
IsHonest base_rate t none = t.ambient ≡ false
IsHonest base_rate t (some c) =
    (t.ambient ≡ true)
    × (OnSome (λ measure. measure t ≡ some c) base_rate)
    × (12 ≤ c.n)
    × (20 * c.n ≤ 100 * c.yes_count)
    × (100 * c.yes_count ≤ 80 * c.n)

module _ {S : Type 0} (config : GeneratorConfig)
    (base_rate : Option (Template S → Option Calibration)) where
  -- The question that was asked, by the template that it was made of.
  pub record IsAsked (catalog : List (Template S)) (s : S) (now wall : ℕ) (session : Name)
      (g g' : Generator) (r : Row) : Type 0 where
    pub template : Template S
    pub in_catalog : Memᴰ template catalog
    pub candidate : is_candidate config s now g template ≡ true
    pub gates : may_ask config base_rate now g ≡ true
    pub honest : IsHonest base_rate template r.calibration
    pub of_template :
        (r.prediction_type ≡ template.prediction_type)
        × (r.telemetry_rule ≡ template.telemetry_rule)
        × (r.is_event ≡ template.is_event)
        × (r.session_id ≡ session)
    pub times :
        (r.opened_at ≡ wall)
        × (r.locks_at ≡ wall + template.window.lock_delay_s)
        × (r.resolves_at ≡ wall + total_s template.window)
    pub pool :
        (0 < r.reward_pool)
        × (r.reward_pool ≡ (
            if template.is_event
            then config.base_reward_pool * config.event_reward_multiplier
            else config.base_reward_pool))
    pub booked : g' ≡ book config base_rate now template g

  calibration_for-IsHonest :
      (b : Option (Template S → Option Calibration)) (t : Template S) (c : Calibration)
      → calibration_for b t ≡ some c
      → t.ambient ≡ true
      → IsHonest b t (some c)
  unfolding calibration_for is_fair
  calibration_for-IsHonest none t c h a = absurd (cc)
  calibration_for-IsHonest (some measure) t c h a = go (measure t) refl h
    where
      go :
          (m : Option Calibration)
          → m ≡ measure t
          → if_fair m ≡ some c
          → IsHonest (some measure) t (some c)
      go none e k = absurd (cc)
      go (some d) e k = elim (Bool-cases (is_fair d)) [
        | inr unfair ↦ let bad : none ≡ some c = rw unfair at k in absurd (cc)
        | inl fair ↦
            let same_ : some d ≡ some c = rw fair at k in
            let is_c : d ≡ c = cc in
            let (many, least_, most) =
              subst
                (λ (x : Calibration).
                  (12 ≤ x.n) × (20 * x.n ≤ 100 * x.yes_count) × (100 * x.yes_count ≤ 80 * x.n))
                is_c (ground arith) in
            (a, sym e ∙ same_, many, least_, most)
      ]

  abbrev IsChoice : List (Template S) → S → ℕ → Generator → Template S × Option Calibration → Type 0
  IsChoice catalog s now g (t, c) =
      Memᴰ t catalog × (is_candidate config s now g t ≡ true) × IsHonest base_rate t c

  decide-IsChoice :
      (catalog : List (Template S)) (s : S) (now : ℕ) (g : Generator) (b : Option (Template S × ℕ))
      (m : Option (Measured S))
      → OnSome (IsSituational config base_rate s now g catalog) b
      → OnSome (IsAmbient config base_rate s now g catalog) m
      → OnSome (IsChoice catalog s now g) (decide config base_rate b m)
  decide-IsChoice catalog s now g (some b) m h k = (h.0, h.1, h.2)
  decide-IsChoice catalog s now g none none h k = tt
  decide-IsChoice catalog s now g none (some m) h k =
      (k.0, k.1, calibration_for-IsHonest base_rate m.template m.calibration k.3 k.2)

  choose-IsChoice :
      (catalog : List (Template S)) (s : S) (now : ℕ) (g : Generator)
      → OnSome (IsChoice catalog s now g) (choose config base_rate catalog s now g)
  choose-IsChoice catalog s now g =
      let f = scan config base_rate s now g catalog (record { best = none; ambient = [] }) in
      let (b, a) = catalog-Origins config base_rate s now g catalog in
      decide-IsChoice catalog s now g f.best (pick_ambient now f.ambient) b (
        pick_ambient-All config base_rate s now g (IsAmbient config base_rate s now g catalog)
          f.ambient a)

  abbrev IsRow : Template S → ℕ → Name → Option Calibration → Row → Type 0
  IsRow t wall session c r =
      (r.calibration ≡ c)
      × ((r.prediction_type ≡ t.prediction_type)
          × (r.telemetry_rule ≡ t.telemetry_rule)
          × (r.is_event ≡ t.is_event)
          × (r.session_id ≡ session))
      × ((r.opened_at ≡ wall)
          × (r.locks_at ≡ wall + t.window.lock_delay_s)
          × (r.resolves_at ≡ wall + total_s t.window))
      × ((0 < r.reward_pool)
          × (r.reward_pool ≡ (
              if t.is_event
              then config.base_reward_pool * config.event_reward_multiplier
              else config.base_reward_pool)))

  pool_for-positive :
      (t : Template S) (pool : ℕ)
      → pool_for config t ≡ some pool
      → (0 < pool)
        × (pool ≡ (
            if t.is_event
            then config.base_reward_pool * config.event_reward_multiplier
            else config.base_reward_pool))
  unfolding pool_for
  pool_for-positive t pool h = ground arith

  build_row-IsRow :
      (t : Template S) (wall : ℕ) (session : Name) (c : Option Calibration) (r : Row)
      → build_row config t wall session c ≡ some r
      → IsRow t wall session c r
  unfolding build_row
  build_row-IsRow t wall session c r h = go (pool_for config t) refl h
    where
      go :
          (p : Option ℕ)
          → p ≡ pool_for config t
          → Option.map (row_of config t wall session c) p ≡ some r
          → IsRow t wall session c r
      go none e k = absurd (cc)
      go (some pool) e k =
          let same_ : row_of config t wall session c pool ≡ r = cc in
          subst (IsRow t wall session c) same_ (
            refl,
            (refl, refl, refl, refl),
            (refl, refl, omega arith),
            pool_for-positive t pool (sym e),
          )

  -- Every question that is asked is one that may be: it is of a template of the catalog that passes
  -- every test of that moment (not the type asked last, its cooldown over, its trigger met, an event
  -- only when events are offerable, an ambient one only when the round is open), the gap since the
  -- last question is over and fewer than the most allowed are open. A situational question carries no
  -- measurement; an ambient one carries the estimator's own, of twelve windows at least and a rate
  -- between 20% and 80%. The row's type, rule, times and pool are the template's, the pool is above
  -- nothing, and the question is booked.
  pub generate-IsAsked :
      (catalog : List (Template S)) (s : S) (now wall : ℕ) (session : Name) (g : Generator)
      (r : Row)
      → (generate config base_rate catalog s now wall (some session) g).1 ≡ Answer.row r
      → IsAsked catalog s now wall session
          (prune_open now g)
          (generate config base_rate catalog s now wall (some session) g).0
          r
  unfolding generate
  generate-IsAsked catalog s now wall session g r h =
      elim (Bool-cases (may_ask config base_rate now pruned)) [
        | inr shut ↦ let bad : Answer.nothing ≡ Answer.row r = rw shut at h in absurd (cc)
        | inl gates ↦
            let h' : (ask config base_rate now wall session pruned
                  (choose config base_rate catalog s now pruned)).1
                ≡ Answer.row r =
              rw gates at h in
            rw gates (
              chosen gates (choose config base_rate catalog s now pruned)
                (choose-IsChoice catalog s now pruned) h')
      ]
    where
      pruned : Generator
      pruned = prune_open now g

      made :
          (gates : may_ask config base_rate now pruned ≡ true) (t : Template S)
          (c : Option Calibration) (o : Option Row)
          → IsChoice catalog s now pruned (t, c)
          → o ≡ build_row config t wall session c
          → (finish config base_rate now t pruned o).1 ≡ Answer.row r
          → IsAsked catalog s now wall session pruned (finish config base_rate now t pruned o).0 r
      made gates t c none i e h = absurd (cc)
      made gates t c (some r') i e h =
          let same_ : r' ≡ r = cc in
          let (is_c, of_t, at_, pool) =
            build_row-IsRow t wall session c r (sym e ∙ ap some same_) in
          record {
            template = t;
            in_catalog = i.0;
            candidate = i.1;
            gates = gates;
            honest = subst (IsHonest base_rate t) (sym is_c) i.2;
            of_template = of_t;
            times = at_;
            pool = pool;
            booked = refl;
          }

      chosen :
          (gates : may_ask config base_rate now pruned ≡ true)
          (o : Option (Template S × Option Calibration))
          → OnSome (IsChoice catalog s now pruned) o
          → (ask config base_rate now wall session pruned o).1 ≡ Answer.row r
          → IsAsked catalog s now wall session pruned
              (ask config base_rate now wall session pruned o).0
              r
      chosen gates none i h = absurd (cc)
      chosen gates (some choice) i h =
          made gates choice.0 choice.1 (build_row config choice.0 wall session choice.1) i refl h
