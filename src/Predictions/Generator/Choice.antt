-- ===== src/Predictions/Generator/Choice.antt =====
-- How `PredictionGenerator` chooses among the candidates: `_rank`, `_calibration_for` and
-- `_pick_ambient` of harness/wasted_harness/predictions/generator.py. A rank is an exact fraction, and
-- all ranks of one call have the same denominator, so only the numerator is kept.
use wanted.Base.{
  ℕ, ◌+◌, ◌-◌, ◌*◌, min, max, Bool, true, false, ◌&&◌, Option, none, some, List, [], ◌∷◌, ltb, leb,
  ◌==◌, if◌then◌else◌, get_or,
}
use wanted.Tasks.{diff}
use wanted.Predictions.Window.{Window, Template, total_s, min_window, max_window}
use wanted.Predictions.BaseRate.{Calibration}
use wanted.Predictions.Generator.Config.{
  GeneratorConfig, Measured, ambient_min_samples, ambient_min_rate, ambient_max_rate,
}

-- `_speed_score`, times the span of 270 s.
abbrev pub span : ℕ
span = max_window - min_window

unfoldable pub speed_score : Window → ℕ
speed_score w = min span (span - (total_s w - min_window))

-- Novelty, times the cooldown; without a cooldown it is one, of one.
unfoldable pub novelty : ℕ → ℕ → Option ℕ → ℕ
novelty cooldown now none = max 1 cooldown
novelty cooldown now (some last) = if cooldown == 0 then 1 else min cooldown (now - last)

-- Whether a measurement is within the band: the rate is `yes / n`.
unfoldable pub is_fair : Calibration → Bool
is_fair c =
    leb ambient_min_samples c.n
    && leb (ambient_min_rate * c.n) (100 * c.yes_count)
    && leb (100 * c.yes_count) (ambient_max_rate * c.n)

abbrev pub if_fair : Option Calibration → Option Calibration
if_fair none = none
if_fair (some c) = if is_fair c then some c else none

-- The distance of the rate from a half, times `2 n`.
abbrev pub off_coin : Calibration → ℕ
off_coin c = diff (2 * c.yes_count) c.n

-- `|a - 1/2| < |b - 1/2|`
abbrev pub nearer : Calibration → Calibration → Bool
nearer a b = ltb (off_coin a * b.n) (off_coin b * a.n)

-- `-(now - last)`, or minus infinity where there is no last.
abbrev pub staler : ℕ → Option ℕ → Option ℕ → Bool
staler now none none = false
staler now none (some b) = true
staler now (some a) none = false
staler now (some a) (some b) = ltb (now - b) (now - a)

module _ {S : Type 0} where
  -- A score that raises counts as nothing, as one below nothing does.
  unfoldable pub quality : S → Template S → ℕ
  quality s t = min 1000 (get_or (t.score s) 0)

  -- 0.5 quality + 0.2 speed + 0.2 reliability + 0.1 novelty, and the bonus, over
  -- 10000 · span · cooldown.
  unfoldable pub rank : GeneratorConfig → S → ℕ → Template S → Option ℕ → ℕ
  rank config s now t last_picked =
      let cooldown = max 1 config.type_cooldown_s in
      5 * quality s t * span * cooldown
      + 2 * speed_score t.window * 1000 * cooldown
      + 2 * t.reliability * span * cooldown
      + novelty config.type_cooldown_s now last_picked * 1000 * span
      + (if t.is_event then config.event_rank_bonus * 10 * span * cooldown else 0)

  -- `if rank > best_rank`, from minus infinity on.
  abbrev pub better : Option (Template S × ℕ) → Template S → ℕ → Option (Template S × ℕ)
  better none t r = some (t, r)
  better (some best) t r = if ltb best.1 r then some (t, r) else some best

  -- `base_rate` may be missing, and a measurement may raise.
  unfoldable pub calibration_for :
      Option (Template S → Option Calibration) → Template S → Option Calibration
  calibration_for none t = none
  calibration_for (some base_rate) t = if_fair (base_rate t)

  -- The order of the keys of `_pick_ambient`; a name's number is its place in the order of texts.
  unfoldable pub comes_before : ℕ → Measured S → Measured S → Bool
  comes_before now a b =
      if nearer a.calibration b.calibration
      then true
      else if nearer b.calibration a.calibration
      then false
      else if staler now a.last_picked b.last_picked
      then true
      else if staler now b.last_picked a.last_picked
      then false
      else ltb a.template.prediction_type b.template.prediction_type

  -- `min(candidates, key=...)`: the first of the least ones.
  abbrev pub least : ℕ → Measured S → List (Measured S) → Measured S
  least now best [] = best
  least now best (c ∷ cs) = least now (if comes_before now c best then c else best) cs

  unfoldable pub pick_ambient : ℕ → List (Measured S) → Option (Measured S)
  pick_ambient now [] = none
  pick_ambient now (c ∷ cs) = some (least now c cs)
