-- ===== src/Predictions/Generator/Memory.antt =====
-- What `PredictionGenerator` of harness/wasted_harness/predictions/generator.py remembers of the questions
-- that it has asked.
use native.Mathlib.Decide.{ℕ_discrete}
use wanted.Base.{
  ℕ, ◌+◌, ◌≤◌, ◌≡◌, ◌≢◌, refl, ap, ◌∙◌, subst, ◌⊎◌, inl, inr, Bool, true, false, Option, none, some,
  List, [], ◌∷◌, Name, Bool-cases, arith, All, if◌then◌else◌, ltb, ◌==◌, length, elapsed, keep,
  same,
}
use wanted.Predictions.Window.{Template}
use wanted.Predictions.Generator.Config.{GeneratorConfig, Generator}
use wanted.Predictions.Generator.Ask.{
  is_open, prune_open, events_offerable, is_candidate, picked_at, set_picked,
}

-- A question of the log: when it was asked, its type, and when its window closes.
pub record Question : Type 0 where
  pub at : ℕ
  pub type_ : Name
  pub is_event : Bool
  pub closes : ℕ

abbrev pub Fresh : Generator → Type 0
Fresh g =
    (g.last_generated_at ≡ none)
    × (g.last_type ≡ none)
    × (g.last_was_event ≡ false)
    × (g.opens ≡ [])

-- `b` is the question asked next after `a`.
abbrev pub Follows : GeneratorConfig → Question → List Question → Type 0
Follows config b [] = Unit
Follows config b (a ∷ _) =
    (a.at + config.min_gap_s ≤ b.at)
    × (a.type_ ≢ b.type_)
    × ((a.is_event ≡ false) ⊎ (b.is_event ≡ false))

-- Newest first: every question keeps its distance from all before it.
abbrev pub IsSpaced : GeneratorConfig → List Question → Type 0
IsSpaced config [] = Unit
IsSpaced config (b ∷ log) =
    Follows config b log
    × All
        (λ a. (a.is_event ≡ false) ⊎ (b.is_event ≡ false) ⊎ (a.at + config.event_cooldown_s ≤ b.at))
        log
    × All (λ a. (a.type_ ≢ b.type_) ⊎ (a.at + config.type_cooldown_s ≤ b.at)) log
    × IsSpaced config log

abbrev pub is_running : ℕ → Question → Bool
is_running now q = ltb now q.closes

abbrev pub Since : Option ℕ → ℕ → Type 0
Since none at = ⊥
Since (some last) at = at ≤ last

abbrev pub Newest : Generator → List Question → Type 0
Newest g [] = (g.last_generated_at ≡ none) × (g.last_type ≡ none) × (g.last_was_event ≡ false)
Newest g (a ∷ _) =
    (g.last_generated_at ≡ some a.at)
    × (g.last_type ≡ some a.type_)
    × (g.last_was_event ≡ a.is_event)

-- What the generator remembers of the log, at `now`.
pub record IsLogged (now : ℕ) (g : Generator) (log : List Question) : Type 0 where
  pub newest : Newest g log
  pub events : All (λ a. (a.is_event ≡ false) ⊎ Since g.last_event_at a.at) log
  pub types : All (λ a. Since (picked_at a.type_ g.last_picked_at) a.at) log
  pub past : All (λ a. a.at ≤ now) log
  pub counts :
      (later : ℕ)
      → now ≤ later
      → length (keep (is_open later) g.opens) ≡ length (keep (is_running later) log)

pub later-past :
    (now now' : ℕ) (log : List Question)
    → now ≤ now'
    → All (λ a. a.at ≤ now) log
    → All (λ a. a.at ≤ now') log
later-past now now' [] h p = tt
later-past now now' (a ∷ log) h p = (omega (arith, p.0), later-past now now' log h p.1)

pub later-IsLogged :
    (now now' : ℕ) (g : Generator) (log : List Question)
    → now ≤ now'
    → IsLogged now g log
    → IsLogged now' g log
later-IsLogged now now' g log h k = record {
  newest = k.newest;
  events = k.events;
  types = k.types;
  past = later-past now now' log h k.past;
  counts = λ later p. k.counts later (omega arith);
}

pub keep_open-later :
    (now later : ℕ) (es : List (Name × ℕ))
    → now ≤ later
    → keep (is_open later) (keep (is_open now) es) ≡ keep (is_open later) es
keep_open-later now later [] h = refl
keep_open-later now later (e ∷ es) h = ground (arith, keep_open-later now later es h)

pub prune_open-IsLogged :
    (now : ℕ) (g : Generator) (log : List Question)
    → IsLogged now g log
    → IsLogged now (prune_open now g) log
unfolding prune_open
prune_open-IsLogged now g log k = record {
  newest = k.newest;
  events = k.events;
  types = k.types;
  past = k.past;
  counts = λ later p. ap length (keep_open-later now later g.opens p) ∙ k.counts later p;
}

-- What the tests of a candidate say.
pub candidate-says :
    {S : Type 0} (config : GeneratorConfig) (s : S) (now : ℕ) (g : Generator) (t : Template S)
    → is_candidate config s now g t ≡ true
    → (same (some t.prediction_type) g.last_type ≡ false)
      × ((t.is_event ≡ false)
          ⊎ ((g.last_was_event ≡ false)
              × (elapsed g.last_event_at config.event_cooldown_s now ≡ true)))
      × (elapsed (picked_at t.prediction_type g.last_picked_at) config.type_cooldown_s now ≡ true)
unfolding is_candidate events_offerable
candidate-says config s now g t h = ground arith

pub elapsed-Since :
    (last : Option ℕ) (gap now at : ℕ)
    → elapsed last gap now ≡ true
    → Since last at
    → at + gap ≤ now
elapsed-Since none gap now at h s = absurd s
elapsed-Since (some last) gap now at h s = ground arith

-- A question of type `type_` at `now` keeps its distance.
pub types-spaced :
    (config : GeneratorConfig) (now : ℕ) (type_ : Name) (picked : List (Name × ℕ))
    (log : List Question)
    → All (λ a. Since (picked_at a.type_ picked) a.at) log
    → elapsed (picked_at type_ picked) config.type_cooldown_s now ≡ true
    → All (λ a. (a.type_ ≢ type_) ⊎ (a.at + config.type_cooldown_s ≤ now)) log
types-spaced config now type_ picked [] h e = tt
types-spaced config now type_ picked (a ∷ log) h e = (
  elim (ℕ_discrete a.type_ type_) [
    | no other ↦ inl other
    | yes same_ ↦ inr (
        elapsed-Since (picked_at type_ picked) config.type_cooldown_s now a.at e
          (subst (λ x. Since (picked_at x picked) a.at) same_ h.0))
  ],
  types-spaced config now type_ picked log h.1 e,
)

pub events-spaced :
    (config : GeneratorConfig) (now : ℕ) (is_event : Bool) (last : Option ℕ) (log : List Question)
    → All (λ a. (a.is_event ≡ false) ⊎ Since last a.at) log
    → (is_event ≡ false) ⊎ (elapsed last config.event_cooldown_s now ≡ true)
    → All
        (λ a. (a.is_event ≡ false) ⊎ (is_event ≡ false) ⊎ (a.at + config.event_cooldown_s ≤ now))
        log
events-spaced config now is_event last [] h e = tt
events-spaced config now is_event last (a ∷ log) h e =
    (one h.0 e, events-spaced config now is_event last log h.1 e)
  where
    one :
        (a.is_event ≡ false) ⊎ Since last a.at
        → (is_event ≡ false) ⊎ (elapsed last config.event_cooldown_s now ≡ true)
        → (a.is_event ≡ false) ⊎ (is_event ≡ false) ⊎ (a.at + config.event_cooldown_s ≤ now)
    one (inl p) e = inl p
    one (inr p) (inl q) = inr (inl q)
    one (inr p) (inr q) = inr (inr (elapsed-Since last config.event_cooldown_s now a.at q p))

pub picked_at-set_picked :
    (k : Name) (now : ℕ) (m : List (Name × ℕ)) → picked_at k (set_picked k now m) ≡ some now
picked_at-set_picked k now [] = ground arith
picked_at-set_picked k now ((j, v) ∷ m) = ground (arith, picked_at-set_picked k now m)

pub set_picked-Since :
    (k t : Name) (now at : ℕ) (m : List (Name × ℕ))
    → Since (picked_at k m) at
    → at ≤ now
    → Since (picked_at k (set_picked t now m)) at
set_picked-Since k t now at [] h p = absurd h
set_picked-Since k t now at ((j, v) ∷ m) h p = elim (Bool-cases (j == k)) [
  | inl e ↦
      let h' : at ≤ v = rw e at h in
      elim (Bool-cases (j == t)) [
        | inl f ↦ let g : (t == k) ≡ true = ground arith in rw (f, g) p
        | inr f ↦ rw (f, e) h'
      ]
  | inr e ↦
      let h' : Since (picked_at k m) at = rw e at h in
      elim (Bool-cases (j == t)) [
        | inl f ↦ let g : (t == k) ≡ false = ground arith in rw (f, g) h'
        | inr f ↦ rw (f, e) (set_picked-Since k t now at m h' p)
      ]
]

pub set_picked-types :
    (t : Name) (now : ℕ) (m : List (Name × ℕ)) (log : List Question)
    → All (λ a. Since (picked_at a.type_ m) a.at) log
    → All (λ a. a.at ≤ now) log
    → All (λ a. Since (picked_at a.type_ (set_picked t now m)) a.at) log
set_picked-types t now m [] h p = tt
set_picked-types t now m (a ∷ log) h p =
    (set_picked-Since a.type_ t now a.at m h.0 p.0, set_picked-types t now m log h.1 p.1)

pub booked-events :
    (is_event : Bool) (now : ℕ) (last : Option ℕ) (log : List Question)
    → All (λ a. (a.is_event ≡ false) ⊎ Since last a.at) log
    → All (λ a. a.at ≤ now) log
    → All (λ a. (a.is_event ≡ false) ⊎ Since (if is_event then some now else last) a.at) log
booked-events is_event now last [] h p = tt
booked-events true now last (a ∷ log) h p = (inr p.0, booked-events true now last log h.1 p.1)
booked-events false now last (a ∷ log) h p = (h.0, booked-events false now last log h.1 p.1)

pub differ : (a b : Name) → same (some b) (some a) ≡ false → a ≢ b
differ a b h e = absurd (ground arith)
