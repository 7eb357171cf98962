-- ===== src/Predictions/Measure.antt =====
-- What `RollingBaseRate` counts: harness/wasted_harness/predictions/baserate.py.
use wanted.Base.{
  ℕ, zero, suc, ◌+◌, ◌-◌, ◌*◌, ◌≤◌, ◌<◌, ◌≡◌, refl, sym, ap, ◌∙◌, Bool, true, false, ◌&&◌, Option,
  none, some, List, [], ◌∷◌, arith, leb, if◌then◌else◌, length, keep, any, All, Bool-cases, get_or,
  max, inl, inr, leb→le,
}
use wanted.Base.Sort.{IsSortedFrom}
use wanted.Predictions.Window.{Rule, Template}
use wanted.Predictions.BaseRate.{
  Event, BaseRate, Rule-discrete, rule_matcher, matches_of, matching_or, found, cached, matching,
  window_hit, sample, measurable, measure,
}

-- Moments in order.
abbrev pub IsRising : ℕ → List ℕ → Type 0
IsRising lo hs = IsSortedFrom (λ h. h) lo hs

abbrev pub in_window : ℕ → ℕ → ℕ → Bool
in_window opens closes h = leb opens h && leb h closes

none_later :
    (opens closes lo : ℕ) (hs : List ℕ)
    → IsRising lo hs
    → closes < lo
    → any (in_window opens closes) hs ≡ false
none_later opens closes lo [] s h = refl
none_later opens closes lo (x ∷ hs) s h =
    let rest = none_later opens closes x hs s.1 (omega (arith, s.0)) in ground arith

-- The bisection finds a moment of the window, its ends included, if there is one.
pub window_hit-any :
    (opens closes lo : ℕ) (hs : List ℕ)
    → IsRising lo hs
    → window_hit opens closes hs ≡ any (in_window opens closes) hs
window_hit-any opens closes lo [] s = refl
window_hit-any opens closes lo (x ∷ hs) s =
    let rest = window_hit-any opens closes x hs s.1 in
    elim (Bool-cases (leb x closes)) [
      | inl early ↦ ground arith
      | inr late ↦ let none_ = none_later opens closes x hs s.1 (ground arith) in ground arith
    ]

-- The windows that are sampled, each by how far its start lies back.
abbrev pub windows : ℕ → ℕ → ℕ → List ℕ
windows back step zero = []
windows back step (suc n) = back ∷ windows (back + step) step n

-- Whether some matching moment lies in the settling part of the window that starts `back` ago.
abbrev pub has_hit : ℕ → ℕ → ℕ → List ℕ → ℕ → Bool
has_hit now lock window hits back =
    let opens = now - back + lock in any (in_window opens (opens + window)) hits

-- What the loop counts: the windows at every step back for which there is history, no window being
-- left out, and those of them with a hit.
abbrev pub Sampled : ℕ → ℕ → ℕ → (ℕ → Bool) → ℕ → ℕ × ℕ → Type 0
Sampled now floor step hit back counts =
    (n : ℕ) × (counts ≡ (length (keep hit (windows back step n)), n))
    × All (λ b. floor + b ≤ now) (windows back step n)
    × (now < floor + back + n * step)

one_more :
    (hit : ℕ → Bool) (back step n : ℕ)
    → let count = length (keep hit (windows (back + step) step n)) in
      ◌≡◌ {A = ℕ × ℕ}
        (if hit back then count + 1 else count, n + 1)
        (length (keep hit (windows back step (suc n))), suc n)
one_more hit back step n = elim (Bool-cases (hit back)) [
  | inl h ↦ rw h (ground arith)
  | inr h ↦ rw h (ground arith)
]

farther_back :
    (now floor back step n : ℕ)
    → now < floor + (back + step) + n * step
    → now < floor + back + suc n * step
farther_back now floor back step n h = omega arith

pub sample-Sampled :
    (fuel now floor step lock window lo : ℕ) (hits : List ℕ) (back : ℕ)
    → 0 < step
    → now < fuel + back
    → IsRising lo hits
    → Sampled now floor step
        (has_hit now lock window hits)
        back
        (sample fuel now floor step lock window hits back)
unfolding sample
sample-Sampled zero now floor step lock window lo hits back p f s = (0, refl, tt, omega arith)
sample-Sampled (suc fuel) now floor step lock window lo hits back p f s =
    elim (Bool-cases (leb (floor + back) now)) [
      | inr over ↦ rw over (0, refl, tt, ground arith)
      | inl on ↦
          let (n, e, in_, past) =
            sample-Sampled fuel now floor step lock window lo hits (back + step) p (omega arith)
              s in
          let opens = now - back + lock in
          rw (on, e, window_hit-any opens (opens + window) lo hits s)
            (
              suc n,
              one_more (has_hit now lock window hits) back step n,
              (leb→le (floor + back) now on, in_),
              farther_back now floor back step n past,
            )
    ]

-- The cache answers with the moments of the matching events.
abbrev IsFilled : List Event → List (Rule × List ℕ) → Type 0
IsFilled events [] = Unit
IsFilled events ((r, hs) ∷ rest) = (hs ≡ matches_of r events) × IsFilled events rest

-- The events are in order, and the cache is that of the events.
pub record IsHistory (b : BaseRate) : Type 0 where
  pub ordered : IsSortedFrom (λ e. e.ts) 0 b.events
  pub filled : IsFilled b.events b.hits

matches_of-IsRising :
    (rule : Rule) (lo : ℕ) (es : List Event)
    → IsSortedFrom (λ e. e.ts) lo es
    → IsRising lo (matches_of rule es)
matches_of-IsRising rule lo [] s = tt
matches_of-IsRising rule lo (e ∷ es) s =
    let here : Bool = elim (rule_matcher rule) [ none ↦ false | some m ↦ m e.type_ e.payload ] in
    elim (Bool-cases here) [
      | inl h ↦ rw h (s.0, matches_of-IsRising rule e.ts es s.1)
      | inr h ↦
          rw h (
            IsRising-weaken lo e.ts (matches_of rule es) s.0 (matches_of-IsRising rule e.ts es s.1))
    ]
  where
    IsRising-weaken : (lo mid : ℕ) (hs : List ℕ) → lo ≤ mid → IsRising mid hs → IsRising lo hs
    IsRising-weaken lo mid [] p h = tt
    IsRising-weaken lo mid (x ∷ hs) p h = (omega (arith, h.0), h.1)

found-matches :
    (rule r : Rule) (events : List Event) (ms : List ℕ) (rest : Option (List ℕ)) (hs : List ℕ)
    (d : Dec (r ≡ rule))
    → ms ≡ matches_of r events
    → found d ms rest ≡ some hs
    → (rest ≡ some hs → hs ≡ matches_of rule events)
    → hs ≡ matches_of rule events
found-matches rule r events ms rest hs (yes p) f e k =
    let q : ms ≡ hs = cc in sym q ∙ f ∙ ap (λ x. matches_of x events) p
found-matches rule r events ms rest hs (no _) f e k = k e

cached-matches :
    (rule : Rule) (events : List Event) (cache : List (Rule × List ℕ)) (hs : List ℕ)
    → IsFilled events cache
    → cached rule cache ≡ some hs
    → hs ≡ matches_of rule events
cached-matches rule events [] hs f e = absurd (cc)
cached-matches rule events ((r, ms) ∷ cache) hs f e =
    found-matches rule r events ms (cached rule cache) hs (Rule-discrete r rule) f.0 e
      (cached-matches rule events cache hs f.1)

matching-matches :
    (rule : Rule) (b : BaseRate) → IsHistory b → (matching rule b).0 ≡ matches_of rule b.events
unfolding matching
matching-matches rule b h = go (cached rule b.hits) refl
  where
    go :
        (c : Option (List ℕ))
        → c ≡ cached rule b.hits
        → (matching_or c rule b).0 ≡ matches_of rule b.events
    go none e = refl
    go (some hs) e = cached-matches rule b.events b.hits hs h.filled (sym e)

matching-IsHistory : (rule : Rule) (b : BaseRate) → IsHistory b → IsHistory (matching rule b).1
unfolding matching
matching-IsHistory rule b h = go (cached rule b.hits)
  where
    go : (c : Option (List ℕ)) → IsHistory (matching_or c rule b).1
    go none = record { ordered = h.ordered; filled = (refl, h.filled) }
    go (some hs) = h

-- What a measurement counts, for a rule that can be measured over an ordered history: the windows of
-- the template's shape at every interval back from the newest one that has closed, as far as the
-- history goes, and those of them in whose settling part a matching event lies; whether the moments
-- came from the cache or not. The measurement leaves such a history.
pub measure-Sampled :
    {S : Type 0} (now : ℕ) (t : Template S) (b : BaseRate)
    → IsHistory b
    → measurable b t.telemetry_rule ≡ true
    → let (c, b') = measure now t b in
      let lock = t.window.lock_delay_s in
      let settle = t.window.resolve_delay_s in
      let floor = max (get_or b.origin 0) (now - b.history_s) in
      let hit = has_hit now lock settle (matches_of t.telemetry_rule b.events) in
      Sampled now floor b.round_interval_s hit (lock + settle) (c.yes_count, c.n) × IsHistory b'
unfolding measure
measure-Sampled now t b h m =
    let lock = t.window.lock_delay_s in
    let settle = t.window.resolve_delay_s in
    let floor = max (get_or b.origin 0) (now - b.history_s) in
    let hits = matches_of t.telemetry_rule b.events in
    rw (m, matching-matches t.telemetry_rule b h)
      (
        sample-Sampled (suc now) now floor b.round_interval_s lock settle 0 hits (lock + settle)
            (ground arith) (omega arith)
            (matches_of-IsRising t.telemetry_rule 0 b.events h.ordered),
        matching-IsHistory t.telemetry_rule b h,
      )
