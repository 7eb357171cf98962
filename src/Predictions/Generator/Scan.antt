-- ===== src/Predictions/Generator/Scan.antt =====
-- What the loop over the catalog finds.
use mathlib.Core.List.{Memᴰ}
use wanted.Base.{
  ℕ, ◌≤◌, ◌≡◌, refl, sym, subst, inl, inr, Bool, true, false, Option, none, some, List, [], ◌∷◌,
  ltb, Bool-cases, arith, OnSome, All, All-append,
}
use wanted.Predictions.Window.{Template}
use wanted.Predictions.BaseRate.{Calibration}
use wanted.Predictions.Generator.Config.{GeneratorConfig, Generator, Measured}
use wanted.Predictions.Generator.Choice.{
  rank, better, calibration_for, least, comes_before, pick_ambient,
}
use wanted.Predictions.Generator.Ask.{Found, is_candidate, picked_at, add_measured, consider, scan}

All-tail :
    {A : Type 0} (a : A) (all ts : List A)
    → All (λ t. Memᴰ t all) ts
    → All (λ t. Memᴰ t (a ∷ all)) ts
All-tail a all [] h = tt
All-tail a all (t ∷ ts) h = (Memᴰ.tail h.0, All-tail a all ts h.1)

All-in : {A : Type 0} (xs : List A) → All (λ t. Memᴰ t xs) xs
All-in [] = tt
All-in (x ∷ xs) = (Memᴰ.head refl, All-tail x xs xs (All-in xs))

module _ {S : Type 0} (config : GeneratorConfig)
    (base_rate : Option (Template S → Option Calibration)) (s : S) (now : ℕ) (g : Generator) where
  abbrev pub rank_of : Template S → ℕ
  rank_of t = rank config s now t (picked_at t.prediction_type g.last_picked_at)

  -- There is a best one, and its rank is `r` at least.
  abbrev pub Dominates : Option (Template S × ℕ) → ℕ → Type 0
  Dominates none r = ⊥
  Dominates (some best) r = r ≤ best.1

  abbrev pub IsSituational : List (Template S) → Template S × ℕ → Type 0
  IsSituational ts (t, r) =
      Memᴰ t ts × (is_candidate config s now g t ≡ true) × (t.ambient ≡ false) × (r ≡ rank_of t)

  abbrev pub IsAmbient : List (Template S) → Measured S → Type 0
  IsAmbient ts m =
      Memᴰ m.template ts
      × (is_candidate config s now g m.template ≡ true)
      × (m.template.ambient ≡ true)
      × (calibration_for base_rate m.template ≡ some m.calibration)

  better-Dominates :
      (b : Option (Template S × ℕ)) (t : Template S) (r : ℕ) → Dominates (better b t r) r
  better-Dominates none t r = omega arith
  better-Dominates (some best) t r = ground arith

  better-keeps :
      (b : Option (Template S × ℕ)) (t : Template S) (r q : ℕ)
      → Dominates b q
      → Dominates (better b t r) q
  better-keeps none t r q h = absurd h
  better-keeps (some best) t r q h = ground arith

  consider-keeps :
      (c a : Bool) (t : Template S) (f : Found S) (q : ℕ)
      → Dominates f.best q
      → Dominates (consider config base_rate c a s now g t f).best q
  consider-keeps false a t f q h = h
  consider-keeps true true t f q h = h
  consider-keeps true false t f q h = better-keeps f.best t (rank_of t) q h

  scan-keeps :
      (ts : List (Template S)) (f : Found S) (q : ℕ)
      → Dominates f.best q
      → Dominates (scan config base_rate s now g ts f).best q
  unfolding scan
  scan-keeps [] f q h = h
  scan-keeps (t ∷ ts) f q h =
      let c = is_candidate config s now g t in
      scan-keeps ts (consider config base_rate c t.ambient s now g t f) q
        (consider-keeps c t.ambient t f q h)

  consider-Dominates :
      (c a : Bool) (t : Template S) (f : Found S)
      → c ≡ true
      → a ≡ false
      → Dominates (consider config base_rate c a s now g t f).best (rank_of t)
  consider-Dominates false a t f h k = absurd (cc)
  consider-Dominates true true t f h k = absurd (cc)
  consider-Dominates true false t f h k = better-Dominates f.best t (rank_of t)

  -- The best one found is no worse than any situational candidate of the catalog.
  pub scan-Dominates :
      (ts : List (Template S)) (f : Found S) (t : Template S)
      → Memᴰ t ts
      → is_candidate config s now g t ≡ true
      → t.ambient ≡ false
      → Dominates (scan config base_rate s now g ts f).best (rank_of t)
  unfolding scan
  scan-Dominates [] f t m h k = elim m [ ]
  scan-Dominates (u ∷ ts) f t (Memᴰ.head e) h k =
      let c = is_candidate config s now g u in
      scan-keeps ts (consider config base_rate c u.ambient s now g u f) (rank_of t) (
        subst (λ x. Dominates (consider config base_rate c u.ambient s now g u f).best (rank_of x))
          (sym e)
          (consider-Dominates c u.ambient u f
            (subst (λ x. is_candidate config s now g x ≡ true) e h)
            (subst (λ x. x.ambient ≡ false) e k)))
  scan-Dominates (u ∷ ts) f t (Memᴰ.tail m) h k =
      scan-Dominates ts
        (consider config base_rate (is_candidate config s now g u) u.ambient s now g u f) t m h k

  -- Where the best one and the measured ones come from.
  abbrev Origins : List (Template S) → Found S → Type 0
  Origins ts f = OnSome (IsSituational ts) f.best × All (IsAmbient ts) f.ambient

  better-IsSituational :
      (all : List (Template S)) (b : Option (Template S × ℕ)) (t : Template S)
      → OnSome (IsSituational all) b
      → IsSituational all (t, rank_of t)
      → OnSome (IsSituational all) (better b t (rank_of t))
  better-IsSituational all none t h k = k
  better-IsSituational all (some b) t h k = elim (Bool-cases (ltb b.1 (rank_of t))) [
    | inl more ↦ rw more k
    | inr less ↦ rw less h
  ]

  add_measured-IsAmbient :
      (all : List (Template S)) (t : Template S) (last : Option ℕ) (c : Option Calibration)
      (ms : List (Measured S))
      → All (IsAmbient all) ms
      → Memᴰ t all × (is_candidate config s now g t ≡ true) × (t.ambient ≡ true)
      → c ≡ calibration_for base_rate t
      → All (IsAmbient all) (add_measured config base_rate t last c ms)
  add_measured-IsAmbient all t last none ms h k e = h
  add_measured-IsAmbient all t last (some c) ms h k e =
      All-append (IsAmbient all) ms
        (record { template = t; calibration = c; last_picked = last } ∷ []) h
        ((k.0, k.1, k.2, sym e), tt)

  consider-Origins :
      (all : List (Template S)) (c a : Bool) (t : Template S) (f : Found S)
      → Memᴰ t all
      → c ≡ is_candidate config s now g t
      → a ≡ t.ambient
      → Origins all f
      → Origins all (consider config base_rate c a s now g t f)
  consider-Origins all false a t f i p q h = h
  consider-Origins all true true t f i p q h = (
    h.0,
    add_measured-IsAmbient all t (picked_at t.prediction_type g.last_picked_at)
        (calibration_for base_rate t) f.ambient h.1 (i, sym p, sym q) refl,
  )
  consider-Origins all true false t f i p q h =
      (better-IsSituational all f.best t h.0 (i, sym p, sym q, refl), h.1)

  scan-Origins :
      (all ts : List (Template S)) (f : Found S)
      → All (λ t. Memᴰ t all) ts
      → Origins all f
      → Origins all (scan config base_rate s now g ts f)
  unfolding scan
  scan-Origins all [] f i h = h
  scan-Origins all (t ∷ ts) f i h =
      let c = is_candidate config s now g t in
      scan-Origins all ts (consider config base_rate c t.ambient s now g t f) i.1
        (consider-Origins all c t.ambient t f i.0 refl refl h)

  -- The best one is a situational candidate of the catalog, and the measured ones are ambient
  -- candidates of it, with their measurement.
  pub catalog-Origins :
      (catalog : List (Template S))
      → let f = scan config base_rate s now g catalog (record { best = none; ambient = [] }) in
        OnSome (IsSituational catalog) f.best × All (IsAmbient catalog) f.ambient
  catalog-Origins catalog =
      scan-Origins catalog catalog (record { best = none; ambient = [] }) (All-in catalog) (tt, tt)

  least-All :
      (P : Measured S → Type 0) (m : Measured S) (ms : List (Measured S))
      → P m
      → All P ms
      → P (least now m ms)
  least-All P m [] p h = p
  least-All P m (c ∷ ms) p h = elim (Bool-cases (comes_before now c m)) [
    | inl b ↦ rw b (least-All P c ms h.0 h.1)
    | inr b ↦ rw b (least-All P m ms p h.1)
  ]

  pub pick_ambient-All :
      (P : Measured S → Type 0) (ms : List (Measured S)) → All P ms → OnSome P (pick_ambient now ms)
  unfolding pick_ambient
  pick_ambient-All P [] h = tt
  pick_ambient-All P (m ∷ ms) h = least-All P m ms h.0 h.1
