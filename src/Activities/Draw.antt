-- ===== src/Activities/Draw.antt =====
-- The choice of `ActivityPicker`, harness/wasted_harness/behavior/activities.py: the weighted draw over
-- the candidates, and the cooldown that a commit books.
use wanted.Base.{
  ℕ, ◌+◌, ◌≤◌, ◌<◌, ◌≡◌, true, Option, none, some, List, [], ◌∷◌, ◌++◌, Name, leb, ◌==◌, inl, inr,
  sum_by, All, arith, Bool-cases, Option-cases, ap, OnSome, on_some,
}
use wanted.Activities.Picker.{
  Activity, Picker, lookup, put, is_eligible, eligible, find_name, draw, last_candidate, choose,
  prune_chaos, peek, commit,
}

-- The weights, summed.
abbrev pub total : List (Activity × ℕ) → ℕ
total = sum_by (λ (c : Activity × ℕ). c.1)

-- The draw falls into the chosen candidate's own interval: with a draw above nothing and at most
-- the total, what comes before it weighs less than the draw, and with it at least the draw.
pub draw-interval :
    (r acc : ℕ) (fallback : Activity) (cs : List (Activity × ℕ))
    → acc < r
    → r ≤ acc + total cs
    → (before : List (Activity × ℕ)) × (w : ℕ) × (after : List (Activity × ℕ)) × (cs
        ≡ before ++ (draw r acc fallback cs, w) ∷ after)
      × (acc + total before < r)
      × (r ≤ acc + total before + w)
unfolding draw
draw-interval r acc fallback [] h k = absurd (omega arith)
draw-interval r acc fallback ((a, w) ∷ rest) h k = elim (Bool-cases (leb r (acc + w))) [
  | inl here ↦ ([], w, rest, rw here, omega arith, ground arith)
  | inr further ↦
      let (before, v, after, parts, low, high) =
        draw-interval r (acc + w) fallback rest (ground arith) (omega arith) in
      ((a, w) ∷ before, v, after, rw further (ap (◌∷◌ (a, w)) parts), omega arith, omega arith)
]

module _ {ℓ} (P : Activity → Type ℓ) where
  abbrev AllOf : List (Activity × ℕ) → Type ℓ
  AllOf = All (λ c. P c.0)

  draw-All :
      (r acc : ℕ) (chosen : Activity) (cs : List (Activity × ℕ))
      → P chosen
      → AllOf cs
      → P (draw r acc chosen cs)
  unfolding draw
  draw-All r acc chosen [] p h = p
  draw-All r acc chosen ((a, w) ∷ rest) p h = elim (Bool-cases (leb r (acc + w))) [
    | inl here ↦ rw here h.0
    | inr further ↦ rw further (draw-All r (acc + w) chosen rest p h.1)
  ]

  last-All : (a : Activity) (cs : List (Activity × ℕ)) → P a → AllOf cs → P (last_candidate a cs)
  last-All a [] p h = p
  last-All a ((b, w) ∷ rest) p h = last-All b rest h.0 h.1

  find-All : (n : Name) (cs : List (Activity × ℕ)) → AllOf cs → OnSome P (find_name n cs)
  find-All n [] h = tt
  find-All n ((b, w) ∷ rest) h = elim (Bool-cases (b.name == n)) [
    | inl hit ↦ rw hit h.0
    | inr miss ↦ rw miss (find-All n rest h.1)
  ]

  choose-All :
      (prefer : Option Name) (r : ℕ) (cs : List (Activity × ℕ))
      → AllOf cs
      → OnSome P (choose prefer r cs)
  choose-All prefer r [] h = tt
  choose-All none r ((b, w) ∷ rest) h =
      draw-All r 0 (last_candidate b rest) ((b, w) ∷ rest) (last-All b rest h.0 h.1) h
  choose-All (some n) r ((b, w) ∷ rest) h = elim (Option-cases (find_name n ((b, w) ∷ rest))) [
    | inl missing ↦
        rw missing
          (draw-All r 0 (last_candidate b rest) ((b, w) ∷ rest) (last-All b rest h.0 h.1) h)
    | inr (c, found) ↦ rw found (rw found at (find-All n ((b, w) ∷ rest) h))
  ]

eligible-All :
    (now : ℕ) (mood : Name) (p : Picker) (catalog : List Activity)
    → All (λ (c : Activity × ℕ). is_eligible now mood p c.0 ≡ true) (eligible catalog now mood p)
unfolding eligible
eligible-All now mood p [] = tt
eligible-All now mood p (a ∷ as_) = elim (Bool-cases (is_eligible now mood p a)) [
  | inl fits ↦ rw fits (fits, eligible-All now mood p as_)
  | inr not_yet ↦ rw not_yet (eligible-All now mood p as_)
]

-- Whatever is asked for or drawn, `peek` returns an activity that is eligible at that moment: its
-- cooldown is over, the chaos that it costs fits into what is left of the hour's budget, a death
-- spot is known if it needs one, and its weight is above nothing.
pub peek-eligible :
    (catalog : List Activity) (now later r : ℕ) (mood : Name) (prefer : Option Name) (p : Picker)
    {a : Activity}
    → (peek catalog now later r mood prefer p).1 ≡ some a
    → is_eligible now mood (prune_chaos later p) a ≡ true
unfolding peek
peek-eligible catalog now later r mood prefer p e =
    on_some (λ a. is_eligible now mood (prune_chaos later p) a ≡ true) _
      (choose-All (λ a. is_eligible now mood (prune_chaos later p) a ≡ true) prefer r
        (eligible catalog now mood (prune_chaos later p))
        (eligible-All now mood (prune_chaos later p) catalog))
      e

lookup-put : (k : Name) (v : ℕ) (m : List (Name × ℕ)) → lookup k (put k v m) ≡ some v
lookup-put k v [] = ground arith
lookup-put k v ((j, w) ∷ m) = ground (arith, lookup-put k v m)

-- Once an activity has been committed, `peek` returns none of its name before the cooldown of the
-- one that it would return is over.
pub commit-cooldown :
    (catalog : List Activity) (run spent logged now' later' r : ℕ) (mood : Name)
    (prefer : Option Name) (p : Picker) (a b : Activity)
    → b.name ≡ a.name
    → (peek catalog now' later' r mood prefer (commit run spent logged a p)).1 ≡ some b
    → run + b.cooldown_s ≤ now'
unfolding commit prune_chaos is_eligible
commit-cooldown catalog run spent logged now' later' r mood prefer p a b same_name e =
    let fits = peek-eligible catalog now' later' r mood prefer (commit run spent logged a p) e in
    let ran : lookup b.name (put a.name run p.last_run) ≡ some run =
      rw same_name (lookup-put a.name run p.last_run) in
    ground (arith, fits, ran)
