-- ===== src/Recovery/Still.antt =====
-- `check` of `IdleBreaker`, harness/wasted_harness/behavior/recovery.py, over a history of looks.
use wanted.Base.{
  ℕ, ◌+◌, ◌-◌, ◌≤◌, ◌<◌, ◌≡◌, refl, sym, subst, ◌⊎◌, inl, inr, Bool, true, false, not, ◌||◌, Option,
  none, some, List, [], ◌∷◌, All, All-map, OnSome, ltb, if◌then◌else◌, Bool-cases, arith,
}
use wanted.Tasks.{Vec, planar_distance_squared, metres_squared}
use wanted.Recovery.Idle.{
  Seen, IdleBreaker, IdleAction, idle_move, idle_window, idle_rung_hold, reset, anchored, has_moved,
  loses_health, remember, observe, still_since, still_for_s, is_free, fire, check,
}

-- A call of `check`.
pub record Look : Type 0 where
  pub at : ℕ
  pub seen : Seen

-- The calls follow one another.
abbrev pub InOrder : ℕ → List Look → ℕ → Type 0
InOrder first [] last = first ≤ last
InOrder first (l ∷ ls) last = (first ≤ l.at) × InOrder l.at ls last

-- On foot and in control, within six metres of a point.
abbrev pub IsStill : Vec → Look → Type 0
IsStill a l =
    (is_free l.seen ≡ true) × (planar_distance_squared l.seen.pos a < metres_squared idle_move)

-- The looks so far, newest first, all by `now`: those since the anchor was set are still around it.
record Kept (now : ℕ) (anchor : Option Vec) (anchor_at : ℕ) (log : List Look) : Type 0 where
  past : All (λ l. l.at ≤ now) log
  still : OnSome (λ a. All (λ l. (l.at ≤ anchor_at) ⊎ IsStill a l) log) anchor

abbrev IsKept : ℕ → IdleBreaker → List Look → Type 0
IsKept now b log = Kept now b.anchor b.anchor_at log

reanchored :
    (now : ℕ) (a : Vec) (log : List Look) → All (λ l. l.at ≤ now) log → Kept now (some a) now log
reanchored now a log past = record { past = past; still = All-map (λ l le. inl le) log past }

anchored-IsKept :
    (o : Option Vec) (now now' : ℕ) (hurt : Bool) (s : Seen) (b : IdleBreaker) (log : List Look)
    → b.anchor ≡ o
    → now ≤ now'
    → is_free s ≡ true
    → IsKept now b log
    → IsKept now' (anchored o now' hurt s.pos b) (record { at = now'; seen = s } ∷ log)
anchored-IsKept none now now' hurt s b log e le free k =
    reanchored now' s.pos (record { at = now'; seen = s } ∷ log)
      (omega arith, All-map (λ l h. omega (arith, h, le)) log k.past)
anchored-IsKept (some a) now now' hurt s b log e le free k =
    elim (Bool-cases (has_moved a s.pos || hurt)) [
      | inl moved ↦ rw moved (reanchored now' s.pos (record { at = now'; seen = s } ∷ log) past)
      | inr stays ↦
          let here : planar_distance_squared s.pos a < metres_squared idle_move = near stays in
          let still =
            subst (OnSome (λ a. All (λ l. (l.at ≤ b.anchor_at) ⊎ IsStill a l) log)) e k.still in
          rw stays (
            subst (λ x. Kept now' x b.anchor_at (record { at = now'; seen = s } ∷ log)) (sym e)
              (record { past = past; still = (inr (free, here), still) }))
    ]
  where
    past : All (λ l. l.at ≤ now') (record { at = now'; seen = s } ∷ log)
    past = (omega arith, All-map (λ l h. omega (arith, h, le)) log k.past)

    near :
        (has_moved a s.pos || hurt) ≡ false
        → planar_distance_squared s.pos a < metres_squared idle_move
    near h = ground arith

observe-IsKept :
    (now now' : ℕ) (s : Seen) (b : IdleBreaker) (log : List Look)
    → now ≤ now'
    → is_free s ≡ true
    → IsKept now b log
    → IsKept now' (observe now' s b) (record { at = now'; seen = s } ∷ log)
unfolding observe
observe-IsKept now now' s b log le free k =
    anchored-IsKept b.anchor now now' (loses_health b.health s.health) s (remember now' s b) log
      refl le free k

-- The breaker acted: he has been on foot and in control, within six metres of a point, in every look
-- of the last 25 seconds.
abbrev pub HasStood : ℕ → List Look → Type 0
HasStood now log = (a : Vec) × All (λ l. (l.at + idle_window ≤ now) ⊎ IsStill a l) log

stood :
    (now : ℕ) (b : IdleBreaker) (log : List Look)
    → IsKept now b log
    → ltb (still_for_s now b) idle_window ≡ false
    → HasStood now log
unfolding still_for_s
stood now b log k h = go b.anchor k.still h
  where
    go :
        (o : Option Vec)
        → OnSome (λ a. All (λ l. (l.at ≤ b.anchor_at) ⊎ IsStill a l) log) o
        → ltb (still_since o b.anchor_at now) idle_window ≡ false
        → HasStood now log
    go none still f = absurd (ground arith)
    go (some a) still f = (a, All-map (λ l. widen l f) log still)
      where
        widen :
            (l : Look)
            → ltb (now - b.anchor_at) idle_window ≡ false
            → (l.at ≤ b.anchor_at) ⊎ IsStill a l
            → (l.at + idle_window ≤ now) ⊎ IsStill a l
        widen l f (inl old) = inl (ground arith)
        widen l f (inr is) = inr is

-- When it acted last: neither the rung's hold nor the anchor is older.
abbrev IsSince : Option ℕ → ℕ → ℕ → Type 0
IsSince last fired_at anchor_at = OnSome (λ f. (f ≤ fired_at) ⊎ (f ≤ anchor_at)) last

-- At least nine seconds after the last action.
abbrev pub IsSpaced : Option ℕ → ℕ → Type 0
IsSpaced last now = OnSome (λ f. f + idle_rung_hold ≤ now) last

record Tracked (now : ℕ) (b : IdleBreaker) (log : List Look) (last : Option ℕ) : Type 0 where
  kept : IsKept now b log
  anchor_past : b.anchor_at ≤ now
  since : IsSince last b.fired_at b.anchor_at
  last_past : OnSome (λ f. f ≤ now) last

OnSome-map : {P Q : ℕ → Type 0} (o : Option ℕ) → ((f : ℕ) → P f → Q f) → OnSome P o → OnSome Q o
OnSome-map none g p = tt
OnSome-map (some f) g p = g f p

observe-fields :
    (now now' : ℕ) (s : Seen) (b : IdleBreaker)
    → b.anchor_at ≤ now
    → now ≤ now'
    → let seen = observe now' s b in
      (seen.fired_at ≡ b.fired_at) × (seen.anchor_at ≤ now') × (b.anchor_at ≤ seen.anchor_at)
unfolding observe
observe-fields now now' s b h le = go b.anchor
  where
    go :
        (o : Option Vec)
        → let seen = anchored o now' (loses_health b.health s.health) s.pos (remember now' s b) in
          (seen.fired_at ≡ b.fired_at) × (seen.anchor_at ≤ now') × (b.anchor_at ≤ seen.anchor_at)
    go none = (refl, omega arith, omega (arith, h, le))
    go (some a) = elim (Bool-cases (has_moved a s.pos || loses_health b.health s.health)) [
      | inl moved ↦ rw moved (refl, omega arith, omega (arith, h, le))
      | inr stays ↦ rw stays (refl, omega (arith, h, le), omega arith)
    ]

observe-Tracked :
    (now now' : ℕ) (s : Seen) (b : IdleBreaker) (log : List Look) (last : Option ℕ)
    → now ≤ now'
    → is_free s ≡ true
    → Tracked now b log last
    → Tracked now' (observe now' s b) (record { at = now'; seen = s } ∷ log) last
observe-Tracked now now' s b log last le free k =
    let (fired, past, later) = observe-fields now now' s b k.anchor_past le in
    record {
      kept = observe-IsKept now now' s b log le free k.kept;
      anchor_past = past;
      since =
          OnSome-map last
            (λ f e. elim e [
              | inl p ↦ inl (omega (arith, p, fired))
              | inr p ↦ inr (omega (arith, p, later))
            ])
            k.since;
      last_past = OnSome-map last (λ f p. omega (arith, p, le)) k.last_past;
    }

-- After a look: what is tracked, and why it acted, if it did.
abbrev pub then_at : Option IdleAction → ℕ → Option ℕ → Option ℕ
then_at none now last = last
then_at (some _) now last = some now

abbrev Outcome : Look → List Look → Option ℕ → IdleBreaker × Option IdleAction → Type 0
Outcome l log last (b, action) =
    Tracked l.at b (l ∷ log) (then_at action l.at last)
    × OnSome (λ _. HasStood l.at (l ∷ log) × IsSpaced last l.at) action

stood-anchor :
    (now : ℕ) (b : IdleBreaker)
    → ltb (still_for_s now b) idle_window ≡ false
    → b.anchor_at + idle_window ≤ now
unfolding still_for_s
stood-anchor now b h = go b.anchor h
  where
    go :
        (o : Option Vec)
        → ltb (still_since o b.anchor_at now) idle_window ≡ false
        → b.anchor_at + idle_window ≤ now
    go none f = absurd (ground arith)
    go (some a) f = ground arith

reset-Tracked :
    (now : ℕ) (l : Look) (b : IdleBreaker) (log : List Look) (last : Option ℕ)
    → now ≤ l.at
    → Tracked now b log last
    → Tracked l.at (reset l.at (observe l.at l.seen b)) (l ∷ log) last
unfolding reset
reset-Tracked now l b log last le k = record {
  kept = record {
    past = (omega arith, All-map (λ m h. omega (arith, h, le)) log k.kept.past);
    still = tt;
  };
  anchor_past = omega arith;
  since = OnSome-map last (λ f p. inr (omega (arith, p, le))) k.last_past;
  last_past = OnSome-map last (λ f p. omega (arith, p, le)) k.last_past;
}

fire-Outcome :
    (l : Look) (b : IdleBreaker) (log : List Look) (last : Option ℕ)
    → ltb (still_for_s l.at b) idle_window ≡ false
    → ltb (l.at - b.fired_at) idle_rung_hold ≡ false
    → Tracked l.at b (l ∷ log) last
    → Outcome l log last (fire l.at l.seen b)
unfolding fire
fire-Outcome l b log last still hold k =
    let anchor = stood-anchor l.at b still in
    (
      record {
        kept = record { past = k.kept.past; still = k.kept.still };
        anchor_past = k.anchor_past;
        since = inl (omega arith);
        last_past = omega arith;
      },
      (
        stood l.at b (l ∷ log) k.kept still,
        OnSome-map last (λ f e. elim e [ inl p ↦ held f p | inr p ↦ omega (arith, p, anchor) ])
            k.since,
      ),
    )
  where
    held : (f : ℕ) → f ≤ b.fired_at → f + idle_rung_hold ≤ l.at
    held f p = ground arith

check-Outcome :
    (now : ℕ) (l : Look) (b : IdleBreaker) (log : List Look) (last : Option ℕ)
    → now ≤ l.at
    → Tracked now b log last
    → Outcome l log last (check l.at l.seen b)
unfolding check
check-Outcome now l b log last le k =
    go (is_free l.seen) (ltb (still_for_s l.at seen) idle_window)
      (ltb (l.at - seen.fired_at) idle_rung_hold) refl refl refl
  where
    seen : IdleBreaker
    seen = observe l.at l.seen b

    P : Bool → Bool → Bool → IdleBreaker × Option IdleAction
    P free moves waits =
        if not free
        then (reset l.at seen, none)
        else if moves
        then (seen, none)
        else if waits
        then (seen, none)
        else fire l.at l.seen seen

    go :
        (free moves waits : Bool)
        → is_free l.seen ≡ free
        → ltb (still_for_s l.at seen) idle_window ≡ moves
        → ltb (l.at - seen.fired_at) idle_rung_hold ≡ waits
        → Outcome l log last (P free moves waits)
    go false moves waits f m w = (reset-Tracked now l b log last le k, tt)
    go true true waits f m w = (observe-Tracked now l.at l.seen b log last le f k, tt)
    go true false true f m w = (observe-Tracked now l.at l.seen b log last le f k, tt)
    go true false false f m w =
        fire-Outcome l seen log last m w (observe-Tracked now l.at l.seen b log last le f k)

-- Whatever is seen in a run, whenever the breaker acts it has cause to.
abbrev pub ActsWithCause : List Look → IdleBreaker → List Look → Option ℕ → Type 0
ActsWithCause [] b log last = Unit
ActsWithCause (l ∷ ls) b log last =
    let (b', action) = check l.at l.seen b in
    OnSome (λ _. HasStood l.at (l ∷ log) × IsSpaced last l.at) action
    × ActsWithCause ls b' (l ∷ log) (then_at action l.at last)

run-ActsWithCause :
    (ls : List Look) (first last_look : ℕ) (b : IdleBreaker) (log : List Look) (last : Option ℕ)
    → InOrder first ls last_look
    → Tracked first b log last
    → ActsWithCause ls b log last
run-ActsWithCause [] first last_look b log last o k = tt
run-ActsWithCause (l ∷ ls) first last_look b log last (o, os) k =
    let (tracked, cause) = check-Outcome first l b log last o k in
    (
      cause,
      run-ActsWithCause ls l.at last_look (check l.at l.seen b).0 (l ∷ log)
          (then_at (check l.at l.seen b).1 l.at last) os tracked,
    )

-- From a breaker without an anchor on, whatever is seen at moments that follow one another: whenever it
-- acts, there is a point that he was within six metres of, on foot and in control, at every look of the
-- last 25 seconds, the current one too; and nine seconds have passed since it acted last.
pub check-ActsWithCause :
    (ls : List Look) (first last : ℕ) (b : IdleBreaker)
    → b.anchor ≡ none
    → b.anchor_at ≤ first
    → InOrder first ls last
    → ActsWithCause ls b [] none
check-ActsWithCause ls first last b none_ le o =
    run-ActsWithCause ls first last b [] none o (record {
      kept = record {
        past = tt;
        still =
            subst (OnSome (λ a. All (λ l. (l.at ≤ b.anchor_at) ⊎ IsStill a l) [])) (sym none_) tt;
      };
      anchor_past = le;
      since = tt;
      last_past = tt;
    })
