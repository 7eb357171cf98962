-- ===== src/Predictions/Record.antt =====
-- The history of `RollingBaseRate`, harness/wasted_harness/predictions/baserate.py, over observed events.
use wanted.Base.{
  ℕ, ◌-◌, ◌≤◌, ◌≡◌, refl, false, Option, none, some, List, [], ◌∷◌, ◌++◌, arith, ltb, leb,
  if◌then◌else◌, Bool-cases, inl, inr, length,
}
use wanted.Base.Sort.{IsSortedFrom}
use wanted.Predictions.BaseRate.{
  Event, BaseRate, last_ts, insort, drop_before, first_ts, prune, observe, observe_many, is_before,
  earliest, pruned,
}
use wanted.Predictions.Measure.{IsHistory}

abbrev InOrder : ℕ → List Event → Type 0
InOrder lo es = IsSortedFrom (λ e. e.ts) lo es

insort-InOrder :
    (lo : ℕ) (e : Event) (es : List Event) → lo ≤ e.ts → InOrder lo es → InOrder lo (insort e es)
insort-InOrder lo e [] p h = (p, tt)
insort-InOrder lo e (f ∷ es) p h = elim (Bool-cases (leb f.ts e.ts)) [
  | inl b ↦ rw b (h.0, insort-InOrder f.ts e es (ground arith) h.1)
  | inr b ↦ rw b (p, (ground arith, h.1))
]

append-InOrder :
    (lo : ℕ) (e f : Event) (es : List Event)
    → InOrder lo (f ∷ es)
    → is_before e.ts (last_ts (f ∷ es)) ≡ false
    → InOrder lo ((f ∷ es) ++ e ∷ [])
append-InOrder lo e f [] h q = (h.0, (ground arith, tt))
append-InOrder lo e f (g ∷ es) h q = (h.0, append-InOrder f.ts e g es h.1 q)

recorded-InOrder :
    (e : Event) (es : List Event)
    → InOrder 0 es
    → InOrder 0 (if is_before e.ts (last_ts es) then insort e es else es ++ e ∷ [])
recorded-InOrder e [] h = (omega arith, tt)
recorded-InOrder e (f ∷ es) h = elim (Bool-cases (is_before e.ts (last_ts (f ∷ es)))) [
  | inl early ↦ rw early (insort-InOrder 0 e (f ∷ es) (omega arith) h)
  | inr late ↦ rw late (append-InOrder 0 e f es h late)
]

drop_before-InOrder :
    (cutoff lo : ℕ) (es : List Event) → InOrder lo es → InOrder 0 (drop_before cutoff es)
drop_before-InOrder cutoff lo [] h = tt
drop_before-InOrder cutoff lo (e ∷ es) h = elim (Bool-cases (ltb e.ts cutoff)) [
  | inl old ↦ rw old (drop_before-InOrder cutoff e.ts es h.1)
  | inr recent ↦ rw recent (omega arith, h.1)
]

prune-IsHistory : (now : ℕ) (b : BaseRate) → IsHistory b → IsHistory (prune now b)
unfolding prune
prune-IsHistory now b h = go (first_ts b.events)
  where
    go : (first : Option ℕ) → IsHistory (pruned first (now - b.history_s) b)
    go none = h
    go (some first) = elim (Bool-cases (leb (now - b.history_s) first)) [
      | inl all ↦ rw all h
      | inr some_ ↦ rw some_ (record {
        ordered = drop_before-InOrder (now - b.history_s) 0 b.events h.ordered;
        filled = tt;
      })
    ]

observe-IsHistory : (now : ℕ) (e : Event) (b : BaseRate) → IsHistory b → IsHistory (observe now e b)
unfolding observe
observe-IsHistory now e b h =
    prune-IsHistory now
      (record b {
        events =
            if is_before e.ts (last_ts b.events) then insort e b.events else b.events ++ e ∷ [];
        origin = some (earliest b.origin e.ts);
        hits = [];
      })
      (record { ordered = recorded-InOrder e b.events h.ordered; filled = tt })

-- A bulk load takes every row, in whatever order their moments come, and leaves a history that is in
-- order, with a cache that is that of its events.
pub observe_many-IsHistory :
    (rows : List (ℕ × Event)) (b : BaseRate)
    → IsHistory b
    → let (b', taken) = observe_many rows b in IsHistory b' × (taken ≡ length rows)
unfolding observe_many
observe_many-IsHistory [] b h = (h, refl)
observe_many-IsHistory ((now, e) ∷ rows) b h =
    let (k, n) = observe_many-IsHistory rows (observe now e b) (observe-IsHistory now e b h) in
    (k, omega (arith, n))
