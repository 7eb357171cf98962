-- ===== src/Activities/Chaos.antt =====
-- The chaos budget of `ActivityPicker`, harness/wasted_harness/behavior/activities.py, over calls of
-- `pick`.
use wanted.Base.{
  ℕ, ◌+◌, ◌≤◌, ◌≡◌, refl, true, Option, none, some, List, [], ◌∷◌, ◌++◌, Name, ltb, if◌then◌else◌,
  inl, inr, keep, sum_by-append, keep-append, arith, Bool-cases, Option-cases, ap, ◌∙◌, sym,
  append-nil,
}
use wanted.Activities.Picker.{
  Activity, Picker, Readings, chaos_budget_per_hour, chaos_sum, is_recent, prune_chaos, is_eligible,
  peek, commit, pick,
}
use wanted.Activities.Draw.{peek-eligible}

-- One call of `pick`: when, with which draw, mood and preference.
pub record Call : Type 0 where
  pub at : Readings
  pub draw : ℕ
  pub mood : Name
  pub prefer : Option Name

-- What an activity books on its commit.
abbrev pub cost_entry : ℕ → Activity → List (ℕ × ℕ)
cost_entry now a = if ltb 0 a.chaos_cost then (now, a.chaos_cost) ∷ [] else []

-- The calls in turn, with everything that was ever booked: when, and what it cost.
unfoldable pub pick_all : List Activity → List Call → Picker → List (ℕ × ℕ) → Picker × List (ℕ × ℕ)
pick_all catalog [] p log = (p, log)
pick_all catalog (c ∷ cs) p log =
    let (p', chosen) = pick catalog c.at c.draw c.mood c.prefer p in
    pick_all catalog cs p' (log ++ elim chosen [ none ↦ [] | some a ↦ cost_entry c.at.spent a ])

-- The clock does not go back within a call.
abbrev pub IsForward : ℕ → Readings → Type 0
IsForward first t =
    (first ≤ t.now)
    × (t.now ≤ t.later)
    × (t.later ≤ t.run)
    × (t.run ≤ t.spent)
    × (t.spent ≤ t.logged)

-- The calls follow one another in time, and `last` is not before them.
abbrev pub InOrder : ℕ → List Call → ℕ → Type 0
InOrder first [] last = first ≤ last
InOrder first (c ∷ cs) last = IsForward first c.at × InOrder c.at.logged cs last

keep_recent-later :
    (now now' : ℕ) (es : List (ℕ × ℕ))
    → now ≤ now'
    → keep (is_recent now') (keep (is_recent now) es) ≡ keep (is_recent now') es
keep_recent-later now now' [] h = refl
keep_recent-later now now' (e ∷ es) h = ground (arith, keep_recent-later now now' es h)

sum-cost_entry :
    (now now' : ℕ) (a : Activity)
    → chaos_sum (keep (is_recent now') (cost_entry now a)) ≤ a.chaos_cost
sum-cost_entry now now' a = ground arith

-- The picker remembers the last hour of the log, within the budget.
pub record IsBudgeted (now : ℕ) (p : Picker) (log : List (ℕ × ℕ)) : Type 0 where
  pub remembers : keep (is_recent now) p.chaos_spent ≡ keep (is_recent now) log
  pub within : chaos_sum (keep (is_recent now) log) ≤ chaos_budget_per_hour

sum-later :
    (now now' : ℕ) (es : List (ℕ × ℕ))
    → now ≤ now'
    → chaos_sum (keep (is_recent now') es) ≤ chaos_sum (keep (is_recent now) es)
sum-later now now' [] h = omega arith
sum-later now now' (e ∷ es) h = ground (arith, sum-later now now' es h)

later-IsBudgeted :
    (now now' : ℕ) (p : Picker) (log : List (ℕ × ℕ))
    → now ≤ now'
    → IsBudgeted now p log
    → IsBudgeted now' p log
later-IsBudgeted now now' p log h b = record {
  remembers =
      sym (keep_recent-later now now' p.chaos_spent h)
      ∙ ap (keep (is_recent now')) b.remembers
      ∙ keep_recent-later now now' log h;
  within = omega (arith, sum-later now now' log h, b.within);
}

commit-chaos_spent :
    (run spent logged : ℕ) (a : Activity) (p : Picker)
    → (commit run spent logged a p).chaos_spent
      ≡ keep (is_recent logged) (p.chaos_spent ++ cost_entry spent a)
unfolding commit prune_chaos
commit-chaos_spent run spent logged a p = elim (Bool-cases (ltb 0 a.chaos_cost)) [
  | inl costs ↦ rw costs
  | inr free ↦ rw (free, append-nil)
]

commit-IsBudgeted :
    (first : ℕ) (t : Readings) (a : Activity) (p : Picker) (log : List (ℕ × ℕ))
    → IsForward first t
    → IsBudgeted t.later p log
    → a.chaos_cost + chaos_sum (keep (is_recent t.later) p.chaos_spent) ≤ chaos_budget_per_hour
    → IsBudgeted t.logged
        (commit t.run t.spent t.logged a (prune_chaos t.later p))
        (log ++ cost_entry t.spent a)
unfolding prune_chaos
commit-IsBudgeted first t a p log f b fits =
    let after : t.later ≤ t.logged = omega (arith, f) in
    let once = keep_recent-later t.later t.logged p.chaos_spent after in
    let still = (later-IsBudgeted t.later t.logged p log after b).remembers in
    record {
      remembers =
          rw
            (
              commit-chaos_spent,
              keep_recent-later t.logged t.logged _ (omega arith),
              keep-append,
              once,
              still,
            )
            (sym (keep-append (is_recent t.logged) log (cost_entry t.spent a)));
      within = rw keep-append (
          omega (
            arith,
            fits,
            sum-cost_entry t.spent t.logged a,
            sum-later t.later t.logged log after,
            ap chaos_sum b.remembers,
            sum_by-append (λ (e : ℕ × ℕ). e.1) (keep (is_recent t.logged) log)
                (keep (is_recent t.logged) (cost_entry t.spent a)),
          ));
    }

peek-state :
    (catalog : List Activity) (c : Call) (p : Picker)
    → (peek catalog c.at.now c.at.later c.draw c.mood c.prefer p).0 ≡ prune_chaos c.at.later p
unfolding peek
peek-state catalog c p = refl

eligible-fits :
    (now later : ℕ) (mood : Name) (p : Picker) (a : Activity)
    → is_eligible now mood (prune_chaos later p) a ≡ true
    → a.chaos_cost + chaos_sum (keep (is_recent later) p.chaos_spent) ≤ chaos_budget_per_hour
unfolding is_eligible prune_chaos
eligible-fits now later mood p a h = ground arith

-- The state after one call, by what `peek` returned.
pick-IsBudgeted :
    (catalog : List Activity) (first : ℕ) (c : Call) (p : Picker) (log : List (ℕ × ℕ))
    → IsForward first c.at
    → IsBudgeted c.at.later p log
    → let (p', chosen) = pick catalog c.at c.draw c.mood c.prefer p in
      IsBudgeted c.at.logged p'
        (log ++ elim chosen [ none ↦ [] | some a ↦ cost_entry c.at.spent a ])
unfolding pick
pick-IsBudgeted catalog first c p log f b =
    let after : c.at.later ≤ c.at.logged = omega (arith, f) in
    elim (Option-cases (peek catalog c.at.now c.at.later c.draw c.mood c.prefer p).1) [
      | inl nothing ↦
          let still = later-IsBudgeted c.at.later c.at.logged p log after b in
          rw (nothing, pick, append-nil, peek-state)
            (unfold prune_chaos in
              record {
                remembers =
                    keep_recent-later c.at.later c.at.logged p.chaos_spent after ∙ still.remembers;
                within = still.within;
              })
      | inr (a, chosen) ↦
          rw (chosen, pick, peek-state)
            (commit-IsBudgeted first c.at a p log f b (
              eligible-fits c.at.now c.at.later c.mood p a
                (peek-eligible catalog c.at.now c.at.later c.draw c.mood c.prefer p chosen)))
    ]

-- However the picker is called, in any order of draws, moods and preferences at times that follow
-- one another, the activities booked in the hour before any moment after the last call cost at most
-- the budget.
pub pick_all-within_budget :
    (catalog : List Activity) (cs : List Call) (first now : ℕ) (p : Picker) (log : List (ℕ × ℕ))
    → IsBudgeted first p log
    → InOrder first cs now
    → chaos_sum (keep (is_recent now) (pick_all catalog cs p log).1) ≤ chaos_budget_per_hour
unfolding pick_all
pick_all-within_budget catalog [] first now p log b h =
    (later-IsBudgeted first now p log h b).within
pick_all-within_budget catalog (c ∷ cs) first now p log b (f, h) =
    pick_all-within_budget catalog cs c.at.logged now _ _
      (pick-IsBudgeted catalog first c p log f
        (later-IsBudgeted first c.at.later p log (omega (arith, f)) b))
      h
