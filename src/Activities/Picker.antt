-- ===== src/Activities/Picker.antt =====
-- `ActivityPicker` of harness/wasted_harness/behavior/activities.py, over any catalogue. A
-- method takes each reading of the clock that it makes.
use wanted.Base.{
  ℕ, ◌+◌, ◌*◌, Bool, false, not, ◌&&◌, Option, none, some, List, [], ◌∷◌, ◌++◌, Name, ltb, leb,
  ◌==◌, if◌then◌else◌, is_some, get_or, elapsed, any, keep, sum_by, length, drop, ◌-◌,
}
use wanted.Tasks.{Action, Vec}

abbrev pub hour : ℕ
hour = 3600000

-- `mood_affinity` gives a multiplier for the moods that it lists. `needs_death_spot` is whether the
-- activity is "visit_death_spot".
pub record Activity : Type 0 where
  pub name : Name
  pub weight : ℕ
  pub cooldown_s : ℕ
  pub chaos_cost : ℕ
  pub category : Name
  pub mood_affinity : Name → Option ℕ
  pub plan : List Action
  pub needs_death_spot : Bool

-- CHAOS_BUDGET_PER_HOUR
abbrev pub chaos_budget_per_hour : ℕ
chaos_budget_per_hour = 200

abbrev pub category_memory : ℕ
category_memory = 2

pub record Picker : Type 0 where
  pub last_run : List (Name × ℕ)
  pub chaos_spent : List (ℕ × ℕ)
  pub recent_categories : List Name
  pub last_name : Option Name
  pub last_death_pos : Option Vec

abbrev pub lookup : Name → List (Name × ℕ) → Option ℕ
lookup k [] = none
lookup k ((j, v) ∷ m) = if j == k then some v else lookup k m

abbrev pub put : Name → ℕ → List (Name × ℕ) → List (Name × ℕ)
put k v [] = (k, v) ∷ []
put k v ((j, w) ∷ m) = if j == k then (k, v) ∷ m else (j, w) ∷ put k v m

-- `now - t < 3600.0`
abbrev pub is_recent : ℕ → ℕ × ℕ → Bool
is_recent now e = ltb now (e.0 + hour)

-- The pruning in `chaos_available`, and what has been spent in the hour. The budget that is left
-- may be negative, so the tests against it compare with the budget.
unfoldable pub prune_chaos : ℕ → Picker → Picker
prune_chaos now p = record p { chaos_spent = keep (is_recent now) p.chaos_spent }

abbrev pub chaos_sum : List (ℕ × ℕ) → ℕ
chaos_sum = sum_by (λ (e : ℕ × ℕ). e.1)

-- `self._recent_categories[-_CATEGORY_MEMORY:]`
abbrev pub last_two : List Name → List Name
last_two xs = drop (length xs - category_memory) xs

abbrev pub last_of : List Name → Option Name
last_of [] = none
last_of (x ∷ []) = some x
last_of (x ∷ y ∷ xs) = last_of (y ∷ xs)

abbrev pub is_last : List Name → Name → Bool
is_last xs c = elim (last_of xs) [ none ↦ false | some x ↦ x == c ]

-- In ten-thousandths.
unfoldable pub variety_multiplier : Picker → Activity → ℕ
variety_multiplier p a =
    let recent = last_two p.recent_categories in
    let m =
      if is_last recent a.category
      then 35
      else if any (λ c. c == a.category) recent
      then 70
      else 100 in
    m * (elim p.last_name [ none ↦ 100 | some n ↦ if n == a.name then 25 else 100 ])

unfoldable pub weigh : Picker → Name → Activity → ℕ
weigh p mood a = a.weight * get_or (a.mood_affinity mood) 100 * variety_multiplier p a

-- The four reasons for which the loop of `eligible` passes an activity over.
unfoldable pub is_eligible : ℕ → Name → Picker → Activity → Bool
is_eligible now mood p a =
    elapsed (lookup a.name p.last_run) a.cooldown_s now
    && leb (a.chaos_cost + chaos_sum p.chaos_spent) chaos_budget_per_hour
    && not (a.needs_death_spot && not (is_some p.last_death_pos))
    && ltb 0 (weigh p mood a)

abbrev pub weigh_all : Picker → Name → List Activity → List (Activity × ℕ)
weigh_all p mood [] = []
weigh_all p mood (a ∷ as_) = (a, weigh p mood a) ∷ weigh_all p mood as_

-- `eligible`, on a picker whose chaos is pruned.
unfoldable pub eligible : List Activity → ℕ → Name → Picker → List (Activity × ℕ)
eligible catalog now mood p = weigh_all p mood (keep (is_eligible now mood p) catalog)

abbrev pub find_name : Name → List (Activity × ℕ) → Option Activity
find_name n [] = none
find_name n ((a, w) ∷ rest) = if a.name == n then some a else find_name n rest

-- The loop over the accumulated weights; `chosen` is the last candidate.
unfoldable pub draw : ℕ → ℕ → Activity → List (Activity × ℕ) → Activity
draw r acc chosen [] = chosen
draw r acc chosen ((a, w) ∷ rest) = if leb r (acc + w) then a else draw r (acc + w) chosen rest

abbrev pub last_candidate : Activity → List (Activity × ℕ) → Activity
last_candidate a [] = a
last_candidate a ((b, _) ∷ rest) = last_candidate b rest

abbrev pub choose : Option Name → ℕ → List (Activity × ℕ) → Option Activity
choose prefer r [] = none
choose prefer r ((a, w) ∷ rest) =
    let candidates = (a, w) ∷ rest in
    let drawn = draw r 0 (last_candidate a rest) candidates in
    elim prefer [ none ↦ some drawn | some n ↦ some (get_or (find_name n candidates) drawn) ]

-- `peek`; `r` is the draw of `uniform(0, total)`. `eligible` reads the clock for the cooldowns at `now`,
-- and its `chaos_available` at `later`.
unfoldable pub peek :
    List Activity → ℕ → ℕ → ℕ → Name → Option Name → Picker → Picker × Option Activity
peek catalog now later r mood prefer p =
    let pruned = prune_chaos later p in (pruned, choose prefer r (eligible catalog now mood pruned))

-- `commit`, with its readings for the cooldown and for the chaos spent; the log line prunes once more,
-- at a third one.
unfoldable pub commit : ℕ → ℕ → ℕ → Activity → Picker → Picker
commit run spent logged a p = prune_chaos logged (record p {
  last_run = put a.name run p.last_run;
  last_name = some a.name;
  recent_categories = last_two (p.recent_categories ++ a.category ∷ []);
  chaos_spent =
      if ltb 0 a.chaos_cost then p.chaos_spent ++ (spent, a.chaos_cost) ∷ [] else p.chaos_spent;
})

-- The readings of the clock that a choice makes, in their order: the two of `peek`, then the three of
-- `commit`.
pub record Readings : Type 0 where
  pub now : ℕ
  pub later : ℕ
  pub run : ℕ
  pub spent : ℕ
  pub logged : ℕ

unfoldable pub pick :
    List Activity → Readings → ℕ → Name → Option Name → Picker → Picker × Option Activity
pick catalog t r mood prefer p =
    let (p', chosen) = peek catalog t.now t.later r mood prefer p in
    elim chosen [ none ↦ (p', none) | some a ↦ (commit t.run t.spent t.logged a p', some a) ]
