-- ===== src/Predictions/BaseRate.antt =====
-- `RollingBaseRate` of harness/wasted_harness/predictions/baserate.py.
use native.Mathlib.Decide.{ℕ_discrete}
use wanted.Base.{
  ℕ, zero, suc, ◌+◌, ◌-◌, Bool, true, false, ◌&&◌, Option, none, some, List, [], ◌∷◌, ◌++◌, Name,
  ltb, leb, ◌==◌, if◌then◌else◌, is_some, is_nil, get_or, max,
}
use wanted.Predictions.Window.{RuleKind, Payload, Rule, Template}

pub record Event : Type 0 where
  pub ts : ℕ
  pub type_ : Name
  pub payload : Payload

-- `key in payload and payload[key] == value`
abbrev pub has_item : Name → Name → Payload → Bool
has_item key value [] = false
has_item key value ((k, v) ∷ p) = if k == key then v == value else has_item key value p

abbrev pub has_all : Payload → Payload → Bool
has_all payload [] = true
has_all payload ((k, v) ∷ m) = has_item k v payload && has_all payload m

unfoldable pub payload_contains : Payload → Payload → Bool
payload_contains payload match_ = if is_nil payload then false else has_all payload match_

-- `rule_matcher`; `none` is an unmeasurable rule. An event type is a non-empty text.
unfoldable pub rule_matcher : Rule → Option (Name → Payload → Bool)
rule_matcher rule = elim rule.event_type [
  | none ↦ none
  | some event_type ↦ elim rule.kind [
    | RuleKind.event_occurs ↦ some (λ type_ payload. type_ == event_type)
    | RuleKind.event_matches ↦
        if is_nil rule.payload_match
        then none
        else some
            (λ type_ payload. type_ == event_type && payload_contains payload rule.payload_match)
    | RuleKind.unmeasurable ↦ none
  ]
]

pub RuleKind-discrete : Discrete RuleKind
RuleKind-discrete = hlevel

pub Rule-discrete : Discrete Rule
Rule-discrete = hlevel ℕ_discrete

pub record Calibration : Type 0 where
  pub yes_count : ℕ
  pub n : ℕ
  pub window_s : ℕ
  pub history_s : ℕ

-- `hits` is the cache of match moments per rule.
pub record BaseRate : Type 0 where
  pub history_s : ℕ
  pub round_interval_s : ℕ
  pub events : List Event
  pub origin : Option ℕ
  pub hits : List (Rule × List ℕ)

abbrev pub last_ts : List Event → Option ℕ
last_ts [] = none
last_ts (e ∷ []) = some e.ts
last_ts (e ∷ f ∷ es) = last_ts (f ∷ es)

-- `bisect.insort` by the moment: behind the equal ones.
abbrev pub insort : Event → List Event → List Event
insort e [] = e ∷ []
insort e (f ∷ es) = if leb f.ts e.ts then f ∷ insort e es else e ∷ f ∷ es

-- `del events[:bisect_left(events, cutoff)]`, on a sorted list.
abbrev pub drop_before : ℕ → List Event → List Event
drop_before cutoff [] = []
drop_before cutoff (e ∷ es) = if ltb e.ts cutoff then drop_before cutoff es else e ∷ es

abbrev pub first_ts : List Event → Option ℕ
first_ts [] = none
first_ts (e ∷ es) = some e.ts

abbrev pub without : List Event → BaseRate → BaseRate
without rest b = record b { events = rest; hits = []; origin = first_ts rest }

abbrev pub pruned : Option ℕ → ℕ → BaseRate → BaseRate
pruned none cutoff b = b
pruned (some first) cutoff b =
    if leb cutoff first then b else without (drop_before cutoff b.events) b

-- A moment before the clock's zero is before every event.
unfoldable pub prune : ℕ → BaseRate → BaseRate
prune now b = pruned (first_ts b.events) (now - b.history_s) b

abbrev pub earliest : Option ℕ → ℕ → ℕ
earliest none ts = ts
earliest (some o) ts = if ltb ts o then ts else o

-- `self._events and ts < self._events[-1][0]`
abbrev pub is_before : ℕ → Option ℕ → Bool
is_before ts none = false
is_before ts (some last) = ltb ts last

unfoldable pub observe : ℕ → Event → BaseRate → BaseRate
observe now entry b = prune now (record b {
  events =
      if is_before entry.ts (last_ts b.events)
      then insort entry b.events
      else b.events ++ entry ∷ [];
  origin = some (earliest b.origin entry.ts);
  hits = [];
})

-- `observe_many`: each row with its reading of the clock.
unfoldable pub observe_many : List (ℕ × Event) → BaseRate → BaseRate × ℕ
observe_many [] b = (b, 0)
observe_many ((now, e) ∷ rows) b =
    let (b', taken) = observe_many rows (observe now e b) in (b', taken + 1)

abbrev pub matches_of : Rule → List Event → List ℕ
matches_of rule [] = []
matches_of rule (e ∷ es) =
    let hit : Bool = elim (rule_matcher rule) [ none ↦ false | some m ↦ m e.type_ e.payload ] in
    if hit then e.ts ∷ matches_of rule es else matches_of rule es

abbrev pub found {ℓ} : {P : Type ℓ} → Dec P → List ℕ → Option (List ℕ) → Option (List ℕ)
found (yes _) hs rest = some hs
found (no _) hs rest = rest

abbrev pub cached : Rule → List (Rule × List ℕ) → Option (List ℕ)
cached rule [] = none
cached rule ((r, hs) ∷ rest) = found (Rule-discrete r rule) hs (cached rule rest)

-- `_matching`: the moments, and the cache that it leaves.
abbrev pub matching_or : Option (List ℕ) → Rule → BaseRate → List ℕ × BaseRate
matching_or (some hs) rule b = (hs, b)
matching_or none rule b =
    let hs = matches_of rule b.events in (hs, record b { hits = (rule, hs) ∷ b.hits })

unfoldable pub matching : Rule → BaseRate → List ℕ × BaseRate
matching rule b = matching_or (cached rule b.hits) rule b

-- `i = bisect_left(hits, opens)`, and then `i < len(hits) and hits[i] <= closes`.
abbrev pub window_hit : ℕ → ℕ → List ℕ → Bool
window_hit opens closes [] = false
window_hit opens closes (h ∷ hs) = if ltb h opens then window_hit opens closes hs else leb h closes

-- The loop of `_measure_locked`. The anchor is `now - back`, and the loop runs while it is not
-- before `floor`; fuel is more than the rounds, each of which goes back by `step`.
unfoldable pub sample : ℕ → ℕ → ℕ → ℕ → ℕ → ℕ → List ℕ → ℕ → ℕ × ℕ
sample zero now floor step lock window hits back = (0, 0)
sample (suc fuel) now floor step lock window hits back =
    let rest = sample fuel now floor step lock window hits (back + step) in
    let opens = now - back + lock in
    let hit = window_hit opens (opens + window) hits in
    if leb (floor + back) now then (if hit then rest.0 + 1 else rest.0, rest.1 + 1) else (0, 0)

abbrev pub measurable : BaseRate → Rule → Bool
measurable b rule = is_some b.origin && is_some (rule_matcher rule) && ltb 0 b.round_interval_s

unfoldable pub measure : {S : Type 0} → ℕ → Template S → BaseRate → Calibration × BaseRate
measure now template b =
    let window_s = template.window.resolve_delay_s in
    let lock = template.window.lock_delay_s in
    let unmeasured : Calibration = record {
      yes_count = 0;
      n = 0;
      window_s = window_s;
      history_s = b.history_s;
    } in
    let floor = max (get_or b.origin 0) (now - b.history_s) in
    let (hits, b') = matching template.telemetry_rule b in
    let (yes_count, n) =
      sample (suc now) now floor b.round_interval_s lock window_s hits (lock + window_s) in
    if measurable b template.telemetry_rule
    then (record unmeasured { yes_count = yes_count; n = n }, b')
    else (unmeasured, b)
