-- ===== src/Predictions/Window.antt =====
-- `Window`, `MeasuredRate` and `PredictionTemplate` of
-- harness/wasted_harness/predictions/catalog.py, and the telemetry rules that can be measured.
use wanted.Base.{
  ℕ, ◌+◌, ◌≤◌, ◌<◌, ◌≡◌, Bool, ◌||◌, Option, none, some, List, Name, ltb, ◌==◌, if◌then◌else◌,
  arith,
}

-- MIN_WINDOW_S, MAX_WINDOW_S and MIN_ENTRY_WINDOW_S
abbrev pub min_window : ℕ
min_window = 30000

abbrev pub max_window : ℕ
max_window = 300000

abbrev pub min_entry_window : ℕ
min_entry_window = 30000

pub record Window : Type 0 where
  pub lock_delay_s : ℕ
  pub resolve_delay_s : ℕ

abbrev pub total_s : Window → ℕ
total_s w = w.lock_delay_s + w.resolve_delay_s

-- `Window.__post_init__`; `none` is the ValueError.
unfoldable pub make_window : ℕ → ℕ → Option Window
make_window lock_delay_s resolve_delay_s =
    if lock_delay_s == 0 || resolve_delay_s == 0
    then none
    else if ltb (lock_delay_s + resolve_delay_s) min_window
        || ltb max_window (lock_delay_s + resolve_delay_s)
    then none
    else if ltb lock_delay_s min_entry_window
    then none
    else some (record { lock_delay_s = lock_delay_s; resolve_delay_s = resolve_delay_s })

-- A window that could be constructed.
pub record IsWindow (w : Window) : Type 0 where
  pub entry : min_entry_window ≤ w.lock_delay_s
  pub settles : 0 < w.resolve_delay_s
  pub longest : total_s w ≤ max_window

-- A window that the constructor accepts leaves thirty seconds to enter at least, some time to settle,
-- and takes five minutes in all at most; it has the delays that it was given.
pub make_window-IsWindow :
    (lock resolve : ℕ) {w : Window}
    → make_window lock resolve ≡ some w
    → IsWindow w × (w.lock_delay_s ≡ lock) × (w.resolve_delay_s ≡ resolve)
unfolding make_window
make_window-IsWindow lock resolve {w} h = ground arith

-- The constructor refuses no window that leaves thirty seconds to enter, some time to settle, and
-- takes five minutes in all at most.
pub make_window_complete :
    (w : Window) → IsWindow w → make_window w.lock_delay_s w.resolve_delay_s ≡ some w
unfolding make_window
make_window_complete w h = ground arith

pub record MeasuredRate : Type 0 where
  pub yes_count : ℕ
  pub n : ℕ
  pub band_from : ℕ
  pub band_to : ℕ

-- `MeasuredRate.__post_init__`; a negative count is no ℕ.
unfoldable pub make_rate : ℕ → ℕ → ℕ → ℕ → Option MeasuredRate
make_rate yes_count n lo hi =
    if n == 0
    then none
    else if ltb n yes_count
    then none
    else if ltb hi lo
    then none
    else some (record { yes_count = yes_count; n = n; band_from = lo; band_to = hi })

-- The rules of the registry: the two kinds that can be measured from events, and the others.
pub data RuleKind : Type 0 where
  event_occurs event_matches unmeasurable : RuleKind

-- A JSON object of scalars; `payload_match` has its keys in order, as the cache key has.
abbrev pub Payload : Type 0
Payload = List (Name × Name)

pub record Rule : Type 0 where
  pub kind : RuleKind
  pub event_type : Option Name
  pub payload_match : Payload

-- A template, over the type of the game's snapshot together with the recent events. `trigger` and
-- `score` may raise, which is `none`; scores and reliabilities are in thousandths.
pub record Template (S : Type 0) : Type 0 where
  pub prediction_type : Name
  pub window : Window
  pub telemetry_rule : Rule
  pub is_event : Bool
  pub ambient : Bool
  pub reliability : ℕ
  pub trigger : S → Option Bool
  pub score : S → Option ℕ
