-- ===== src/Recovery/Bridge.antt =====
-- `BridgeDownTracker` and `GameRestartDetector` of harness/wasted_harness/behavior/recovery.py.
-- Moments are in milliseconds, what the log reads is left out.
use wanted.Base.{
  ℕ, suc, ◌-◌, ◌*◌, min, Bool, true, false, not, ◌&&◌, ◌||◌, Option, none, some, Name, zero, same,
  ltb, leb, if◌then◌else◌,
}
use wanted.Base.Rounding.{round_to}

pub record BridgeDownTracker : Type 0 where
  pub event_threshold : ℕ
  pub consecutive_failures : ℕ
  pub down_since : Option ℕ
  pub event_emitted : Bool

-- `bridge_down` with the count, and `bridge_up` with the downtime, which is rounded to tenths of a
-- second.
pub data BridgeEvent : Type 0 where
  bridge_down bridge_up : ℕ → BridgeEvent

abbrev pub since : ℕ → Option ℕ → Option ℕ
since now none = some now
since now (some at) = some at

unfoldable pub record_failure : ℕ → BridgeDownTracker → BridgeDownTracker × Option BridgeEvent
record_failure now t =
    let failed = record t {
      consecutive_failures = suc t.consecutive_failures;
      down_since = since now t.down_since;
    } in
    if leb t.event_threshold (suc t.consecutive_failures) && not t.event_emitted
    then (
      record failed { event_emitted = true },
      some (BridgeEvent.bridge_down (suc t.consecutive_failures)),
    )
    else (failed, none)

abbrev pub up_after : Option ℕ → ℕ → BridgeDownTracker → BridgeDownTracker × Option BridgeEvent
up_after none now t = (record t { consecutive_failures = 0 }, none)
up_after (some at) now t = (
  record t { consecutive_failures = 0; down_since = none; event_emitted = false },
  if t.event_emitted then some (BridgeEvent.bridge_up (round_to 100 (now - at))) else none,
)

unfoldable pub record_success : ℕ → BridgeDownTracker → BridgeDownTracker × Option BridgeEvent
record_success now t = up_after t.down_since now t

-- `backoff_s`
unfoldable pub poll_backoff : BridgeDownTracker → ℕ
poll_backoff t = min 15000 (1000 * doubled (min t.consecutive_failures 4))
  where
    doubled : ℕ → ℕ
    doubled zero = 1
    doubled (suc n) = 2 * doubled n

-- `self.last_tick` and `self.last_bridge_version`
pub record GameRestartDetector : Type 0 where
  pub last_tick : Option ℕ
  pub last_bridge_version : Option Name
  pub restarts : ℕ

abbrev pub is_restart : ℕ → Option Name → Option ℕ → Option Name → Bool
is_restart tick version none last = false
is_restart tick version (some last_tick) last = ltb tick last_tick || not (same version last)

unfoldable pub check_restart : ℕ → Option Name → GameRestartDetector → GameRestartDetector × Bool
check_restart tick version d =
    let restarted = is_restart tick version d.last_tick d.last_bridge_version in
    (
      record {
        last_tick = some tick;
        last_bridge_version = version;
        restarts = if restarted then suc d.restarts else d.restarts;
      },
      restarted,
    )
