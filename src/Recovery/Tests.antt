-- ===== src/Recovery/Tests.antt =====
-- A bridge that goes down for four polls, and a man who stands still for half a minute.
use wanted.Base.{Bool, Name, ℕ, ◌≡◌, refl, true, false, none, some, List, [], ◌∷◌, arith}
use wanted.Base.Rounding.{round_to}
use wanted.Recovery.Bridge.{BridgeDownTracker, BridgeEvent, record_failure, record_success}
use wanted.Recovery.Outage.{Poll, poll, poll_all, news_all, Tracks, poll_all-news}
use wanted.Recovery.Backoff.{ApiBackoff, Cause, Failure}
use wanted.Recovery.Backoff
use wanted.Recovery.Cleared.{LastTask, ClearedBackoff, feed, refuses, feed_all, feed_all-unrecorded}
use wanted.Recovery.Idle.{IdleBreaker}
use wanted.Recovery.Still.{Look, ActsWithCause, check-ActsWithCause}

abbrev tracker : BridgeDownTracker
tracker = record {
  event_threshold = 3;
  consecutive_failures = 0;
  down_since = none;
  event_emitted = false;
}

tracker-Tracks : Tracks tracker []
tracker-Tracks = record { count = refl; start = refl; told = refl }

abbrev failed : ℕ → Poll
failed at = record { at = at; answered = false }

abbrev answered : ℕ → Poll
answered at = record { at = at; answered = true }

abbrev polls : List Poll
polls =
    failed 1000
    ∷ answered 2000
    ∷ failed 3000
    ∷ failed 5000
    ∷ failed 9000
    ∷ failed 17000
    ∷ answered 20000
    ∷ []

said :
    poll_all polls tracker
    ≡ none
      ∷ none
      ∷ none
      ∷ none
      ∷ some (BridgeEvent.bridge_down 3)
      ∷ none
      ∷ some (BridgeEvent.bridge_up 17000)
      ∷ []
unfolding poll_all poll record_failure record_success round_to
said = refl

poll_all-news_example : poll_all polls tracker ≡ news_all 3 polls []
poll_all-news_example = poll_all-news polls [] tracker (omega arith) tracker-Tracks

abbrev idle : IdleBreaker
idle = record {
  anchor = none;
  anchor_at = 0;
  rung = 0;
  fired_at = 0;
  health = none;
  banned = [];
  trail = [];
}

abbrev standing : ℕ → Look
standing at = record {
  at = at;
  seen = record {
    pos = record { x = 1000; y = 1000; z = 0 };
    health = 200;
    dead = false;
    arrested = false;
    control_enabled = true;
    cutscene_active = false;
    in_vehicle = false;
    last_type = some 1;
    last_failed = true;
    has_gun = false;
    peds = [];
  };
}

abbrev stands : List Look
stands = standing 1000 ∷ standing 14000 ∷ standing 27000 ∷ standing 30000 ∷ standing 37000 ∷ []

check-ActsWithCause_example : ActsWithCause stands idle [] none
check-ActsWithCause_example =
    check-ActsWithCause stands 1000 37000 idle refl (omega arith)
      (omega arith, (omega arith, (omega arith, (omega arith, (omega arith, omega arith)))))

abbrev backoff : ApiBackoff
backoff = record {
  base_s = 2000;
  cap_s = 300000;
  failures = 0;
  last_cause = Cause.other;
  blocked_until = 0;
}

abbrev failure : ℕ → Failure
failure at = record { at = at; cause = Cause.rate_limit; retry_after = none; jitter = 1000 }

abbrev entering : Bool → LastTask
entering cleared = record { id = some 5; type_ = 3; cleared = cleared }

abbrev unstruck : ClearedBackoff
unstruck = record { seen_id = some 4; until = []; strikes = []; last_clear = [] }

feed_all-unrecorded_example :
    let b' = feed_all ((1000, entering false) ∷ (2000, entering true) ∷ []) unstruck in
    (b'.until ≡ [])
    × (b'.strikes ≡ [])
    × (b'.last_clear ≡ [])
    × ((at : ℕ) (t : Name) → refuses at t b' ≡ refuses at t unstruck)
feed_all-unrecorded_example =
    feed_all-unrecorded 1000 (entering false) ((2000, entering true) ∷ []) 5 unstruck refl refl
      (refl, tt)

-- Seen running for a tick, cleared by the game in the next, and free to be posted again at once.
posted_again :
    refuses 2000 3 (feed_all ((1000, entering false) ∷ (2000, entering true) ∷ []) unstruck) ≡ 0
unfolding refuses feed feed_all
posted_again = refl
