-- ===== src/Recovery/Outage.antt =====
-- The events of the bridge's outages, as the polls make them.
use wanted.Base.{
  ℕ, suc, ◌-◌, ◌<◌, ◌≡◌, refl, sym, ap, ◌∙◌, subst, Bool, true, false, not, ◌&&◌, Option, none,
  some, List, [], ◌∷◌, length, leb, ◌==◌, if◌then◌else◌, ==→eq, Bool-cases, arith, inl, inr,
}
use wanted.Base.Rounding.{round_to}
use wanted.Recovery.Bridge.{
  BridgeDownTracker, BridgeEvent, since, up_after, record_failure, record_success,
}

-- A poll: when, and whether the bridge answered.
pub record Poll : Type 0 where
  pub at : ℕ
  pub answered : Bool

unfoldable pub poll : Poll → BridgeDownTracker → BridgeDownTracker × Option BridgeEvent
poll p t = if p.answered then record_success p.at t else record_failure p.at t

-- The last polls that failed without one that answered, of those so far, newest first.
abbrev pub outage : List Poll → List Poll
outage [] = []
outage (p ∷ ps) = if p.answered then [] else p ∷ outage ps

abbrev oldest : Poll → List Poll → ℕ
oldest p [] = p.at
oldest p (q ∷ ps) = oldest q ps

-- When the first of them was.
abbrev pub began : List Poll → Option ℕ
began [] = none
began (p ∷ ps) = some (oldest p ps)

abbrev ended : ℕ → Option ℕ → Option BridgeEvent
ended now none = none
ended now (some at) = some (BridgeEvent.bridge_up (round_to 100 (now - at)))

-- What is to be said of a poll after those before it: an outage of as many failures as the threshold
-- has come about, or one that long has ended, and how long it took.
unfoldable pub news : ℕ → Poll → List Poll → Option BridgeEvent
news threshold p before =
    if p.answered
    then if leb threshold (length (outage before)) then ended p.at (began (outage before)) else none
    else if length (outage (p ∷ before)) == threshold
    then some (BridgeEvent.bridge_down threshold)
    else none

unfoldable pub poll_all : List Poll → BridgeDownTracker → List (Option BridgeEvent)
poll_all [] t = []
poll_all (p ∷ ps) t = let (t', e) = poll p t in e ∷ poll_all ps t'

unfoldable pub news_all : ℕ → List Poll → List Poll → List (Option BridgeEvent)
news_all threshold [] before = []
news_all threshold (p ∷ ps) before = news threshold p before ∷ news_all threshold ps (p ∷ before)

pub record Tracks (t : BridgeDownTracker) (before : List Poll) : Type 0 where
  pub count : t.consecutive_failures ≡ length (outage before)
  pub start : t.down_since ≡ began (outage before)
  pub told : t.event_emitted ≡ leb t.event_threshold (length (outage before))

began-cons : (p : Poll) (ps : List Poll) → since p.at (began ps) ≡ began (p ∷ ps)
began-cons p [] = refl
began-cons p (q ∷ ps) = refl

-- The tracker after a poll, and what it says.
abbrev Follows :
    Poll → BridgeDownTracker → List Poll → BridgeDownTracker × Option BridgeEvent → Type 0
Follows p t before (t', e) =
    Tracks t' (p ∷ before)
    × (e ≡ news t.event_threshold p before)
    × (t'.event_threshold ≡ t.event_threshold)

failure-Follows :
    (at : ℕ) (t : BridgeDownTracker) (before : List Poll)
    → Tracks t before
    → Follows (record { at = at; answered = false }) t before (record_failure at t)
unfolding record_failure news
failure-Follows at t before k =
    let start =
      ap (since at) k.start ∙ began-cons (record { at = at; answered = false }) (outage before) in
    elim (Bool-cases (suc (length (outage before)) == t.event_threshold)) [
      | inl reached ↦ rw reached (
          rw (now reached) (
            record { count = ap suc k.count; start = start; told = ground arith },
            ap (λ n. some (BridgeEvent.bridge_down n))
                (omega
                  (arith, k.count, ==→eq (suc (length (outage before))) t.event_threshold reached)),
            refl,
          ))
      | inr other ↦ rw other (
          rw (not_now other)
            (record { count = ap suc k.count; start = start; told = ground arith }, refl, refl))
    ]
  where
    now :
        (suc (length (outage before)) == t.event_threshold) ≡ true
        → (leb t.event_threshold (suc t.consecutive_failures) && not t.event_emitted) ≡ true
    now e = ground arith

    not_now :
        (suc (length (outage before)) == t.event_threshold) ≡ false
        → (leb t.event_threshold (suc t.consecutive_failures) && not t.event_emitted) ≡ false
    not_now e = ground arith

up_after-Follows :
    (at : ℕ) (t : BridgeDownTracker) (before ps : List Poll)
    → 0 < t.event_threshold
    → t.down_since ≡ began ps
    → t.event_emitted ≡ leb t.event_threshold (length ps)
    → Tracks (up_after (began ps) at t).0 (record { at = at; answered = true } ∷ before)
      × ((up_after (began ps) at t).1
          ≡ (if leb t.event_threshold (length ps) then ended at (began ps) else none))
      × ((up_after (began ps) at t).0.event_threshold ≡ t.event_threshold)
up_after-Follows at t before [] pos s e =
    (record { count = refl; start = s; told = ground arith }, ground arith, refl)
up_after-Follows at t before (q ∷ qs) pos s e = (
  record { count = refl; start = refl; told = ground arith },
  ap (λ b. if b then some (BridgeEvent.bridge_up (round_to 100 (at - oldest q qs))) else none) e,
  refl,
)

success-Follows :
    (at : ℕ) (t : BridgeDownTracker) (before : List Poll)
    → 0 < t.event_threshold
    → Tracks t before
    → Follows (record { at = at; answered = true }) t before (record_success at t)
unfolding record_success news
success-Follows at t before pos k =
    subst (λ o. Follows (record { at = at; answered = true }) t before (up_after o at t))
      (sym k.start) (up_after-Follows at t before (outage before) pos k.start k.told)

poll-Follows :
    (p : Poll) (t : BridgeDownTracker) (before : List Poll)
    → 0 < t.event_threshold
    → Tracks t before
    → Follows p t before (poll p t)
unfolding poll
poll-Follows p t before pos k = go p.answered
  where
    go :
        (b : Bool)
        → Follows
            (record { at = p.at; answered = b })
            t
            before
            (poll (record { at = p.at; answered = b }) t)
    go true = success-Follows p.at t before pos k
    go false = failure-Follows p.at t before k

-- From a new tracker on, with a threshold above nothing, and however the polls go: `bridge_down` is
-- said of precisely the failure that makes as many in a row as the threshold, once in an outage, and
-- `bridge_up` of precisely the answer that ends an outage that long, with the time since its first
-- failure, rounded to tenths of a second.
pub poll_all-news :
    (ps before : List Poll) (t : BridgeDownTracker)
    → 0 < t.event_threshold
    → Tracks t before
    → poll_all ps t ≡ news_all t.event_threshold ps before
unfolding poll_all news_all
poll_all-news [] before t pos k = refl
poll_all-news (p ∷ ps) before t pos k =
    let (kept, said, same_) = poll-Follows p t before pos k in
    ap (λ e. e ∷ poll_all ps (poll p t).0) said
    ∙ ap (λ es. news t.event_threshold p before ∷ es)
        (poll_all-news ps (p ∷ before) (poll p t).0 (subst (λ n. 0 < n) (sym same_) pos) kept
          ∙ ap (λ n. news_all n ps (p ∷ before)) same_)
