-- ===== src/Recovery/Backoff.antt =====
-- `ApiBackoff` of harness/wasted_harness/behavior/recovery.py. Moments and delays are in milliseconds,
-- the draw of `rng.uniform(0.8, 1.2)` is in thousandths, and a moment until which calls are blocked in
-- microseconds. What `_retry_after_s` finds in the error is an argument.
use wanted.Base.{ℕ, zero, suc, ◌+◌, ◌-◌, ◌*◌, min, max, Bool, Option, List, [], ◌∷◌, leb, get_or}

-- The keys of BACKOFF_FLOOR_S; a cause that is none of them counts as the last.
pub data Cause : Type 0 where
  rate_limit overloaded invalid_output other : Cause

abbrev pub backoff_floor : Cause → ℕ
backoff_floor Cause.rate_limit = 30000
backoff_floor Cause.overloaded = 15000
backoff_floor Cause.invalid_output = 0
backoff_floor Cause.other = 0

pub record ApiBackoff : Type 0 where
  pub base_s : ℕ
  pub cap_s : ℕ
  pub failures : ℕ
  pub last_cause : Cause
  pub blocked_until : ℕ

abbrev pub two_to : ℕ → ℕ
two_to zero = 1
two_to (suc n) = 2 * two_to n

-- The delay before the jitter, of the failure after n others.
abbrev pub nominal : ApiBackoff → Cause → Option ℕ → ℕ
nominal b cause retry_after =
    max (max (min b.cap_s (b.base_s * two_to b.failures)) (backoff_floor cause))
      (get_or retry_after 0)

unfoldable pub delay_us : ApiBackoff → Cause → Option ℕ → ℕ → ℕ
delay_us b cause retry_after jitter = min (1000 * b.cap_s) (nominal b cause retry_after * jitter)

unfoldable pub record_failure : ℕ → Cause → Option ℕ → ℕ → ApiBackoff → ApiBackoff
record_failure now cause retry_after jitter b = record b {
  failures = suc b.failures;
  last_cause = cause;
  blocked_until = 1000 * now + delay_us b cause retry_after jitter;
}

unfoldable pub record_success : ApiBackoff → ApiBackoff
record_success b = record b { failures = 0; last_cause = Cause.other; blocked_until = 0 }

unfoldable pub ready : ℕ → ApiBackoff → Bool
ready now b = leb b.blocked_until (1000 * now)

unfoldable pub blocked_for_us : ℕ → ApiBackoff → ℕ
blocked_for_us now b = b.blocked_until - 1000 * now

-- A failure: when, its cause, what the server asked for, and the draw.
pub record Failure : Type 0 where
  pub at : ℕ
  pub cause : Cause
  pub retry_after : Option ℕ
  pub jitter : ℕ

unfoldable pub fail_all : List Failure → ApiBackoff → ApiBackoff
fail_all [] b = b
fail_all (f ∷ fs) b = fail_all fs (record_failure f.at f.cause f.retry_after f.jitter b)

-- What is waited for at least, in microseconds: four fifths of the longest of the doubled base, within
-- the cap, the cause's floor and what the server asked for, and never more than the cap.
abbrev pub least_wait : ℕ → ℕ → ℕ → Failure → ℕ
least_wait base cap n f =
    min (1000 * cap)
      (800 * max (max (min cap (base * two_to n)) (backoff_floor f.cause)) (get_or f.retry_after 0))
