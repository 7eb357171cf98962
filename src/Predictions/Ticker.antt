-- ===== src/Predictions/Ticker.antt =====
-- `PredictionTicker` of harness/wasted_harness/predictions/ticker.py. What the two RPC calls come to is
-- an argument: an exception is `none`, and a reply without data is `some none`.
use wanted.Base.{
  ℕ, suc, ◌+◌, ◌-◌, ◌*◌, ◌≤◌, ◌≡◌, refl, Bool, true, false, ◌&&◌, Option, none, some, List, [], ◌∷◌,
  Name, if◌then◌else◌, ap, subst, ◌∙◌, leb, leb→le, is_some, get_or, elapsed, Bool-cases, ◌⊎◌, inl,
  inr, arith,
}

pub record Ticker : Type 0 where
  pub interval_s : ℕ
  pub last_tick_at : Option ℕ

abbrev pub Rpc : Type 0
Rpc = Option (Option ℕ)

unfoldable pub call_one : Rpc → Option ℕ
call_one none = none
call_one (some reply) = some (get_or reply 0)

-- `maybe_tick`: what LOCK_FN and SETTLE_FN answered, if a tick ran.
unfoldable pub maybe_tick :
    Option Name → Bool → ℕ → Rpc → Rpc → Ticker → Ticker × Option (Option ℕ × Option ℕ)
maybe_tick session_id configured now lock settle t =
    if is_some session_id && (configured && elapsed t.last_tick_at t.interval_s now)
    then (record t { last_tick_at = some now }, some (call_one lock, call_one settle))
    else (t, none)

pub record Call : Type 0 where
  pub session_id : Option Name
  pub configured : Bool
  pub now : ℕ
  pub lock : Rpc
  pub settle : Rpc

-- How many ticks ran.
unfoldable pub count_ticks : List Call → Ticker → ℕ
count_ticks [] t = 0
count_ticks (c ∷ cs) t =
    let (t', ran) = maybe_tick c.session_id c.configured c.now c.lock c.settle t in
    let rest = count_ticks cs t' in if is_some ran then suc rest else rest

abbrev pub InOrder : ℕ → List Call → ℕ → Type 0
InOrder first [] last = first ≤ last
InOrder first (c ∷ cs) last = (first ≤ c.now) × InOrder c.now cs last

InOrder-le : (first last : ℕ) (cs : List Call) → InOrder first cs last → first ≤ last
InOrder-le first last [] o = o
InOrder-le first last (c ∷ cs) o = omega (arith, o.0, InOrder-le c.now last cs o.1)

maybe_tick-cases :
    (session_id : Option Name) (configured : Bool) (now : ℕ) (lock settle : Rpc) (t : Ticker)
    → let (t', ran) = maybe_tick session_id configured now lock settle t in
      ((is_some ran ≡ false) × (t' ≡ t))
      ⊎ ((is_some ran ≡ true)
          × (elapsed t.last_tick_at t.interval_s now ≡ true)
          × (t' ≡ record t { last_tick_at = some now }))
unfolding maybe_tick
maybe_tick-cases session_id configured now lock settle t =
    elim (Bool-cases
      (is_some session_id && (configured && elapsed t.last_tick_at t.interval_s now))) [
        | inl ticks ↦ rw ticks (inr (refl, ground arith, refl))
        | inr not_now ↦ rw not_now (inl (refl, refl))
      ]

-- From the last tick on.
count_ticks-from :
    (cs : List Call) (l first last interval : ℕ) (t : Ticker)
    → t.interval_s ≡ interval
    → t.last_tick_at ≡ some l
    → l ≤ first
    → InOrder first cs last
    → count_ticks cs t * interval ≤ last - l
unfolding count_ticks
count_ticks-from [] l first last interval t ei el le o = omega arith
count_ticks-from (c ∷ cs) l first last interval t ei el le (o, os) =
    elim (maybe_tick-cases c.session_id c.configured c.now c.lock c.settle t) [
      | inl (silent, same_) ↦ rw silent (
          count_ticks-from cs l c.now last interval
            (maybe_tick c.session_id c.configured c.now c.lock c.settle t).0
            (ap (λ x. x.interval_s) same_ ∙ ei) (ap (λ x. x.last_tick_at) same_ ∙ el)
            (omega (arith, le, o)) os)
      | inr (ran, due, same_) ↦
          let t' = (maybe_tick c.session_id c.configured c.now c.lock c.settle t).0 in
          let past = leb→le (l + interval) c.now (
            subst (λ i. leb (l + i) c.now ≡ true) ei
              (subst (λ x. elapsed x t.interval_s c.now ≡ true) el due)) in
          let rest =
            count_ticks-from cs c.now c.now last interval t' (ap (λ x. x.interval_s) same_ ∙ ei)
              (ap (λ x. x.last_tick_at) same_) (omega arith) os in
          let end = InOrder-le c.now last cs os in rw ran (omega (arith, past, rest, end))
    ]

-- Of calls at moments that follow one another, ticks run one interval apart at least: n of them take
-- n - 1 intervals between the first call and the last.
pub count_ticks-bound :
    (cs : List Call) (first last : ℕ) (t : Ticker)
    → t.last_tick_at ≡ none
    → InOrder first cs last
    → count_ticks cs t * t.interval_s ≤ last - first + t.interval_s
unfolding count_ticks
count_ticks-bound [] first last t el o = omega arith
count_ticks-bound (c ∷ cs) first last t el (o, os) =
    elim (maybe_tick-cases c.session_id c.configured c.now c.lock c.settle t) [
      | inl (silent, same_) ↦
          let t' = (maybe_tick c.session_id c.configured c.now c.lock c.settle t).0 in
          let keeps : t'.interval_s ≡ t.interval_s = ap (λ x. x.interval_s) same_ in
          let rest = count_ticks-bound cs c.now last t' (ap (λ x. x.last_tick_at) same_ ∙ el) os in
          let rest' = subst (λ i. count_ticks cs t' * i ≤ last - c.now + i) keeps rest in
          rw silent (omega (arith, rest', o))
      | inr (ran, due, same_) ↦
          let t' = (maybe_tick c.session_id c.configured c.now c.lock c.settle t).0 in
          let rest =
            count_ticks-from cs c.now c.now last t.interval_s t' (ap (λ x. x.interval_s) same_)
              (ap (λ x. x.last_tick_at) same_) (omega arith) os in
          rw ran (omega (arith, rest, o))
    ]
