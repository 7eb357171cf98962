-- ===== src/Recovery/Cleared.antt =====
-- `ClearedByGameBackoff` of harness/wasted_harness/behavior/recovery.py. Moments are in milliseconds; an
-- absent type is 0, as `""` is.
use wanted.Base.{
  ℕ, zero, suc, ◌+◌, ◌-◌, ◌*◌, ◌≤◌, ◌<◌, ◌≡◌, refl, ap, ◌∙◌, min, Bool, true, false, not, ◌||◌,
  Option, none, some, List, [], ◌∷◌, Name, ltb, same, same_refl, same→eq, sym, if◌then◌else◌,
  get_or, is_some, All, Bool-cases, arith, inl, inr,
}
use wanted.Recovery.Times.{lookup, put, lookup-put}
use wanted.Recovery.Backoff.{two_to}

abbrev pub cleared_backoff_first : ℕ
cleared_backoff_first = 4000

abbrev pub cleared_backoff_max : ℕ
cleared_backoff_max = 20000

abbrev pub cleared_backoff_forget : ℕ
cleared_backoff_forget = 60000

-- `state.last_task`: its id, its type, and whether it failed with the detail `cleared_by_game`.
pub record LastTask : Type 0 where
  pub id : Option Name
  pub type_ : Name
  pub cleared : Bool

pub record ClearedBackoff : Type 0 where
  pub seen_id : Option Name
  pub until : List (Name × ℕ)
  pub strikes : List (Name × ℕ)
  pub last_clear : List (Name × ℕ)

-- `now - self._last_clear.get(t, -1e12) > CLEARED_BACKOFF_FORGET_S`
abbrev pub is_forgotten : ℕ → Option ℕ → Bool
is_forgotten now none = true
is_forgotten now (some last) = ltb cleared_backoff_forget (now - last)

abbrev pub next_strike : ℕ → Name → ClearedBackoff → ℕ
next_strike now t b =
    suc (if is_forgotten now (lookup t b.last_clear) then 0 else get_or (lookup t b.strikes) 0)

-- `2 ** (strikes - 1)`, of one strike at least
abbrev pub wait_of : ℕ → ℕ
wait_of strikes = min (cleared_backoff_first * two_to (strikes - 1)) cleared_backoff_max

unfoldable pub strike : ℕ → Name → ClearedBackoff → ClearedBackoff
strike now t b = record b {
  strikes = put t (next_strike now t b) b.strikes;
  last_clear = put t now b.last_clear;
  until = put t (now + wait_of (next_strike now t b)) b.until;
}

unfoldable pub feed : ℕ → LastTask → ClearedBackoff → ClearedBackoff × Option Name
feed now task b =
    if not (is_some task.id) || same task.id b.seen_id
    then (b, none)
    else if not task.cleared
    then (record b { seen_id = task.id }, none)
    else (strike now task.type_ (record b { seen_id = task.id }), some task.type_)

unfoldable pub refuses : ℕ → Name → ClearedBackoff → ℕ
refuses now t b = get_or (lookup t b.until) 0 - now

unfoldable pub reset : ClearedBackoff → ClearedBackoff
reset b = record b { until = []; strikes = []; last_clear = [] }

-- A tick: when, and the task that the bridge shows.
unfoldable pub feed_all : List (ℕ × LastTask) → ClearedBackoff → ClearedBackoff
feed_all [] b = b
feed_all ((now, task) ∷ ts) b = feed_all ts (feed now task b).0

feed-strikes :
    (now : ℕ) (task : LastTask) (b : ClearedBackoff)
    → is_some task.id ≡ true
    → same task.id b.seen_id ≡ false
    → task.cleared ≡ true
    → feed now task b ≡ (strike now task.type_ (record b { seen_id = task.id }), some task.type_)
unfolding feed
feed-strikes now task b some_ new cleared =
    go (not (is_some task.id) || same task.id b.seen_id) task.cleared (ground arith) cleared
  where
    P : Bool → Bool → ClearedBackoff × Option Name
    P old clear =
        if old
        then (b, none)
        else if not clear
        then (record b { seen_id = task.id }, none)
        else (strike now task.type_ (record b { seen_id = task.id }), some task.type_)

    go : (old clear : Bool) → old ≡ false → clear ≡ true → P old clear ≡ P false true
    go old clear e f = cc

two_to-positive : (n : ℕ) → 1 ≤ two_to n
two_to-positive zero = omega arith
two_to-positive (suc n) = omega (arith, two_to-positive n)

wait_of-bounds : (s : ℕ) → (cleared_backoff_first ≤ wait_of s) × (wait_of s ≤ cleared_backoff_max)
wait_of-bounds s = (omega (arith, two_to-positive (s - 1)), omega arith)

strike-refuses :
    (now at : ℕ) (t : Name) (b : ClearedBackoff)
    → refuses at t (strike now t b) ≡ now + wait_of (next_strike now t b) - at
unfolding refuses strike
strike-refuses now at t b =
    ap (λ o. get_or o 0 - at) (lookup-put t (now + wait_of (next_strike now t b)) b.until)

-- A task that is seen for the first time as one the game has cleared puts its type off: for four
-- seconds at least and twenty at most, counted from that tick.
pub feed-refuses :
    (now at : ℕ) (task : LastTask) (b : ClearedBackoff)
    → is_some task.id ≡ true
    → same task.id b.seen_id ≡ false
    → task.cleared ≡ true
    → let b' = (feed now task b).0 in
      (at < now + cleared_backoff_first → 0 < refuses at task.type_ b')
      × (now + cleared_backoff_max ≤ at → refuses at task.type_ b' ≡ 0)
feed-refuses now at task b some_ new cleared =
    let seen = record b { seen_id = task.id } in
    let left =
      ap (λ r. refuses at task.type_ r.0) (feed-strikes now task b some_ new cleared)
      ∙ strike-refuses now at task.type_ seen in
    let (least, most) = wait_of-bounds (next_strike now task.type_ seen) in
    (λ e. omega (arith, left, least, e), λ e. omega (arith, left, most, e))

seen :
    (now : ℕ) (task : LastTask) (b : ClearedBackoff)
    → same task.id b.seen_id ≡ true
    → feed now task b ≡ (b, none)
unfolding feed
seen now task b e = elim (Bool-cases (is_some task.id)) [
  | inl some_ ↦ rw e (rw some_ refl)
  | inr none_ ↦ rw e (rw none_ refl)
]

feed_all-seen :
    (ts : List (ℕ × LastTask)) (id : Name) (b : ClearedBackoff)
    → b.seen_id ≡ some id
    → All (λ t. t.1.id ≡ some id) ts
    → feed_all ts b ≡ b
unfolding feed_all
feed_all-seen [] id b e hs = refl
feed_all-seen ((now, task) ∷ ts) id b e (h, hs) =
    let same_ =
      seen now task b
        (ap (λ x. same x b.seen_id) h ∙ ap (same (some id)) e ∙ same_refl (some id)) in
    ap (λ r. feed_all ts r.0) same_ ∙ feed_all-seen ts id b e hs

-- The look that shows a task as not cleared leaves its id taken down.
feed-records :
    (now : ℕ) (task : LastTask) (id : Name) (b : ClearedBackoff)
    → task.id ≡ some id
    → task.cleared ≡ false
    → (feed now task b).0 ≡ record b { seen_id = some id }
unfolding feed
feed-records now task id b h c = elim (Bool-cases (same (some id) b.seen_id)) [
  | inl old ↦
      rw (h, old) (ap (λ o. record b { seen_id = o }) (sym (same→eq (some id) b.seen_id old)))
  | inr new ↦ rw (h, new, c) refl
]

-- A task that is first looked at before the game clears it is not put off for that clear: if the
-- first of a run of looks at one id shows it as not cleared, then the later ones leave what is
-- recorded of every type as it was, and every type is refused for exactly as long as before, although
-- they may show that very task as cleared by the game.
pub feed_all-unrecorded :
    (now : ℕ) (first : LastTask) (ts : List (ℕ × LastTask)) (id : Name) (b : ClearedBackoff)
    → first.id ≡ some id
    → first.cleared ≡ false
    → All (λ t. t.1.id ≡ some id) ts
    → let b' = feed_all ((now, first) ∷ ts) b in
      (b'.until ≡ b.until)
      × (b'.strikes ≡ b.strikes)
      × (b'.last_clear ≡ b.last_clear)
      × ((at : ℕ) (t : Name) → refuses at t b' ≡ refuses at t b)
unfolding feed_all refuses
feed_all-unrecorded now first ts id b h c hs =
    let all =
      ap (feed_all ts) (feed-records now first id b h c)
      ∙ feed_all-seen ts id (record b { seen_id = some id }) refl hs in
    (
      ap (λ r. r.until) all,
      ap (λ r. r.strikes) all,
      ap (λ r. r.last_clear) all,
      λ at t. ap (refuses at t) all,
    )
