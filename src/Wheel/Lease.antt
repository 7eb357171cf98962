-- ===== src/Wheel/Lease.antt =====
-- How long a lease lasts, and two owners of one priority.
use wanted.Base.{
  ℕ, zero, suc, ◌+◌, ◌≤◌, ◌≡◌, refl, ap, ◌∙◌, subst, Bool, true, false, ◌&&◌, Option, none, some,
  Name, arith, if◌then◌else◌, ltb, is_some,
}
use wanted.Wheel.Owner.{Owner, priority, same_owner}
use wanted.Wheel.Arbiter.{
  MovementToken, Wheel, grant, refuse, fire_hook, begin_tick, other_posted, token_of, renewed,
  renew, acquire_from, acquire, is_expired, lease_end,
}

-- Ticks in which nobody asks for the wheel.
unfoldable pub ticks : ℕ → Wheel → Wheel
ticks zero w = w
ticks (suc n) w = begin_tick (ticks n w)

-- The holder, the end of the lease and the tick of a wheel.
abbrev IsHeld : MovementToken → Option ℕ → ℕ → Wheel → Type 0
IsHeld t until tick w = (w.holder ≡ some t) × (w.lease_until ≡ until) × (w.tick ≡ tick)

expires-as :
    (b : Bool) (t : MovementToken) (until : Option ℕ) (tick : ℕ) (w : Wheel)
    → IsHeld t until tick w
    → is_expired (suc tick) until ≡ b
    → (is_some w.holder && is_expired (suc w.tick) w.lease_until) ≡ b
expires-as b t until tick w (h, u, k) e =
    ap (λ x. is_some x && is_expired (suc w.tick) w.lease_until) h
    ∙ ap (λ x. is_expired (suc x) w.lease_until) k
    ∙ ap (is_expired (suc tick)) u
    ∙ e

begin_tick-IsHeld :
    (t : MovementToken) (until : Option ℕ) (tick : ℕ) (w : Wheel)
    → IsHeld t until tick w
    → is_expired (suc tick) until ≡ false
    → IsHeld t until (suc tick) (begin_tick w)
unfolding begin_tick
begin_tick-IsHeld t until tick w k e =
    rw (expires-as false t until tick w k e) (k.0, k.1, ap suc k.2)

begin_tick-expires :
    (t : MovementToken) (until : Option ℕ) (tick : ℕ) (w : Wheel)
    → IsHeld t until tick w
    → is_expired (suc tick) until ≡ true
    → (begin_tick w).holder ≡ none
unfolding begin_tick
begin_tick-expires t until tick w k e = rw (expires-as true t until tick w k e) refl

ticks-IsHeld :
    (t : MovementToken) (until : Option ℕ) (tick : ℕ) (w : Wheel)
    → IsHeld t until tick w
    → (n : ℕ) → is_expired (tick + n) until ≡ false
    → IsHeld t until (tick + n) (ticks n w)
unfolding ticks
ticks-IsHeld t until tick w h zero e = subst (λ k. IsHeld t until k w) (omega arith) h
ticks-IsHeld t until tick w h (suc n) e =
    subst (λ k. IsHeld t until k (begin_tick (ticks n w))) (omega arith)
      (begin_tick-IsHeld t until (tick + n) (ticks n w)
        (ticks-IsHeld t until tick w h n (earlier until e)) (now until e))
  where
    earlier :
        (until : Option ℕ)
        → is_expired (tick + suc n) until ≡ false
        → is_expired (tick + n) until ≡ false
    earlier none e = refl
    earlier (some u) e = ground arith

    now :
        (until : Option ℕ)
        → is_expired (tick + suc n) until ≡ false
        → is_expired (suc (tick + n)) until ≡ false
    now none e = refl
    now (some u) e = ground arith

acquire_from-IsHeld :
    (h : Option MovementToken) (o : Owner) (reason : Name) (lease : Option ℕ) (w : Wheel)
    (t : MovementToken)
    → (acquire_from h o reason lease w).1 ≡ some t
    → IsHeld t (lease_end w.tick lease) w.tick (acquire_from h o reason lease w).0
unfolding grant fire_hook
acquire_from-IsHeld none o reason lease w t e = (e, refl, refl)
acquire_from-IsHeld (some h) o reason lease w t e =
    go (same_owner h.owner o) (ltb (priority o) (priority h.owner)) e
  where
    P : Bool → Bool → Wheel × Option MovementToken
    P mine outranked =
        if mine
        then (renew o reason lease h w, some (renewed o reason h))
        else if outranked
        then (refuse o reason w, none)
        else (fire_hook h.owner o (grant o reason lease w), some (token_of o reason w))

    go :
        (mine outranked : Bool)
        → (P mine outranked).1 ≡ some t
        → IsHeld t (lease_end w.tick lease) w.tick (P mine outranked).0
    go true b e = (e, refl, refl)
    go false true e = absurd (cc)
    go false false e = (e, refl, refl)

acquire-IsHeld :
    (o : Owner) (reason : Name) (lease : Option ℕ) (w : Wheel) (t : MovementToken)
    → (acquire o reason lease w).1 ≡ some t
    → IsHeld t (lease_end w.tick lease) w.tick (acquire o reason lease w).0
unfolding acquire
acquire-IsHeld o reason lease w t e = go (other_posted o w.tick w.posted_tick w.posted_owner) e
  where
    P : Bool → Wheel × Option MovementToken
    P b = if b then (refuse o reason w, none) else acquire_from w.holder o reason lease w

    go : (b : Bool) → (P b).1 ≡ some t → IsHeld t (lease_end w.tick lease) w.tick (P b).0
    go true e = absurd (cc)
    go false e = acquire_from-IsHeld w.holder o reason lease w t e

-- Who gets the wheel for n ticks holds it to the end of the n-th, the current one counted, if nobody
-- else asks, and no longer; with an open lease he holds it for as many ticks as one likes.
pub acquire-lasts :
    (o : Owner) (reason : Name) (lease : Option ℕ) (w : Wheel) (t : MovementToken)
    → (acquire o reason lease w).1 ≡ some t
    → let w' = (acquire o reason lease w).0 in
      ((n k : ℕ) → lease ≡ some (suc n) → k ≤ n → (ticks k w').holder ≡ some t)
      × ((n : ℕ) → lease ≡ some (suc n) → (ticks (suc n) w').holder ≡ none)
      × ((k : ℕ) → lease ≡ none → (ticks k w').holder ≡ some t)
unfolding ticks
acquire-lasts o reason lease w t e =
    let held = acquire-IsHeld o reason lease w t e in
    let stays = λ (k : ℕ) (f : is_expired (w.tick + k) (lease_end w.tick lease) ≡ false).
      ticks-IsHeld t (lease_end w.tick lease) w.tick (acquire o reason lease w).0 held k f in
    (
      λ n k l le. (stays k (rw l (ground arith))).0,
      λ n l.
          begin_tick-expires t (lease_end w.tick lease) (w.tick + n)
            (ticks n (acquire o reason lease w).0) (stays n (rw l (ground arith)))
            (rw l (ground arith)),
      λ k l. (stays k (rw l refl)).0,
    )
