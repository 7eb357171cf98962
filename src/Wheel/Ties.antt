-- ===== src/Wheel/Ties.antt =====
-- Two owners of one priority: `_priority` is not injective on MOVEMENT_OWNER_TABLE.
use wanted.Base.{
  ℕ, zero, suc, ◌+◌, ◌*◌, ◌≡◌, refl, sym, ap, ◌∙◌, subst, false, Option, none, some, Name, arith,
  ltb, length, same,
}
use wanted.Wheel.Owner.{Owner, priority, same_owner}
use wanted.Wheel.Arbiter.{
  MovementToken, Wheel, grant, fire_hook, other_posted, token_of, acquire_from, acquire,
  posted_this_tick,
}

-- One owner and the other ask in turn, in one tick.
unfoldable pub alternate : ℕ → Owner → Owner → Wheel → Wheel
alternate zero a b w = w
alternate (suc n) a b w = alternate n a b (acquire b 0 (some 1) (acquire a 0 (some 1) w).0).0

-- Held by this owner, in a tick without a task.
abbrev pub IsOpenTo : Owner → Wheel → Type 0
IsOpenTo o w =
    ((h : MovementToken) × (w.holder ≡ some h) × (h.owner ≡ o)) × (posted_this_tick w ≡ false)

unlatched :
    (o : Owner) (w : Wheel)
    → posted_this_tick w ≡ false
    → other_posted o w.tick w.posted_tick w.posted_owner ≡ false
unfolding posted_this_tick
unlatched o w e = go w.posted_tick w.posted_owner e
  where
    go :
        (at : Option ℕ) (by : Option Owner)
        → same at (some w.tick) ≡ false
        → other_posted o w.tick at by ≡ false
    go none by f = refl
    go (some at) none f = f
    go (some at) (some by) f = rw f refl

takes_from :
    (a : Owner) (h : MovementToken) (reason : Name) (lease : Option ℕ) (w : Wheel)
    → same_owner h.owner a ≡ false
    → priority a ≡ priority h.owner
    → acquire_from (some h) a reason lease w
      ≡ (fire_hook h.owner a (grant a reason lease w), some (token_of a reason w))
takes_from a h reason lease w other tie =
    rw other (rw (not_below (priority a) (priority h.owner) tie) refl)
  where
    not_below : (m n : ℕ) → m ≡ n → ltb m n ≡ false
    not_below m n e = ground arith

takes :
    (a b : Owner) (reason : Name) (lease : Option ℕ) (w : Wheel)
    → same_owner b a ≡ false
    → priority a ≡ priority b
    → IsOpenTo b w
    → let w' = (acquire a reason lease w).0 in
      IsOpenTo a w' × (length w'.preempted ≡ suc (length w.preempted))
unfolding acquire posted_this_tick fire_hook grant
takes a b reason lease w other tie ((h, e, mine), open_) = rw (unlatched a w open_) (
    subst (λ r. IsOpenTo a r.0 × (length r.0.preempted ≡ suc (length w.preempted)))
      (sym (
        ap (λ x. acquire_from x a reason lease w) e
        ∙ takes_from a h reason lease w (subst (λ o. same_owner o a ≡ false) (sym mine) other)
            (tie ∙ ap priority (sym mine))))
      (((token_of a reason w, refl, refl), open_), refl))

-- Two owners of one priority take the wheel from each other as often as they ask, with no other cause,
-- in a tick in which nothing is posted: each time the other is preempted.
pub alternate-preempts :
    (n : ℕ) (a b : Owner) (w : Wheel)
    → same_owner a b ≡ false
    → same_owner b a ≡ false
    → priority a ≡ priority b
    → IsOpenTo b w
    → length (alternate n a b w).preempted ≡ 2 * n + length w.preempted
unfolding alternate
alternate-preempts zero a b w n m tie k = omega arith
alternate-preempts (suc n) a b w ab ba tie k =
    let (k1, e1) = takes a b 0 (some 1) w ba tie k in
    let w1 = (acquire a 0 (some 1) w).0 in
    let (k2, e2) = takes b a 0 (some 1) w1 ab (sym tie) k1 in
    omega (arith, e1, e2, alternate-preempts n a b (acquire b 0 (some 1) w1).0 ab ba tie k2)
