-- ===== src/Wheel/Grant.antt =====
-- `acquire` of `MovementWheel`, harness/wasted_harness/behavior/vehicle.py: refusals and grants.
use wanted.Base.{
  ℕ, ◌<◌, ◌≡◌, ◌≢◌, refl, sym, ap, ◌∙◌, subst, ◌⊎◌, inl, inr, true, false, Option, none, some, List,
  ◌∷◌, Name, Bool-cases, arith, if◌then◌else◌, ltb, ==→eq, get_or,
}
use wanted.Wheel.Owner.{Owner, priority, same_owner, same_owner→eq, same_owner→ne}
use wanted.Wheel.Arbiter.{
  MovementToken, Wheel, grant, refuse, fire_hook, other_posted, token_of, renewed, acquire_from,
  acquire,
}

-- The tick is latched, and not for this owner.
abbrev pub IsLatched : Owner → Wheel → Type 0
IsLatched o w = (w.posted_tick ≡ some w.tick) × (w.posted_owner ≢ some o)

-- The holder is somebody else, of a higher priority.
abbrev pub IsOutranked : Owner → Option MovementToken → Type 0
IsOutranked o none = ⊥
IsOutranked o (some h) = (h.owner ≢ o) × (priority o < priority h.owner)

-- Who is preempted when this owner takes the wheel.
abbrev pub told : Option MovementToken → Owner → List (Owner × Owner) → List (Owner × Owner)
told none o ps = ps
told (some h) o ps = if same_owner h.owner o then ps else (h.owner, o) ∷ ps

-- The wheel is as it was, but for who waits.
abbrev pub IsRefused : Wheel → Wheel × Option MovementToken → Type 0
IsRefused w (w', t) =
    (t ≡ none)
    × (w'.holder ≡ w.holder)
    × (w'.lease_until ≡ w.lease_until)
    × (w'.preempted ≡ w.preempted)

abbrev pub IsTaken : Owner → Wheel → Wheel × Option MovementToken → Type 0
IsTaken o w (w', t) =
    (h : MovementToken) × (t ≡ some h)
    × (w'.holder ≡ some h)
    × (h.owner ≡ o)
    × (w'.preempted ≡ told w.holder o w.preempted)

other_posted-IsLatched :
    (o : Owner) (w : Wheel)
    → other_posted o w.tick w.posted_tick w.posted_owner ≡ true
    → IsLatched o w
other_posted-IsLatched o w h = go w.tick w.posted_tick w.posted_owner h
  where
    go :
        (tick : ℕ) (at : Option ℕ) (by : Option Owner)
        → other_posted o tick at by ≡ true
        → (at ≡ some tick) × (by ≢ some o)
    go tick none by h = absurd (cc)
    go tick (some at) none h = (ap some (==→eq at tick h), λ e. absurd (cc))
    go tick (some at) (some by) h = (
      ap some (==→eq at tick (ground arith)),
      λ e. same_owner→ne by o (ground arith) (ap (λ x. get_or x o) e),
    )

other_posted-free :
    (o : Owner) (w : Wheel)
    → other_posted o w.tick w.posted_tick w.posted_owner ≡ false
    → IsLatched o w
    → ⊥
other_posted-free o w h l =
    go w.posted_owner (subst (λ at. other_posted o w.tick at w.posted_owner ≡ false) l.0 h) l.1
  where
    go : (by : Option Owner) → other_posted o w.tick (some w.tick) by ≡ false → by ≢ some o → ⊥
    go none h n = ground arith
    go (some by) h n = n (ap some (same_owner→eq by o (ground arith)))

told-mine :
    (h : MovementToken) (o : Owner) (ps : List (Owner × Owner))
    → same_owner h.owner o ≡ true
    → told (some h) o ps ≡ ps
told-mine h o ps e = rw e refl

told-other :
    (h : MovementToken) (o : Owner) (ps : List (Owner × Owner))
    → same_owner h.owner o ≡ false
    → told (some h) o ps ≡ (h.owner, o) ∷ ps
told-other h o ps e = rw e refl

acquire_from-cases :
    (h : Option MovementToken) (o : Owner) (reason : Name) (lease : Option ℕ) (w : Wheel)
    → w.holder ≡ h
    → (IsOutranked o h × IsRefused w (acquire_from h o reason lease w))
      ⊎ ((IsOutranked o h → ⊥) × IsTaken o w (acquire_from h o reason lease w))
unfolding refuse fire_hook grant
acquire_from-cases none o reason lease w e =
    inr (λ k. k, (token_of o reason w, refl, refl, refl, ap (λ h. told h o w.preempted) (sym e)))
acquire_from-cases (some h) o reason lease w e =
    let held = ap (λ h. told h o w.preempted) e in
    elim (Bool-cases (same_owner h.owner o)) [
      | inl mine ↦
          let to = sym (held ∙ told-mine h o w.preempted mine) in
          rw mine (
            inr
              (λ k. k.0 (same_owner→eq h.owner o mine), (renewed o reason h, refl, refl, refl, to)))
      | inr other ↦
          let to = sym (held ∙ told-other h o w.preempted other) in
          rw other (elim (Bool-cases (ltb (priority o) (priority h.owner))) [
            | inl outranked ↦
                rw outranked
                  (inl ((same_owner→ne h.owner o other, ground arith), (refl, refl, refl, refl)))
            | inr taken ↦
                rw taken
                  (inr (λ k. absurd (ground arith), (token_of o reason w, refl, refl, refl, to)))
          ])
    ]

-- Asking for the wheel is refused in precisely two cases: a task of another owner is already out in
-- this tick, or the holder is another owner of a higher priority. Then the holder and its lease stay and
-- nobody is preempted. Otherwise the owner gets a token of its own, which holds the wheel, and the
-- holder is preempted if that was another.
pub acquire-cases :
    (o : Owner) (reason : Name) (lease : Option ℕ) (w : Wheel)
    → ((IsLatched o w ⊎ IsOutranked o w.holder) × IsRefused w (acquire o reason lease w))
      ⊎ ((IsLatched o w ⊎ IsOutranked o w.holder → ⊥) × IsTaken o w (acquire o reason lease w))
unfolding acquire refuse
acquire-cases o reason lease w =
    elim (Bool-cases (other_posted o w.tick w.posted_tick w.posted_owner)) [
      | inl latched ↦
          rw latched (inl (inl (other_posted-IsLatched o w latched), (refl, refl, refl, refl)))
      | inr open_ ↦ rw open_ (elim (acquire_from-cases w.holder o reason lease w refl) [
        | inl k ↦ inl (inr k.0, k.1)
        | inr k ↦ inr (λ e. elim e [ inl l ↦ other_posted-free o w open_ l | inr r ↦ k.0 r ], k.1)
      ])
    ]
