-- ===== src/Wheel/Latch.antt =====
-- The latch of `MovementWheel`, harness/wasted_harness/behavior/vehicle.py, over the ticks of a run.
use wanted.Base.{
  ℕ, suc, ◌≡◌, refl, sym, ap, subst, inl, inr, Bool, true, false, not, ◌&&◌, Option, none, some,
  List, [], ◌∷◌, get_elem?, All, Name, Bool-cases, Option-cases, get_or, ==→eq, zero, arith,
  if◌then◌else◌, ltb, ◌==◌, is_some,
}
use wanted.Wheel.Owner.{Owner, priority, same_owner, same_owner→eq}
use wanted.Wheel.Arbiter.{
  token_for, MovementToken, Wheel, fresh, grant, refuse, fire_hook, free, begin_tick, other_posted,
  token_of, renewed, renew, acquire_from, acquire, holds_id, holds, release, held_by, release_owner,
  fire_for, mission_active, fire_unless_idle, force_idle, mark_posted, note, post, open_tick,
  is_reflex, is_expired, is_idle,
}
use wanted.Wheel.History.{
  Posted, Call, Day, took, step, run, OnePerTick, OnlyBy, with_token, with_task,
}
use wanted.Wheel.Fair.{
  Fair, IsFair, Fair-unheld, Fair-later, Fair-granted, Fair-forgotten, Fair-renewed, Fair-posted,
  Fair-allows, Fair-new,
}

-- A result of the wheel, with the token it hands out.
abbrev Keeps : List MovementToken → List Posted → Wheel × Option MovementToken → Type 0
Keeps issued tasks (w, t) = IsFair w (with_token t issued) tasks

fire_for-IsFair :
    (h : Option MovementToken) (o : Owner) (w : Wheel) (issued : List MovementToken)
    (tasks : List Posted)
    → IsFair w issued tasks
    → IsFair (fire_for h o w) issued tasks
unfolding fire_hook
fire_for-IsFair none o w issued tasks k = k
fire_for-IsFair (some h) o w issued tasks k = k

module _ {issued : List MovementToken} {tasks : List Posted} where
  grant-IsFair :
      (owner : Owner) (reason : Name) (lease : Option ℕ) (w : Wheel)
      → OnlyBy w.tick owner tasks
      → IsFair w issued tasks
      → IsFair (grant owner reason lease w) (token_of owner reason w ∷ issued) tasks
  unfolding grant
  grant-IsFair owner reason lease w only k =
      Fair-granted w.holder (token_of owner reason w) refl only k

  acquire_from-Keeps :
      (h : Option MovementToken) (owner : Owner) (reason : Name) (lease : Option ℕ) (w : Wheel)
      → w.holder ≡ h
      → OnlyBy w.tick owner tasks
      → IsFair w issued tasks
      → Keeps issued tasks (acquire_from h owner reason lease w)
  unfolding refuse fire_hook
  acquire_from-Keeps none owner reason lease w e only k = grant-IsFair owner reason lease w only k
  acquire_from-Keeps (some h) owner reason lease w e only k =
      elim (Bool-cases (same_owner h.owner owner)) [
        | inl same_ ↦ rw same_ (
            mine
              (subst (λ o. Fair o w.next_id w.tick w.posted_tick w.posted_owner issued tasks) e k)
              (same_owner→eq h.owner owner same_))
        | inr other ↦ rw other (elim (Bool-cases (ltb (priority owner) (priority h.owner))) [
          | inl outranked ↦ rw outranked k
          | inr taken ↦ rw taken (grant-IsFair owner reason lease w only k)
        ])
      ]
    where
      mine :
          Fair (some h) w.next_id w.tick w.posted_tick w.posted_owner issued tasks
          → h.owner ≡ owner
          → IsFair (renew owner reason lease h w) (renewed owner reason h ∷ issued) tasks
      mine k e = Fair-renewed h (renewed owner reason h) refl (sym e) k

  acquire-Keeps :
      (owner : Owner) (reason : Name) (lease : Option ℕ) (w : Wheel)
      → IsFair w issued tasks
      → Keeps issued tasks (acquire owner reason lease w)
  unfolding acquire refuse
  acquire-Keeps owner reason lease w k =
      elim (Bool-cases (other_posted owner w.tick w.posted_tick w.posted_owner)) [
        | inl latched ↦ rw latched k
        | inr free_ ↦ rw free_ (
            acquire_from-Keeps w.holder owner reason lease w refl
              (Fair-allows w.holder owner free_ k) k)
      ]

  free-IsFair : (w : Wheel) → IsFair w issued tasks → IsFair (free w).0 issued tasks
  unfolding free
  free-IsFair w k = Fair-unheld w.holder k

  release-IsFair :
      (t : Option MovementToken) (w : Wheel)
      → IsFair w issued tasks
      → IsFair (release t w).0 issued tasks
  unfolding release
  release-IsFair t w k = elim (Bool-cases (holds t w)) [
    | inl held ↦ rw held (free-IsFair w k)
    | inr stale ↦ rw stale k
  ]

  release_owner-IsFair :
      (o : Owner) (w : Wheel) → IsFair w issued tasks → IsFair (release_owner o w).0 issued tasks
  unfolding release_owner
  release_owner-IsFair o w k = elim (Bool-cases (held_by w.holder o)) [
    | inl held ↦ rw held (free-IsFair w k)
    | inr other ↦ rw other k
  ]

  token_for-Keeps :
      (o : Owner) (w : Wheel) → IsFair w issued tasks → Keeps issued tasks (w, token_for o w)
  unfolding token_for
  token_for-Keeps o w k = elim (Bool-cases (held_by w.holder o)) [
    | inl held ↦ rw held (go w.holder k)
    | inr other ↦ rw other k
  ]
    where
      go :
          (h : Option MovementToken)
          → Fair h w.next_id w.tick w.posted_tick w.posted_owner issued tasks
          → Fair h w.next_id w.tick w.posted_tick w.posted_owner (with_token h issued) tasks
      go none f = f
      go (some h) f = Fair-renewed h h refl refl f

  note-IsFair : (o : Owner) (w : Wheel) → IsFair w issued tasks → IsFair (note o w) issued tasks
  unfolding note
  note-IsFair o w k = elim (Bool-cases (is_reflex o)) [
    | inl reflex ↦ rw reflex k
    | inr other ↦ rw other k
  ]

  begin_tick-IsFair : (w : Wheel) → IsFair w issued tasks → IsFair (begin_tick w) issued tasks
  unfolding begin_tick
  begin_tick-IsFair w k =
      elim (Bool-cases (is_some w.holder && is_expired (suc w.tick) w.lease_until)) [
        | inl expired ↦ rw expired (Fair-unheld w.holder (Fair-later w.holder k))
        | inr goes_on ↦ rw goes_on (Fair-later w.holder k)
      ]

  begin_tick-new :
      (owner : Owner) (w : Wheel) → IsFair w issued tasks → OnlyBy (begin_tick w).tick owner tasks
  unfolding begin_tick
  begin_tick-new owner w k =
      elim (Bool-cases (is_some w.holder && is_expired (suc w.tick) w.lease_until)) [
        | inl expired ↦ rw expired (Fair-new w.holder owner k)
        | inr goes_on ↦ rw goes_on (Fair-new w.holder owner k)
      ]

  fire_unless_idle-IsFair :
      (h : Option MovementToken) (w : Wheel)
      → IsFair w issued tasks
      → IsFair (fire_unless_idle h w) issued tasks
  unfolding fire_hook
  fire_unless_idle-IsFair none w k = k
  fire_unless_idle-IsFair (some h) w k = elim (Bool-cases (is_idle h.owner)) [
    | inl idle ↦ rw idle k
    | inr other ↦ rw other k
  ]

  mission_active-Keeps :
      (active : Bool) (reason : Name) (w : Wheel)
      → OnlyBy w.tick Owner.mission tasks
      → IsFair w issued tasks
      → Keeps issued tasks (mission_active active reason w)
  unfolding mission_active
  mission_active-Keeps true reason w only k = elim (Bool-cases (not w.mission_is_active)) [
    | inl starts ↦
        let taken = record w { mission_is_active = true } in
        rw starts (
          fire_for-IsFair w.holder Owner.mission (grant Owner.mission reason none taken)
            (token_of Owner.mission reason taken ∷ issued) tasks
            (grant-IsFair Owner.mission reason none taken only k))
    | inr goes_on ↦ rw goes_on (acquire-Keeps Owner.mission reason none w k)
  ]
  mission_active-Keeps false reason w only k = go w.mission_is_active
    where
      go :
          (b : Bool)
          → Keeps issued tasks (
              if b
              then ((release_owner Owner.mission (record w { mission_is_active = false })).0, none)
              else (w, none))
      go true = release_owner-IsFair Owner.mission (record w { mission_is_active = false }) k
      go false = k

  force_idle-IsFair :
      (reason : Name) (w : Wheel)
      → OnlyBy w.tick Owner.idle tasks
      → IsFair w issued tasks
      → IsFair (force_idle reason w) issued tasks
  unfolding force_idle grant
  force_idle-IsFair reason w only k =
      elim (Bool-cases (w.forced_idle && held_by w.holder Owner.idle)) [
        | inl already ↦ rw already k
        | inr now ↦ rw now (
            fire_unless_idle-IsFair w.holder
              (record (grant Owner.idle reason none w) { forced_idle = true }) (idled w only k))
      ]
    where
      idled :
          (w : Wheel)
          → OnlyBy w.tick Owner.idle tasks
          → IsFair w issued tasks
          → IsFair (record (grant Owner.idle reason none w) { forced_idle = true }) issued tasks
      idled w only k =
          Fair-forgotten (some (token_of Owner.idle reason w)) (token_of Owner.idle reason w)
            (Fair-granted w.holder (token_of Owner.idle reason w) refl only k)

  open_tick-Keeps :
      (controls active : Bool) (reason : Name) (w : Wheel)
      → IsFair w issued tasks
      → Keeps issued tasks (open_tick controls active reason w)
  unfolding open_tick
  open_tick-Keeps true active reason w k =
      force_idle-IsFair reason (begin_tick w) (begin_tick-new Owner.idle w k)
        (begin_tick-IsFair w k)
  open_tick-Keeps false active reason w k =
      mission_active-Keeps active reason (begin_tick w) (begin_tick-new Owner.mission w k)
        (begin_tick-IsFair w k)

All-nth :
    {A : Type 0} (P : A → Type 0) (xs : List A) (n : ℕ) (x : A)
    → All P xs
    → get_elem? xs n ≡ some x
    → P x
All-nth P [] n x ps e = absurd (cc)
All-nth P (y ∷ ys) zero x ps e = subst P (ap (λ o. get_or o y) e) ps.0
All-nth P (y ∷ ys) (suc n) x ps e = All-nth P ys n x ps.1 e

abbrev DayIsFair : Day → Type 0
DayIsFair d = IsFair d.wheel d.issued d.tasks

took-DayIsFair :
    (d : Day) (r : Wheel × Option MovementToken)
    → IsFair r.0 (with_token r.1 d.issued) d.tasks
    → DayIsFair (took d r)
took-DayIsFair d (w, t) k = k

-- The holder's token puts its own owner on the wire.
posted-IsFair :
    (w : Wheel) (issued : List MovementToken) (tasks : List Posted) (n : ℕ) (t : MovementToken)
    → get_elem? issued n ≡ some t
    → holds_id w.holder t ≡ true
    → IsFair w issued tasks
    → IsFair (mark_posted t w) issued (record { tick = w.tick; owner = t.owner } ∷ tasks)
unfolding mark_posted
posted-IsFair w issued tasks n t at held k = elim (Option-cases w.holder) [
  | inl nobody ↦ absurd (nobody_holds (subst (λ h. holds_id h t ≡ true) nobody held))
  | inr (h, e) ↦
      subst
        (λ o.
          Fair o w.next_id w.tick (some w.tick) (some t.owner) issued
            (record { tick = w.tick; owner = t.owner } ∷ tasks))
        (sym e)
        (by h (subst (λ o. holds_id o t ≡ true) e held)
          (subst (λ o. Fair o w.next_id w.tick w.posted_tick w.posted_owner issued tasks) e k))
]
  where
    nobody_holds : false ≡ true → ⊥
    nobody_holds e = cc

    by :
        (h : MovementToken)
        → (h.id == t.id) ≡ true
        → Fair (some h) w.next_id w.tick w.posted_tick w.posted_owner issued tasks
        → Fair
            (some h)
            w.next_id
            w.tick
            (some w.tick)
            (some t.owner)
            issued
            (record { tick = w.tick; owner = t.owner } ∷ tasks)
    by h same_id k =
        Fair-posted h t.owner
          (All-nth (λ s. s.id ≡ h.id → s.owner ≡ h.owner) issued n t k.held_owner at
            (sym (==→eq h.id t.id same_id)))
          k

-- What `post` does with a token handed out before.
post-DayIsFair :
    (passes : Bool) (n : ℕ) (d : Day) → DayIsFair d → DayIsFair (step (Call.posts passes n) d)
unfolding step post holds
post-DayIsFair passes n d k = go (get_elem? d.issued n) refl
  where
    go :
        (t : Option MovementToken)
        → get_elem? d.issued n ≡ t
        → IsFair
            (post passes t d.wheel).0
            d.issued
            (with_task d.wheel.tick (post passes t d.wheel).1 d.tasks)
    go none e = k
    go (some t) e = elim (Bool-cases (passes && holds_id d.wheel.holder t)) [
      | inl held ↦ rw held (posted-IsFair d.wheel d.issued d.tasks n t e (ground arith) k)
      | inr refused ↦ rw refused k
    ]

step-DayIsFair : (c : Call) (d : Day) → DayIsFair d → DayIsFair (step c d)
unfolding step
step-DayIsFair (Call.opens controls active reason) d k =
    open_tick-Keeps controls active reason d.wheel k
step-DayIsFair (Call.acquires owner reason lease) d k = acquire-Keeps owner reason lease d.wheel k
step-DayIsFair (Call.releases n) d k = release-IsFair (get_elem? d.issued n) d.wheel k
step-DayIsFair (Call.releases_owner owner) d k = release_owner-IsFair owner d.wheel k
step-DayIsFair (Call.looks_up owner) d k = token_for-Keeps owner d.wheel k
step-DayIsFair (Call.notes owner) d k = note-IsFair owner d.wheel k
step-DayIsFair (Call.posts passes n) d k = post-DayIsFair passes n d k

run-DayIsFair : (cs : List Call) (d : Day) → DayIsFair d → DayIsFair (run cs d)
unfolding run
run-DayIsFair [] d k = k
run-DayIsFair (c ∷ cs) d k = run-DayIsFair cs (step c d) (step-DayIsFair c d k)

-- However the ticks are opened, whoever asks for the wheel, with whatever lease, gives it back, looks up
-- its token or posts, with any token handed out so far, a stale one too, in any order: from a new wheel on, any two
-- movement tasks of one tick are of one owner.
pub run-OnePerTick :
    (cs : List Call) → OnePerTick (run cs (record { wheel = fresh; issued = []; tasks = [] })).tasks
run-OnePerTick cs =
    let k =
      run-DayIsFair cs (record { wheel = fresh; issued = []; tasks = [] })
        (record {
          numbered = tt;
          held_number = tt;
          held_owner = tt;
          past = tt;
          latched = tt;
          held_poster = tt;
          one = tt;
        }) in
    k.one
