-- ===== src/Operator/Followup.antt =====
-- The second half of `drive`, which `_apply_operator` of harness/wasted_harness/main.py arms and
-- `_operator_choice` posts.
use wanted.Base.{
  ◌≤◌, ◌≡◌, refl, ap, ◌∙◌, true, false, Option, none, some, List, [], ◌∷◌, Bool-cases, All, arith,
  inl, inr, length,
}
use wanted.Wheel.Owner.{Owner}
use wanted.Operator.Queue.{Command, Directive, Step, steps}
use wanted.Operator.Apply.{
  Scene, Reason, blocking_reason, Desk, reflex_act, first_step, apply_one, apply_as, apply_each,
  follow_up, apply_operator,
}

-- The ticks of the loop, with what each one drains.
unfoldable pub apply_ticks : List (Scene × List Directive) → Desk → Desk
apply_ticks [] k = k
apply_ticks ((s, ds) ∷ ts) k = apply_ticks ts (apply_operator s ds k).0

first_step-followup :
    (s : Scene) (d : Directive) (ss : List Step) (k : Desk)
    → length ss ≤ 1
    → (first_step s d ss k).0.followup ≡ k.followup
first_step-followup s d [] k h = refl
first_step-followup s d (first ∷ []) k h =
    elim (Bool-cases (reflex_act s Owner.operator first.type_ k.wheel).attempted) [
      | inl went ↦ rw went refl
      | inr refused ↦ rw refused refl
    ]
first_step-followup s d (first ∷ next ∷ rest) k h = absurd (omega (arith, h))

apply_one-followup :
    (s : Scene) (d : Directive) (c : Command) (k : Desk)
    → length (steps d) ≤ 1
    → (apply_one s d c k).0.followup ≡ k.followup
unfolding apply_one
apply_one-followup s d Command.stop k h = refl
apply_one-followup s d Command.nudge k h = refl
apply_one-followup s d Command.goal k h = elim (Bool-cases (s.offered d.arg)) [
  | inl offered ↦ rw offered refl
  | inr not_ ↦ rw not_ refl
]
apply_one-followup s d Command.task k h = first_step-followup s d (steps d) k h

apply_as-followup :
    (o : Option Reason) (s : Scene) (d : Directive) (k : Desk)
    → length (steps d) ≤ 1
    → (apply_as o s d k).0.followup ≡ k.followup
apply_as-followup none s d k h = apply_one-followup s d d.cmd k h
apply_as-followup (some reason) s d k h = refl

apply_each-followup :
    (s : Scene) (ds : List Directive) (k : Desk)
    → All (λ d. length (steps d) ≤ 1) ds
    → (apply_each s ds k).0.followup ≡ k.followup
unfolding apply_each
apply_each-followup s [] k hs = refl
apply_each-followup s (d ∷ ds) k (h, hs) =
    apply_each-followup s ds (apply_as (blocking_reason s d) s d k).0 hs
    ∙ apply_as-followup (blocking_reason s d) s d k h

on_foot-waits :
    (s : Scene) (o : Option Step) (k : Desk) → s.in_vehicle ≡ false → (follow_up s o k).0 ≡ k
on_foot-waits s none k h = refl
on_foot-waits s (some step) k h = rw h refl

-- While he is on foot, the second half of a `drive` stays armed over any ticks and whatever is drained
-- but another `drive`: a `stop` does not disarm it, nor does a refusal.
pub apply_ticks-armed :
    (ts : List (Scene × List Directive)) (k : Desk) (f : Step)
    → k.followup ≡ some f
    → All (λ t. (t.0.in_vehicle ≡ false) × All (λ d. length (steps d) ≤ 1) t.1) ts
    → (apply_ticks ts k).followup ≡ some f
unfolding apply_ticks apply_operator
apply_ticks-armed [] k f e hs = e
apply_ticks-armed ((s, ds) ∷ ts) k f e ((foot, one), hs) =
    let waits = ap (λ x. x.followup) (on_foot-waits s k.followup k foot) in
    apply_ticks-armed ts (apply_operator s ds k).0 f
      (apply_each-followup s ds (follow_up s k.followup k).0 one ∙ waits ∙ e) hs

-- Once he is seated, the second half is spent in that tick, also if the wheel refuses it.
pub follow_up-spent :
    (s : Scene) (k : Desk) → s.in_vehicle ≡ true → (follow_up s k.followup k).0.followup ≡ none
follow_up-spent s k h = go k.followup refl
  where
    go : (o : Option Step) → k.followup ≡ o → (follow_up s o k).0.followup ≡ none
    go none e = e
    go (some step) e = rw h refl
