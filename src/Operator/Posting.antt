-- ===== src/Operator/Posting.antt =====
-- The calls of the movement wheel by `_apply_operator` of harness/wasted_harness/main.py.
use wanted.Base.{
  ℕ, ◌+◌, ◌≡◌, refl, ap, ◌∙◌, Bool, true, false, Option, none, some, List, [], ◌∷◌, ◌++◌, length,
  OnSome, Bool-cases, arith, inl, inr, if◌then◌else◌, All, suc,
}
use wanted.Tasks.{TaskType}
use wanted.Wheel.Owner.{Owner}
use wanted.Wheel.Arbiter.{MovementToken, Wheel, acquire, release_owner, post}
use wanted.Wheel.History.{Call, Day, took, with_task, step, run}
use wanted.Operator.Queue.{Command, Arg, Directive, Step, steps, task_steps, is_task}
use wanted.Operator.Apply.{
  Scene, Reason, blocking_reason, Desk, Effect, is_movement, posted_as, Acted, act_with, reflex_act,
  end_activity, accept, first_step, apply_one, apply_as, apply_each, follow_up, apply_operator,
}

-- The tasks posted.
abbrev pub posts : List Effect → ℕ
posts [] = 0
posts (Effect.posted t ∷ es) = suc (posts es)
posts (_ ∷ es) = posts es

posts-append : (es fs : List Effect) → posts (es ++ fs) ≡ posts es + posts fs
posts-append [] fs = omega arith
posts-append (Effect.posted t ∷ es) fs = omega (arith, posts-append es fs)
posts-append (Effect.ended_activity ∷ es) fs = posts-append es fs
posts-append (Effect.refused d r ∷ es) fs = posts-append es fs
posts-append (Effect.applied d ∷ es) fs = posts-append es fs
posts-append (Effect.recorded d ∷ es) fs = posts-append es fs

-- A run of the wheel from a day on that ends with this wheel, and with a task on the wire for each one
-- posted.
abbrev pub IsRun : Day → Wheel → List Effect → Type 0
IsRun day w es =
    (cs : List Call) × ((run cs day).wheel ≡ w)
    × (length (run cs day).tasks ≡ length day.tasks + posts es)

run-append : (cs ds : List Call) (day : Day) → run (cs ++ ds) day ≡ run ds (run cs day)
unfolding run
run-append [] ds day = refl
run-append (c ∷ cs) ds day = run-append cs ds (step c day)

IsRun-nil : (day : Day) (w : Wheel) → day.wheel ≡ w → IsRun day w []
unfolding run
IsRun-nil day w e = ([], e, omega arith)

IsRun-then :
    (day : Day) (w w' : Wheel) (es fs : List Effect)
    → IsRun day w es
    → ((day' : Day) → day'.wheel ≡ w → IsRun day' w' fs)
    → IsRun day w' (es ++ fs)
IsRun-then day w w' es fs (cs, e, n) next =
    let (ds, e', n') = next (run cs day) e in
    (
      cs ++ ds,
      ap (λ x. x.wheel) (run-append cs ds day) ∙ e',
      ap (λ x. length x.tasks) (run-append cs ds day) ∙ omega (arith, n, n', posts-append es fs),
    )

-- An act whose task needs the wheel: asking for it, and posting with the token.
act_with-IsRun :
    (s : Scene) (t : TaskType) (day : Day) (r : Wheel × Option MovementToken)
    → acquire Owner.operator 1 (some 1) day.wheel ≡ r
    → IsRun day (act_with s t r).wheel (act_with s t r).effects
unfolding run step
act_with-IsRun s t day (w, none) e =
    (Call.acquires Owner.operator 1 (some 1) ∷ [], ap (λ r. r.0) e, omega arith)
act_with-IsRun s t day (w, some token) e = (
  Call.acquires Owner.operator 1 (some 1) ∷ Call.posts (s.passes t) 0 ∷ [],
  ap (λ r. (run (Call.posts (s.passes t) 0 ∷ []) (took day r)).wheel) e,
  ap (λ r. length (run (Call.posts (s.passes t) 0 ∷ []) (took day r)).tasks) e
      ∙ sent (post (s.passes t) (some token) w).1,
)
  where
    sent :
        (o : Option Owner)
        → length (with_task w.tick o day.tasks) ≡ length day.tasks + posts (posted_as t o)
    sent none = omega arith
    sent (some o) = omega arith

reflex_act-IsRun :
    (s : Scene) (t : TaskType) (day : Day) (w : Wheel)
    → is_movement t ≡ true
    → day.wheel ≡ w
    → IsRun day (reflex_act s Owner.operator t w).wheel (reflex_act s Owner.operator t w).effects
unfolding reflex_act
reflex_act-IsRun s t day w m e = rw m (
    act_with-IsRun s t day (acquire Owner.operator 1 (some 1) w)
      (ap (acquire Owner.operator 1 (some 1)) e))

reflex_act-silent :
    (s : Scene) (t : TaskType) (w : Wheel)
    → is_movement t ≡ true
    → (reflex_act s Owner.operator t w).attempted ≡ false
    → (reflex_act s Owner.operator t w).effects ≡ []
unfolding reflex_act
reflex_act-silent s t w m a =
    let a' : (act_with s t (acquire Owner.operator 1 (some 1) w)).attempted ≡ false = rw m at a in
    rw m (go (acquire Owner.operator 1 (some 1) w) a')
  where
    go :
        (r : Wheel × Option MovementToken)
        → (act_with s t r).attempted ≡ false
        → (act_with s t r).effects ≡ []
    go (w, none) e = refl
    go (w, some token) e = absurd (cc)

-- Effects that post nothing change no count.
accept-IsRun :
    (day : Day) (w : Wheel) (d : Directive) (es : List Effect)
    → IsRun day w es
    → IsRun day w (accept d es)
accept-IsRun day w d es (cs, e, n) =
    (cs, e, omega (arith, n, posts-append es (Effect.applied d ∷ Effect.recorded d ∷ [])))

ended-IsRun :
    (day : Day) (k : Desk) (w : Wheel) (es : List Effect)
    → day.wheel ≡ k.wheel
    → ((day' : Day) → day'.wheel ≡ (end_activity k).wheel → IsRun day' w es)
    → IsRun day w (Effect.ended_activity ∷ es)
unfolding run step
ended-IsRun day k w es e next =
    IsRun-then day (end_activity k).wheel w (Effect.ended_activity ∷ []) es
      (Call.releases_owner Owner.roam ∷ [], ap (λ x. (release_owner Owner.roam x).0) e, omega arith)
      next

first_step-IsRun :
    (s : Scene) (d : Directive) (ss : List Step) (day : Day) (k : Desk)
    → All (λ x. is_movement x.type_ ≡ true) ss
    → day.wheel ≡ k.wheel
    → IsRun day (first_step s d ss k).0.wheel (first_step s d ss k).1
first_step-IsRun s d [] day k m e = IsRun-nil day k.wheel e
first_step-IsRun s d (first ∷ rest) day k m e = go acted.attempted refl
  where
    acted : Acted
    acted = reflex_act s Owner.operator first.type_ k.wheel

    ran : IsRun day acted.wheel acted.effects
    ran = reflex_act-IsRun s first.type_ day k.wheel m.0 e

    go :
        (b : Bool)
        → acted.attempted ≡ b
        → IsRun day (first_step s d (first ∷ rest) k).0.wheel (first_step s d (first ∷ rest) k).1
    go true a = rw a (accept-IsRun day acted.wheel d acted.effects ran)
    go false a = rw a (
      ran.0,
      ran.1,
      ran.2
          ∙ ap (λ es. length day.tasks + posts es) (reflex_act-silent s first.type_ k.wheel m.0 a),
    )

steps-movement : (d : Directive) → All (λ x. is_movement x.type_ ≡ true) (steps d)
unfolding steps
steps-movement d = go (is_task d.cmd) d.arg
  where
    go :
        (b : Bool) (arg : Arg)
        → All (λ x. is_movement x.type_ ≡ true) (if b then task_steps arg d.handle else [])
    go false arg = tt
    go true Arg.drive = (refl, (refl, tt))
    go true Arg.shoot_at = (refl, tt)
    go true Arg.fight_ped = (refl, tt)
    go true Arg.enter_nearest_vehicle = (refl, tt)
    go true Arg.wander_drive = (refl, tt)
    go true Arg.flee_police = (refl, tt)
    go true Arg.no_arg = tt
    go true (Arg.identifier _) = tt
    go true (Arg.other _) = tt

apply_one-IsRun :
    (s : Scene) (d : Directive) (c : Command) (day : Day) (k : Desk)
    → day.wheel ≡ k.wheel
    → IsRun day (apply_one s d c k).0.wheel (apply_one s d c k).1
unfolding apply_one
apply_one-IsRun s d Command.stop day k e =
    let acted = reflex_act s Owner.operator TaskType.stop (end_activity k).wheel in
    accept-IsRun day acted.wheel d (Effect.ended_activity ∷ acted.effects) (
      ended-IsRun day k acted.wheel acted.effects e
        (λ day' e'. reflex_act-IsRun s TaskType.stop day' (end_activity k).wheel refl e'))
apply_one-IsRun s d Command.nudge day k e =
    accept-IsRun day (end_activity k).wheel d (Effect.ended_activity ∷ []) (
      ended-IsRun day k (end_activity k).wheel [] e
        (λ day' e'. IsRun-nil day' (end_activity k).wheel e'))
apply_one-IsRun s d Command.goal day k e = elim (Bool-cases (s.offered d.arg)) [
  | inl offered ↦ rw offered (
      accept-IsRun day (end_activity k).wheel d (Effect.ended_activity ∷ []) (
        ended-IsRun day k (end_activity k).wheel [] e
          (λ day' e'. IsRun-nil day' (end_activity k).wheel e')))
  | inr not_ ↦ rw not_ (IsRun-nil day k.wheel e)
]
apply_one-IsRun s d Command.task day k e = first_step-IsRun s d (steps d) day k (steps-movement d) e

apply_as-IsRun :
    (o : Option Reason) (s : Scene) (d : Directive) (day : Day) (k : Desk)
    → day.wheel ≡ k.wheel
    → IsRun day (apply_as o s d k).0.wheel (apply_as o s d k).1
apply_as-IsRun none s d day k e = apply_one-IsRun s d d.cmd day k e
apply_as-IsRun (some reason) s d day k e = IsRun-nil day k.wheel e

apply_each-IsRun :
    (s : Scene) (ds : List Directive) (day : Day) (k : Desk)
    → day.wheel ≡ k.wheel
    → IsRun day (apply_each s ds k).0.wheel (apply_each s ds k).1
unfolding apply_each
apply_each-IsRun s [] day k e = IsRun-nil day k.wheel e
apply_each-IsRun s (d ∷ ds) day k e =
    let (k', es) = apply_as (blocking_reason s d) s d k in
    IsRun-then day k'.wheel (apply_each s ds k').0.wheel es (apply_each s ds k').1
      (apply_as-IsRun (blocking_reason s d) s d day k e)
      (λ day' e'. apply_each-IsRun s ds day' k' e')

follow_up-IsRun :
    (s : Scene) (o : Option Step) (day : Day) (k : Desk)
    → OnSome (λ x. is_movement x.type_ ≡ true) o
    → day.wheel ≡ k.wheel
    → IsRun day (follow_up s o k).0.wheel (follow_up s o k).1
follow_up-IsRun s none day k m e = IsRun-nil day k.wheel e
follow_up-IsRun s (some x) day k m e = go s.in_vehicle
  where
    acted : Acted
    acted = reflex_act s Owner.operator x.type_ k.wheel

    P : Bool → Desk × List Effect
    P b = if b then (record k { wheel = acted.wheel; followup = none }, acted.effects) else (k, [])

    go : (b : Bool) → IsRun day (P b).0.wheel (P b).1
    go true = reflex_act-IsRun s x.type_ day k.wheel m e
    go false = IsRun-nil day k.wheel e

-- Whatever a tick drains, the operator's code moves him by the rules of the wheel only: its steps are a
-- run of the wheel, in which as many movement tasks go out as it posts. The second half of a `drive`,
-- if one is armed, is a movement task.
pub apply_operator-IsRun :
    (s : Scene) (ds : List Directive) (day : Day) (k : Desk)
    → OnSome (λ x. is_movement x.type_ ≡ true) k.followup
    → day.wheel ≡ k.wheel
    → IsRun day (apply_operator s ds k).0.wheel (apply_operator s ds k).1
unfolding apply_operator
apply_operator-IsRun s ds day k m e =
    let (k', es) = follow_up s k.followup k in
    IsRun-then day k'.wheel (apply_each s ds k').0.wheel es (apply_each s ds k').1
      (follow_up-IsRun s k.followup day k m e) (λ day' e'. apply_each-IsRun s ds day' k' e')
