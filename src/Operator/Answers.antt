-- ===== src/Operator/Answers.antt =====
-- The answers to the operator's directives, `_apply_operator` of harness/wasted_harness/main.py.
use wanted.Base.{
  ◌≡◌, refl, sym, ap, ◌∙◌, ◌&&◌, Option, none, some, List, [], ◌∷◌, ◌++◌, Bool-cases, inl, inr,
}
use wanted.Tasks.{TaskType, is_bridge_task}
use wanted.Wheel.Owner.{Owner}
use wanted.Wheel.Arbiter.{MovementToken, Wheel, acquire, release_owner, post}
use wanted.Operator.Queue.{Command, Directive, Step, steps}
use wanted.Operator.Apply.{
  Scene, Reason, blocking_reason, Desk, Effect, is_movement, posted_as, act_with, reflex_act,
  end_activity, accept, first_step, apply_one, apply_as, apply_each, follow_up, apply_operator,
}

-- The directives answered: refused, or applied. And those of the feed.
abbrev pub answers : List Effect → List Directive
answers [] = []
answers (Effect.refused d r ∷ es) = d ∷ answers es
answers (Effect.applied d ∷ es) = d ∷ answers es
answers (_ ∷ es) = answers es

abbrev pub applications : List Effect → List Directive
applications [] = []
applications (Effect.applied d ∷ es) = d ∷ applications es
applications (_ ∷ es) = applications es

abbrev pub records : List Effect → List Directive
records [] = []
records (Effect.recorded d ∷ es) = d ∷ records es
records (_ ∷ es) = records es

-- Effects that answer these directives, with an event for each one applied.
abbrev Answer : List Directive → List Effect → Type 0
Answer ds es = (answers es ≡ ds) × (records es ≡ applications es)

answers-append : (es fs : List Effect) → answers (es ++ fs) ≡ answers es ++ answers fs
answers-append [] fs = refl
answers-append (Effect.refused d r ∷ es) fs = ap (λ x. d ∷ x) (answers-append es fs)
answers-append (Effect.applied d ∷ es) fs = ap (λ x. d ∷ x) (answers-append es fs)
answers-append (Effect.posted t ∷ es) fs = answers-append es fs
answers-append (Effect.ended_activity ∷ es) fs = answers-append es fs
answers-append (Effect.recorded d ∷ es) fs = answers-append es fs

applications-append :
    (es fs : List Effect) → applications (es ++ fs) ≡ applications es ++ applications fs
applications-append [] fs = refl
applications-append (Effect.applied d ∷ es) fs = ap (λ x. d ∷ x) (applications-append es fs)
applications-append (Effect.refused d r ∷ es) fs = applications-append es fs
applications-append (Effect.posted t ∷ es) fs = applications-append es fs
applications-append (Effect.ended_activity ∷ es) fs = applications-append es fs
applications-append (Effect.recorded d ∷ es) fs = applications-append es fs

records-append : (es fs : List Effect) → records (es ++ fs) ≡ records es ++ records fs
records-append [] fs = refl
records-append (Effect.recorded d ∷ es) fs = ap (λ x. d ∷ x) (records-append es fs)
records-append (Effect.refused d r ∷ es) fs = records-append es fs
records-append (Effect.posted t ∷ es) fs = records-append es fs
records-append (Effect.ended_activity ∷ es) fs = records-append es fs
records-append (Effect.applied d ∷ es) fs = records-append es fs

Answer-append :
    (ds cs : List Directive) (es fs : List Effect)
    → Answer ds es
    → Answer cs fs
    → Answer (ds ++ cs) (es ++ fs)
Answer-append ds cs es fs (a, r) (b, q) = (
  answers-append es fs ∙ ap (λ x. x ++ answers fs) a ∙ ap (λ x. ds ++ x) b,
  records-append es fs
      ∙ ap (λ x. x ++ records fs) r
      ∙ ap (λ x. applications es ++ x) q
      ∙ sym (applications-append es fs),
)

posted_as-Answer : (t : TaskType) (sent : Option Owner) → Answer [] (posted_as t sent)
posted_as-Answer t none = (refl, refl)
posted_as-Answer t (some _) = (refl, refl)

act_with-Answer :
    (s : Scene) (t : TaskType) (r : Wheel × Option MovementToken)
    → Answer [] (act_with s t r).effects
act_with-Answer s t (w, none) = (refl, refl)
act_with-Answer s t (w, some token) = posted_as-Answer t (post (s.passes t) (some token) w).1

reflex_act-Answer :
    (s : Scene) (o : Owner) (t : TaskType) (w : Wheel) → Answer [] (reflex_act s o t w).effects
unfolding reflex_act
reflex_act-Answer s o t w = elim (Bool-cases (is_movement t)) [
  | inl moves ↦ rw moves (act_with-Answer s t (acquire o 1 (some 1) w))
  | inr still ↦ rw still (elim (Bool-cases (is_bridge_task t && s.passes t)) [
    | inl goes ↦ rw goes (refl, refl)
    | inr stays ↦ rw stays (refl, refl)
  ])
]

accept-Answer : (d : Directive) (es : List Effect) → Answer [] es → Answer (d ∷ []) (accept d es)
accept-Answer d es a =
    Answer-append [] (d ∷ []) es (Effect.applied d ∷ Effect.recorded d ∷ []) a (refl, refl)

first_step-Answer :
    (s : Scene) (d : Directive) (ss : List Step) (k : Desk)
    → Answer (d ∷ []) (first_step s d ss k).1
first_step-Answer s d [] k = (refl, refl)
first_step-Answer s d (first ∷ rest) k =
    let acted = reflex_act s Owner.operator first.type_ k.wheel in
    elim (Bool-cases acted.attempted) [
      | inl went ↦
          rw went
            (accept-Answer d acted.effects (reflex_act-Answer s Owner.operator first.type_ k.wheel))
      | inr refused ↦ rw refused (refl, refl)
    ]

apply_one-Answer :
    (s : Scene) (d : Directive) (c : Command) (k : Desk) → Answer (d ∷ []) (apply_one s d c k).1
unfolding apply_one
apply_one-Answer s d Command.stop k =
    let acted = reflex_act s Owner.operator TaskType.stop (end_activity k).wheel in
    accept-Answer d (Effect.ended_activity ∷ acted.effects)
      (reflex_act-Answer s Owner.operator TaskType.stop (end_activity k).wheel)
apply_one-Answer s d Command.nudge k = (refl, refl)
apply_one-Answer s d Command.goal k = elim (Bool-cases (s.offered d.arg)) [
  | inl offered ↦ rw offered (refl, refl)
  | inr not_ ↦ rw not_ (refl, refl)
]
apply_one-Answer s d Command.task k = first_step-Answer s d (steps d) k

apply_as-Answer :
    (o : Option Reason) (s : Scene) (d : Directive) (k : Desk)
    → Answer (d ∷ []) (apply_as o s d k).1
apply_as-Answer none s d k = apply_one-Answer s d d.cmd k
apply_as-Answer (some reason) s d k = (refl, refl)

apply_each-Answer : (s : Scene) (ds : List Directive) (k : Desk) → Answer ds (apply_each s ds k).1
unfolding apply_each
apply_each-Answer s [] k = (refl, refl)
apply_each-Answer s (d ∷ ds) k =
    let (k', es) = apply_as (blocking_reason s d) s d k in
    Answer-append (d ∷ []) ds es (apply_each s ds k').1
      (apply_as-Answer (blocking_reason s d) s d k) (apply_each-Answer s ds k')

follow_up-Answer : (s : Scene) (o : Option Step) (k : Desk) → Answer [] (follow_up s o k).1
unfolding reflex_act
follow_up-Answer s none k = (refl, refl)
follow_up-Answer s (some step) k = elim (Bool-cases s.in_vehicle) [
  | inl seated ↦ rw seated (reflex_act-Answer s Owner.operator step.type_ k.wheel)
  | inr on_foot ↦ rw on_foot (refl, refl)
]

-- Whatever the tick and the wheel: every directive drained is answered once, in the order of the queue,
-- by a refusal with its reason or as applied, and the feed gets an event for precisely those applied.
pub apply_operator-answers :
    (s : Scene) (ds : List Directive) (k : Desk)
    → let es = (apply_operator s ds k).1 in (answers es ≡ ds) × (records es ≡ applications es)
unfolding apply_operator
apply_operator-answers s ds k =
    let (k', es) = follow_up s k.followup k in
    Answer-append [] ds es (apply_each s ds k').1 (follow_up-Answer s k.followup k)
      (apply_each-Answer s ds k')

-- `stop` is answered as applied, and the feed gets its event, also where the wheel refuses the
-- operator and nothing is posted.
pub stop-applied_unposted :
    (s : Scene) (d : Directive) (k : Desk)
    → (acquire Owner.operator 1 (some 1) (release_owner Owner.roam k.wheel).0).1 ≡ none
    → (apply_one s d Command.stop k).1
      ≡ Effect.ended_activity ∷ Effect.applied d ∷ Effect.recorded d ∷ []
unfolding apply_one reflex_act
stop-applied_unposted s d k e =
    ap (λ es. accept d (Effect.ended_activity ∷ es))
      (silent (acquire Owner.operator 1 (some 1) (release_owner Owner.roam k.wheel).0) e)
  where
    silent :
        (r : Wheel × Option MovementToken) → r.1 ≡ none → (act_with s TaskType.stop r).effects ≡ []
    silent (w, none) e = refl
    silent (w, some t) e = absurd (cc)
