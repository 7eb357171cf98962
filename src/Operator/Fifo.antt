-- ===== src/Operator/Fifo.antt =====
-- The operator's queue over the requests of the HTTP thread and the ticks of the loop.
use mathlib.Core.List.{append-nil}
use wanted.Base.{
  ℕ, ◌≤◌, ◌<◌, ◌≡◌, refl, sym, ap, ◌∙◌, subst, true, false, Option, none, some, List, [], ◌∷◌, ◌++◌,
  append_assoc, length-append, All, All-append, leb, length, Bool-cases, arith, is_some, is_nil,
  inl, inr,
}
use wanted.Operator.Queue.{
  Command, Arg, Handle, ℤ, Directive, Checked, Reply, task_steps, is_catalog_id, is_no_arg,
  is_operator_task, needs_target, check, parse_handle, put_nowait, enqueue, submit, drain, maxsize,
}

-- What the loop can rely on: a task has steps, and a target where it needs one; a goal has an id; the
-- others have no argument.
abbrev pub IsSound : Directive → Type 0
IsSound d = of d.cmd
  where
    of : Command → Type 0
    of Command.task =
        (is_nil (task_steps d.arg d.handle) ≡ false)
        × (needs_target d.arg ≡ true → is_some d.handle ≡ true)
    of Command.goal = is_catalog_id d.arg ≡ true
    of Command.nudge = is_no_arg d.arg ≡ true
    of Command.stop = is_no_arg d.arg ≡ true

pub data Request : Type 0 where
  submits : ℕ → Option Command → Arg → Handle → Request
  drains : Request

pub record Line : Type 0 where
  pub queue : List Directive
  pub accepted : List Directive
  pub drained : List Directive

abbrev pub log_reply : Reply → List Directive → List Directive
log_reply (Reply.queued d) log = log ++ d ∷ []
log_reply (Reply.refused r) log = log

unfoldable pub serve : Request → Line → Line
serve (Request.submits now cmd arg handle) l =
    let (q, reply) = submit now cmd arg handle l.queue in
    record l { queue = q; accepted = log_reply reply l.accepted }
serve Request.drains l =
    let (q, out) = drain l.queue in record l { queue = q; drained = l.drained ++ out }

unfoldable pub serve_all : List Request → Line → Line
serve_all [] l = l
serve_all (r ∷ rs) l = serve_all rs (serve r l)

pub record IsLine (l : Line) : Type 0 where
  pub in_order : l.accepted ≡ l.drained ++ l.queue
  pub bounded : length l.queue ≤ maxsize
  pub sound : All IsSound l.accepted

-- What a submission did: queued a sound directive at the end, or nothing.
abbrev Queues : List Directive → List Directive × Reply → Type 0
Queues q (q', Reply.queued d) = (q' ≡ q ++ d ∷ []) × (length q < maxsize) × IsSound d
Queues q (q', Reply.refused r) = q' ≡ q

put_nowait-Queues : (d : Directive) (q : List Directive) → IsSound d → Queues q (put_nowait d q)
put_nowait-Queues d q s = elim (Bool-cases (leb maxsize (length q))) [
  | inl full ↦ rw full refl
  | inr room ↦ rw room (refl, (ground arith), s)
]

abbrev OfChecked : (Option ℤ → Type 0) → Checked → Type 0
OfChecked P (Checked.accepted handle) = P handle
OfChecked P (Checked.rejected r) = Unit

has_steps :
    (arg : Arg) (handle : Option ℤ)
    → is_operator_task arg ≡ true
    → is_nil (task_steps arg handle) ≡ false
has_steps Arg.drive handle e = refl
has_steps Arg.shoot_at handle e = refl
has_steps Arg.fight_ped handle e = refl
has_steps Arg.enter_nearest_vehicle handle e = refl
has_steps Arg.wander_drive handle e = refl
has_steps Arg.flee_police handle e = refl
has_steps Arg.no_arg handle e = absurd (cc)
has_steps (Arg.identifier _) handle e = absurd (cc)
has_steps (Arg.other _) handle e = absurd (cc)

check-IsSound :
    (now : ℕ) (cmd : Command) (arg : Arg) (handle : Handle)
    → OfChecked
        (λ h. IsSound (record { cmd = cmd; arg = arg; handle = h; received_at = now }))
        (check cmd arg handle)
unfolding check
check-IsSound now Command.goal arg handle = elim (Bool-cases (is_no_arg arg)) [
  | inl empty ↦ rw empty tt
  | inr given ↦
      rw given (elim (Bool-cases (is_catalog_id arg)) [ inl id ↦ rw id refl | inr bad ↦ rw bad tt ])
]
check-IsSound now Command.task arg handle = elim (Bool-cases (is_operator_task arg)) [
  | inr bad ↦ rw bad tt
  | inl good ↦ rw good (elim (Bool-cases (needs_target arg)) [
    | inl needs ↦ rw needs (targeted _ handle good)
    | inr not_ ↦ rw not_ (has_steps arg none good, λ e. cc)
  ])
]
  where
    targeted :
        (Q : Type 0) (h : Handle)
        → is_operator_task arg ≡ true
        → OfChecked
            (λ k. (is_nil (task_steps arg k) ≡ false) × (Q → is_some k ≡ true))
            (parse_handle h)
    targeted Q Handle.absent e = tt
    targeted Q (Handle.integer n) e = (has_steps arg (some n) e, λ _. refl)
    targeted Q (Handle.not_integer _) e = tt
check-IsSound now Command.nudge arg handle = elim (Bool-cases (is_no_arg arg)) [
  | inl empty ↦ rw empty refl
  | inr given ↦ rw given tt
]
check-IsSound now Command.stop arg handle = elim (Bool-cases (is_no_arg arg)) [
  | inl empty ↦ rw empty refl
  | inr given ↦ rw given tt
]

submit-Queues :
    (now : ℕ) (cmd : Option Command) (arg : Arg) (handle : Handle) (q : List Directive)
    → Queues q (submit now cmd arg handle q)
unfolding submit
submit-Queues now none arg handle q = refl
submit-Queues now (some cmd) arg handle q =
    go (check cmd arg handle) (check-IsSound now cmd arg handle)
  where
    go :
        (c : Checked)
        → OfChecked
            (λ h. IsSound (record { cmd = cmd; arg = arg; handle = h; received_at = now }))
            c
        → Queues q (enqueue now cmd arg c q)
    go (Checked.accepted h) s =
        put_nowait-Queues (record { cmd = cmd; arg = arg; handle = h; received_at = now }) q s
    go (Checked.rejected r) s = refl

replied-IsLine :
    (l : Line) (r : List Directive × Reply)
    → Queues l.queue r
    → IsLine l
    → IsLine (record l { queue = r.0; accepted = log_reply r.1 l.accepted })
replied-IsLine l (q, Reply.queued d) (e, room, sound) k = record {
  in_order =
      ap (λ x. x ++ d ∷ []) k.in_order
      ∙ append_assoc l.drained l.queue (d ∷ [])
      ∙ ap (λ x. l.drained ++ x) (sym e);
  bounded = omega (arith, ap length e ∙ length-append l.queue (d ∷ []), room);
  sound = All-append IsSound l.accepted (d ∷ []) k.sound (sound, tt);
}
replied-IsLine l (q, Reply.refused r) e k = record {
  in_order = k.in_order ∙ ap (λ x. l.drained ++ x) (sym e);
  bounded = subst (λ x. length x ≤ maxsize) (sym e) k.bounded;
  sound = k.sound;
}

serve-IsLine : (r : Request) (l : Line) → IsLine l → IsLine (serve r l)
unfolding serve drain
serve-IsLine (Request.submits now cmd arg handle) l k =
    replied-IsLine l (submit now cmd arg handle l.queue) (submit-Queues now cmd arg handle l.queue)
      k
serve-IsLine Request.drains l k = record {
  in_order = k.in_order ∙ sym (append-nil (l.drained ++ l.queue));
  bounded = omega arith;
  sound = k.sound;
}

-- However submissions and ticks follow one another, it stays true of the queue that the directives that
-- the loop has drained, and then those still queued, are the ones accepted, in their order, none lost and
-- none twice; eight at most are queued; and each one accepted is sound: a task has something to post,
-- and its target where it needs one, a goal has an id, and the others have no argument.
pub serve_all-IsLine : (rs : List Request) (l : Line) → IsLine l → IsLine (serve_all rs l)
unfolding serve_all
serve_all-IsLine [] l k = k
serve_all-IsLine (r ∷ rs) l k = serve_all-IsLine rs (serve r l) (serve-IsLine r l k)
