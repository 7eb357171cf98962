-- ===== src/Operator/Tests.antt =====
-- The operator's `drive`, and a `stop` that comes before he is seated.
use wanted.Base.{◌≡◌, refl, true, false, none, some, List, [], ◌∷◌, arith, length}
use wanted.Tasks.{TaskType}
use wanted.Wheel.Owner.{Owner, same_owner}
use wanted.Wheel.Arbiter.{fresh, grant, mark_posted, token_of, acquire, release_owner, post, holds}
use wanted.Wheel.History.{Day}
use wanted.Operator.Posting.{IsRun, apply_operator-IsRun}
use wanted.Operator.Queue.{Command, Arg, Handle, Directive, steps, plain_step, submit, drain, check}
use wanted.Operator.Apply.{
  Scene, Desk, Effect, apply_one, apply_each, apply_operator, reflex_act, blocking_reason,
}
use wanted.Operator.Fifo.{Request, Line, serve, serve_all, IsLine, serve_all-IsLine}
use wanted.Operator.Answers.{
  answers, applications, records, apply_operator-answers, stop-applied_unposted,
}
use wanted.Operator.Followup.{apply_ticks, apply_ticks-armed}

abbrev empty : Line
empty = record { queue = []; accepted = []; drained = [] }

empty-IsLine : IsLine empty
empty-IsLine = record { in_order = refl; bounded = omega arith; sound = tt }

abbrev requests : List Request
requests =
    Request.submits 1000 (some Command.task) Arg.drive Handle.absent
    ∷ Request.submits 2000 (some Command.task) Arg.fight_ped Handle.absent
    ∷ Request.drains
    ∷ Request.submits 3000 (some Command.stop) Arg.no_arg Handle.absent
    ∷ []

serve_all-IsLine_example : IsLine (serve_all requests empty)
serve_all-IsLine_example = serve_all-IsLine requests empty empty-IsLine

-- `fight_ped` without a target is refused; `stop` still waits.
served : length (serve_all requests empty).accepted ≡ 2
unfolding serve_all serve submit drain check
served = refl

abbrev drives : Directive
drives = record { cmd = Command.task; arg = Arg.drive; handle = none; received_at = 1000 }

abbrev stops : Directive
stops = record { cmd = Command.stop; arg = Arg.no_arg; handle = none; received_at = 3000 }

abbrev street : Scene
street = record {
  now = 5000;
  dead = false;
  arrested = false;
  cutscene_active = false;
  switch_in_progress = false;
  retry_in_flight = false;
  control_enabled = true;
  mission_is_active = false;
  in_vehicle = false;
  last_type = none;
  last_failed = false;
  offered = λ _. true;
  passes = λ _. true;
}

abbrev desk : Desk
desk = record {
  wheel = fresh;
  followup = none;
  goal = none;
  goal_until = 0;
  force_pick = false;
  banned = [];
}

apply_operator-answers_example :
    let es = (apply_operator street (drives ∷ stops ∷ []) desk).1 in
    (answers es ≡ drives ∷ stops ∷ []) × (records es ≡ applications es)
apply_operator-answers_example = apply_operator-answers street (drives ∷ stops ∷ []) desk

-- The survival layer has posted in this tick.
abbrev taken : Desk
taken = record desk {
  wheel = mark_posted (token_of Owner.threat 1 fresh) (grant Owner.threat 1 (some 1) fresh);
}

stop-applied_unposted_example :
    (apply_one street stops Command.stop taken).1
    ≡ Effect.ended_activity ∷ Effect.applied stops ∷ Effect.recorded stops ∷ []
unfolding acquire release_owner mark_posted grant same_owner
stop-applied_unposted_example = stop-applied_unposted street stops taken refl

abbrev armed : Desk
armed = record desk { followup = some (plain_step TaskType.wander_drive) }

apply_ticks-armed_example :
    (apply_ticks ((street, stops ∷ []) ∷ []) armed).followup
    ≡ some (plain_step TaskType.wander_drive)
unfolding steps
apply_ticks-armed_example =
    apply_ticks-armed ((street, stops ∷ []) ∷ []) armed (plain_step TaskType.wander_drive) refl
      ((refl, (omega arith, tt)), tt)

-- He drives off after all once he is seated.
drives_off :
    (apply_operator
      (record street { in_vehicle = true })
      []
      (apply_ticks ((street, stops ∷ []) ∷ []) armed)).1
    ≡ Effect.posted TaskType.wander_drive ∷ []
unfolding apply_ticks apply_operator apply_each apply_one reflex_act blocking_reason acquire
    release_owner post holds grant mark_posted same_owner
drives_off = refl

abbrev morning : Day
morning = record { wheel = fresh; issued = []; tasks = [] }

apply_operator-IsRun_example :
    IsRun morning
      (apply_operator street (drives ∷ stops ∷ []) desk).0.wheel
      (apply_operator street (drives ∷ stops ∷ []) desk).1
apply_operator-IsRun_example =
    apply_operator-IsRun street (drives ∷ stops ∷ []) morning desk tt refl
