-- ===== src/Operator/Queue.antt =====
-- The operator's commands: validation and the queue between the HTTP thread and the loop, of
-- harness/wasted_harness/operator.py. A command and an argument are what is left of the texts after
-- `strip` and `lower`; moments are in milliseconds.
use wanted.Base.{
  ℕ, Bool, true, false, not, Option, none, some, List, [], ◌∷◌, ◌++◌, Name, leb, if◌then◌else◌,
  length,
}
use wanted.Tasks.{TaskType}

-- NUDGE_TYPE_BAN_S and OPERATOR_GOAL_WINDOW_S
abbrev pub nudge_type_ban : ℕ
nudge_type_ban = 30000

abbrev pub operator_goal_window : ℕ
operator_goal_window = 300000

abbrev pub maxsize : ℕ
maxsize = 8

-- COMMANDS
pub data Command : Type 0 where
  nudge goal task stop : Command

-- The argument: none, one of OPERATOR_TASK_TYPES, another text of letters, digits and `_`, or another.
pub data Arg : Type 0 where
  no_arg drive shoot_at fight_ped enter_nearest_vehicle wander_drive flee_police : Arg
  identifier other : Name → Arg

-- The integers.
pub data ℤ : Type 0 where
  pos negsuc : ℕ → ℤ

-- `handle`: missing or empty, a number or its digits, or a text that is no integer.
pub data Handle : Type 0 where
  absent : Handle
  integer : ℤ → Handle
  not_integer : Name → Handle

pub data Refused : Type 0 where
  unknown_command goal_needs_id not_catalog_id not_postable needs_handle not_an_integer : Refused
  takes_no_argument queue_full : Refused

pub record Directive : Type 0 where
  pub cmd : Command
  pub arg : Arg
  pub handle : Option ℤ
  pub received_at : ℕ

-- A task to post; the other parameters are constants of the type.
pub record Step : Type 0 where
  pub type_ : TaskType
  pub handle : Option ℤ

abbrev pub plain_step : TaskType → Step
plain_step t = record { type_ = t; handle = none }

abbrev pub task_steps : Arg → Option ℤ → List Step
task_steps Arg.drive handle =
    plain_step TaskType.enter_nearest_vehicle ∷ plain_step TaskType.wander_drive ∷ []
task_steps Arg.shoot_at handle = plain_step TaskType.shoot_at ∷ []
task_steps Arg.fight_ped handle = record { type_ = TaskType.fight_ped; handle = handle } ∷ []
task_steps Arg.enter_nearest_vehicle handle = plain_step TaskType.enter_nearest_vehicle ∷ []
task_steps Arg.wander_drive handle = plain_step TaskType.wander_drive ∷ []
task_steps Arg.flee_police handle = plain_step TaskType.flee_police ∷ []
task_steps _ handle = []

abbrev pub is_task : Command → Bool
is_task Command.task = true
is_task _ = false

-- `Directive.steps`
unfoldable pub steps : Directive → List Step
steps d = if is_task d.cmd then task_steps d.arg d.handle else []

-- `arg.replace("_", "").isalnum()`, of a text that is not empty
abbrev pub is_catalog_id : Arg → Bool
is_catalog_id Arg.no_arg = false
is_catalog_id (Arg.other _) = false
is_catalog_id _ = true

abbrev pub is_no_arg : Arg → Bool
is_no_arg Arg.no_arg = true
is_no_arg _ = false

abbrev pub is_operator_task : Arg → Bool
is_operator_task Arg.no_arg = false
is_operator_task (Arg.identifier _) = false
is_operator_task (Arg.other _) = false
is_operator_task _ = true

abbrev pub needs_target : Arg → Bool
needs_target Arg.fight_ped = true
needs_target _ = false

pub data Checked : Type 0 where
  accepted : Option ℤ → Checked
  rejected : Refused → Checked

abbrev pub parse_handle : Handle → Checked
parse_handle Handle.absent = Checked.rejected Refused.needs_handle
parse_handle (Handle.integer n) = Checked.accepted (some n)
parse_handle (Handle.not_integer _) = Checked.rejected Refused.not_an_integer

-- The checks of `submit` that look at the command, and the handle that they parse.
unfoldable pub check : Command → Arg → Handle → Checked
check Command.goal arg handle =
    if is_no_arg arg
    then Checked.rejected Refused.goal_needs_id
    else if is_catalog_id arg
    then Checked.accepted none
    else Checked.rejected Refused.not_catalog_id
check Command.task arg handle =
    if not (is_operator_task arg)
    then Checked.rejected Refused.not_postable
    else if needs_target arg
    then parse_handle handle
    else Checked.accepted none
check Command.nudge arg handle =
    if is_no_arg arg then Checked.accepted none else Checked.rejected Refused.takes_no_argument
check Command.stop arg handle =
    if is_no_arg arg then Checked.accepted none else Checked.rejected Refused.takes_no_argument

pub data Reply : Type 0 where
  queued : Directive → Reply
  refused : Refused → Reply

abbrev pub put_nowait : Directive → List Directive → List Directive × Reply
put_nowait d q =
    if leb maxsize (length q)
    then (q, Reply.refused Refused.queue_full)
    else (q ++ d ∷ [], Reply.queued d)

abbrev pub enqueue : ℕ → Command → Arg → Checked → List Directive → List Directive × Reply
enqueue now cmd arg (Checked.rejected r) q = (q, Reply.refused r)
enqueue now cmd arg (Checked.accepted handle) q =
    put_nowait (record { cmd = cmd; arg = arg; handle = handle; received_at = now }) q

-- `submit`; a command that is none of COMMANDS is `none`.
unfoldable pub submit : ℕ → Option Command → Arg → Handle → List Directive → List Directive × Reply
submit now none arg handle q = (q, Reply.refused Refused.unknown_command)
submit now (some cmd) arg handle q = enqueue now cmd arg (check cmd arg handle) q

-- `drain`: everything queued, oldest first.
unfoldable pub drain : List Directive → List Directive × List Directive
drain q = ([], q)
