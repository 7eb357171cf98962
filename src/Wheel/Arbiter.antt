-- ===== src/Wheel/Arbiter.antt =====
-- `MovementWheel` of harness/wasted_harness/behavior/vehicle.py: who may post a movement task. The
-- times that only the log reads are left out, and a reason is a number.
use wanted.Base.{
  ℕ, suc, ◌+◌, ◌-◌, Bool, true, false, not, ◌&&◌, ◌||◌, Option, none, some, List, [], ◌∷◌, Name,
  ltb, ◌==◌, same, if◌then◌else◌, is_some,
}
use wanted.Wheel.Owner.{Owner, class_of, class_number, priority, same_owner}

pub record MovementToken : Type 0 where
  pub id : ℕ
  pub owner : Owner
  pub reason : Name
  pub tick : ℕ

-- `preempted` is whose preempt hook has been looked up, and who preempted. A tick of -1 and an
-- open lease are `none`.
pub record Wheel : Type 0 where
  pub holder : Option MovementToken
  pub lease_until : Option ℕ
  pub next_id : ℕ
  pub tick : ℕ
  pub posted_tick : Option ℕ
  pub posted_owner : Option Owner
  pub noted_reflex_tick : Option ℕ
  pub waiting : List (Owner × Name)
  pub mission_is_active : Bool
  pub forced_idle : Bool
  pub preempted : List (Owner × Owner)

abbrev pub fresh : Wheel
fresh = record {
  holder = none;
  lease_until = none;
  next_id = 0;
  tick = 0;
  posted_tick = none;
  posted_owner = none;
  noted_reflex_tick = none;
  waiting = [];
  mission_is_active = false;
  forced_idle = false;
  preempted = [];
}

-- `self._waiting[owner] = reason`
abbrev pub put_waiting : Owner → Name → List (Owner × Name) → List (Owner × Name)
put_waiting o r [] = (o, r) ∷ []
put_waiting o r ((k, q) ∷ ws) = if same_owner k o then (k, r) ∷ ws else (k, q) ∷ put_waiting o r ws

abbrev pub pop_waiting : Owner → List (Owner × Name) → List (Owner × Name)
pop_waiting o [] = []
pop_waiting o ((k, q) ∷ ws) = if same_owner k o then ws else (k, q) ∷ pop_waiting o ws

-- `max(self._waiting, key=_priority)`: the first of the highest.
abbrev pub highest : Owner → List (Owner × Name) → Owner
highest o [] = o
highest o (w ∷ ws) = highest (if ltb (priority o) (priority w.0) then w.0 else o) ws

unfoldable pub next_in_line : List (Owner × Name) → Option Owner
next_in_line [] = none
next_in_line (w ∷ ws) = some (highest w.0 ws)

abbrev pub lease_end : ℕ → Option ℕ → Option ℕ
lease_end tick none = none
lease_end tick (some n) = some (tick + n - 1)

abbrev pub is_idle : Owner → Bool
is_idle Owner.idle = true
is_idle _ = false

abbrev pub is_reflex : Owner → Bool
is_reflex o = class_number (class_of o) == 3

abbrev pub token_of : Owner → Name → Wheel → MovementToken
token_of owner reason w = record {
  id = suc w.next_id;
  owner = owner;
  reason = reason;
  tick = w.tick;
}

-- `_grant`; its token is `token_of`.
unfoldable pub grant : Owner → Name → Option ℕ → Wheel → Wheel
grant owner reason lease_ticks w = record w {
  waiting = [];
  next_id = suc w.next_id;
  holder = some (token_of owner reason w);
  lease_until = lease_end w.tick lease_ticks;
  forced_idle = is_idle owner && w.forced_idle;
}

-- `_refuse`
unfoldable pub refuse : Owner → Name → Wheel → Wheel
refuse owner reason w = record w { waiting = put_waiting owner reason w.waiting }

-- `_fire_hook`
unfoldable pub fire_hook : Owner → Owner → Wheel → Wheel
fire_hook owner by w = record w { preempted = (owner, by) ∷ w.preempted }

-- `_free`, with the next in line.
unfoldable pub free : Wheel → Wheel × Option Owner
free w = (
  record w { holder = none; lease_until = none; forced_idle = false; waiting = [] },
  next_in_line w.waiting,
)

abbrev pub is_expired : ℕ → Option ℕ → Bool
is_expired tick none = false
is_expired tick (some until) = ltb until tick

unfoldable pub begin_tick : Wheel → Wheel
begin_tick w =
    let later = record w { tick = suc w.tick } in
    if is_some w.holder && is_expired (suc w.tick) w.lease_until
    then record later { holder = none; lease_until = none; forced_idle = false; waiting = [] }
    else later

-- A bridge task of somebody else is already on the wire this tick.
abbrev pub other_posted : Owner → ℕ → Option ℕ → Option Owner → Bool
other_posted owner tick none by = false
other_posted owner tick (some at) none = at == tick
other_posted owner tick (some at) (some by) = at == tick && not (same_owner by owner)

-- An empty reason is 0.
abbrev pub or_reason : Name → Name → Name
or_reason reason held = if reason == 0 then held else reason

abbrev pub renewed : Owner → Name → MovementToken → MovementToken
renewed owner reason h = record {
  id = h.id;
  owner = owner;
  reason = or_reason reason h.reason;
  tick = h.tick;
}

abbrev pub renew : Owner → Name → Option ℕ → MovementToken → Wheel → Wheel
renew owner reason lease_ticks h w = record w {
  holder = some (renewed owner reason h);
  lease_until = lease_end w.tick lease_ticks;
  waiting = pop_waiting owner w.waiting;
}

abbrev pub acquire_from :
    Option MovementToken → Owner → Name → Option ℕ → Wheel → Wheel × Option MovementToken
acquire_from none owner reason lease_ticks w =
    (grant owner reason lease_ticks w, some (token_of owner reason w))
acquire_from (some h) owner reason lease_ticks w =
    if same_owner h.owner owner
    then (renew owner reason lease_ticks h w, some (renewed owner reason h))
    else if ltb (priority owner) (priority h.owner)
    then (refuse owner reason w, none)
    else (
      fire_hook h.owner owner (grant owner reason lease_ticks w),
      some (token_of owner reason w),
    )

unfoldable pub acquire : Owner → Name → Option ℕ → Wheel → Wheel × Option MovementToken
acquire owner reason lease_ticks w =
    if other_posted owner w.tick w.posted_tick w.posted_owner
    then (refuse owner reason w, none)
    else acquire_from w.holder owner reason lease_ticks w

abbrev pub holds_id : Option MovementToken → MovementToken → Bool
holds_id none t = false
holds_id (some h) t = h.id == t.id

unfoldable pub holds : Option MovementToken → Wheel → Bool
holds none w = false
holds (some t) w = holds_id w.holder t

unfoldable pub release : Option MovementToken → Wheel → Wheel × Option Owner
release token w = if holds token w then free w else (w, none)

abbrev pub held_by : Option MovementToken → Owner → Bool
held_by none owner = false
held_by (some h) owner = same_owner h.owner owner

unfoldable pub release_owner : Owner → Wheel → Wheel × Option Owner
release_owner owner w = if held_by w.holder owner then free w else (w, none)

-- `token_for`
unfoldable pub token_for : Owner → Wheel → Option MovementToken
token_for owner w = if held_by w.holder owner then w.holder else none

-- The hook of whoever is preempted, if anybody is.
abbrev pub fire_for : Option MovementToken → Owner → Wheel → Wheel
fire_for none by w = w
fire_for (some h) by w = fire_hook h.owner by w

unfoldable pub mission_active : Bool → Name → Wheel → Wheel × Option MovementToken
mission_active true reason w =
    if not w.mission_is_active
    then (let taken = record w { mission_is_active = true } in
        (
          fire_for w.holder Owner.mission (grant Owner.mission reason none taken),
          some (token_of Owner.mission reason taken),
        ))
    else acquire Owner.mission reason none w
mission_active false reason w =
    if w.mission_is_active
    then ((release_owner Owner.mission (record w { mission_is_active = false })).0, none)
    else (w, none)

-- The hook runs for a holder other than "idle".
abbrev pub fire_unless_idle : Option MovementToken → Wheel → Wheel
fire_unless_idle none w = w
fire_unless_idle (some h) w = if is_idle h.owner then w else fire_hook h.owner Owner.idle w

unfoldable pub force_idle : Name → Wheel → Wheel
force_idle reason w =
    if w.forced_idle && held_by w.holder Owner.idle
    then record w { lease_until = none }
    else fire_unless_idle w.holder (record (grant Owner.idle reason none w) { forced_idle = true })

unfoldable pub mark_posted : MovementToken → Wheel → Wheel
mark_posted t w = record w { posted_tick = some w.tick; posted_owner = some t.owner }

unfoldable pub note : Owner → Wheel → Wheel
note owner w = if is_reflex owner then record w { noted_reflex_tick = some w.tick } else w

unfoldable pub posted_this_tick : Wheel → Bool
posted_this_tick w = same w.posted_tick (some w.tick)

abbrev pub reflex_holds : Option MovementToken → Bool
reflex_holds none = false
reflex_holds (some h) = is_reflex h.owner

unfoldable pub taken_by_reflex : Wheel → Bool
taken_by_reflex w = same w.noted_reflex_tick (some w.tick) || reflex_holds w.holder

unfoldable pub reset : Wheel → Wheel
reset w = record w {
  holder = none;
  lease_until = none;
  waiting = [];
  posted_tick = none;
  posted_owner = none;
  noted_reflex_tick = none;
  mission_is_active = false;
  forced_idle = false;
}

-- The movement gate of `_execute_action` (harness/wasted_harness/main.py): a movement task goes out
-- only with the token that holds the wheel, and marks the tick. The other checks of that function say
-- in `passes` whether the task comes as far.
unfoldable pub post : Bool → Option MovementToken → Wheel → Wheel × Option Owner
post passes none w = (w, none)
post passes (some t) w =
    if passes && holds (some t) w then (mark_posted t w, some t.owner) else (w, none)

-- How the loop opens a tick (harness/wasted_harness/main.py): the game owns the controls, or the
-- mission flag drives the wheel.
unfoldable pub open_tick : Bool → Bool → Name → Wheel → Wheel × Option MovementToken
open_tick true active reason w = (force_idle reason (begin_tick w), none)
open_tick false active reason w = mission_active active reason (begin_tick w)
