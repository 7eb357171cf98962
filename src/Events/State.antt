-- ===== src/Events/State.antt =====
-- `SupabaseWriter` of harness/wasted_harness/events.py: its buffer, its queue file and its flush.
-- What the disk refuses (an OSError), what the server answers and what a row takes in the file are
-- parameters; `sent` and `dropped` record what has gone out and what was too late to enter.
use wanted.Base.{
  ℕ, ◌+◌, Bool, true, false, not, ◌&&◌, Option, none, some, List, [], ◌∷◌, ◌++◌, Name, leb, same,
  if◌then◌else◌, is_some, is_nil, length,
}
use wanted.Events.Entry.{Entry, Table, Op, is_stats, coalesce_stats}
use wanted.Events.Writer.{Request, Answer, Flush, write_entries, max_batch}
use wanted.Events.Queue.{enqueue}

pub record Writer : Type 0 where
  pub configured : Bool
  pub session_id : Option Name
  pub buffer : List Entry
  pub queue : List Entry
  pub unflushed : Bool
  pub predictions_write_failures : ℕ
  pub has_predictions_error : Bool
  pub sent : List Request
  pub dropped : List Entry

-- What the world does to one flush.
pub record World : Type 0 where
  pub now : ℕ
  pub client_ok : Bool
  pub lock_ok : Bool
  pub append_ok : Bool
  pub rewrite_ok : Bool

-- The counters at the end of `_write_entries`: consecutive flushes in which a predictions run
-- failed. They are not reached when there is no client.
unfoldable pub count_failures : Bool → Flush → Writer → Writer
count_failures client_ok f w =
    if client_ok
    then (if f.predictions_failed
        then record w {
          predictions_write_failures = w.predictions_write_failures + 1;
          has_predictions_error = true;
        }
        else if leb 1 f.predictions_written
        then record w { predictions_write_failures = 0; has_predictions_error = false }
        else w)
    else w

module _ (answer : Answer) (bytes cost : Entry → ℕ) where
  -- `_flush_once` with a configured writer: its critical section, and the handler of OSError.
  unfoldable pub flush_configured : World → Writer → Writer × Bool
  flush_configured world w =
      let pending = coalesce_stats (w.queue ++ w.buffer) in
      let f = write_entries answer w.session_id world.now world.client_ok pending w.sent in
      let told =
        count_failures world.client_ok f
          (record w { sent = f.sent; dropped = w.dropped ++ f.dropped }) in
      if not world.lock_ok
      then (w, false)
      else if is_nil pending
      then (record w { buffer = [] }, true)
      else if world.rewrite_ok
      then (record told { buffer = []; queue = f.remaining }, f.ok && is_nil f.remaining)
      else (record told { buffer = f.remaining }, false)

  unfoldable pub flush_once : World → Writer → Writer × Bool
  flush_once world w = if w.configured then flush_configured world w else (
    record w {
      buffer = [];
      queue =
          if is_nil w.buffer
          then w.queue
          else enqueue bytes cost world.append_ok world.rewrite_ok (coalesce_stats w.buffer)
              w.queue;
    },
    false,
  )

  unfoldable pub flush : World → Writer → Writer × Bool
  flush world w =
      let (w', drained) = flush_once world w in (record w' { unflushed = not drained }, drained)

  -- `record_event`; `known` is whether the type is in EVENT_TYPES, and `none` is the ValueError.
  unfoldable pub record_event : World → Bool → Option Name → Name → Writer → Option Writer
  record_event world known session_id body w =
      let row : Entry = record {
        table = Table.events;
        op = Op.insert;
        session = if is_some session_id then session_id else w.session_id;
        locks_at = none;
        body = body;
      } in
      let longer = record w { buffer = w.buffer ++ row ∷ [] } in
      if known
      then some (if leb max_batch (length longer.buffer) then (flush world longer).0 else longer)
      else none

-- `row.setdefault("session_id", self.session_id)`
abbrev pub default_session : Option Name → Entry → Entry
default_session session_id e = if is_some e.session then e else record e { session = session_id }

-- `record_decision` and `insert_mission`: the row goes to the end of the buffer.
unfoldable pub append_row : Table → Option Name → Name → Writer → Writer
append_row table session_id body w = record w {
  buffer =
      w.buffer
      ++ default_session w.session_id (record {
        table = table;
        op = Op.insert;
        session = session_id;
        locks_at = none;
        body = body;
      })
        ∷ [];
}

abbrev pub record_decision : Option Name → Name → Writer → Writer
record_decision session_id body w = append_row Table.decisions session_id body w

abbrev pub insert_mission : Option Name → Name → Writer → Writer
insert_mission session_id body w = append_row Table.missions session_id body w

-- The loop of `upsert_stats`: the first pending heartbeat of the session is replaced.
abbrev pub replace_stats : Entry → List Entry → List Entry
replace_stats e [] = e ∷ []
replace_stats e (p ∷ ps) =
    if is_stats p && same p.session e.session then e ∷ ps else p ∷ replace_stats e ps

abbrev pub heartbeat : Option Name → Option Name → Name → Entry
heartbeat known session_id body = default_session known (record {
  table = Table.stats;
  op = Op.upsert;
  session = session_id;
  locks_at = none;
  body = body;
})

unfoldable pub upsert_stats : Option Name → Name → Writer → Writer
upsert_stats session_id body w = record w {
  buffer = replace_stats (heartbeat w.session_id session_id body) w.buffer;
}

-- `insert_session`: at the front, since every other row refers to it.
unfoldable pub insert_session : Name → Writer → Writer
insert_session body w = record w {
  buffer =
      record {
        table = Table.sessions;
        op = Op.insert;
        session = none;
        locks_at = none;
        body = body;
      }
      ∷ w.buffer;
}

-- `update_session_end`
unfoldable pub update_session_end : Name → Writer → Writer
update_session_end body w = record w {
  buffer =
      w.buffer
      ++ record {
        table = Table.sessions;
        op = Op.update;
        session = none;
        locks_at = none;
        body = body;
      }
        ∷ [];
}
