-- ===== src/Events/Writer.antt =====
-- `SupabaseWriter._write_entries` of harness/wasted_harness/events.py: one flush's entries against
-- a server whose answer to a request may depend on every request before it.
use wanted.Base.{
  ℕ, zero, suc, ◌+◌, Bool, true, false, not, ◌&&◌, ◌||◌, Option, List, [], ◌∷◌, ◌++◌, Name, ◌==◌,
  if◌then◌else◌, is_some, is_nil, length, take, drop,
}
use wanted.Base.Sort.{sort}
use wanted.Events.Entry.{Entry, Table, Op, Run, runs, drop_stale_predictions, table_no, op_no}

abbrev pub max_batch : ℕ
max_batch = 20

-- A request to the server, with its outcome; a failed one is an exception.
pub record Request : Type 0 where
  pub table : Table
  pub op : Op
  pub rows : List Entry
  pub accepted : Bool

-- What the server answers, given the requests before.
abbrev pub Answer : Type 0
Answer = List Request → Table → Op → List Entry → Bool

-- The rows with their session filled in: those that can go out, and those that have none yet.
abbrev pub fill_session : Option Name → Entry → Entry
fill_session known e = if is_some e.session then e else record e { session = known }

abbrev pub can_send : Option Name → Table → Entry → Bool
can_send known table e = table_no table == 3 || is_some e.session || is_some known

abbrev pub pairs_of : Option Name → Table → List Entry → List Entry
pairs_of known table [] = []
pairs_of known table (e ∷ es) =
    if can_send known table e then e ∷ pairs_of known table es else pairs_of known table es

abbrev pub skipped_of : Option Name → Table → List Entry → List Entry
skipped_of known table [] = []
skipped_of known table (e ∷ es) =
    if can_send known table e then skipped_of known table es else e ∷ skipped_of known table es

abbrev pub fill_all : Option Name → Table → List Entry → List Entry
fill_all known table [] = []
fill_all known table (e ∷ es) =
    (if table_no table == 3 then e else fill_session known e) ∷ fill_all known table es

-- An insert sends up to MAX_BATCH rows at once, an upsert or update one.
abbrev pub batch_size : Op → ℕ
batch_size Op.insert = max_batch
batch_size _ = 1

-- The loop over the chunks, until one fails: the rows that are not written, whether it failed, and
-- the requests. Fuel is the number of rows, and each round takes one at least.
unfoldable pub send_rows :
    Answer
    → Option Name
    → Table
    → Op
    → ℕ
    → List Entry
    → List Request
    → List Entry × Bool × List Request
send_rows answer known table op zero rows sent = (rows, false, sent)
send_rows answer known table op (suc fuel) [] sent = ([], false, sent)
send_rows answer known table op (suc fuel) (e ∷ es) sent =
    let chunk = take (batch_size op) (e ∷ es) in
    let request = fill_all known table chunk in
    let ok = answer sent table op request in
    let sent' = sent ++ record { table = table; op = op; rows = request; accepted = ok } ∷ [] in
    let rest = send_rows answer known table op fuel (drop (batch_size op) (e ∷ es)) sent' in
    if ok then rest else (e ∷ es, true, sent')

-- The local variables of `_write_entries`; `dropped` holds the stale rows.
pub record Flush : Type 0 where
  pub ok : Bool
  pub remaining : List Entry
  pub dropped : List Entry
  pub predictions_failed : Bool
  pub predictions_written : ℕ
  pub sent : List Request

abbrev pub is_predictions_insert : Table → Op → Bool
is_predictions_insert table op = table_no table == 6 && op_no op == 0

abbrev pub stale_of : ℕ → List Entry → List Entry
stale_of now [] = []
stale_of now (e ∷ es) =
    if is_nil (drop_stale_predictions (e ∷ []) now) then e ∷ stale_of now es else stale_of now es

-- The rows of one run, after the stale ones are gone.
unfoldable pub write_group : Answer → Option Name → Table → Op → List Entry → Flush → Flush
write_group answer known table op group f =
    let pairs = pairs_of known table group in
    let held = record f { remaining = f.remaining ++ skipped_of known table group } in
    let (unsent, failed, sent) = send_rows answer known table op (length pairs) pairs f.sent in
    let predictions = table_no table == 6 in
    if is_nil pairs
    then held
    else if failed
    then record held {
      ok = false;
      remaining = held.remaining ++ unsent;
      predictions_failed = f.predictions_failed || predictions;
      sent = sent;
    }
    else record held {
      predictions_written =
          if predictions then f.predictions_written + length pairs else f.predictions_written;
      sent = sent;
    }

-- One round of the loop over the runs.
unfoldable pub write_run : Answer → Option Name → ℕ → Run → Flush → Flush
write_run answer known now r f =
    if table_no r.table == 2 && not f.ok
    then record f { remaining = f.remaining ++ r.group }
    else if is_predictions_insert r.table r.op
    then write_group answer known r.table r.op (drop_stale_predictions r.group now)
        (record f { dropped = f.dropped ++ stale_of now r.group })
    else write_group answer known r.table r.op r.group f

unfoldable pub write_runs : Answer → Option Name → ℕ → List Run → Flush → Flush
write_runs answer known now [] f = f
write_runs answer known now (r ∷ rs) f =
    write_runs answer known now rs (write_run answer known now r f)

-- `runs.sort(key=lambda run: run[0] == "stats")`
abbrev pub stats_last : Run → ℕ
stats_last r = if table_no r.table == 2 then 1 else 0

abbrev pub begin_flush : List Request → Flush
begin_flush sent = record {
  ok = true;
  remaining = [];
  dropped = [];
  predictions_failed = false;
  predictions_written = 0;
  sent = sent;
}

-- `_write_entries` up to its counters; `client` is whether the client could be made.
unfoldable pub write_entries : Answer → Option Name → ℕ → Bool → List Entry → List Request → Flush
write_entries answer known now client entries sent =
    if client
    then write_runs answer known now (sort stats_last (runs entries)) (begin_flush sent)
    else record (begin_flush sent) { ok = false; remaining = entries }
