-- ===== src/Events/Tests.antt =====
-- The writer on small backlogs, with a server that refuses the second request.
use wanted.Base.{
  ℕ, ◌+◌, ◌≤◌, ◌≡◌, refl, true, false, not, Option, none, some, List, [], ◌∷◌, ◌++◌, arith, ◌==◌,
  length, ◌⊎◌, All, Name,
}
use wanted.Events.Entry.{
  Entry, Table, Op, runs, runs_from, coalesce_stats, newest_from, select_from,
  drop_stale_predictions,
}
use wanted.Events.Coalesce.{keep_newest, beats_count, coalesce_stats-keep_newest}
use wanted.Events.Writer.{Answer, write_entries, write_runs, write_run, write_group, send_rows}
use wanted.Events.Queue.{keep_while, trim_queue}
use wanted.Events.Trim.{Trimmed, trim_queue-Trimmed}
use wanted.Events.Delivery.{count, accepted_count, write_entries-count}
use wanted.Events.Heartbeat.{IsHonest, IsAccepted, write_entries-IsHonest}
use wanted.Events.State.{Writer, World, flush, flush_once, flush_configured}
use wanted.Events.Flush.{holdings, flush-holdings_rewrite_fails}

abbrev event : Name → Entry
event b = record {
  table = Table.events;
  op = Op.insert;
  session = some 1;
  locks_at = none;
  body = b;
}

abbrev beat : Name → Entry
beat b = record { table = Table.stats; op = Op.upsert; session = some 1; locks_at = none; body = b }

abbrev late : Entry
late = record {
  table = Table.predictions;
  op = Op.insert;
  session = some 1;
  locks_at = some 105000;
  body = 9;
}

abbrev backlog : List Entry
backlog = beat 1 ∷ event 2 ∷ beat 3 ∷ late ∷ event 4 ∷ []

abbrev second_refused : Answer
second_refused sent _ _ _ = not (length sent == 1)

coalesced : coalesce_stats backlog ≡ event 2 ∷ beat 3 ∷ late ∷ event 4 ∷ []
unfolding coalesce_stats newest_from select_from
coalesced = refl

-- The stale prediction is dropped, the second event fails, and the heartbeat is held back.
written :
    let f = write_entries second_refused none 100000 true (coalesce_stats backlog) [] in
    (f.ok ≡ false) × (f.remaining ≡ event 4 ∷ beat 3 ∷ []) × (f.dropped ≡ late ∷ [])
unfolding coalesce_stats newest_from select_from write_entries write_runs write_run write_group
    send_rows runs runs_from drop_stale_predictions
written = (refl, refl, refl)

coalesce_stats-keep_newest_example : coalesce_stats backlog ≡ keep_newest backlog
coalesce_stats-keep_newest_example = coalesce_stats-keep_newest backlog

write_entries-count_example :
    let f = write_entries second_refused none 100000 true backlog [] in
    accepted_count 4 f.sent + count 4 f.remaining + count 4 f.dropped ≡ 1
write_entries-count_example = write_entries-count second_refused none 4 100000 true backlog []

write_entries-IsHonest_example :
    let f = write_entries second_refused none 100000 true backlog [] in
    IsHonest f.sent × ((f.ok ≡ false) ⊎ All IsAccepted f.sent)
write_entries-IsHonest_example = write_entries-IsHonest second_refused none 100000 true backlog

abbrev writer : Writer
writer = record {
  configured = true;
  session_id = some 1;
  buffer = event 2 ∷ [];
  queue = event 5 ∷ [];
  unflushed = false;
  predictions_write_failures = 0;
  has_predictions_error = false;
  sent = [];
  dropped = [];
}

abbrev fine : World
fine = record {
  now = 100000;
  client_ok = true;
  lock_ok = true;
  append_ok = true;
  rewrite_ok = true;
}

abbrev all_accepted : Answer
all_accepted _ _ _ _ = true

abbrev one : Entry → ℕ
one _ = 1

flush-holdings_rewrite_fails_example :
    let w' = (flush all_accepted one one (record fine { rewrite_ok = false }) writer).0 in
    (holdings 5 w' ≡ holdings 5 writer + count 5 writer.queue)
    × (w'.queue ≡ writer.queue)
    × (count 5 writer.queue ≤ count 5 (coalesce_stats (w'.queue ++ w'.buffer)))
flush-holdings_rewrite_fails_example =
    flush-holdings_rewrite_fails all_accepted one one 5 (record fine { rewrite_ok = false }) writer
      refl refl refl (refl, tt) (refl, tt) (omega arith)

empty_flush : (flush all_accepted one one fine (record writer { buffer = []; queue = [] })).1 ≡ true
unfolding flush flush_once flush_configured coalesce_stats newest_from
empty_flush = refl

few_beats : (k : Option Name) → beats_count k writer.buffer ≤ 1
few_beats k = ground arith

-- Rows of 15,000,000 bytes, all of them one-byte characters.
abbrev large : Entry → ℕ
large _ = 15000000

-- Two of the four coalesced rows are kept.
trimmed : trim_queue large large backlog ≡ late ∷ event 4 ∷ []
unfolding trim_queue keep_while coalesce_stats newest_from select_from
trimmed = refl

trim_queue-Trimmed_example :
    Trimmed large large (coalesce_stats backlog) (trim_queue large large backlog)
trim_queue-Trimmed_example = trim_queue-Trimmed large large backlog (omega arith)
