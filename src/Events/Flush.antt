-- ===== src/Events/Flush.antt =====
-- The rows of the buffer and of the queue file over `flush` of harness/wasted_harness/events.py.
use wanted.Base.{
  ℕ, ◌+◌, ◌≤◌, ◌≡◌, refl, Bool, true, false, ◌&&◌, List, [], ◌∷◌, ◌++◌, Name, ◌==◌, if◌then◌else◌,
  is_nil, sum_by-append, All, arith,
}
use wanted.Events.Entry.{Entry, is_stats, coalesce_stats}
use wanted.Events.Coalesce.{keep_newest, coalesce_stats-keep_newest}
use wanted.Events.Writer.{Answer, Flush, write_entries}
use wanted.Events.Delivery.{count, accepted_count, write_entries-count}
use wanted.Events.State.{Writer, World, count_failures, flush_configured, flush_once, flush}

-- No heartbeat is told apart as `b`.
abbrev pub NoBeat : Name → List Entry → Type 0
NoBeat b = All (λ e. (e.body == b && is_stats e) ≡ false)

NoBeat-append : (b : Name) (xs ys : List Entry) → NoBeat b xs → NoBeat b ys → NoBeat b (xs ++ ys)
NoBeat-append b [] ys h k = k
NoBeat-append b (x ∷ xs) ys h k = (h.0, NoBeat-append b xs ys h.1 k)

count-keep_newest :
    (b : Name) (es : List Entry) → NoBeat b es → count b (keep_newest es) ≡ count b es
unfolding keep_newest
count-keep_newest b [] h = refl
count-keep_newest b (e ∷ es) h = ground (arith, count-keep_newest b es h.1)

count-is_nil : (b : Name) (es : List Entry) → is_nil es ≡ true → count b es ≡ 0
count-is_nil b [] h = refl
count-is_nil b (e ∷ es) h = cc

-- Everything that the writer has of the row: accepted, buffered, queued or dropped as too late.
abbrev pub holdings : Name → Writer → ℕ
holdings b w = accepted_count b w.sent + count b w.buffer + count b w.queue + count b w.dropped

count_failures_keeps :
    (client : Bool) (f : Flush) (w : Writer)
    → let w' = count_failures client f w in
      (w'.sent ≡ w.sent)
      × (w'.dropped ≡ w.dropped)
      × (w'.queue ≡ w.queue)
      × (w'.configured ≡ w.configured)
      × (w'.session_id ≡ w.session_id)
unfolding count_failures
count_failures_keeps client f w = ground arith

count-pending :
    (b : Name) (w : Writer)
    → NoBeat b w.queue
    → NoBeat b w.buffer
    → count b (coalesce_stats (w.queue ++ w.buffer)) ≡ count b w.queue + count b w.buffer
count-pending b w q p = rw coalesce_stats-keep_newest (
    omega (
      arith,
      count-keep_newest b (w.queue ++ w.buffer) (NoBeat-append b w.queue w.buffer q p),
      sum_by-append (λ (e : Entry). if e.body == b then 1 else 0) w.queue w.buffer,
    ))

count-keep_newest-prefix :
    (b : Name) (xs ys : List Entry) → NoBeat b xs → count b xs ≤ count b (keep_newest (xs ++ ys))
unfolding keep_newest
count-keep_newest-prefix b [] ys h = omega arith
count-keep_newest-prefix b (x ∷ xs) ys h = ground (arith, count-keep_newest-prefix b xs ys h.1)

count-again :
    (b : Name) (queue buffer : List Entry)
    → NoBeat b queue
    → count b queue ≤ count b (coalesce_stats (queue ++ buffer))
count-again b queue buffer h =
    rw coalesce_stats-keep_newest (count-keep_newest-prefix b queue buffer h)

module _ (answer : Answer) (bytes cost : Entry → ℕ) (b : Name) (world : World) (w : Writer) where
  -- The handler of OSError holds what is unwritten in the buffer, but the queue file is still as it
  -- was. So after a rewrite that fails, a row that is no heartbeat is there once more for each time that
  -- it was queued, be it accepted meanwhile or also in the buffer: the queue is unchanged, and the
  -- coalesced rows of queue and buffer, which the next flush goes through, hold it as often as the queue
  -- did at least.
  pub flush-holdings_rewrite_fails :
      w.configured ≡ true
      → world.lock_ok ≡ true
      → world.rewrite_ok ≡ false
      → NoBeat b w.queue
      → NoBeat b w.buffer
      → 1 ≤ count b w.queue
      → let w' = (flush answer bytes cost world w).0 in
        (holdings b w' ≡ holdings b w + count b w.queue)
        × (w'.queue ≡ w.queue)
        × (count b w.queue ≤ count b (coalesce_stats (w'.queue ++ w'.buffer)))
  unfolding flush flush_once flush_configured
  flush-holdings_rewrite_fails on lock disk q p there =
      let pending = coalesce_stats (w.queue ++ w.buffer) in
      let f = write_entries answer w.session_id world.now world.client_ok pending w.sent in
      let base = record w { sent = f.sent; dropped = w.dropped ++ f.dropped } in
      let kept = count-pending b w q p in
      ground (
        arith,
        kept,
        count-again b w.queue f.remaining q,
        count-is_nil b pending,
        write_entries-count answer w.session_id b world.now world.client_ok pending w.sent,
        count_failures_keeps world.client_ok f base,
        sum_by-append (λ (e : Entry). if e.body == b then 1 else 0) w.dropped f.dropped,
      )

keep_newest-is_nil : (es : List Entry) → is_nil (keep_newest es) ≡ is_nil es
unfolding keep_newest
keep_newest-is_nil [] = refl
keep_newest-is_nil (e ∷ []) = ground arith
keep_newest-is_nil (e ∷ x ∷ es) = ground (arith, keep_newest-is_nil (x ∷ es))

append-is_nil :
    (xs ys : List Entry) → is_nil (xs ++ ys) ≡ true → (is_nil xs ≡ true) × (is_nil ys ≡ true)
append-is_nil [] ys h = (refl, h)
append-is_nil (x ∷ xs) ys h = cc

is_nil→eq : (xs : List Entry) → is_nil xs ≡ true → xs ≡ []
is_nil→eq [] h = refl
is_nil→eq (x ∷ xs) h = cc

-- `unflushed` is the opposite of what a flush reports, and a flush that reports success has left
-- nothing in the buffer and nothing in the queue.
pub flush-drained :
    (answer : Answer) (bytes cost : Entry → ℕ) (world : World) (w : Writer)
    → (flush answer bytes cost world w).1 ≡ true
    → let w' = (flush answer bytes cost world w).0 in
      (w'.unflushed ≡ false) × (w'.buffer ≡ []) × (w'.queue ≡ [])
unfolding flush flush_once flush_configured
flush-drained answer bytes cost world w done =
    let pending = coalesce_stats (w.queue ++ w.buffer) in
    let f = write_entries answer w.session_id world.now world.client_ok pending w.sent in
    let base = record w { sent = f.sent; dropped = w.dropped ++ f.dropped } in
    ground (
      arith,
      count_failures_keeps world.client_ok f base,
      coalesce_stats-keep_newest (w.queue ++ w.buffer),
      keep_newest-is_nil (w.queue ++ w.buffer),
      append-is_nil w.queue w.buffer,
      is_nil→eq w.queue,
      is_nil→eq f.remaining,
    )
