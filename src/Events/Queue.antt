-- ===== src/Events/Queue.antt =====
-- The offline queue: `_trim_queue_if_oversized` and `_enqueue` of harness/wasted_harness/events.py.
-- A file is its list of entries. What an entry takes in the file, in bytes and in the characters
-- that the trimming counts, depends on `json` and is a parameter.
use wanted.Base.{
  ℕ, ◌+◌, ◌-◌, Bool, ◌&&◌, ◌||◌, List, [], ◌∷◌, ◌++◌, ltb, leb, if◌then◌else◌, length, sum_by,
}
use mathlib.Core.List.{reverse}
use wanted.Events.Entry.{Entry, coalesce_stats}

abbrev pub max_queued_rows : ℕ
max_queued_rows = 40000

abbrev pub max_queue_bytes : ℕ
max_queue_bytes = 41943040

module _ (bytes cost : Entry → ℕ) where
  -- The loop over the entries, newest first, until one does not fit.
  unfoldable pub keep_while : ℕ → ℕ → List Entry → List Entry
  keep_while budget kept [] = []
  keep_while budget kept (e ∷ es) =
      if ltb budget (cost e) || leb max_queued_rows kept
      then []
      else e ∷ keep_while (budget - cost e) (kept + 1) es

  -- The queue after the trimming.
  unfoldable pub trim_queue : List Entry → List Entry
  trim_queue raw =
      let entries = coalesce_stats raw in
      let kept = reverse (keep_while max_queue_bytes 0 (reverse entries)) in
      if ltb (sum_by bytes raw) max_queue_bytes
      then raw
      else if leb (length entries) (length kept) && leb (length raw) (length entries)
      then raw
      else kept

  -- `_enqueue`: an append that the disk refuses loses the rows, and a rewrite that it refuses in the
  -- trimming leaves the file as long as the append has made it.
  unfoldable pub enqueue : Bool → Bool → List Entry → List Entry → List Entry
  enqueue append_ok rewrite_ok entries queue =
      if append_ok
      then (if rewrite_ok then trim_queue (queue ++ entries) else queue ++ entries)
      else queue
