-- ===== src/Events/Entry.antt =====
-- The entries that the writer buffers, and the pure functions over them: `_coalesce_stats`,
-- `_runs` and `_drop_stale_predictions` of harness/wasted_harness/events.py.
use wanted.Base.{
  ℕ, ◌+◌, Bool, false, not, ◌&&◌, ◌||◌, Option, none, some, List, [], ◌∷◌, ◌++◌, Name, ltb, ◌==◌,
  same, if◌then◌else◌, any, keep, is_nil,
}

pub data Table : Type 0 where
  events decisions stats sessions missions clips predictions : Table

pub data Op : Type 0 where
  insert upsert update : Op

abbrev pub table_no : Table → ℕ
table_no events = 0
table_no decisions = 1
table_no stats = 2
table_no sessions = 3
table_no missions = 4
table_no clips = 5
table_no predictions = 6

abbrev pub op_no : Op → ℕ
op_no insert = 0
op_no upsert = 1
op_no update = 2

-- A buffered entry. `session` is the row's session_id, `locks_at` its lock moment where there is
-- one that parses, and `body` stands for the rest of the row.
pub record Entry : Type 0 where
  pub table : Table
  pub op : Op
  pub session : Option Name
  pub locks_at : Option ℕ
  pub body : Name

-- A stats upsert: a heartbeat.
abbrev pub is_stats : Entry → Bool
is_stats e = table_no e.table == 2 && op_no e.op == 1

-- `newest`: a dictionary from a session to the index of its newest heartbeat.
abbrev pub Newest : Type 0
Newest = List (Option Name × ℕ)

abbrev pub put : Option Name → ℕ → Newest → Newest
put k i [] = (k, i) ∷ []
put k i (e ∷ d) = if same e.0 k then (k, i) ∷ d else e ∷ put k i d

-- The first loop of `_coalesce_stats`, from index `i` on.
unfoldable pub newest_from : ℕ → List Entry → Newest → Newest
newest_from i [] d = d
newest_from i (e ∷ es) d = newest_from (i + 1) es (if is_stats e then put e.session i d else d)

-- `i in set(newest.values())`
abbrev pub kept : ℕ → Newest → Bool
kept i d = any (λ e. e.1 == i) d

-- The comprehension at its end.
unfoldable pub select_from : ℕ → Newest → List Entry → List Entry
select_from i d [] = []
select_from i d (e ∷ es) =
    if not (is_stats e) || kept i d then e ∷ select_from (i + 1) d es else select_from (i + 1) d es

unfoldable pub coalesce_stats : List Entry → List Entry
coalesce_stats entries =
    let newest = newest_from 0 entries [] in
    if is_nil newest then entries else select_from 0 newest entries

-- One of `_runs`: consecutive entries of one table and operation.
pub record Run : Type 0 where
  pub table : Table
  pub op : Op
  pub group : List Entry

abbrev pub fits : Run → Entry → Bool
fits r e = table_no r.table == table_no e.table && op_no r.op == op_no e.op

-- One round of the loop of `_runs`: `e` joins the last run, or begins one.
abbrev pub push : List Run → Entry → List Run
push [] e = record { table = e.table; op = e.op; group = e ∷ [] } ∷ []
push (r ∷ []) e =
    if fits r e
    then record r { group = r.group ++ e ∷ [] } ∷ []
    else r ∷ record { table = e.table; op = e.op; group = e ∷ [] } ∷ []
push (r ∷ s ∷ rs) e = r ∷ push (s ∷ rs) e

unfoldable pub runs_from : List Run → List Entry → List Run
runs_from acc [] = acc
runs_from acc (e ∷ es) = runs_from (push acc e) es

unfoldable pub runs : List Entry → List Run
runs entries = runs_from [] entries

-- MIN_ENTRY_REMAINING_S, in milliseconds.
abbrev pub min_entry_remaining : ℕ
min_entry_remaining = 10000

-- `locks_at - now < 10` for a lock moment that parses; otherwise the row is not judged.
abbrev pub is_stale : ℕ → Entry → Bool
is_stale now e = elim e.locks_at [ none ↦ false | some at ↦ ltb at (now + min_entry_remaining) ]

unfoldable pub drop_stale_predictions : List Entry → ℕ → List Entry
drop_stale_predictions entries now = keep (λ e. not (is_stale now e)) entries
