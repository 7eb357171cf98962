-- ===== src/Events/Delivery.antt =====
-- The rows that `_write_entries` of harness/wasted_harness/events.py is given, counted over its branches.
use wanted.Base.{
  ℕ, zero, suc, ◌+◌, ◌≤◌, ◌≡◌, refl, Bool, true, false, Option, List, [], ◌∷◌, ◌++◌, ◌⊎◌,
  length-drop-le, Name, ◌==◌, if◌then◌else◌, length, take, drop, sum_by, sum_by-append, arith,
  Bool-cases, inl, inr, ap, ◌∙◌, sym,
}
use wanted.Base.Sort.{sort, sum_by-sort}
use wanted.Events.Entry.{Entry, Table, Op, Run, runs, drop_stale_predictions}
use wanted.Events.Runs.{entries_of, runs_partition}
use wanted.Events.Writer.{
  Request, Answer, Flush, fill_all, pairs_of, skipped_of, batch_size, send_rows, stale_of,
  write_group, write_run, write_runs, stats_last, begin_flush, write_entries,
}

-- How often a row stands in a list. Rows are told apart by what they hold beside their session.
abbrev pub count : Name → List Entry → ℕ
count b = sum_by (λ (e : Entry). if e.body == b then 1 else 0)

-- How often the server has accepted it.
abbrev pub accepted_count : Name → List Request → ℕ
accepted_count b = sum_by (λ (r : Request). if r.accepted then count b r.rows else 0)

pairs-skipped :
    (b : Name) (known : Option Name) (t : Table) (es : List Entry)
    → count b (pairs_of known t es) + count b (skipped_of known t es) ≡ count b es
pairs-skipped b known t [] = refl
pairs-skipped b known t (e ∷ es) = ground (arith, pairs-skipped b known t es)

count-fill_all :
    (b : Name) (known : Option Name) (t : Table) (es : List Entry)
    → count b (fill_all known t es) ≡ count b es
count-fill_all b known t [] = refl
count-fill_all b known t (e ∷ es) = ground (arith, count-fill_all b known t es)

count-stale :
    (b : Name) (now : ℕ) (es : List Entry)
    → count b (drop_stale_predictions es now) + count b (stale_of now es) ≡ count b es
unfolding drop_stale_predictions
count-stale b now [] = refl
count-stale b now (e ∷ es) = ground (arith, count-stale b now es)

count-take-drop :
    (b : Name) (n : ℕ) (es : List Entry) → count b (take n es) + count b (drop n es) ≡ count b es
count-take-drop b zero es = omega arith
count-take-drop b (suc n) [] = refl
count-take-drop b (suc n) (e ∷ es) = omega (arith, count-take-drop b n es)

drop-batch :
    (op : Op) (e : Entry) (es : List Entry) (fuel : ℕ)
    → suc (length es) ≤ suc fuel
    → length (drop (batch_size op) (e ∷ es)) ≤ fuel
drop-batch Op.insert e es fuel h = omega (arith, length-drop-le 19 es)
drop-batch Op.upsert e es fuel h = omega arith
drop-batch Op.update e es fuel h = omega arith

count-entries_of :
    (b : Name) (rs : List Run) → count b (entries_of rs) ≡ sum_by (λ r. count b r.group) rs
count-entries_of b [] = refl
count-entries_of b (r ∷ rs) = omega (
  arith,
  sum_by-append (λ (e : Entry). if e.body == b then 1 else 0) r.group (entries_of rs),
  count-entries_of b rs,
)

abbrev logged : List Request → Table → Op → List Entry → Bool → List Request
logged sent t op rows ok = sent ++ record { table = t; op = op; rows = rows; accepted = ok } ∷ []

accepted_count-logged :
    (b : Name) (sent : List Request) (t : Table) (op : Op) (rows : List Entry) (ok : Bool)
    → accepted_count b (logged sent t op rows ok)
      ≡ accepted_count b sent + (if ok then count b rows else 0)
accepted_count-logged b [] t op rows ok = omega arith
accepted_count-logged b (r ∷ rs) t op rows ok =
    omega (arith, accepted_count-logged b rs t op rows ok)

module _ (answer : Answer) (known : Option Name) where
  send_rows-count :
      (b : Name) (t : Table) (op : Op) (fuel : ℕ) (es : List Entry) (sent : List Request)
      → let (unsent, _, sent') = send_rows answer known t op fuel es sent in
        accepted_count b sent' + count b unsent ≡ accepted_count b sent + count b es
  unfolding send_rows
  send_rows-count b t op zero es sent = refl
  send_rows-count b t op (suc fuel) [] sent = refl
  send_rows-count b t op (suc fuel) (e ∷ es) sent =
      let n = batch_size op in
      let chunk = fill_all known t (take n (e ∷ es)) in
      elim (Bool-cases (answer sent t op chunk)) [
        | inl agreed ↦ rw agreed (
            omega (
              arith,
              send_rows-count b t op fuel (drop n (e ∷ es)) (logged sent t op chunk true),
              accepted_count-logged b sent t op chunk true,
              count-fill_all b known t (take n (e ∷ es)),
              count-take-drop b n (e ∷ es),
            ))
        | inr refused ↦ rw refused (omega (arith, accepted_count-logged b sent t op chunk false))
      ]

  -- With fuel for every row, what is not written is written off only after a failure.
  send_rows-done :
      (t : Table) (op : Op) (fuel : ℕ) (es : List Entry) (sent : List Request)
      → length es ≤ fuel
      → let (unsent, failed, _) = send_rows answer known t op fuel es sent in
        (failed ≡ true) ⊎ (unsent ≡ [])
  unfolding send_rows
  send_rows-done t op zero [] sent h = inr refl
  send_rows-done t op zero (e ∷ es) sent h = absurd (omega arith)
  send_rows-done t op (suc fuel) [] sent h = inr refl
  send_rows-done t op (suc fuel) (e ∷ es) sent h =
      let n = batch_size op in
      let chunk = fill_all known t (take n (e ∷ es)) in
      elim (Bool-cases (answer sent t op chunk)) [
        | inl accepted ↦ rw accepted (
            send_rows-done t op fuel (drop n (e ∷ es)) (logged sent t op chunk true)
              (drop-batch op e es fuel h))
        | inr refused ↦ rw refused (inl refl)
      ]

  -- The rows that a flush has accounted for.
  abbrev accounted : Name → Flush → ℕ
  accounted b f = accepted_count b f.sent + count b f.remaining + count b f.dropped

  write_group-count :
      (b : Name) (t : Table) (op : Op) (group : List Entry) (f : Flush)
      → accounted b (write_group answer known t op group f) ≡ accounted b f + count b group
  unfolding write_group
  write_group-count b t op group f =
      let rows = pairs_of known t group in
      ground (
        arith,
        pairs-skipped b known t group,
        send_rows-count b t op (length rows) rows f.sent,
        send_rows-done t op (length rows) rows f.sent (omega arith),
        sum_by-append (λ (e : Entry). if e.body == b then 1 else 0) f.remaining
            (skipped_of known t group),
        sum_by-append (λ (e : Entry). if e.body == b then 1 else 0)
            (f.remaining ++ skipped_of known t group)
            (send_rows answer known t op (length rows) rows f.sent).0,
      )

  write_run-count :
      (b : Name) (now : ℕ) (r : Run) (f : Flush)
      → accounted b (write_run answer known now r f) ≡ accounted b f + count b r.group
  unfolding write_run
  write_run-count b now r f = ground (
    arith,
    write_group-count b r.table r.op r.group f,
    write_group-count b r.table r.op (drop_stale_predictions r.group now)
        (record f { dropped = f.dropped ++ stale_of now r.group }),
    count-stale b now r.group,
    sum_by-append (λ (e : Entry). if e.body == b then 1 else 0) f.remaining r.group,
    sum_by-append (λ (e : Entry). if e.body == b then 1 else 0) f.dropped (stale_of now r.group),
  )

  write_runs-count :
      (b : Name) (now : ℕ) (rs : List Run) (f : Flush)
      → accounted b (write_runs answer known now rs f)
        ≡ accounted b f + sum_by (λ r. count b r.group) rs
  unfolding write_runs
  write_runs-count b now [] f = omega arith
  write_runs-count b now (r ∷ rs) f =
      omega (
        arith,
        write_runs-count b now rs (write_run answer known now r f),
        write_run-count b now r f,
      )

  -- What `_write_entries` does against any server, on any branch, accounts for every row as often as it was there:
  -- what the server newly accepted, what remains queued and what was dropped as stale are together
  -- what was to be written.
  pub write_entries-count :
      (b : Name) (now : ℕ) (client : Bool) (es : List Entry) (sent : List Request)
      → let f = write_entries answer known now client es sent in
        accepted_count b f.sent + count b f.remaining + count b f.dropped
        ≡ accepted_count b sent + count b es
  unfolding write_entries
  write_entries-count b now false es sent = omega arith
  write_entries-count b now true es sent =
      let sorted = sort stats_last (runs es) in
      let sums : sum_by (λ (r : Run). count b r.group) sorted ≡ count b es =
        sum_by-sort stats_last (λ (r : Run). count b r.group) (runs es)
        ∙ sym (count-entries_of b (runs es))
        ∙ ap (count b) (runs_partition es).0 in
      omega (arith, write_runs-count b now sorted (begin_flush sent), sums)
