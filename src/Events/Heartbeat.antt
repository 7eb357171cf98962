-- ===== src/Events/Heartbeat.antt =====
-- The order of the requests that `_write_entries` of harness/wasted_harness/events.py makes in one flush:
-- the heartbeats among them, and the requests that failed.
use wanted.Base.{
  ℕ, zero, suc, ◌≡◌, ◌≢◌, refl, Bool, true, false, not, ◌&&◌, Option, List, [], ◌∷◌, ◌++◌, Name,
  ◌==◌, ◌⊎◌, inl, inr, All, All-append, length, take, drop, arith, Bool-cases,
}
use wanted.Base.Sort.{sort}
use wanted.Events.Entry.{Entry, Table, Op, Run, runs, table_no, drop_stale_predictions}
use wanted.Events.Writer.{
  Request, Answer, Flush, fill_all, pairs_of, batch_size, send_rows, stale_of, write_group,
  write_run, write_runs, stats_last, begin_flush, write_entries,
}

abbrev pub IsAccepted : Request → Type 0
IsAccepted r = r.accepted ≡ true

-- After a request that failed there is none to the table of the heartbeats.
abbrev pub IsHonest : List Request → Type 0
IsHonest [] = Unit
IsHonest (r ∷ rs) = ((r.accepted ≡ true) ⊎ All (λ s. table_no s.table ≢ 2) rs) × IsHonest rs

IsHonest-append_accepted :
    (rs : List Request) (r : Request) → All IsAccepted rs → IsHonest (rs ++ r ∷ [])
IsHonest-append_accepted [] r h = (inr tt, tt)
IsHonest-append_accepted (x ∷ rs) r h = (inl h.0, IsHonest-append_accepted rs r h.1)

IsHonest-append_other :
    (rs : List Request) (r : Request) → table_no r.table ≢ 2 → IsHonest rs → IsHonest (rs ++ r ∷ [])
IsHonest-append_other [] r n h = (inr tt, tt)
IsHonest-append_other (x ∷ rs) r n (inl a, h) = (inl a, IsHonest-append_other rs r n h)
IsHonest-append_other (x ∷ rs) r n (inr a, h) = (
  inr (All-append (λ s. table_no s.table ≢ 2) rs (r ∷ []) a (n, tt)),
  IsHonest-append_other rs r n h,
)

-- While nothing has failed all requests are accepted.
abbrev Holds : Bool → List Request → Type 0
Holds failed sent = IsHonest sent × ((failed ≡ true) ⊎ All IsAccepted sent)

module _ (answer : Answer) (known : Option Name) where
  abbrev made : List Request → Table → Op → List Entry → Request
  made sent t op rows = record { table = t; op = op; rows = rows; accepted = answer sent t op rows }

  -- Rows that go out after nothing has failed.
  send_rows-first :
      (t : Table) (op : Op) (fuel : ℕ) (es : List Entry) (sent : List Request)
      → IsHonest sent
      → All IsAccepted sent
      → let (_, failed, sent') = send_rows answer known t op fuel es sent in Holds failed sent'
  unfolding send_rows
  send_rows-first t op zero es sent h a = (h, inr a)
  send_rows-first t op (suc fuel) [] sent h a = (h, inr a)
  send_rows-first t op (suc fuel) (e ∷ es) sent h a =
      let chunk = fill_all known t (take (batch_size op) (e ∷ es)) in
      let r = made sent t op chunk in
      elim (Bool-cases (answer sent t op chunk)) [
        | inl agreed ↦ rw agreed (
            rw agreed at (
              send_rows-first t op fuel (drop (batch_size op) (e ∷ es)) (sent ++ r ∷ [])
                (IsHonest-append_accepted sent r a)
                (All-append IsAccepted sent (r ∷ []) a (agreed, tt))))
        | inr refused ↦ rw refused (rw refused at (IsHonest-append_accepted sent r a), inl refl)
      ]

  -- Rows of another table, whatever has failed.
  send_rows-other :
      (t : Table) (op : Op) (fuel : ℕ) (es : List Entry) (sent : List Request)
      → table_no t ≢ 2
      → IsHonest sent
      → IsHonest (send_rows answer known t op fuel es sent).2
  unfolding send_rows
  send_rows-other t op zero es sent n h = h
  send_rows-other t op (suc fuel) [] sent n h = h
  send_rows-other t op (suc fuel) (e ∷ es) sent n h =
      let chunk = fill_all known t (take (batch_size op) (e ∷ es)) in
      let r = made sent t op chunk in
      let longer = IsHonest-append_other sent r n h in
      elim (Bool-cases (answer sent t op chunk)) [
        | inl agreed ↦ rw agreed (
            rw agreed at
              (send_rows-other t op fuel (drop (batch_size op) (e ∷ es)) (sent ++ r ∷ []) n longer))
        | inr refused ↦ rw refused (rw refused at longer)
      ]

  -- What is true of a flush between two runs.
  abbrev Keeps : Flush → Type 0
  Keeps f = IsHonest f.sent × ((f.ok ≡ false) ⊎ All IsAccepted f.sent)

  write_group-ok :
      (t : Table) (op : Op) (group : List Entry) (f : Flush)
      → f.ok ≡ true
      → Keeps f
      → Keeps (write_group answer known t op group f)
  unfolding write_group
  write_group-ok t op group f ok (h, inl bad) = absurd (cc)
  write_group-ok t op group f ok (h, inr a) =
      let rows = pairs_of known t group in
      ground (arith, send_rows-first t op (length rows) rows f.sent h a)

  write_group-other :
      (t : Table) (op : Op) (group : List Entry) (f : Flush)
      → table_no t ≢ 2
      → f.ok ≡ false
      → Keeps f
      → Keeps (write_group answer known t op group f)
  unfolding write_group
  write_group-other t op group f n bad k =
      let rows = pairs_of known t group in
      ground (arith, send_rows-other t op (length rows) rows f.sent n k.0)

  write_group-Keeps :
      (t : Table) (op : Op) (group : List Entry) (f : Flush)
      → (table_no t == 2 && not f.ok) ≡ false
      → Keeps f
      → Keeps (write_group answer known t op group f)
  write_group-Keeps t op group f go k = elim (Bool-cases f.ok) [
    | inl ok ↦ write_group-ok t op group f ok k
    | inr bad ↦ write_group-other t op group f (ground arith) bad k
  ]

  write_run-Keeps :
      (now : ℕ) (r : Run) (f : Flush) → Keeps f → Keeps (write_run answer known now r f)
  unfolding write_run
  write_run-Keeps now r f k = ground (
    arith,
    write_group-Keeps r.table r.op r.group f,
    write_group-Keeps r.table r.op (drop_stale_predictions r.group now)
        (record f { dropped = f.dropped ++ stale_of now r.group }),
  )

  write_runs-Keeps :
      (now : ℕ) (rs : List Run) (f : Flush) → Keeps f → Keeps (write_runs answer known now rs f)
  unfolding write_runs
  write_runs-Keeps now [] f k = k
  write_runs-Keeps now (r ∷ rs) f k =
      write_runs-Keeps now rs (write_run answer known now r f) (write_run-Keeps now r f k)

  -- In one flush, against any server, no heartbeat is sent after a request that failed; and a flush
  -- that reports success has had every request accepted.
  pub write_entries-IsHonest :
      (now : ℕ) (client : Bool) (es : List Entry)
      → let f = write_entries answer known now client es [] in
        IsHonest f.sent × ((f.ok ≡ false) ⊎ All IsAccepted f.sent)
  unfolding write_entries
  write_entries-IsHonest now false es = (tt, inl refl)
  write_entries-IsHonest now true es =
      write_runs-Keeps now (sort stats_last (runs es)) (begin_flush []) (tt, inr tt)
