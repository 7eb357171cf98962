-- ===== src/Events/Runs.antt =====
-- `_runs` of harness/wasted_harness/events.py, on any entries.
use wanted.Base.{
  ◌≡◌, refl, Bool, true, false, List, [], ◌∷◌, ◌++◌, append_assoc, append-nil, ◌==◌, if◌then◌else◌,
  is_nil, All, arith, Bool-cases, inl, inr, ◌∙◌, sym, ap,
}
use wanted.Events.Entry.{Entry, Run, fits, push, runs_from, runs, table_no, op_no}

-- The entries of the runs, in order.
abbrev pub entries_of : List Run → List Entry
entries_of [] = []
entries_of (r ∷ rs) = r.group ++ entries_of rs

push-entries_of : (rs : List Run) (e : Entry) → entries_of (push rs e) ≡ entries_of rs ++ e ∷ []
push-entries_of [] e = refl
push-entries_of (r ∷ []) e = elim (Bool-cases (fits r e)) [
  | inl joins ↦ rw joins (simp append-nil)
  | inr begins ↦ rw begins (simp append-nil)
]
push-entries_of (r ∷ s ∷ rs) e =
    rw (push-entries_of (s ∷ rs) e) (sym (append_assoc r.group (entries_of (s ∷ rs)) (e ∷ [])))

runs_from-entries_of :
    (acc : List Run) (es : List Entry) → entries_of (runs_from acc es) ≡ entries_of acc ++ es
unfolding runs_from
runs_from-entries_of acc [] = sym (append-nil (entries_of acc))
runs_from-entries_of acc (e ∷ es) =
    runs_from-entries_of (push acc e) es
    ∙ ap (λ xs. xs ++ es) (push-entries_of acc e)
    ∙ append_assoc (entries_of acc) (e ∷ []) es

-- Two runs that do not belong together.
abbrev pub differs : Run → Run → Bool
differs r s =
    if table_no r.table == table_no s.table
    then (if op_no r.op == op_no s.op then false else true)
    else true

-- Every run is of one table and operation and holds an entry.
pub record IsRun (r : Run) : Type 0 where
  pub uniform : All (λ e. fits r e ≡ true) r.group
  pub inhabited : is_nil r.group ≡ false

-- The runs are as long as they can be: neighbours differ in table or operation.
abbrev pub AreRuns : List Run → Type 0
AreRuns [] = Unit
AreRuns (r ∷ []) = IsRun r × Unit
AreRuns (r ∷ s ∷ rs) = IsRun r × (differs r s ≡ true) × AreRuns (s ∷ rs)

All-snoc :
    (r : Run) (es : List Entry) (e : Entry)
    → All (λ x. fits r x ≡ true) es
    → fits r e ≡ true
    → All (λ x. fits r x ≡ true) (es ++ e ∷ [])
All-snoc r [] e h p = (p, tt)
All-snoc r (x ∷ es) e h p = (h.0, All-snoc r es e h.1 p)

snoc-inhabited : (es : List Entry) (e : Entry) → is_nil (es ++ e ∷ []) ≡ false
snoc-inhabited [] e = refl
snoc-inhabited (x ∷ es) e = refl

push-join :
    (r : Run) (e : Entry)
    → IsRun r
    → fits r e ≡ true
    → IsRun (record r { group = r.group ++ e ∷ [] })
push-join r e h p = record {
  uniform = All-snoc r r.group e h.uniform p;
  inhabited = snoc-inhabited r.group e;
}

push-AreRuns : (rs : List Run) (e : Entry) → AreRuns rs → AreRuns (push rs e)
push-AreRuns [] e h = ground arith
push-AreRuns (r ∷ []) e h = elim (Bool-cases (fits r e)) [
  | inl joins ↦ rw joins (push-join r e h.0 joins, tt)
  | inr begins ↦ rw begins (h.0, ground arith, ground arith)
]
push-AreRuns (r ∷ s ∷ []) e h = elim (Bool-cases (fits s e)) [
  | inl joins ↦ rw joins (h.0, h.1, (push-join s e h.2.0 joins, tt))
  | inr begins ↦ rw begins (h.0, h.1, (h.2.0, ground arith, ground arith))
]
push-AreRuns (r ∷ s ∷ t ∷ rs) e h = (h.0, h.1, push-AreRuns (s ∷ t ∷ rs) e h.2)

runs_from-AreRuns : (acc : List Run) (es : List Entry) → AreRuns acc → AreRuns (runs_from acc es)
unfolding runs_from
runs_from-AreRuns acc [] h = h
runs_from-AreRuns acc (e ∷ es) h = runs_from-AreRuns (push acc e) es (push-AreRuns acc e h)

-- The runs put together again are the entries in their order, each run is of one table and
-- operation and not empty, and no two neighbours could be one run.
pub runs_partition : (es : List Entry) → (entries_of (runs es) ≡ es) × AreRuns (runs es)
unfolding runs
runs_partition es = (runs_from-entries_of [] es, runs_from-AreRuns [] es tt)
