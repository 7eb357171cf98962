-- ===== src/Events/Buffer.antt =====
-- The heartbeats in the buffer of `SupabaseWriter`, harness/wasted_harness/events.py.
use wanted.Base.{
  ◌≤◌, ◌≡◌, refl, true, false, Option, none, some, List, [], ◌∷◌, Name, same, same→eq, same_refl,
  if◌then◌else◌, any, keep, arith, Bool-cases, inl, inr,
}
use wanted.Events.Entry.{Entry, is_stats}
use wanted.Events.Coalesce.{beats, beats_count, last_beat, plain}
use wanted.Events.State.{Writer, heartbeat, replace_stats, upsert_stats}

replace_stats-plain :
    (e : Entry) (ps : List Entry)
    → is_stats e ≡ true
    → keep plain (replace_stats e ps) ≡ keep plain ps
replace_stats-plain e [] h = ground arith
replace_stats-plain e (p ∷ ps) h = ground (arith, replace_stats-plain e ps h)

-- Its own session: replaced where one was pending, else appended.
replace_stats-own :
    (e : Entry) (ps : List Entry)
    → is_stats e ≡ true
    → beats_count e.session (replace_stats e ps)
      ≡ (if any (beats e.session) ps then beats_count e.session ps else 1)
replace_stats-own e [] h = ground (arith, same_refl e.session)
replace_stats-own e (p ∷ ps) h =
    ground (arith, replace_stats-own e ps h, same_refl e.session, no_beats-count e.session ps)
  where
    no_beats-count :
        (k : Option Name) (es : List Entry) → any (beats k) es ≡ false → beats_count k es ≡ 0
    no_beats-count k [] n = refl
    no_beats-count k (x ∷ es) n = ground (arith, no_beats-count k es)

replace_stats-other :
    (k : Option Name) (e : Entry) (ps : List Entry)
    → same e.session k ≡ false
    → beats_count k (replace_stats e ps) ≡ beats_count k ps
replace_stats-other k e [] h = ground arith
replace_stats-other k e (p ∷ ps) h = elim (Bool-cases (same p.session e.session)) [
  | inl hit ↦
      let miss : same p.session k ≡ false = rw (same→eq p.session e.session hit) h in
      ground (arith, replace_stats-other k e ps h, miss)
  | inr no_hit ↦ ground (arith, replace_stats-other k e ps h)
]

replace_stats-beats_count :
    (k : Option Name) (e : Entry) (ps : List Entry)
    → is_stats e ≡ true
    → beats_count k ps ≤ 1
    → beats_count k (replace_stats e ps) ≤ 1
replace_stats-beats_count k e ps h c = elim (Bool-cases (same e.session k)) [
  | inr other ↦ rw (replace_stats-other k e ps other) c
  | inl own ↦
      rw (← same→eq e.session k own)
        (ground (arith, replace_stats-own e ps h, same→eq e.session k own))
]

no_beats-last_beat :
    (k : Option Name) (es : List Entry) → beats_count k es ≤ 0 → last_beat k es ≡ none
no_beats-last_beat k [] h = refl
no_beats-last_beat k (e ∷ es) h = ground (arith, no_beats-last_beat k es)

replace_stats-last_beat :
    (e : Entry) (ps : List Entry)
    → is_stats e ≡ true
    → beats_count e.session ps ≤ 1
    → last_beat e.session (replace_stats e ps) ≡ some e
replace_stats-last_beat e [] h c = ground (arith, same_refl e.session)
replace_stats-last_beat e (p ∷ ps) h c =
    ground
      (arith, replace_stats-last_beat e ps h, no_beats-last_beat e.session ps, same_refl e.session)

-- A heartbeat is upserted in place: no session gets two pending heartbeats, the session's pending
-- one is the new row, and no other entry is touched or moved.
pub upsert_stats-newest :
    (session_id : Option Name) (body : Name) (w : Writer)
    → ((k : Option Name) → beats_count k w.buffer ≤ 1)
    → let w' = upsert_stats session_id body w in
      let row = heartbeat w.session_id session_id body in
      ((k : Option Name) → beats_count k w'.buffer ≤ 1)
      × (last_beat row.session w'.buffer ≡ some row)
      × (keep plain w'.buffer ≡ keep plain w.buffer)
unfolding upsert_stats
upsert_stats-newest session_id body w h =
    let row = heartbeat w.session_id session_id body in
    (
      (λ k. replace_stats-beats_count k row w.buffer (ground arith) (h k)),
      replace_stats-last_beat row w.buffer (ground arith) (h row.session),
      replace_stats-plain row w.buffer (ground arith),
    )
