-- ===== src/Events/Coalesce.antt =====
-- `_coalesce_stats` of harness/wasted_harness/events.py, with its dictionary of indices, and the plain
-- rule on the list.
use wanted.Base.{
  ℕ, ◌+◌, ◌<◌, ◌≡◌, ◌≢◌, refl, ap, sym, ◌≤◌, is_nil, is_some, sum_by, Bool, true, false, not, ◌&&◌,
  Option, none, some, List, [], ◌∷◌, Name, same, if◌then◌else◌, any, keep, All, arith, same→eq,
  same_refl, Bool-cases, inl, inr, ◌⊎◌,
}
use wanted.Events.Entry.{
  Entry, Newest, is_stats, put, newest_from, kept, select_from, coalesce_stats,
}

-- A heartbeat of the session.
abbrev pub beats : Option Name → Entry → Bool
beats k e = is_stats e && same e.session k

-- The reference: drop a heartbeat if a later one of its session follows.
unfoldable pub keep_newest : List Entry → List Entry
keep_newest [] = []
keep_newest (e ∷ es) =
    if is_stats e && any (beats e.session) es then keep_newest es else e ∷ keep_newest es

-- The dictionary has each key once, and only indices below `i`.
abbrev NoKey : Option Name → Newest → Type 0
NoKey k = All (λ e. same e.0 k ≡ false)

abbrev NoVal : ℕ → Newest → Type 0
NoVal j = All (λ e. e.1 ≢ j)

abbrev IsDict : ℕ → Newest → Type 0
IsDict i [] = Unit
IsDict i (e ∷ d) = (e.1 < i) × NoKey e.0 d × IsDict i d

-- The value `j` stands at the key `k` and nowhere else, and `k` stands there alone.
abbrev At : ℕ → Option Name → Newest → Type 0
At j k [] = ⊥
At j k (e ∷ d) =
    ((e.0 ≡ k) × (e.1 ≡ j) × NoKey k d × NoVal j d) ⊎ ((same e.0 k ≡ false) × (e.1 ≢ j) × At j k d)

same-swap : (a b : Option Name) → same a b ≡ false → same b a ≡ false
same-swap none none h = h
same-swap (some a) (some b) h = ground arith
same-swap none (some b) h = refl
same-swap (some a) none h = refl

kept-NoVal : (j : ℕ) (d : Newest) → NoVal j d → kept j d ≡ false
kept-NoVal j [] h = refl
kept-NoVal j (e ∷ d) h = ground (arith, kept-NoVal j d h.1)

kept-At : (j : ℕ) (k : Option Name) (d : Newest) → At j k d → kept j d ≡ true
kept-At j k [] h = elim h [ ]
kept-At j k (e ∷ d) (inl h) = ground arith
kept-At j k (e ∷ d) (inr h) = ground (arith, kept-At j k d h.2)

IsDict-NoVal : (i : ℕ) (d : Newest) → IsDict i d → NoVal i d
IsDict-NoVal i [] h = tt
IsDict-NoVal i (e ∷ d) h = (omega arith, IsDict-NoVal i d h.2)

IsDict-suc : (i : ℕ) (d : Newest) → IsDict i d → IsDict (i + 1) d
IsDict-suc i [] h = tt
IsDict-suc i (e ∷ d) h = (omega arith, h.1, IsDict-suc i d h.2)

NoKey-put :
    (q k : Option Name) (i : ℕ) (d : Newest) → same k q ≡ false → NoKey q d → NoKey q (put k i d)
NoKey-put q k i [] p h = (p, tt)
NoKey-put q k i (e ∷ d) p h = ground (arith, NoKey-put q k i d p h.1)

IsDict-put : (k : Option Name) (i : ℕ) (d : Newest) → IsDict i d → IsDict (i + 1) (put k i d)
IsDict-put k i [] h = (omega arith, tt, tt)
IsDict-put k i (e ∷ d) h = elim (Bool-cases (same e.0 k)) [
  | inl hit ↦ rw hit (omega arith, rw (← same→eq e.0 k hit) h.1, IsDict-suc i d h.2)
  | inr miss ↦
      rw miss (omega arith, NoKey-put e.0 k i d (same-swap e.0 k miss) h.1, IsDict-put k i d h.2)
]

put-NoVal : (j : ℕ) (k : Option Name) (i : ℕ) (d : Newest) → i ≢ j → NoVal j d → NoVal j (put k i d)
put-NoVal j k i [] p h = (p, tt)
put-NoVal j k i (e ∷ d) p h = ground (arith, put-NoVal j k i d p h.1)

put-At : (k : Option Name) (i : ℕ) (d : Newest) → IsDict i d → At i k (put k i d)
put-At k i [] h = inl (refl, refl, tt, tt)
put-At k i (e ∷ d) h = elim (Bool-cases (same e.0 k)) [
  | inl hit ↦ rw hit (inl (refl, refl, rw (← same→eq e.0 k hit) h.1, IsDict-NoVal i d h.2))
  | inr miss ↦ rw miss (inr (miss, omega arith, put-At k i d h.2))
]

put-At_hit : (j : ℕ) (k : Option Name) (i : ℕ) (d : Newest) → i ≢ j → At j k d → NoVal j (put k i d)
put-At_hit j k i [] p h = elim h [ ]
put-At_hit j k i (e ∷ d) p (inl (here, _, _, rest)) = rw (here, same_refl k) (p, rest)
put-At_hit j k i (e ∷ d) p (inr (miss, ne, h)) = rw miss (ne, put-At_hit j k i d p h)

put-At_keep :
    (j : ℕ) (k q : Option Name) (i : ℕ) (d : Newest)
    → same k q ≡ false
    → i ≢ j
    → At j k d
    → At j k (put q i d)
put-At_keep j k q i [] other p h = elim h [ ]
put-At_keep j k q i (e ∷ d) other p (inl (here, at, nokey, noval)) =
    let miss : same e.0 q ≡ false = rw here other in
    rw miss
      (inl (here, at, NoKey-put k q i d (same-swap k q other) nokey, put-NoVal j q i d p noval))
put-At_keep j k q i (e ∷ d) other p (inr (miss, ne, h)) = elim (Bool-cases (same e.0 q)) [
  | inl hit ↦ rw hit (inr (same-swap k q other, p, h))
  | inr no_hit ↦ rw no_hit (inr (miss, ne, put-At_keep j k q i d other p h))
]

put-nonempty : (k : Option Name) (i : ℕ) (d : Newest) → is_nil (put k i d) ≡ true → ⊥
put-nonempty k i [] h = cc
put-nonempty k i (e ∷ d) h = ground arith

newest-NoVal :
    (j i : ℕ) (es : List Entry) (d : Newest) → j < i → NoVal j d → NoVal j (newest_from i es d)
unfolding newest_from
newest-NoVal j i [] d p h = h
newest-NoVal j i (e ∷ es) d p h =
    newest-NoVal j (i + 1) es _ (omega arith) (ground (arith, put-NoVal j e.session i d))

-- What stands in the dictionary survives the rest of the loop unless its session comes again.
newest-At :
    (j i : ℕ) (k : Option Name) (es : List Entry) (d : Newest)
    → j < i
    → At j k d
    → kept j (newest_from i es d) ≡ not (any (beats k) es)
unfolding newest_from
newest-At j i k [] d p h = kept-At j k d h
newest-At j i k (e ∷ es) d p h = elim (Bool-cases (is_stats e)) [
  | inr plain ↦ rw plain (newest-At j (i + 1) k es d (omega arith) h)
  | inl beat ↦ elim (Bool-cases (same e.session k)) [
    | inl hit ↦
        rw (beat, hit, same→eq e.session k hit)
          (kept-NoVal j _ (
            newest-NoVal j (i + 1) es (put k i d) (omega arith)
              (put-At_hit j k i d (omega arith) h)))
    | inr miss ↦
        rw (beat, miss)
          (newest-At j (i + 1) k es (put e.session i d) (omega arith)
            (put-At_keep j k e.session i d (same-swap e.session k miss) (omega arith) h))
  ]
]

select-keep_newest :
    (i : ℕ) (es : List Entry) (d : Newest)
    → IsDict i d
    → select_from i (newest_from i es d) es ≡ keep_newest es
unfolding newest_from select_from keep_newest
select-keep_newest i [] d h = refl
select-keep_newest i (e ∷ es) d h = elim (Bool-cases (is_stats e)) [
  | inr plain ↦ rw plain (ap (◌∷◌ e) (select-keep_newest (i + 1) es d (IsDict-suc i d h)))
  | inl beat ↦
      let put_dict = IsDict-put e.session i d h in
      let at =
        newest-At i (i + 1) e.session es (put e.session i d) (omega arith)
          (put-At e.session i d h) in
      let ih = select-keep_newest (i + 1) es (put e.session i d) put_dict in
      rw (beat, at, ih) (ground arith)
]

no_newest :
    (i : ℕ) (es : List Entry) (d : Newest)
    → is_nil (newest_from i es d) ≡ true
    → (is_nil d ≡ true) × (keep_newest es ≡ es)
unfolding newest_from keep_newest
no_newest i [] d h = (h, refl)
no_newest i (e ∷ es) d h = elim (Bool-cases (is_stats e)) [
  | inr plain ↦ let (nil, rest) = no_newest (i + 1) es d (rw plain at h) in (nil, rw (plain, rest))
  | inl beat ↦
      let (nil, rest) = no_newest (i + 1) es (put e.session i d) (rw beat at h) in
      absurd (put-nonempty e.session i d nil)
]

-- The dictionary of indices is right: what `_coalesce_stats` keeps is every entry that is no
-- heartbeat, and each heartbeat that no later one of its session follows, in place.
pub coalesce_stats-keep_newest : (es : List Entry) → coalesce_stats es ≡ keep_newest es
unfolding coalesce_stats
coalesce_stats-keep_newest es = elim (Bool-cases (is_nil (newest_from 0 es []))) [
  | inl nil ↦ rw nil (sym (no_newest 0 es [] nil).1)
  | inr some_beat ↦ rw some_beat (select-keep_newest 0 es [] tt)
]

-- The last heartbeat of a session.
abbrev pub last_beat : Option Name → List Entry → Option Entry
last_beat k [] = none
last_beat k (e ∷ es) =
    let later = last_beat k es in
    if is_some later then later else if beats k e then some e else none

abbrev pub plain : Entry → Bool
plain e = not (is_stats e)

last_beat-any : (k : Option Name) (es : List Entry) → any (beats k) es ≡ is_some (last_beat k es)
last_beat-any k [] = refl
last_beat-any k (e ∷ es) = ground (arith, last_beat-any k es)

keep_newest-last_beat :
    (k : Option Name) (es : List Entry) → last_beat k (keep_newest es) ≡ last_beat k es
unfolding keep_newest
keep_newest-last_beat k [] = refl
keep_newest-last_beat k (e ∷ es) = elim (Bool-cases (is_stats e && any (beats e.session) es)) [
  | inr stays ↦ rw (stays, keep_newest-last_beat k es)
  | inl goes ↦
      rw (goes, keep_newest-last_beat k es)
        (elim (Bool-cases (same e.session k)) [
          | inr other ↦ ground arith
          | inl this ↦
              let later : any (beats k) es ≡ true =
                rw (← same→eq e.session k this) (ground arith) in
              ground (arith, last_beat-any k es)
        ])
]

keep_newest-plain : (es : List Entry) → keep plain (keep_newest es) ≡ keep plain es
unfolding keep_newest
keep_newest-plain [] = refl
keep_newest-plain (e ∷ es) = ground (arith, keep_newest-plain es)

abbrev pub beats_count : Option Name → List Entry → ℕ
beats_count k es = sum_by (λ e. if beats k e then 1 else 0) es

keep_newest-no_beats :
    (k : Option Name) (es : List Entry)
    → any (beats k) es ≡ false
    → beats_count k (keep_newest es) ≡ 0
unfolding keep_newest
keep_newest-no_beats k [] h = refl
keep_newest-no_beats k (e ∷ es) h = ground (arith, keep_newest-no_beats k es)

keep_newest-beats_count : (k : Option Name) (es : List Entry) → beats_count k (keep_newest es) ≤ 1
unfolding keep_newest
keep_newest-beats_count k [] = omega arith
keep_newest-beats_count k (e ∷ es) = elim (Bool-cases (same e.session k)) [
  | inr other ↦ ground (arith, keep_newest-beats_count k es)
  | inl this ↦
      ground
        (arith, keep_newest-beats_count k es, same→eq e.session k this, keep_newest-no_beats k es)
]

-- Nothing but superseded heartbeats is lost: all other entries stay in their order, the last
-- heartbeat of every session stays, and no session has two.
pub coalesce_stats-keeps :
    (k : Option Name) (es : List Entry)
    → (keep plain (coalesce_stats es) ≡ keep plain es)
      × (last_beat k (coalesce_stats es) ≡ last_beat k es)
      × (beats_count k (coalesce_stats es) ≤ 1)
coalesce_stats-keeps k es =
    rw coalesce_stats-keep_newest
      (keep_newest-plain es, keep_newest-last_beat k es, keep_newest-beats_count k es)
