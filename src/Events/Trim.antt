-- ===== src/Events/Trim.antt =====
-- The trimming of the queue file, `_trim_queue_if_oversized` of harness/wasted_harness/events.py, by
-- what it keeps and why it stops. The file is over its cap in bytes; the rows that are kept are measured
-- in characters, so `bytes` and `cost` are two parameters.
use wanted.Base.{
  ℕ, ◌+◌, ◌-◌, ◌≤◌, ◌<◌, ◌≡◌, refl, false, ◌||◌, List, [], ◌∷◌, ◌++◌, ltb, leb, ◌⊎◌, inl, inr,
  length, length-append, sum_by, sum_by-append, arith, Bool-cases, ap, sym, ◌∙◌, ◌&&◌, subst,
}
use mathlib.Core.List.{reverse, reverse-append, reverse-reverse}
use wanted.Events.Entry.{Entry, coalesce_stats}
use wanted.Events.Coalesce.{keep_newest, coalesce_stats-keep_newest}
use wanted.Events.Queue.{max_queued_rows, max_queue_bytes, keep_while, trim_queue}

sum_by-reverse : (f : Entry → ℕ) (xs : List Entry) → sum_by f (reverse xs) ≡ sum_by f xs
sum_by-reverse f [] = refl
sum_by-reverse f (x ∷ xs) =
    ap (sum_by f) (reverse-append (x ∷ []) xs)
    ∙ omega (arith, sum_by-append f (reverse xs) (x ∷ []), sum_by-reverse f xs)

length-sum : (xs : List Entry) → length xs ≡ sum_by (λ _. 1) xs
length-sum [] = refl
length-sum (x ∷ xs) = omega (arith, length-sum xs)

length-reverse : (xs : List Entry) → length (reverse xs) ≡ length xs
length-reverse xs =
    omega (arith, length-sum xs, length-sum (reverse xs), sum_by-reverse (λ _. 1) xs)

length-keep_newest-le : (es : List Entry) → length (keep_newest es) ≤ length es
unfolding keep_newest
length-keep_newest-le [] = omega arith
length-keep_newest-le (e ∷ es) = ground (arith, length-keep_newest-le es)

-- Coalescing that drops nothing changes nothing.
keep_newest_same : (es : List Entry) → length es ≤ length (keep_newest es) → keep_newest es ≡ es
unfolding keep_newest
keep_newest_same [] h = refl
keep_newest_same (e ∷ es) h = ground (arith, keep_newest_same es, length-keep_newest-le es)

module _ (bytes cost : Entry → ℕ) where
  -- Why a list of entries, newest first, was cut before `rest`.
  abbrev pub Cut : ℕ → ℕ → List Entry → List Entry → Type 0
  Cut budget kept taken [] = Unit
  Cut budget kept taken (e ∷ rest) =
      (budget < sum_by cost taken + cost e) ⊎ (max_queued_rows ≤ kept + length taken)

  Cut-step :
      (budget kept : ℕ) (e : Entry) (taken rest : List Entry)
      → cost e ≤ budget
      → Cut (budget - cost e) (kept + 1) taken rest
      → Cut budget kept (e ∷ taken) rest
  Cut-step budget kept e taken [] p h = tt
  Cut-step budget kept e taken (x ∷ rest) p h = omega arith

  Cut-reverse :
      (budget kept : ℕ) (taken rest : List Entry)
      → Cut budget kept taken rest
      → Cut budget kept (reverse taken) rest
  Cut-reverse budget kept taken [] h = tt
  Cut-reverse budget kept taken (x ∷ rest) h =
      omega (arith, sum_by-reverse cost taken, length-reverse taken)

  keep_while_parts :
      (budget kept : ℕ) (es : List Entry)
      → kept ≤ max_queued_rows
      → let taken = keep_while bytes cost budget kept es in
        (rest : List Entry) × (es ≡ taken ++ rest)
        × (sum_by cost taken ≤ budget)
        × (kept + length taken ≤ max_queued_rows)
        × Cut budget kept taken rest
  unfolding keep_while
  keep_while_parts budget kept [] h = ([], refl, omega arith, omega arith, tt)
  keep_while_parts budget kept (e ∷ es) h =
      elim (Bool-cases (ltb budget (cost e) || leb max_queued_rows kept)) [
        | inl stop ↦ rw stop (e ∷ es, refl, omega arith, omega arith, ground arith)
        | inr go ↦
            let (rest, parts, fits, few, cut) =
              keep_while_parts (budget - cost e) (kept + 1) es (ground arith) in
            rw go (
              rest,
              ap (◌∷◌ e) parts,
              ground arith,
              omega arith,
              Cut-step budget kept e _ rest (ground arith) cut,
            )
      ]

  abbrev pub Trimmed : List Entry → List Entry → Type 0
  Trimmed entries q =
      (dropped : List Entry) × (entries ≡ reverse dropped ++ q)
      × (sum_by cost q ≤ max_queue_bytes)
      × (length q ≤ max_queued_rows)
      × Cut max_queue_bytes 0 q dropped

  kept-Trimmed :
      (entries : List Entry)
      → Trimmed entries (reverse (keep_while bytes cost max_queue_bytes 0 (reverse entries)))
  kept-Trimmed entries =
      let taken = keep_while bytes cost max_queue_bytes 0 (reverse entries) in
      let (rest, parts, fits, few, cut) =
        keep_while_parts max_queue_bytes 0 (reverse entries) (omega arith) in
      (
        rest,
        sym (reverse-reverse entries) ∙ ap reverse parts ∙ reverse-append taken rest,
        omega (arith, sum_by-reverse cost taken),
        omega (arith, length-reverse taken),
        Cut-reverse max_queue_bytes 0 taken rest cut,
      )

  Trimmed-whole :
      (entries q : List Entry) → Trimmed entries q → length entries ≤ length q → entries ≡ q
  Trimmed-whole entries q ([], parts, _, _, _) h = parts
  Trimmed-whole entries q (x ∷ dropped, parts, _, _, _) h = absurd (
      omega (
        arith,
        ap length parts,
        length-append (reverse (x ∷ dropped)) q,
        length-reverse (x ∷ dropped),
      ))

  -- What a trimming leaves of a queue file that has reached its cap in bytes is the last part of its
  -- coalesced entries, in their order. It holds at most 40,000 entries, and their lengths in characters,
  -- newlines counted, come to 41,943,040 at most; nothing is said of their bytes. Where entries are
  -- dropped, the newest of those would have gone over that sum, or the 40,000 were reached.
  pub trim_queue-Trimmed :
      (raw : List Entry)
      → max_queue_bytes ≤ sum_by bytes raw
      → Trimmed (coalesce_stats raw) (trim_queue bytes cost raw)
  unfolding trim_queue
  trim_queue-Trimmed raw over =
      let entries = coalesce_stats raw in
      let kept = reverse (keep_while bytes cost max_queue_bytes 0 (reverse entries)) in
      let trimmed = kept-Trimmed entries in
      let big : ltb (sum_by bytes raw) max_queue_bytes ≡ false = ground arith in
      elim (Bool-cases (leb (length entries) (length kept) && leb (length raw) (length entries))) [
        | inr cut ↦ rw (big, cut) trimmed
        | inl whole ↦
            let all : entries ≡ kept = Trimmed-whole entries kept trimmed (ground arith) in
            let same : entries ≡ raw =
              coalesce_stats-keep_newest raw
              ∙ keep_newest_same raw (rw (← coalesce_stats-keep_newest raw) (ground arith)) in
            rw (big, whole) (subst (λ q. Trimmed entries q) (sym all ∙ same) trimmed)
      ]
