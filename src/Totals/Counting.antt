-- ===== src/Totals/Counting.antt =====
-- What the seed sums up, and what seeding does to the totals.
use wanted.Base.{
  ℕ, ◌+◌, ◌*◌, ◌≤◌, ◌≡◌, refl, Bool, true, false, not, Option, none, some, List, [], ◌∷◌, arith,
  max, min, get_or, keep, sum_by, All, ap, if◌then◌else◌,
}
use wanted.Base.Rounding.{round_to-near}
use wanted.Totals.Seed.{
  count_row_as, Counter, Row, Seed, Tally, is_lifetime_version, count_row, count_rows, max_with,
  add_to, no_tally, summarise_lifetime_seed,
}
use wanted.Totals.Lifetime.{
  LifetimeTotals, published_hours, save, apply_seed, add_play_seconds, play_gap_max,
}

abbrev pub is_lifetime : Row → Bool
is_lifetime row = is_lifetime_version row.version

abbrev pub is_legacy : Row → Bool
is_legacy row = not (is_lifetime_version row.version)

abbrev pub value_of : Counter → Row → ℕ
value_of key row = get_or (row.counter key) 0

abbrev pub hours_of : Row → ℕ
hours_of row = get_or row.hours_alive 0

abbrev pub greatest : (Row → ℕ) → List Row → ℕ
greatest f [] = 0
greatest f (row ∷ rows) = max (f row) (greatest f rows)

max_with-get_or : (m : ℕ) (v : Option ℕ) → max_with m v ≡ max m (get_or v 0)
max_with-get_or m none = omega arith
max_with-get_or m (some v) = omega arith

add_to-get_or : (m : ℕ) (v : Option ℕ) → add_to m v ≡ m + get_or v 0
add_to-get_or m none = omega arith
add_to-get_or m (some v) = omega arith

abbrev Counted : List Row → Tally → Tally → Counter → Type 0
Counted rows t t' key =
    (t'.legacy_sum key ≡ t.legacy_sum key + sum_by (value_of key) (keep is_legacy rows))
    × (t'.lifetime_max key
        ≡ max (t.lifetime_max key) (greatest (value_of key) (keep is_lifetime rows)))
    × (t'.lifetime_hours ≡ max t.lifetime_hours (greatest hours_of (keep is_lifetime rows)))

count_row-Counted :
    (lifetime : Bool) (row : Row) (rows : List Row) (t t' : Tally) (key : Counter)
    → Counted rows (count_row_as lifetime row t) t' key
    → let legacy = if not lifetime then row ∷ keep is_legacy rows else keep is_legacy rows in
      let newer = if lifetime then row ∷ keep is_lifetime rows else keep is_lifetime rows in
      (t'.legacy_sum key ≡ t.legacy_sum key + sum_by (value_of key) legacy)
      × (t'.lifetime_max key ≡ max (t.lifetime_max key) (greatest (value_of key) newer))
      × (t'.lifetime_hours ≡ max t.lifetime_hours (greatest hours_of newer))
count_row-Counted true row rows t t' key (a, b, c) = (
  a,
  omega (arith, b, max_with-get_or (t.lifetime_max key) (row.counter key)),
  omega (arith, c, max_with-get_or t.lifetime_hours row.hours_alive),
)
count_row-Counted false row rows t t' key (a, b, c) =
    (omega (arith, a, add_to-get_or (t.legacy_sum key) (row.counter key)), b, c)

count_rows-Counted :
    (rows : List Row) (t : Tally) (key : Counter) → Counted rows t (count_rows rows t) key
unfolding count_rows
count_rows-Counted [] t key = (omega arith, omega arith, omega arith)
count_rows-Counted (row ∷ rows) t key =
    count_row-Counted (is_lifetime row) row rows t (count_rows rows (count_row row t)) key
      (count_rows-Counted rows (count_row row t) key)

-- The seed takes, for each counter, the larger of the sum over the rows of before the lifetime
-- counters and the greatest value of the later rows, whatever the order of the rows; and the played
-- time is the greatest number of hours of the later rows alone, at 3.6 seconds for a thousandth.
pub summarise_lifetime_seed-Counted :
    (rows : List Row) (key : Counter)
    → let seed = summarise_lifetime_seed rows in
      (seed.counter key
        ≡ max
            (sum_by (value_of key) (keep is_legacy rows))
            (greatest (value_of key) (keep is_lifetime rows)))
      × (seed.played_seconds ≡ 3600 * greatest hours_of (keep is_lifetime rows))
unfolding summarise_lifetime_seed
summarise_lifetime_seed-Counted rows key =
    let (a, b, c) = count_rows-Counted rows no_tally key in (omega (arith, a, b), omega (arith, c))

-- A later row that was published when the totals were no more than they are in `t`.
abbrev pub IsPublished : LifetimeTotals → Row → Type 0
IsPublished t row =
    (is_lifetime row ≡ true)
    × ((key : Counter) → value_of key row ≤ t.counter key)
    × ((earlier : LifetimeTotals) × (earlier.played_seconds ≤ t.played_seconds)
        × (row.hours_alive ≡ some (published_hours earlier)))

published_hours-le : (t : LifetimeTotals) → 3600 * published_hours t ≤ t.played_seconds + 1800
unfolding published_hours
published_hours-le t = omega (arith, round_to-near 3600 t.played_seconds (omega arith))

hours_of-le :
    (t : LifetimeTotals) (row : Row)
    → IsPublished t row
    → 3600 * hours_of row ≤ t.played_seconds + 1800
hours_of-le t row (_, _, (earlier, le, is)) =
    omega (arith, le, ap (λ o. get_or o 0) is, published_hours-le earlier)

published-bounds :
    (rows : List Row) (t : LifetimeTotals) (key : Counter)
    → All (IsPublished t) rows
    → (sum_by (value_of key) (keep is_legacy rows) ≡ 0)
      × (greatest (value_of key) (keep is_lifetime rows) ≤ t.counter key)
      × (3600 * greatest hours_of (keep is_lifetime rows) ≤ t.played_seconds + 1800)
published-bounds [] t key h = (refl, omega arith, omega arith)
published-bounds (row ∷ rows) t key (p, h) =
    let (a, b, c) = published-bounds rows t key h in
    rw (p.0) (a, omega (arith, p.1 key, b), omega (arith, hours_of-le t row p, c))

apply_seed-parts :
    (ok : Bool) (seed : Seed) (t : LifetimeTotals) (key : Counter)
    → let t' = apply_seed ok seed t in
      (t'.counter key ≡ max (t.counter key) (seed.counter key))
      × (t'.played_seconds ≡ max t.played_seconds seed.played_seconds)
unfolding apply_seed save
apply_seed-parts true seed t key = (refl, refl)
apply_seed-parts false seed t key = (refl, refl)

-- Seeding a rig from the rows that it has published itself counts no death, arrest or mission twice,
-- whether or not the file could be saved: if every row is of a version with lifetime counters and was
-- published when the totals were no more than they are now, every counter stays as it is. The played
-- time does not shrink, and grows by at most 1.8 seconds, which is what the rounding of the published
-- hours to three decimals may add.
pub apply_seed-published :
    (ok : Bool) (rows : List Row) (t : LifetimeTotals) (key : Counter)
    → All (IsPublished t) rows
    → let t' = apply_seed ok (summarise_lifetime_seed rows) t in
      (t'.counter key ≡ t.counter key)
      × (t.played_seconds ≤ t'.played_seconds)
      × (t'.played_seconds ≤ t.played_seconds + 1800)
apply_seed-published ok rows t key h =
    let (counted, played) = apply_seed-parts ok (summarise_lifetime_seed rows) t key in
    let (s, p) = summarise_lifetime_seed-Counted rows key in
    let (a, b, c) = published-bounds rows t key h in
    (omega (arith, counted, s, a, b), omega (arith, played), omega (arith, played, p, c))

unfoldable pub add_gaps : List ℕ → LifetimeTotals → LifetimeTotals
add_gaps [] t = t
add_gaps (gap ∷ gaps) t = add_gaps gaps (add_play_seconds gap t)

-- Over any gaps between snapshots, the played time grows by no more than they come to, and by six
-- seconds for each at most: an outage of the bridge does not come back as time played. Gaps of six
-- seconds and less are counted in full.
pub add_gaps-bounds :
    (gaps : List ℕ) (t : LifetimeTotals)
    → let played = (add_gaps gaps t).played_seconds in
      (played ≤ t.played_seconds + sum_by (λ g. g) gaps)
      × (played ≤ t.played_seconds + sum_by (λ _. play_gap_max) gaps)
      × (played ≡ t.played_seconds + sum_by (λ g. min g play_gap_max) gaps)
unfolding add_gaps add_play_seconds
add_gaps-bounds [] t = (omega arith, omega arith, omega arith)
add_gaps-bounds (gap ∷ gaps) t =
    let (a, b, c) = add_gaps-bounds gaps (add_play_seconds gap t) in
    (omega (arith, a), omega (arith, b), omega (arith, c))
