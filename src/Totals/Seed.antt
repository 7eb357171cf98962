-- ===== src/Totals/Seed.antt =====
-- The seed of the lifetime totals, harness/wasted_harness/totals.py. A version is what `_version_tuple`
-- reads of it; a value that is no number is `none`. Published hours are in thousandths, as they are
-- published, and played time is in milliseconds: 3,600 of them are a thousandth of an hour.
use wanted.Base.{
  ℕ, ◌+◌, ◌*◌, Bool, true, false, ◌&&◌, ◌||◌, Option, none, some, List, [], ◌∷◌, ltb, ◌==◌, max,
}

pub data Counter : Type 0 where
  deaths busted missions_passed : Counter

-- LIFETIME_COUNTERS_SINCE_VERSION
abbrev pub lifetime_counters_since_version : List ℕ
lifetime_counters_since_version = 0 ∷ 2 ∷ 0 ∷ []

-- `>=` on tuples.
abbrev pub at_least : List ℕ → List ℕ → Bool
at_least [] [] = true
at_least [] (b ∷ bs) = false
at_least (a ∷ as_) [] = true
at_least (a ∷ as_) (b ∷ bs) = ltb b a || (a == b && at_least as_ bs)

unfoldable pub is_lifetime_version : Option (List ℕ) → Bool
is_lifetime_version none = false
is_lifetime_version (some v) = at_least v lifetime_counters_since_version

-- A published row of `stats`, with its session's version.
pub record Row : Type 0 where
  pub version : Option (List ℕ)
  pub counter : Counter → Option ℕ
  pub hours_alive : Option ℕ

pub record Seed : Type 0 where
  pub counter : Counter → ℕ
  pub played_seconds : ℕ

abbrev pub max_with : ℕ → Option ℕ → ℕ
max_with m none = m
max_with m (some v) = max m v

abbrev pub add_to : ℕ → Option ℕ → ℕ
add_to m none = m
add_to m (some v) = m + v

-- The local variables of `summarise_lifetime_seed`.
pub record Tally : Type 0 where
  pub legacy_sum : Counter → ℕ
  pub lifetime_max : Counter → ℕ
  pub lifetime_hours : ℕ

abbrev pub count_row_as : Bool → Row → Tally → Tally
count_row_as true row t = record t {
  lifetime_max = λ key. max_with (t.lifetime_max key) (row.counter key);
  lifetime_hours = max_with t.lifetime_hours row.hours_alive;
}
count_row_as false row t = record t {
  legacy_sum = λ key. add_to (t.legacy_sum key) (row.counter key);
}

abbrev pub count_row : Row → Tally → Tally
count_row row t = count_row_as (is_lifetime_version row.version) row t

unfoldable pub count_rows : List Row → Tally → Tally
count_rows [] t = t
count_rows (row ∷ rows) t = count_rows rows (count_row row t)

abbrev pub no_tally : Tally
no_tally = record { legacy_sum = λ _. 0; lifetime_max = λ _. 0; lifetime_hours = 0 }

unfoldable pub summarise_lifetime_seed : List Row → Seed
summarise_lifetime_seed rows =
    let t = count_rows rows no_tally in
    record {
      counter = λ key. max (t.legacy_sum key) (t.lifetime_max key);
      played_seconds = 3600 * t.lifetime_hours;
    }
