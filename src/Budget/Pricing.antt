-- ===== src/Budget/Pricing.antt =====
-- `ModelPricing`, `Pricing.for_model`, `cost_usd` and `cost_of_usage` of
-- harness/wasted_harness/budget.py.
use wanted.Base.{
  ℕ, ◌+◌, ◌*◌, ◌≡◌, ◌≢◌, refl, Option, none, some, List, [], ◌∷◌, ◌++◌, Name, ◌==◌, if◌then◌else◌,
  get_or, All, arith, Bool-cases, Option-cases, inl, inr,
}

pub record ModelPricing : Type 0 where
  pub id : Name
  pub input_per_mtok : ℕ
  pub output_per_mtok : ℕ
  pub cache_read_per_mtok : ℕ
  pub cache_write_5m_per_mtok : ℕ
  pub min_cacheable_prefix_tokens : ℕ

pub record Pricing : Type 0 where
  pub source_url : Name
  pub fetched : Name
  pub tactical : ModelPricing
  pub director : ModelPricing
  pub tactical_mission : Option ModelPricing

-- The optional third tier is appended.
unfoldable pub candidates : Pricing → List ModelPricing
candidates p =
    (p.tactical ∷ p.director ∷ []) ++ (elim p.tactical_mission [ none ↦ [] | some m ↦ m ∷ [] ])

-- The loop of `for_model`; `none` is the ConfigError.
unfoldable pub find_model : Name → List ModelPricing → Option ModelPricing
find_model model_id [] = none
find_model model_id (m ∷ ms) = if m.id == model_id then some m else find_model model_id ms

unfoldable pub for_model : Pricing → Name → Option ModelPricing
for_model p model_id = find_model model_id (candidates p)

unfoldable pub cost_usd : ModelPricing → ℕ → ℕ → ℕ → ℕ → ℕ
cost_usd pricing input_tokens output_tokens cache_read_tokens cache_creation_tokens =
    input_tokens * pricing.input_per_mtok
    + output_tokens * pricing.output_per_mtok
    + cache_read_tokens * pricing.cache_read_per_mtok
    + cache_creation_tokens * pricing.cache_write_5m_per_mtok

-- The SDK's usage object: an attribute may be missing or None.
pub record Usage : Type 0 where
  pub input_tokens : Option ℕ
  pub output_tokens : Option ℕ
  pub cache_read_input_tokens : Option ℕ
  pub cache_creation_input_tokens : Option ℕ

unfoldable pub cost_of_usage : Pricing → Name → Usage → Option ℕ
unfolding cost_usd
cost_of_usage pricing model_id usage = elim (for_model pricing model_id) [
  | none ↦ none
  | some mp ↦ some (
      cost_usd mp (get_or usage.input_tokens 0) (get_or usage.output_tokens 0)
        (get_or usage.cache_read_input_tokens 0) (get_or usage.cache_creation_input_tokens 0))
]

find_model_sound :
    (n : Name) (ms : List ModelPricing) {m : ModelPricing} → find_model n ms ≡ some m → m.id ≡ n
unfolding find_model
find_model_sound n [] h = cc
find_model_sound n (x ∷ ms) {m} h = ground (arith, find_model_sound n ms {m = m})

find_model_complete :
    (n : Name) (ms : List ModelPricing) → find_model n ms ≡ none → All (λ m. m.id ≢ n) ms
unfolding find_model
find_model_complete n [] h = tt
find_model_complete n (x ∷ ms) h = elim (Bool-cases (x.id == n)) [
  | inl hit ↦ absurd (ground arith)
  | inr miss ↦ (ground arith, find_model_complete n ms (ground arith))
]

-- What a price means: the sum at the prices of an entry with that id, or a refusal.
abbrev pub Charged : Pricing → Name → Usage → Option ℕ → Type 0
Charged p n u none = All (λ m. m.id ≢ n) (candidates p)
Charged p n u (some c) =
    (m : ModelPricing) × (for_model p n ≡ some m)
    × (m.id ≡ n)
    × (c
        ≡ get_or u.input_tokens 0 * m.input_per_mtok
          + get_or u.output_tokens 0 * m.output_per_mtok
          + get_or u.cache_read_input_tokens 0 * m.cache_read_per_mtok
          + get_or u.cache_creation_input_tokens 0 * m.cache_write_5m_per_mtok)

-- A price is never guessed: what is charged comes from an entry with the very id that was asked
-- for, as the sum of the four token counts (an absent one is zero) at that entry's prices, and the
-- call is refused only when no listed model has that id.
pub cost_of_usage-Charged :
    (p : Pricing) (n : Name) (u : Usage) → Charged p n u (cost_of_usage p n u)
unfolding cost_of_usage for_model cost_usd
cost_of_usage-Charged p n u = elim (Option-cases (find_model n (candidates p))) [
  | inl missing ↦ rw (missing, Charged) (find_model_complete n (candidates p) missing)
  | inr (m, found) ↦ rw (found, Charged) (m, found, find_model_sound n (candidates p) found, refl)
]
