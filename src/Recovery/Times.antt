-- ===== src/Recovery/Times.antt =====
-- A dictionary from task types to numbers.
use wanted.Base.{
  ℕ, ◌≡◌, refl, Option, none, some, List, [], ◌∷◌, Name, ◌==◌, if◌then◌else◌, Bool-cases, inl, inr,
  arith,
}

abbrev pub lookup : Name → List (Name × ℕ) → Option ℕ
lookup t [] = none
lookup t ((k, n) ∷ ds) = if k == t then some n else lookup t ds

abbrev pub put : Name → ℕ → List (Name × ℕ) → List (Name × ℕ)
put t n [] = (t, n) ∷ []
put t n ((k, old) ∷ ds) = if k == t then (k, n) ∷ ds else (k, old) ∷ put t n ds

pub lookup-put : (t : Name) (n : ℕ) (ds : List (Name × ℕ)) → lookup t (put t n ds) ≡ some n
lookup-put t n [] = ground arith
lookup-put t n ((k, old) ∷ ds) = elim (Bool-cases (k == t)) [
  | inl same_ ↦ rw same_ (rw same_ refl)
  | inr other ↦ rw other (rw other (lookup-put t n ds))
]
