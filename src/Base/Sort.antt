-- ===== src/Base/Sort.antt =====
-- A stable sort by a numeric key, as `list.sort` and `sorted(key=...)`.
use wanted.Base.{ℕ, ◌+◌, ◌≤◌, ◌≡◌, refl, List, [], ◌∷◌, arith, ltb, if◌then◌else◌, sum_by}

module _ {ℓ} {A : Type ℓ} (key : A → ℕ) where
  -- `x` stood before the items of the list, so it goes in front of the first that is not smaller.
  abbrev pub insert : A → List A → List A
  insert x [] = x ∷ []
  insert x (y ∷ ys) = if ltb (key y) (key x) then y ∷ insert x ys else x ∷ y ∷ ys

  abbrev pub sort : List A → List A
  sort [] = []
  sort (x ∷ xs) = insert x (sort xs)

  pub sum_by-insert : (f : A → ℕ) (x : A) (xs : List A) → sum_by f (insert x xs) ≡ f x + sum_by f xs
  sum_by-insert f x [] = refl
  sum_by-insert f x (y ∷ ys) = ground (arith, sum_by-insert f x ys)

  -- Sorting changes no sum over the items.
  pub sum_by-sort : (f : A → ℕ) (xs : List A) → sum_by f (sort xs) ≡ sum_by f xs
  sum_by-sort f [] = refl
  sum_by-sort f (x ∷ xs) = omega (arith, sum_by-insert f x (sort xs), sum_by-sort f xs)

  -- Every key is at least the one before it; `lo` bounds the first.
  abbrev pub IsSortedFrom : ℕ → List A → Type 0
  IsSortedFrom lo [] = Unit
  IsSortedFrom lo (x ∷ xs) = (lo ≤ key x) × IsSortedFrom (key x) xs

  pub insert-IsSortedFrom :
      (lo : ℕ) (x : A) (xs : List A)
      → lo ≤ key x
      → IsSortedFrom lo xs
      → IsSortedFrom lo (insert x xs)
  insert-IsSortedFrom lo x [] p h = (p, tt)
  insert-IsSortedFrom lo x (y ∷ ys) p h = ground (arith, insert-IsSortedFrom (key y) x ys)

  pub sort-IsSortedFrom : (xs : List A) → IsSortedFrom 0 (sort xs)
  sort-IsSortedFrom [] = tt
  sort-IsSortedFrom (x ∷ xs) =
      insert-IsSortedFrom 0 x (sort xs) (omega arith) (sort-IsSortedFrom xs)
