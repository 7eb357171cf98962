-- ===== src/Base/Rounding.antt =====
-- `round(x, n)` of Python on numbers that are held in a smaller unit: to the nearest multiple of
-- `unit`, and from the middle to the even one.
use wanted.Base.{
  ℕ, ◌+◌, ◌*◌, ◌/◌, ◌%◌, ◌≤◌, ◌<◌, ◌≡◌, ◌&&◌, ◌||◌, ltb, ◌==◌, if◌then◌else◌, arith, Bool-cases,
  inl, inr, false, Bool,
}
use native.Mathlib.Nat.{div-add-mod, mod-lt}

-- Whether the number is rounded up.
abbrev is_up : ℕ → ℕ → Bool
is_up unit x = ltb unit (2 * (x % unit)) || (2 * (x % unit) == unit && (x / unit) % 2 == 1)

unfoldable pub round_to : ℕ → ℕ → ℕ
round_to unit x = if is_up unit x then unit * (x / unit) + unit else unit * (x / unit)

abbrev Near : ℕ → ℕ → ℕ → Type 0
Near unit x r = (2 * r ≤ 2 * x + unit) × (2 * x ≤ 2 * r + unit)

down-Near : (unit q m x : ℕ) → unit * q + m ≡ x → 2 * m ≤ unit → Near unit x (unit * q)
down-Near unit q m x e h = (omega arith, omega arith)

up-Near :
    (unit q m x : ℕ) → unit * q + m ≡ x → m < unit → unit ≤ 2 * m → Near unit x (unit * q + unit)
up-Near unit q m x e l h = (omega arith, omega arith)

-- What is rounded is off by half a unit at most.
pub round_to-near :
    (unit x : ℕ)
    → 0 < unit
    → (2 * round_to unit x ≤ 2 * x + unit) × (2 * x ≤ 2 * round_to unit x + unit)
unfolding round_to
round_to-near unit x h = elim (Bool-cases (is_up unit x)) [
  | inl up ↦
      rw up (up-Near unit (x / unit) (x % unit) x (div-add-mod x unit) (mod-lt x h) (ground arith))
  | inr down ↦ rw down (down-Near unit (x / unit) (x % unit) x (div-add-mod x unit) (ground arith))
]

-- A whole number of units stays.
pub round_to-exact : (unit x : ℕ) → 0 < unit → x % unit ≡ 0 → round_to unit x ≡ x
unfolding round_to
round_to-exact unit x h e =
    let stays : is_up unit x ≡ false = ground arith in
    rw stays (omega (arith, div-add-mod x unit, e))
