-- ===== src/Selection/Pressure.antt =====
-- The freshness ladder and the floor for unknown readings.
use claudex.Prelude.{
  ℕ, ◌+◌, ◌≤◌, ◌≡◌, List, [], ◌∷◌, Option, none, some, Bool, false, All, min, arith, if◌then◌else◌,
}
use claudex.Prelude.Int.{ℤ, ◌+ℤ◌, ◌-ℤ◌, ◌≤ℤ◌, leb_ℤ}
use claudex.Selection.Units.{seconds, points}

abbrev pub fresh_exact : ℤ
fresh_exact = seconds 300

abbrev pub fresh_plus5 : ℤ
fresh_plus5 = seconds 900

abbrev pub fresh_plus10 : ℤ
fresh_plus10 = seconds 1800

unfoldable pub freshness_adjusted_pressure : ℕ → ℤ → Bool → Option ℕ
freshness_adjusted_pressure used_percent age reset_passed =
    if reset_passed
    then none
    else if leb_ℤ age fresh_exact
    then some (min (points 100) used_percent)
    else if leb_ℤ age fresh_plus5
    then some (min (points 100) (used_percent + points 5))
    else if leb_ℤ age fresh_plus10
    then some (min (points 100) (used_percent + points 10))
    else none

-- `min(values)` of a list that is not empty, its first element given apart
abbrev pub min_of : ℕ → List ℕ → ℕ
min_of x [] = x
min_of x (y ∷ ys) = min_of (min x y) ys

abbrev pub max_of : ℕ → List ℕ → ℕ
max_of x [] = x
max_of x (y ∷ ys) = max_of (Prim.Native.Nat.max x y) ys

unfoldable pub unknown_floor : List ℕ → ℕ
unknown_floor [] = 0
unknown_floor (x ∷ xs) = min (points 90) (min_of x xs + points 10)

-- `_wall_to_monotonic`
unfoldable pub wall_to_monotonic : ℤ → ℤ → ℤ → ℤ
wall_to_monotonic wall_value wall_now monotonic_now = monotonic_now +ℤ (wall_value -ℤ wall_now)

-- A reading that is not unknown is at least the raw value capped at 100, at most 100 and at most
-- 10 points above the raw value, at most half an hour old, and of a window that has not been
-- reset.
pub freshness_bounds :
    (used : ℕ) (age : ℤ) (passed : Bool) (p : ℕ)
    → freshness_adjusted_pressure used age passed ≡ some p
    → (p ≤ points 100)
      × (min (points 100) used ≤ p)
      × (p ≤ used + points 10)
      × (age ≤ℤ fresh_plus10)
      × (passed ≡ false)
unfolding freshness_adjusted_pressure
freshness_bounds used age passed p h = ground arith

-- Of two readings of the same raw value that are both known, the older is no lower.
pub freshness_mono :
    (used : ℕ) (a b : ℤ) (p q : ℕ)
    → a ≤ℤ b
    → freshness_adjusted_pressure used a false ≡ some p
    → freshness_adjusted_pressure used b false ≡ some q
    → p ≤ q
unfolding freshness_adjusted_pressure
freshness_mono used a b p q le hp hq = ground arith

min_of-le_head : (x : ℕ) (xs : List ℕ) → min_of x xs ≤ x
min_of-le_head x [] = omega arith
min_of-le_head x (y ∷ ys) = omega (arith, min_of-le_head (min x y) ys)

pub min_of-le : (x : ℕ) (xs : List ℕ) → All (λ y. min_of x xs ≤ y) (x ∷ xs)
min_of-le x [] = omega arith
min_of-le x (y ∷ ys) =
    let r = min_of-le (min x y) ys in (omega (arith, r.0), (omega (arith, r.0), r.1))

-- The floor is at most 90 points, and at most 10 points above each complete reading.
pub unknown_floor_bounds :
    (readings : List ℕ)
    → (unknown_floor readings ≤ points 90)
      × All (λ r. unknown_floor readings ≤ r + points 10) readings
unfolding unknown_floor
unknown_floor_bounds [] = omega arith
unknown_floor_bounds (x ∷ xs) = (omega arith, lift (x ∷ xs) (min_of-le x xs))
  where
    lift :
        (ys : List ℕ)
        → All (λ y. min_of x xs ≤ y) ys
        → All (λ r. min (points 90) (min_of x xs + points 10) ≤ r + points 10) ys
    lift [] h = tt
    lift (y ∷ ys) h = (omega arith, lift ys h.1)
