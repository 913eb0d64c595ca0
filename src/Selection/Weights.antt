-- ===== src/Selection/Weights.antt =====
-- Headroom, the emergency weight, and the rule that picks which accounts may be drawn.
-- A weight is a fraction of hundredths of half a point.
pub mod Positive
pub mod Drawn
use claudex.Prelude.{ℕ, ◌+◌, ◌-◌, ◌*◌, List, [], ◌∷◌, max, ltb, string_eq, if◌then◌else◌}
use claudex.Dict.{Dict, put}
use claudex.Selection.Units.{AccountId, points}

pub record Weight : Type 0 where
  pub num : ℕ
  pub den : ℕ

-- `max(0, 100 - P - 2M)`, which subtraction on ℕ is
unfoldable pub account_headroom : ℕ → ℕ → ℕ
account_headroom pressure in_flight = points 100 - pressure - points 2 * in_flight

unfoldable pub emergency_capacity : ℕ → ℕ → ℕ
emergency_capacity pressure factor = max (2 * points 1) ((points 100 - pressure) * factor)

unfoldable pub emergency_weight : ℕ → ℕ → ℕ → Weight
unfolding emergency_capacity
emergency_weight pressure factor in_flight =
    let c0 = emergency_capacity pressure factor in
    record { num = c0 * c0; den = c0 + 2 * points 2 * in_flight }

-- `{a: f(a) for a in account_ids}`, onto the entries that are there
unfoldable pub tabulate_from {ℓ} :
    {V : Type ℓ} → Dict AccountId V → (AccountId → V) → List AccountId → Dict AccountId V
tabulate_from d f [] = d
tabulate_from d f (a ∷ names) = tabulate_from (put a (f a) d) f names

abbrev pub tabulate {ℓ} : {V : Type ℓ} → (AccountId → V) → List AccountId → Dict AccountId V
tabulate f names = tabulate_from [] f names

-- `{a: w for a, w in weights.items() if w > 0}`
unfoldable pub positive_part : Dict AccountId ℕ → Dict AccountId Weight
positive_part [] = []
positive_part ((a, w) ∷ d) =
    let rest = positive_part d in if ltb 0 w then (a, record { num = w; den = 1 }) ∷ rest else rest

abbrev pub or_emergency : Dict AccountId Weight → Dict AccountId Weight → Dict AccountId Weight
or_emergency [] emergency = emergency
or_emergency (e ∷ d) emergency = e ∷ d

module _ (pressures factors in_flight : AccountId → ℕ) where
  abbrev pub ordinary_weight : AccountId → ℕ
  ordinary_weight a = account_headroom (pressures a) (in_flight a) * factors a

  abbrev pub emergency_of : AccountId → Weight
  emergency_of a = emergency_weight (pressures a) (factors a) (in_flight a)

  unfoldable pub select_weights : List AccountId → Dict AccountId Weight
  unfolding account_headroom emergency_weight tabulate_from positive_part
  select_weights account_ids =
      or_emergency (positive_part (tabulate ordinary_weight account_ids))
        (tabulate emergency_of account_ids)
