-- ===== src/Selection/Units.antt =====
-- Units, and the closed enumerations of balanced/selection.py.
use claudex.Prelude.{ℕ, ◌*◌, ◌≡◌, ◌↔◌, String, Bool, true, false, Eq, arith}
use claudex.Prelude.Int.{ℤ, pos}

abbrev pub AccountId : Type 0
AccountId = String

-- A span of whole seconds.
abbrev pub seconds : ℕ → ℤ
seconds n = pos (n * 1000000)

-- A number of percentage points.
abbrev pub points : ℕ → ℕ
points n = n * 100

-- The empty text is the family of a key that names none.
pub data Family : Type 0 where
  unset default fable : Family

abbrev pub family_beq : Family → Family → Bool
family_beq unset unset = true
family_beq default default = true
family_beq fable fable = true
family_beq _ _ = false

pub family_beq_iff : (a b : Family) → (family_beq a b ≡ true) ↔ (a ≡ b)
family_beq_iff a b = (λ h. ground arith, λ h. ground arith)

instance abbrev pub family_eq : Eq Family
family_eq = record { equals = family_beq; equals_iff = family_beq_iff }

pub data Window : Type 0 where
  five_hour seven_day fable_weekly : Window

abbrev pub window_beq : Window → Window → Bool
window_beq five_hour five_hour = true
window_beq seven_day seven_day = true
window_beq fable_weekly fable_weekly = true
window_beq _ _ = false

pub window_beq_iff : (a b : Window) → (window_beq a b ≡ true) ↔ (a ≡ b)
window_beq_iff a b = (λ h. ground arith, λ h. ground arith)

instance abbrev pub window_eq : Eq Window
window_eq = record { equals = window_beq; equals_iff = window_beq_iff }
