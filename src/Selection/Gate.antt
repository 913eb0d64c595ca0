-- ===== src/Selection/Gate.antt =====
-- `classify_balanced_cooldown_scope`: when a cooldown may be limited to the fable family.
use claudex.Prelude.{
  ℕ, ◌≡◌, ◌≤◌, ◌↔◌, Eq, Option, none, some, Bool, true, false, not, ltb, nat_beq, if◌then◌else◌,
  arith, Option-cases, inl, inr, refl,
}
use claudex.Prelude.Int.{ℤ, pos, leb_ℤ, ◌≤ℤ◌, ◌<ℤ◌, ◌-ℤ◌}
use claudex.Selection.Units.{
  AccountId, Window, five_hour, seven_day, fable_weekly, seconds, points, fable, family_beq,
}
use claudex.Prelude.{min, ◌+◌, pair_eq, string_eq}
use claudex.Dict.{get}
use claudex.Selection.Units.{window_eq}
use claudex.Selection.Pressure.{freshness_adjusted_pressure, freshness_bounds}
use claudex.Selection.Family.{Text, quota_family}
use claudex.Selection.Observation.{
  ObservationView, WindowObservation, RealWindowReading, real_window_reading, real_reading_of,
  window_reset_at, has_passed,
}

pub data CooldownScope : Type 0 where
  account family : CooldownScope

abbrev pub scope_beq : CooldownScope → CooldownScope → Bool
scope_beq account account = true
scope_beq family family = true
scope_beq _ _ = false

pub scope_beq_iff : (a b : CooldownScope) → (scope_beq a b ≡ true) ↔ (a ≡ b)
scope_beq_iff a b = (λ h. ground arith, λ h. ground arith)

instance abbrev pub scope_eq : Eq CooldownScope
scope_eq = record { equals = scope_beq; equals_iff = scope_beq_iff }

pub data GateReason : Type 0 where
  request_family_not_fable not_upstream_quota_429 fable_weekly_not_saturated : GateReason
  five_hour_not_clear seven_day_not_clear fable_reset_not_valid : GateReason
  fable_family_gate_satisfied : GateReason

pub record FamilyGateOutcome : Type 0 where
  pub scope : CooldownScope
  pub reason : GateReason
  pub family_deadline : Option ℤ

abbrev pub account_wide : GateReason → FamilyGateOutcome
account_wide reason = record { scope = account; reason = reason; family_deadline = none }

abbrev pub gate_max_age : ℤ
gate_max_age = seconds 900

-- `reading is None or reading.adjusted_pressure < 99`
abbrev pub is_not_saturated : Option RealWindowReading → Bool
is_not_saturated none = true
is_not_saturated (some r) = ltb r.adjusted_pressure (points 99)

-- `reading is None or reading.adjusted_pressure > 70`
abbrev pub is_not_clear : Option RealWindowReading → Bool
is_not_clear none = true
is_not_clear (some r) = ltb (points 70) r.adjusted_pressure

abbrev pub gate_reset : Option ℤ → ℤ → FamilyGateOutcome
gate_reset none now = account_wide fable_reset_not_valid
gate_reset (some reset_at) now =
    if leb_ℤ reset_at now then account_wide fable_reset_not_valid else record {
      scope = family;
      reason = fable_family_gate_satisfied;
      family_deadline = some reset_at;
    }

unfoldable pub classify_balanced_cooldown_scope :
    ObservationView → AccountId → Text → ℕ → ℤ → FamilyGateOutcome
classify_balanced_cooldown_scope view a model status now =
    let reading = λ (w : Window). real_window_reading view a w now gate_max_age in
    if not (family_beq (quota_family model) fable)
    then account_wide request_family_not_fable
    else if not (nat_beq status 429)
    then account_wide not_upstream_quota_429
    else if is_not_saturated (reading fable_weekly)
    then account_wide fable_weekly_not_saturated
    else if is_not_clear (reading five_hour)
    then account_wide five_hour_not_clear
    else if is_not_clear (reading seven_day)
    then account_wide seven_day_not_clear
    else gate_reset (window_reset_at view a fable_weekly) now

-- A stored observation of the window, at most 15 minutes old, whose window has not been reset since,
-- reads as the pressure.
abbrev pub Reads : ObservationView → AccountId → Window → ℤ → ℕ → Type 0
Reads view a w now pressure =
    (o : WindowObservation) × (get (a, w) view.windows ≡ some o)
    × (now -ℤ o.observed_at ≤ℤ pos 900000000)
    × (freshness_adjusted_pressure o.used_percent (now -ℤ o.observed_at) (has_passed o.reset_at now)
        ≡ some pressure)

real_reading_of_sound :
    (o : WindowObservation) (now max_age : ℤ) (r : RealWindowReading)
    → real_reading_of (some o) now max_age ≡ some r
    → (now -ℤ o.observed_at ≤ℤ max_age)
      × (freshness_adjusted_pressure o.used_percent
            (now -ℤ o.observed_at)
            (has_passed o.reset_at now)
          ≡ some r.adjusted_pressure)
unfolding real_reading_of
real_reading_of_sound o now max_age r h = ground arith

-- The conditions in the terms of the code's tests.
classify_conditions :
    (view : ObservationView) (a : AccountId) (model : Text) (status : ℕ) (now deadline : ℤ)
    → (classify_balanced_cooldown_scope view a model status now ≡ record {
      scope = family;
      reason = fable_family_gate_satisfied;
      family_deadline = some deadline;
    })
      ↔ ((quota_family model ≡ fable)
          × (status ≡ 429)
          × (is_not_saturated (real_window_reading view a fable_weekly now gate_max_age) ≡ false)
          × (is_not_clear (real_window_reading view a five_hour now gate_max_age) ≡ false)
          × (is_not_clear (real_window_reading view a seven_day now gate_max_age) ≡ false)
          × (window_reset_at view a fable_weekly ≡ some deadline)
          × (now <ℤ deadline))
unfolding classify_balanced_cooldown_scope
classify_conditions view a model status now deadline = (λ h. ground arith, λ h. ground arith)

module _ (view : ObservationView) (a : AccountId) (w : Window) (now : ℤ) where
  reading-Reads :
      (r : RealWindowReading)
      → real_window_reading view a w now gate_max_age ≡ some r
      → Reads view a w now r.adjusted_pressure
  unfolding real_window_reading
  reading-Reads r h = elim (Option-cases (get (a, w) view.windows)) [
    | inl e ↦ absurd (ground arith)
    | inr (o, e) ↦
        let f = real_reading_of_sound o now gate_max_age r (rw e at h) in (o, e, f.0, f.1)
  ]

  Reads-reading :
      (p : ℕ)
      → Reads view a w now p
      → (r : RealWindowReading) × (real_window_reading view a w now gate_max_age ≡ some r)
        × (r.adjusted_pressure ≡ p)
  unfolding real_window_reading real_reading_of
  Reads-reading p (o, e, recent, read) = (
    record { adjusted_pressure = p; age_seconds = now -ℤ o.observed_at },
    ground (arith, e, recent, read),
    refl,
  )

  saturated_iff :
      (is_not_saturated (real_window_reading view a w now gate_max_age) ≡ false)
      ↔ ((p : ℕ) × Reads view a w now p × (9900 ≤ p))
  saturated_iff = (
    λ h. elim (Option-cases (real_window_reading view a w now gate_max_age)) [
      | inl e ↦ absurd (ground arith)
      | inr (r, e) ↦ (r.adjusted_pressure, reading-Reads r e, ground arith)
    ],
    λ h. let (r, e, same) = Reads-reading h.0 h.1 in let high = h.2 in ground arith,
  )

  clear_iff :
      (is_not_clear (real_window_reading view a w now gate_max_age) ≡ false)
      ↔ ((p : ℕ) × Reads view a w now p × (p ≤ 7000))
  clear_iff = (
    λ h. elim (Option-cases (real_window_reading view a w now gate_max_age)) [
      | inl e ↦ absurd (ground arith)
      | inr (r, e) ↦ (r.adjusted_pressure, reading-Reads r e, ground arith)
    ],
    λ h. let (r, e, same) = Reads-reading h.0 h.1 in let low = h.2 in ground arith,
  )

-- A cooldown is limited to the fable family exactly when the model is of that family, the failure
-- is an upstream 429, each window has an observation at most 15 minutes old that reads as a pressure,
-- that of the fable week is at least 99 points, those of the other two are at most 70, and the fable
-- reset lies ahead; its deadline is then that reset. A missing or older reading fails the gate.
pub classify_scope_iff :
    (view : ObservationView) (a : AccountId) (model : Text) (status : ℕ) (now deadline : ℤ)
    → (classify_balanced_cooldown_scope view a model status now ≡ record {
      scope = family;
      reason = fable_family_gate_satisfied;
      family_deadline = some deadline;
    })
      ↔ ((quota_family model ≡ fable)
          × (status ≡ 429)
          × ((p : ℕ) × Reads view a fable_weekly now p × (9900 ≤ p))
          × ((p : ℕ) × Reads view a five_hour now p × (p ≤ 7000))
          × ((p : ℕ) × Reads view a seven_day now p × (p ≤ 7000))
          × (window_reset_at view a fable_weekly ≡ some deadline)
          × (now <ℤ deadline))
classify_scope_iff view a model status now deadline =
    let c = classify_conditions view a model status now deadline in
    let week = saturated_iff view a fable_weekly now in
    let hours = clear_iff view a five_hour now in
    let days = clear_iff view a seven_day now in
    (
      λ h. let k = c.0 h in (k.0, k.1, week.0 k.2, hours.0 k.3, days.0 k.4, k.5, k.6),
      λ k. c.1 (k.0, k.1, week.1 k.2, hours.1 k.3, days.1 k.4, k.5, k.6),
    )

-- A real reading comes from a stored observation that is at most `max_age` old and whose window
-- has not been reset, and differs from the raw percentage by at most ten points upwards.
pub real_window_reading_sound :
    (view : ObservationView) (a : AccountId) (w : Window) (now max_age : ℤ) (r : RealWindowReading)
    → real_window_reading view a w now max_age ≡ some r
    → (o : WindowObservation) × (get (a, w) view.windows ≡ some o)
      × (now -ℤ o.observed_at ≤ℤ max_age)
      × (has_passed o.reset_at now ≡ false)
      × (r.adjusted_pressure ≤ o.used_percent + points 10)
      × (min (points 100) o.used_percent ≤ r.adjusted_pressure)
unfolding real_window_reading
real_window_reading_sound view a w now max_age r h = elim (Option-cases (get (a, w) view.windows)) [
  | inl e ↦ absurd (ground arith)
  | inr (o, e) ↦
      let f = real_reading_of_sound o now max_age r (rw e at h) in
      let b = freshness_bounds o.used_percent _ _ r.adjusted_pressure f.1 in
      (o, e, f.0, b.4, b.2, b.1)
]
