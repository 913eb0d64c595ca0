-- ===== src/Tests/Choice.antt =====
-- Witnesses of the theorems on families, pressures, weights and the draw.
use claudex.Prelude.{
  ℕ, ◌<◌, ◌≡◌, ◌≢◌, ◌↔◌, refl, List, [], ◌∷◌, In, All, none, some, true, false, length, ◌^◌,
  string_eq, pair_eq, arith, ◌≤◌,
}
use claudex.Prelude.Int.{pos, ◌≤ℤ◌, ◌<ℤ◌, ◌-ℤ◌}
use claudex.Dict.{Dict, get, put}
use claudex.Selection.Units.{
  AccountId, window_eq, fable_weekly, five_hour, seven_day, fable, seconds, points,
}
use claudex.Selection.Family.{quota_family, codes, lower, is_bounded_at}
use claudex.Selection.Family.Tokens.{occurs_at, quota_family-eq-fable_iff}
use claudex.Selection.Pressure.{freshness_adjusted_pressure}
use claudex.Selection.Observation.{
  ObservationView, WindowObservation, RealWindowReading, real_window_reading, window_reset_at,
}
use claudex.Selection.Gate.{
  Reads, classify_balanced_cooldown_scope, classify_scope_iff, gate_max_age, family,
  fable_family_gate_satisfied,
}
use claudex.Selection.Weights.{Weight, select_weights}
use claudex.Selection.Weights.Positive.{select_weights_pos}
use claudex.Selection.Pick.{Bytes, pick_weighted_hrw, score}
use claudex.Selection.Pick.Lowest.{LeScore, pick_weighted_hrw_lowest}
use claudex.Selection.Pick.Framing.{length_prefixed_inj}
use claudex.Tests.Data.{flat_sampling}

quota_family-eq-fable_iff_example : (quota_family (codes "Claude-Fable-5") ≡ fable) ↔ (
    (i : ℕ) × (occurs_at (lower (codes "Claude-Fable-5")) (codes "fable") i ≡ true)
    × (is_bounded_at (lower (codes "Claude-Fable-5")) (codes "fable") i ≡ true))
quota_family-eq-fable_iff_example = quota_family-eq-fable_iff (codes "Claude-Fable-5")

ten_minutes : freshness_adjusted_pressure (points 40) (seconds 600) false ≡ some (points 45)
unfolding freshness_adjusted_pressure
ten_minutes = refl

twenty_minutes : freshness_adjusted_pressure (points 40) (seconds 1200) false ≡ some (points 50)
unfolding freshness_adjusted_pressure
twenty_minutes = refl

later : seconds 600 ≤ℤ seconds 1200
later = omega arith

abbrev fable_reading : WindowObservation
fable_reading = record {
  used_percent = points 100;
  observed_at = pos 0;
  reset_at = some (seconds 4000);
  reset_identity = none;
  source = "usage_api";
}

abbrev clear_reading : WindowObservation
clear_reading = record fable_reading { used_percent = points 20; reset_at = none }

abbrev full_view : ObservationView
full_view = record {
  windows =
      (("a", fable_weekly), fable_reading)
      ∷ (("a", five_hour), clear_reading)
      ∷ (("a", seven_day), clear_reading)
      ∷ [];
  warnings = [];
}

abbrev too_many_requests : ℕ
too_many_requests = 429

classify_scope_iff_example :
    (classify_balanced_cooldown_scope full_view "a" (codes "fable") too_many_requests (seconds 60)
      ≡ record {
        scope = family;
        reason = fable_family_gate_satisfied;
        family_deadline = some (seconds 4000);
      })
    ↔ ((quota_family (codes "fable") ≡ fable)
        × (too_many_requests ≡ 429)
        × ((p : ℕ) × Reads full_view "a" fable_weekly (seconds 60) p × (9900 ≤ p))
        × ((p : ℕ) × Reads full_view "a" five_hour (seconds 60) p × (p ≤ 7000))
        × ((p : ℕ) × Reads full_view "a" seven_day (seconds 60) p × (p ≤ 7000))
        × (window_reset_at full_view "a" fable_weekly ≡ some (seconds 4000))
        × (seconds 60 <ℤ seconds 4000))
classify_scope_iff_example =
    classify_scope_iff full_view "a" (codes "fable") too_many_requests (seconds 60) (seconds 4000)

abbrev read_at_sixty : RealWindowReading
read_at_sixty = record { adjusted_pressure = points 100; age_seconds = seconds 60 }

reads :
    real_window_reading full_view "a" fable_weekly (seconds 60) gate_max_age ≡ some read_at_sixty
unfolding real_window_reading get ◌-ℤ◌ freshness_adjusted_pressure
reads = refl

abbrev no_load : AccountId → ℕ
no_load a = 0

abbrev no_warning : AccountId → ℕ
no_warning a = 2

abbrev weights : Dict AccountId Weight
weights = select_weights no_load no_warning no_load ("a" ∷ "b" ∷ [])

abbrev full_weight : Weight
full_weight = record { num = 20000; den = 1 }

weight_of_a : get "a" weights ≡ some full_weight
unfolding get select_weights put
weight_of_a = refl

select_weights_pos_example : (0 < full_weight.num) × (0 < full_weight.den)
select_weights_pos_example =
    select_weights_pos no_load no_warning no_load ("a" ∷ "b" ∷ []) "a" full_weight weight_of_a

abbrev two_weights : Dict AccountId Weight
two_weights = ("a", full_weight) ∷ ("b", record { num = 4; den = 1 }) ∷ []

two_weights-pos : All (λ e. 0 < e.1.num) two_weights
two_weights-pos = ground arith

two_weights-ne : two_weights ≢ []
two_weights-ne e = cc

picks_a : pick_weighted_hrw flat_sampling (7 ∷ []) (1 ∷ []) two_weights none ≡ some "a"
unfolding pick_weighted_hrw
picks_a = refl

pick_weighted_hrw_lowest_example :
    (w : Weight) × In ("a", w) two_weights
    × ((b : AccountId) (v : Weight)
        → In (b, v) two_weights
        → LeScore
            (score flat_sampling (7 ∷ []) (1 ∷ []) "a" w)
            (score flat_sampling (7 ∷ []) (1 ∷ []) b v))
pick_weighted_hrw_lowest_example =
    pick_weighted_hrw_lowest flat_sampling (7 ∷ []) (1 ∷ []) two_weights none "a" two_weights-pos
      picks_a

abbrev one_field : List Bytes
one_field = (1 ∷ 2 ∷ []) ∷ []

one_field_short : All (λ f. length f < 256 ^ 8) one_field
one_field_short = ground arith

length_prefixed_inj_example : one_field ≡ one_field
length_prefixed_inj_example =
    length_prefixed_inj one_field one_field one_field_short one_field_short refl
