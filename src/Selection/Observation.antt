-- ===== src/Selection/Observation.antt =====
-- `ObservationView` of balanced/selection.py: the latest reading and the latest warning of each
-- window of each account.
use claudex.Prelude.{
  ℕ, String, List, [], Option, none, some, Bool, false, ◌==◌, string_eq, pair_eq, option_eq, any,
  if◌then◌else◌,
}
use claudex.Prelude.Int.{ℤ, ◌-ℤ◌, leb_ℤ, ltb_ℤ}
use claudex.Dict.{Dict, get, put}
use claudex.Selection.Units.{AccountId, Window, window_eq, seconds}
use claudex.Selection.Pressure.{freshness_adjusted_pressure}

pub record WindowObservation : Type 0 where
  pub used_percent : ℕ
  pub observed_at : ℤ
  pub reset_at : Option ℤ
  pub reset_identity : Option String
  pub source : String

pub record WarningSignal : Type 0 where
  pub observed_at : ℤ
  pub reset_identity : Option String

pub record RealWindowReading : Type 0 where
  pub adjusted_pressure : ℕ
  pub age_seconds : ℤ

pub record ObservationView : Type 0 where
  pub windows : Dict (AccountId × Window) WindowObservation
  pub warnings : Dict (AccountId × Window) WarningSignal

abbrev pub no_observations : ObservationView
no_observations = record { windows = []; warnings = [] }

unfoldable pub ingest_window :
    AccountId → Window → WindowObservation → ObservationView → ObservationView
ingest_window account window reading view = record view {
  windows = put (account, window) reading view.windows;
}

unfoldable pub ingest_allowed_warning :
    AccountId → Window → WarningSignal → ObservationView → ObservationView
ingest_allowed_warning account window signal view = record view {
  warnings = put (account, window) signal view.warnings;
}

-- `reset_at is not None and reset_at <= now`
abbrev pub has_passed : Option ℤ → ℤ → Bool
has_passed none now = false
has_passed (some t) now = leb_ℤ t now

unfoldable pub reading_pressure : Option WindowObservation → ℤ → Option ℕ
reading_pressure none now = none
reading_pressure (some o) now =
    freshness_adjusted_pressure o.used_percent (now -ℤ o.observed_at) (has_passed o.reset_at now)

unfoldable pub window_pressure : ObservationView → AccountId → Window → ℤ → Option ℕ
unfolding reading_pressure
window_pressure view account window now = reading_pressure (get (account, window) view.windows) now

unfoldable pub window_reset_identity : ObservationView → AccountId → Window → Option String
window_reset_identity view account window = elim (get (account, window) view.windows) [
  | none ↦ none
  | some o ↦ o.reset_identity
]

unfoldable pub window_reset_at : ObservationView → AccountId → Window → Option ℤ
window_reset_at view account window = elim (get (account, window) view.windows) [
  | none ↦ none
  | some o ↦ o.reset_at
]

abbrev pub real_reading : ℤ → Option ℕ → Option RealWindowReading
real_reading age none = none
real_reading age (some p) = some (record { adjusted_pressure = p; age_seconds = age })

unfoldable pub real_reading_of : Option WindowObservation → ℤ → ℤ → Option RealWindowReading
real_reading_of none now max_age = none
real_reading_of (some o) now max_age =
    let age = now -ℤ o.observed_at in
    if ltb_ℤ max_age age
    then none
    else real_reading age
        (freshness_adjusted_pressure o.used_percent age (has_passed o.reset_at now))

unfoldable pub real_window_reading :
    ObservationView → AccountId → Window → ℤ → ℤ → Option RealWindowReading
unfolding real_reading_of
real_window_reading view account window now max_age =
    real_reading_of (get (account, window) view.windows) now max_age

abbrev pub warning_fresh : ℤ
warning_fresh = seconds 300

unfoldable pub has_active_warning : ObservationView → AccountId → Window → ℤ → Bool
unfolding window_reset_identity
has_active_warning view account window now = elim (get (account, window) view.warnings) [
  | none ↦ false
  | some w ↦
      if ltb_ℤ warning_fresh (now -ℤ w.observed_at)
      then false
      else w.reset_identity == window_reset_identity view account window
]

-- In halves: 2 stands for 1.0 and 1 for 0.5.
unfoldable pub warning_factor : ObservationView → AccountId → List Window → ℤ → ℕ
unfolding has_active_warning
warning_factor view account windows now =
    if any (λ w. has_active_warning view account w now) windows then 1 else 2
