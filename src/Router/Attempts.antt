-- ===== src/Router/Attempts.antt =====
-- The in-flight attempt count M(a), and the router's observation methods.
pub mod Balance
use claudex.Prelude.{
  ℕ, ◌+◌, ◌-◌, String, string_eq, ◌==◌, true, false, if◌then◌else◌, Option, none, some, or_else,
}
use claudex.Prelude.Int.{pos, ℤ, ◌+ℤ◌, ◌-ℤ◌}
use claudex.Dict.{get, put}
use claudex.Selection.Units.{AccountId, Window, five_hour, seven_day, fable_weekly}
use claudex.Selection.Pressure.{wall_to_monotonic}
use claudex.Selection.Observation.{ObservationView, ingest_window, ingest_allowed_warning}
use claudex.Router.State.{Router}

abbrev pub in_flight_count : AccountId → Router → ℕ
in_flight_count account r = or_else (get account r.in_flight) 0

unfoldable pub begin_attempt : AccountId → Router → Router
begin_attempt account r = record r {
  in_flight = put account (in_flight_count account r + 1) r.in_flight;
}

-- `max(0, current - 1)`
unfoldable pub end_attempt : AccountId → Router → Router
end_attempt account r = record r {
  in_flight = put account (in_flight_count account r - 1) r.in_flight;
}

abbrev reset_after : ℤ → Option ℤ → Option ℤ
reset_after now none = none
reset_after now (some span) = some (now +ℤ span)

unfoldable pub ingest_observation :
    AccountId → Window → ℕ → String → ℤ → Option ℤ → Option String → ℤ → Router → Router
ingest_observation account window used_percent source age reset_in reset_identity now r = record r {
  observations =
      ingest_window account window
        (record {
          used_percent = used_percent;
          observed_at = now -ℤ age;
          reset_at = reset_after now reset_in;
          reset_identity = reset_identity;
          source = source;
        })
        r.observations;
}

unfoldable pub ingest_warning : AccountId → Window → Option String → ℤ → Router → Router
ingest_warning account window reset_identity now r = record r {
  observations =
      ingest_allowed_warning account window
        (record { observed_at = now; reset_identity = reset_identity }) r.observations;
}

-- One window of a cached usage answer, where a field that is missing or of another type is none.
pub record PeekedWindow : Type 0 where
  pub used_percent : Option ℕ
  pub age_seconds : Option ℤ
  pub reset_at : Option ℤ
  pub source : Option String

-- `str(source or "usage_api")`
abbrev pub source_of : Option String → String
source_of none = "usage_api"
source_of (some s) = if s == "" then "usage_api" else s

abbrev pub reset_on : ℤ → ℤ → Option ℤ → Option ℤ
reset_on now wall_now none = none
reset_on now wall_now (some t) = some (wall_to_monotonic t wall_now now)

unfoldable pub ingest_peeked :
    AccountId → Window → ℤ → ℤ → Option PeekedWindow → ObservationView → ObservationView
ingest_peeked account window now wall_now none view = view
ingest_peeked account window now wall_now (some p) view = elim p.used_percent [
  | none ↦ view
  | some used_percent ↦
      ingest_window account window
        (record {
          used_percent = used_percent;
          observed_at = now -ℤ or_else p.age_seconds (pos 0);
          reset_at = reset_on now wall_now p.reset_at;
          reset_identity = none;
          source = source_of p.source;
        })
        view
]

-- The windows in the order of the table of their names: session, weekly, fable_weekly.
unfoldable pub ingest_usage_peek :
    AccountId → Option (Window → Option PeekedWindow) → ℤ → ℤ → Router → Router
ingest_usage_peek account none now wall_now r = r
ingest_usage_peek account (some peeked) now wall_now r = record r {
  observations = ingest_peeked account fable_weekly now wall_now (peeked fable_weekly) (
      ingest_peeked account seven_day now wall_now (peeked seven_day)
        (ingest_peeked account five_hour now wall_now (peeked five_hour) r.observations));
}
