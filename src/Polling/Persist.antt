-- ===== src/Polling/Persist.antt =====
-- `_ingest_observation`: the durable rows of an account's windows.
use claudex.Prelude.{ℕ, min, String, Option, none, some, Bool, true, false, string_eq, or_else}
use claudex.Prelude.Int.{ℤ, pos, ◌-ℤ◌}
use claudex.Selection.Units.{AccountId, Window, five_hour, seven_day, fable_weekly, points}
use claudex.Router.State.{UsageObservationRow}
use claudex.Router.Attempts.{PeekedWindow, source_of}
use claudex.StateStore.Queue.{
  StateStore, Submitted, store_closed, invalid_argument, throttled, pending_write,
}
use claudex.StateStore.Operations.{upsert_usage_observation}
use claudex.Polling.Coordinator.{UsagePollAccount, Peeked}

abbrev pub reset_identity_of : (ℤ → String) → Option ℤ → String
reset_identity_of format none = "none"
reset_identity_of format (some t) = format t

module _ (format : ℤ → String) (account : AccountId) (wall_now : ℤ) where
  unfoldable pub usage_row :
      UsagePollAccount → String → Window → ℕ → PeekedWindow → UsageObservationRow
  usage_row snapshot fingerprint window used_percent p = record {
    account_id = account;
    window = window;
    account_incarnation_id = snapshot.account_incarnation_id;
    account_profile_fingerprint = fingerprint;
    used_percent = pos (min (points 100) used_percent);
    reset_identity = reset_identity_of format p.reset_at;
    reset_at_utc = p.reset_at;
    observed_at_utc = wall_now -ℤ or_else p.age_seconds (pos 0);
    source = source_of p.source;
    unified_status = none;
    unified_claim = none;
  }

  -- What the submission of a row leaves, and whether it raised.
  abbrev pub raised_by : StateStore × Submitted → StateStore × Bool
  raised_by (s, pending_write n) = (s, false)
  raised_by (s, throttled) = (s, false)
  raised_by (s, store_closed) = (s, true)
  raised_by (s, invalid_argument) = (s, true)

  abbrev pub persist_used :
      UsagePollAccount
      → String
      → Window
      → ℤ
      → PeekedWindow
      → Option ℕ
      → StateStore
      → StateStore × Bool
  persist_used snapshot fingerprint window now p none s = (s, false)
  persist_used snapshot fingerprint window now p (some used_percent) s =
      raised_by (
        upsert_usage_observation (usage_row snapshot fingerprint window used_percent p) false now s)

  abbrev pub persist_window :
      UsagePollAccount
      → String
      → Window
      → (Window → ℤ)
      → Option PeekedWindow
      → StateStore × Bool
      → StateStore × Bool
  persist_window snapshot fingerprint window now p (s, true) = (s, true)
  persist_window snapshot fingerprint window now none (s, false) = (s, false)
  persist_window snapshot fingerprint window now (some p) (s, false) =
      persist_used snapshot fingerprint window (now window) p p.used_percent s

  -- The windows in the order of the table of their names; `now` is the store's clock at
  -- each submission.
  unfoldable pub persist_windows :
      UsagePollAccount
      → String
      → (Window → ℤ)
      → (Window → Option PeekedWindow)
      → StateStore
      → StateStore × Bool
  persist_windows snapshot fingerprint now windows s =
      persist_window snapshot fingerprint fable_weekly now (windows fable_weekly) (
        persist_window snapshot fingerprint seven_day now (windows seven_day)
          (persist_window snapshot fingerprint five_hour now (windows five_hour) (s, false)))

  abbrev pub persist_fingerprint :
      UsagePollAccount → Option String → (Window → ℤ) → Peeked → StateStore → StateStore × Bool
  persist_fingerprint snapshot none now p s = (s, false)
  persist_fingerprint snapshot (some fingerprint) now p s =
      persist_windows snapshot fingerprint now p.windows s

  abbrev pub persist_account :
      Option UsagePollAccount → (Window → ℤ) → Peeked → StateStore → StateStore × Bool
  persist_account none now p s = (s, false)
  persist_account (some snapshot) now p s =
      persist_fingerprint snapshot snapshot.account_profile_fingerprint now p s
