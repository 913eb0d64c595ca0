-- ===== src/Router/Cooldown.antt =====
-- Account-wide and family-scoped cooldowns, each with a deadline on either clock.
pub mod Deadline
use claudex.Prelude.{
  ℕ, ◌≡◌, ◌≢◌, ◌↔◌, String, Option, none, some, Bool, true, false, not, ◌&&◌, ◌||◌, ◌==◌, string_eq,
  option_eq, pair_eq, is_some, arith, if◌then◌else◌,
}
use claudex.Prelude.Int.{ℤ, pos, ◌+ℤ◌, ◌-ℤ◌, ◌<ℤ◌, ◌≤ℤ◌, leb_ℤ, min_ℤ}
use claudex.Dict.{get, put}
use claudex.Selection.Units.{AccountId, Family, family_eq}
use claudex.Selection.Family.{Text}
use claudex.Selection.Gate.{
  CooldownScope, account, family, FamilyGateOutcome, classify_balanced_cooldown_scope,
}
use claudex.Router.State.{Router, CooldownEntry, upsert_cooldown, RuntimeStore}
use claudex.Router.Store.{Submission, not_submitted, submit, submit_to}

-- The identity that a caller supplies, if any, against the entry's.
abbrev pub is_mismatch : CooldownEntry → Option String → Option String → Bool
is_mismatch e incarnation fingerprint =
    (is_some incarnation || is_some fingerprint)
    && (not (some e.account_incarnation_id == incarnation)
        || not (e.account_profile_fingerprint == fingerprint))

unfoldable pub entry_cooldown_deadline :
    Option CooldownEntry → ℤ → ℤ → Option String → Option String → Option ℤ
entry_cooldown_deadline none now wall_now incarnation fingerprint = none
entry_cooldown_deadline (some e) now wall_now incarnation fingerprint =
    if is_mismatch e incarnation fingerprint
    then none
    else (let remaining = min_ℤ (e.deadline_monotonic -ℤ now) (e.deadline_wall -ℤ wall_now) in
        if leb_ℤ remaining (pos 0) then none else some (now +ℤ remaining))

abbrev pub classify_cooldown_scope : Router → AccountId → Text → ℕ → ℤ → FamilyGateOutcome
classify_cooldown_scope r a model status now =
    classify_balanced_cooldown_scope r.observations a model status now

-- The arguments of `install_cooldown`, the clocks apart.
pub record CooldownRequest : Type 0 where
  pub account_id : AccountId
  pub account_incarnation_id : String
  pub account_profile_fingerprint : Option String
  pub scope : CooldownScope
  pub deadline : ℤ
  pub reason : String
  pub model_family : Family
  pub evidence : String

abbrev pub entry_of : CooldownRequest → ℤ → ℤ → CooldownEntry
entry_of q now wall_now = record {
  deadline_monotonic = q.deadline;
  deadline_wall = wall_now +ℤ (q.deadline -ℤ now);
  account_incarnation_id = q.account_incarnation_id;
  account_profile_fingerprint = q.account_profile_fingerprint;
  reason = q.reason;
}

unfoldable pub set_cooldown : CooldownScope → AccountId → Family → CooldownEntry → Router → Router
set_cooldown account a f e r = record r { account_cooldowns = put a e r.account_cooldowns }
set_cooldown family a f e r = record r { family_cooldowns = put (a, f) e r.family_cooldowns }

abbrev pub submit_cooldown :
    Option String → CooldownRequest → CooldownEntry → ℤ → Router → Router × Submission
submit_cooldown none q e wall_now r = (r, not_submitted)
submit_cooldown (some fingerprint) q e wall_now r =
    submit
      (upsert_cooldown
        (record {
          account_id = q.account_id;
          scope = q.scope;
          model_family = q.model_family;
          account_incarnation_id = q.account_incarnation_id;
          account_profile_fingerprint = fingerprint;
          deadline_utc = e.deadline_wall;
          reason = q.reason;
          evidence = q.evidence;
          updated_at_utc = wall_now;
        })
        true)
      r

unfoldable pub install_cooldown : CooldownRequest → ℤ → ℤ → Router → Router × Submission
install_cooldown q now wall_now r =
    let e = entry_of q now wall_now in
    submit_cooldown q.account_profile_fingerprint q e wall_now
      (set_cooldown q.scope q.account_id q.model_family e r)

unfoldable pub account_cooldown_deadline :
    AccountId → Option String → Option String → ℤ → ℤ → Router → Option ℤ
account_cooldown_deadline a incarnation fingerprint now wall_now r =
    entry_cooldown_deadline (get a r.account_cooldowns) now wall_now incarnation fingerprint

unfoldable pub family_cooldown_deadline :
    AccountId → Family → Option String → Option String → ℤ → ℤ → Router → Option ℤ
family_cooldown_deadline a f incarnation fingerprint now wall_now r =
    entry_cooldown_deadline (get (a, f) r.family_cooldowns) now wall_now incarnation fingerprint
