-- ===== src/Router/Removal/Forget.antt =====
-- What is forgotten of a removed account.
use claudex.Prelude.{
  ◌≡◌, none, ◌==◌, ==_iff, string_eq, list_eq, nat_eq, pair_eq, if◌then◌else◌, arith, Option-cases,
  inl, inr,
}
use claudex.Dict.{get, Unique, keys_where}
use claudex.Dict.Laws.{get-pop, get-pop_all, contains-keys_where}
use claudex.Selection.Units.{AccountId, Family, family_eq}
use claudex.Selection.Family.{Text}
use claudex.Router.State.{Router}
use claudex.Router.Removal.{drop_account_state}

-- Where the keys of the two maps are distinct: removing an account drops its account-wide
-- cooldown, its cooldown of every family and its evidence under every capability key, and leaves
-- those of every other account as they were.
pub drop_account_state-get :
    (a b : AccountId) (f : Family) (key : Text) (r : Router)
    → Unique r.family_cooldowns
    → Unique r.capability_evidence
    → (get b (drop_account_state a r).account_cooldowns
        ≡ (if a == b then none else get b r.account_cooldowns))
      × (get (b, f) (drop_account_state a r).family_cooldowns
          ≡ (if a == b then none else get (b, f) r.family_cooldowns))
      × (get (b, key) (drop_account_state a r).capability_evidence
          ≡ (if a == b then none else get (b, key) r.capability_evidence))
unfolding drop_account_state
drop_account_state-get a b f key r u v = (
  get-pop b a r.account_cooldowns,
  rw (get-pop_all (b, f) (keys_where (λ k e. k.0 == a) r.family_cooldowns) r.family_cooldowns) (
      rw (contains-keys_where (λ k e. k.0 == a) (b, f) r.family_cooldowns u)
        (elim (Option-cases (get (b, f) r.family_cooldowns)) [
          | inl e ↦ ground arith
          | inr (w, e) ↦ ground (arith, ==_iff a b, ==_iff b a)
        ])),
  rw
      (get-pop_all (b, key) (keys_where (λ k e. k.0 == a) r.capability_evidence)
        r.capability_evidence)
      (rw (contains-keys_where (λ k e. k.0 == a) (b, key) r.capability_evidence v)
        (elim (Option-cases (get (b, key) r.capability_evidence)) [
          | inl e ↦ ground arith
          | inr (w, e) ↦ ground (arith, ==_iff a b, ==_iff b a)
        ])),
)
