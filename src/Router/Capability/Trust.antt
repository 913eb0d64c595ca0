-- ===== src/Router/Capability/Trust.antt =====
-- What may be trusted as eligible.
use claudex.Prelude.{◌/◌, ◌≡◌, string_eq, list_eq, nat_eq, pair_eq, arith}
use claudex.Prelude.Int.{ℤ}
use claudex.Router.State.{Router}
use claudex.Router.Capability.{CapabilityRequest, classify_capability_evidence}

-- An answer that is not 2xx records nothing at all.
pub classify_not_2xx :
    (q : CapabilityRequest) (now wall_now : ℤ) (r : Router)
    → (q.status_code / 100 ≡ 2 → ⊥)
    → (classify_capability_evidence q now wall_now r).0 ≡ r
unfolding classify_capability_evidence
classify_not_2xx q now wall_now r h = ground arith
