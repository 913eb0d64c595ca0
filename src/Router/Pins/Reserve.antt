-- ===== src/Router/Pins/Reserve.antt =====
-- The protection flag of a pin: what setting it changes.
use claudex.Prelude.{
  ◌≡◌, Option, none, some, Bool, ◌==◌, ==_iff, list_eq, nat_eq, if◌then◌else◌, arith, Option-cases,
  inl, inr,
}
use claudex.Dict.{get, Unique}
use claudex.Dict.Laws.{get-put, put-Unique}
use claudex.Selection.Pick.{Bytes}
use claudex.Router.State.{Router, PinEntry}
use claudex.Router.Pins.{set_migration_reserved}

abbrev pub flagged : Bool → Option PinEntry → Option PinEntry
flagged b none = none
flagged b (some e) = some (record e { migration_reserved = b })

module _ (k : Bytes) (b : Bool) (r : Router) where
  pub get-set_migration_reserved :
      (d : Bytes)
      → get d (set_migration_reserved k b r).pins
        ≡ (if k == d then flagged b (get d r.pins) else get d r.pins)
  unfolding set_migration_reserved
  get-set_migration_reserved d = elim (Option-cases (get k r.pins)) [
    | inl e ↦ ground (arith, ==_iff k d)
    | inr (v, e) ↦
        ground (arith, ==_iff k d, get-put d k (record v { migration_reserved = b }) r.pins)
  ]

  pub set_migration_reserved-Unique : Unique r.pins → Unique (set_migration_reserved k b r).pins
  unfolding set_migration_reserved
  set_migration_reserved-Unique u = elim (Option-cases (get k r.pins)) [
    | inl e ↦ ground arith
    | inr (v, e) ↦ ground (arith, put-Unique k (record v { migration_reserved = b }) r.pins u)
  ]

  -- Only the pins change.
  pub set_migration_reserved-rest : record (set_migration_reserved k b r) { pins = r.pins } ≡ r
  unfolding set_migration_reserved
  set_migration_reserved-rest = elim (Option-cases (get k r.pins)) [
    | inl e ↦ ground arith
    | inr (v, e) ↦ ground arith
  ]
