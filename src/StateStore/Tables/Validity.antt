-- ===== src/StateStore/Tables/Validity.antt =====
-- A restore returns the rows that are still valid, and keeps exactly those.
use claudex.Prelude.{
  ℕ, ◌≡◌, refl, ap, ◌∙◌, List, [], ◌∷◌, ◌++◌, String, string_eq, list_eq, nat_eq, pair_eq, Option,
  none, some, Bool, false, ◌||◌, Eq, ◌==◌, ==_iff, if◌then◌else◌, contains, is_some, arith,
}
use claudex.Prelude.Int.{ℤ}
use claudex.Dict.{Dict, get, pop_all, Unique}
use claudex.Dict.Laws.{get-put, get-pop_all}
use claudex.Selection.Units.{AccountId, Window, window_eq, family_eq}
use claudex.Selection.Family.{Text}
use claudex.Selection.Pick.{Bytes}
use claudex.Selection.Gate.{scope_eq}
use claudex.Router.State.{SkipClass, skip_eq, CooldownKey}
use claudex.StateStore.Tables.Restore.{
  RestoredTables, Sweep, sweep, sweep_row, no_rows, judge_pin, judge_cooldown, judge_observation,
  judge_capability, do_restore,
}

-- The row, if there is one and it is judged valid.
abbrev pub valid : {V : Type 0} → (V → Option SkipClass) → Option V → Option V
valid judge none = none
valid judge (some v) = if is_some (judge v) then none else some v

abbrev is_stale : {V : Type 0} → (V → Option SkipClass) → Option V → Bool
is_stale judge none = false
is_stale judge (some v) = is_some (judge v)

abbrev or_kept : {V : Type 0} → Option V → Option V → Option V
or_kept none old = old
or_kept (some v) old = some v

or_kept-none : {V : Type 0} (o : Option V) → or_kept o none ≡ o
or_kept-none none = refl
or_kept-none (some v) = refl

without_stale :
    {V : Type 0} (judge : V → Option SkipClass) (o : Option V)
    → (if is_stale judge o then none else o) ≡ valid judge o
without_stale judge none = refl
without_stale judge (some v) = refl

contains-append :
    {A : Type 0} ⦃e : Eq A⦄ (xs : List A) (y x : A)
    → contains (xs ++ y ∷ []) x ≡ (contains xs x || y == x)
contains-append [] y x = ground arith
contains-append (z ∷ xs) y x = ground (arith, contains-append xs y x)

module _ {K V : Type 0} ⦃e : Eq K⦄ (judge : V → Option SkipClass) where
  get-sweep :
      (k : K) (d : Dict K V) (s : Sweep K V)
      → Unique d
      → get k (sweep judge d s).kept ≡ or_kept (valid judge (get k d)) (get k s.kept)
  unfolding sweep sweep_row get
  get-sweep k [] s u = refl
  get-sweep k ((j, v) ∷ d) s u =
      ground (
        arith,
        get-sweep k d (sweep_row (judge v) j v s) u.1,
        get-put k j v s.kept,
        ==_iff j k,
        u.0,
      )

  contains-sweep :
      (k : K) (d : Dict K V) (s : Sweep K V)
      → Unique d
      → contains (sweep judge d s).stale k ≡ (contains s.stale k || is_stale judge (get k d))
  unfolding sweep sweep_row get
  contains-sweep k [] s u = ground arith
  contains-sweep k ((j, v) ∷ d) s u = ground (
    arith,
    contains-sweep k d (sweep_row (judge v) j v s) u.1,
    contains-append s.stale j k,
    ==_iff j k,
    u.0,
  )

  get-kept :
      (k : K) (d : Dict K V) (counts : Dict SkipClass ℕ)
      → Unique d
      → get k (sweep judge d (no_rows counts)).kept ≡ valid judge (get k d)
  unfolding get
  get-kept k d counts u = get-sweep k d (no_rows counts) u ∙ or_kept-none (valid judge (get k d))

  get-left :
      (k : K) (d : Dict K V) (counts : Dict SkipClass ℕ)
      → Unique d
      → get k (pop_all (sweep judge d (no_rows counts)).stale d) ≡ valid judge (get k d)
  get-left k d counts u =
      get-pop_all k (sweep judge d (no_rows counts)).stale d
      ∙ (ap (λ b. if b then none else get k d) (contains-sweep k d (no_rows counts) u)
          ∙ without_stale judge (get k d))

-- No primary key stands twice.
abbrev pub HasKeys : RestoredTables → Type 0
HasKeys t =
    Unique t.pins × Unique t.cooldowns × Unique t.usage_observations × Unique t.capability_evidence

-- The result and the tables that are left have, for each key, the row of the table if it is valid.
abbrev pub RestoresValid : String → ℤ → RestoredTables → Type 0
RestoresValid epoch now_utc t =
    ((k : Bytes)
      → (get k (do_restore epoch now_utc t).0.pins ≡ valid (judge_pin epoch now_utc) (get k t.pins))
        × (get k (do_restore epoch now_utc t).1.pins
            ≡ valid (judge_pin epoch now_utc) (get k t.pins)))
    × ((k : CooldownKey)
        → (get k (do_restore epoch now_utc t).0.cooldowns
            ≡ valid (judge_cooldown now_utc) (get k t.cooldowns))
          × (get k (do_restore epoch now_utc t).1.cooldowns
              ≡ valid (judge_cooldown now_utc) (get k t.cooldowns)))
    × ((k : AccountId × Window)
        → (get k (do_restore epoch now_utc t).0.usage_observations
            ≡ valid (judge_observation now_utc) (get k t.usage_observations))
          × (get k (do_restore epoch now_utc t).1.usage_observations
              ≡ valid (judge_observation now_utc) (get k t.usage_observations)))
    × ((k : AccountId × Text)
        → (get k (do_restore epoch now_utc t).0.capability_evidence
            ≡ valid (judge_capability now_utc) (get k t.capability_evidence))
          × (get k (do_restore epoch now_utc t).1.capability_evidence
              ≡ valid (judge_capability now_utc) (get k t.capability_evidence)))

-- If no table has a primary key twice, a restore returns, for every key of the four tables, the row if
-- it is valid and nothing otherwise, and the tables that it leaves have the same. A row is valid when
-- it has not expired, a pin when it is of the current epoch besides.
pub do_restore_valid :
    (epoch : String) (now_utc : ℤ) (t : RestoredTables) → HasKeys t → RestoresValid epoch now_utc t
unfolding do_restore
do_restore_valid epoch now_utc t u = (
  λ k. (get-kept _ k t.pins _ u.0, get-left _ k t.pins _ u.0),
  λ k. (get-kept _ k t.cooldowns _ u.1, get-left _ k t.cooldowns _ u.1),
  λ k. (get-kept _ k t.usage_observations _ u.2, get-left _ k t.usage_observations _ u.2),
  λ k. (get-kept _ k t.capability_evidence _ u.3, get-left _ k t.capability_evidence _ u.3),
)
