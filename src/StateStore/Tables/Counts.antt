-- ===== src/StateStore/Tables/Counts.antt =====
-- A restore accounts for every row.
use claudex.Prelude.{
  ℕ, suc, ◌+◌, ◌≡◌, refl, ap, [], ◌∷◌, String, string_eq, list_eq, nat_eq, pair_eq, Option, none,
  some, Eq, ==_iff, if◌then◌else◌, or_else, is_some, arith,
}
use claudex.Prelude.Int.{ℤ}
use claudex.Dict.{Dict, get, put, size, Unique}
use claudex.Dict.Laws.{get-put, size-put}
use claudex.Selection.Units.{window_eq, family_eq}
use claudex.Selection.Gate.{scope_eq}
use claudex.Router.State.{SkipClass, skip_eq}
use claudex.StateStore.Tables.Restore.{
  RestoredTables, Sweep, sweep, sweep_row, no_rows, judge_pin, judge_cooldown, judge_observation,
  judge_capability, do_restore,
}
use claudex.StateStore.Tables.Validity.{HasKeys}

-- The number of skipped rows.
abbrev pub total : Dict SkipClass ℕ → ℕ
total [] = 0
total ((c, n) ∷ d) = n + total d

total-bump :
    (c : SkipClass) (d : Dict SkipClass ℕ) → total (put c (or_else (get c d) 0 + 1) d) ≡ total d + 1
unfolding get put
total-bump c [] = omega arith
total-bump c ((j, n) ∷ d) = ground (arith, total-bump c d)

module _ {K V : Type 0} ⦃e : Eq K⦄ (judge : V → Option SkipClass) where
  -- None of the keys has a row yet.
  abbrev Absent : Dict K V → Dict K V → Type 0
  Absent kept [] = Unit
  Absent kept ((k, v) ∷ d) = (get k kept ≡ none) × Absent kept d

  Absent-put :
      (j : K) (w : V) (kept d : Dict K V) → get j d ≡ none → Absent kept d → Absent (put j w kept) d
  unfolding get
  Absent-put j w kept [] h a = tt
  Absent-put j w kept ((k, v) ∷ d) h a =
      ground (arith, Absent-put j w kept d, get-put k j w kept, ==_iff j k, ==_iff k j)

  row_counts :
      (w : Option SkipClass) (k : K) (v : V) (s : Sweep K V)
      → get k s.kept ≡ none
      → size (sweep_row w k v s).kept + total (sweep_row w k v s).skip_counts
        ≡ suc (size s.kept + total s.skip_counts)
  unfolding sweep_row
  row_counts none k v s a = omega (
    arith,
    size-put k v s.kept,
    ap (λ (o : Option V). if is_some o then size s.kept else suc (size s.kept)) a,
  )
  row_counts (some reason) k v s a = omega (arith, total-bump reason s.skip_counts)

  row-Absent :
      (w : Option SkipClass) (k : K) (v : V) (s : Sweep K V) (d : Dict K V)
      → get k d ≡ none
      → Absent s.kept d
      → Absent (sweep_row w k v s).kept d
  unfolding sweep_row
  row-Absent none k v s d h a = Absent-put k v s.kept d h a
  row-Absent (some reason) k v s d h a = a

  sweep_counts :
      (d : Dict K V) (s : Sweep K V)
      → Unique d
      → Absent s.kept d
      → size (sweep judge d s).kept + total (sweep judge d s).skip_counts
        ≡ size s.kept + total s.skip_counts + size d
  unfolding sweep
  sweep_counts [] s u a = omega arith
  sweep_counts ((k, v) ∷ d) s u a = omega (
    arith,
    sweep_counts d (sweep_row (judge v) k v s) u.1 (row-Absent (judge v) k v s d u.0 a.1),
    row_counts (judge v) k v s a.0,
  )

  Absent-empty : (d : Dict K V) → Absent [] d
  unfolding get
  Absent-empty [] = tt
  Absent-empty ((k, v) ∷ d) = (refl, Absent-empty d)

  -- One loop accounts for each of its rows.
  loop_counts :
      (d : Dict K V) (counts : Dict SkipClass ℕ)
      → Unique d
      → size (sweep judge d (no_rows counts)).kept
          + total (sweep judge d (no_rows counts)).skip_counts
        ≡ total counts + size d
  loop_counts d counts u = omega (arith, sweep_counts d (no_rows counts) u (Absent-empty d))

-- If no table has a primary key twice, a restore accounts for each row once: the rows that it returns and those that it counts as skipped,
-- for whatever reason, are together as many as the four tables had.
pub do_restore_counts :
    (epoch : String) (now_utc : ℤ) (t : RestoredTables)
    → HasKeys t
    → size (do_restore epoch now_utc t).0.pins
        + size (do_restore epoch now_utc t).0.cooldowns
        + size (do_restore epoch now_utc t).0.usage_observations
        + size (do_restore epoch now_utc t).0.capability_evidence
        + total (do_restore epoch now_utc t).0.skip_counts
      ≡ size t.pins + size t.cooldowns + size t.usage_observations + size t.capability_evidence
unfolding do_restore
do_restore_counts epoch now_utc t u = omega (
  arith,
  loop_counts (judge_pin epoch now_utc) t.pins [] u.0,
  loop_counts (judge_cooldown now_utc) t.cooldowns _ u.1,
  loop_counts (judge_observation now_utc) t.usage_observations _ u.2,
  loop_counts (judge_capability now_utc) t.capability_evidence _ u.3,
)
