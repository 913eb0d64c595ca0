-- ===== src/StateStore/Steps/Erasure.antt =====
-- The fence of an incarnation: once its deletion has committed, no write that was submitted before
-- brings a row of it back.
use claudex.Prelude.{
  ℕ, ◌≤◌, ◌<◌, ◌≡◌, refl, sym, subst, ap, String, string_eq, [], Option, none, some, true, false,
  arith,
}
use claudex.Prelude.Int.{ℤ}
use claudex.Dict.{get}
use claudex.Dict.Laws.{get-put_self}
use claudex.StateStore.Keys.{barrier_eq, incarnation_barrier}
use claudex.StateStore.Tables.{erase_incarnation, apply_tables}
use claudex.StateStore.Tables.Rows.{
  HasNoRow, writes, erase_incarnation-HasNoRow, tables-apply_payload,
}
use claudex.StateStore.Queue.{Job, StateStore}
use claudex.StateStore.Writer.{
  commits, raised, raise_barrier, is_fenced, succeed, execute, committed, attempt,
}
use claudex.StateStore.Steps.Jobs.{Every, Every-zip, attempt-Every}
use claudex.StateStore.Steps.Fencing.{IsGuarded}
use claudex.StateStore.Steps.{Run}
use claudex.StateStore.Steps.Erased.{
  IsSilent, IsRaised, IsBarred, IsBarred-kept, IsErased, Run-IsGone,
}

-- A job that deletes an incarnation.
pub record IsErasure (i : String) (job : Job) : Type 0 where
  pub of_payload : job.payload ≡ erase_incarnation i
  pub of_barrier : job.barrier ≡ some (incarnation_barrier i)
  pub of_fence : job.fence ≡ []

module _ (i : String) (job : Job) (s : StateStore) (erasure : IsErasure i job) where
  raised_high : (old : Option ℕ) (n : ℕ) → n ≤ raised old n
  raised_high none n = omega arith
  raised_high (some b) n = omega arith

  not_fenced : is_fenced s.committed_barriers job ≡ false
  unfolding is_fenced
  not_fenced = rw erasure.of_fence refl

  erased_rows : HasNoRow i (committed job s).tables
  unfolding committed
  erased_rows =
      rw (not_fenced, tables-apply_payload s.balanced_epoch_id job.payload s.database)
        (subst (λ p. HasNoRow i (apply_tables s.balanced_epoch_id p s.database.tables))
          (sym erasure.of_payload)
          (erase_incarnation-HasNoRow i s.balanced_epoch_id s.database.tables))

  IsRaised-now :
      IsRaised i job.payload_sequence
        (raise_barrier job.barrier job.payload_sequence s.committed_barriers)
  IsRaised-now =
      subst
        (λ b.
          IsRaised i job.payload_sequence
            (raise_barrier b job.payload_sequence s.committed_barriers))
        (sym erasure.of_barrier)
        (record {
          level = _;
          raised_to = get-put_self (incarnation_barrier i) _ s.committed_barriers;
          high =
              raised_high (get (incarnation_barrier i) s.committed_barriers) job.payload_sequence;
        })

  erasure-IsErased : (now : ℤ) → IsErased i job.payload_sequence (attempt commits now job s)
  unfolding attempt succeed execute
  erasure-IsErased now = (erased_rows, rw not_fenced IsRaised-now)

  -- In a store from which the job was taken: after the deletion of an incarnation has committed, no table has a row of it, and none has one
  -- after any run in which no operation writes a row of that incarnation, whatever jobs were queued,
  -- delayed or failed before: provided that each of them that writes such a row was submitted before
  -- the deletion, and waits on the incarnation's barrier, as every run makes sure.
  pub incarnation_stays_erased :
      (now : ℤ) {t : StateStore}
      → Every (λ n. Unit) (λ n. IsGuarded i) s
      → Every
          (λ n. Unit)
          (λ n j. writes i j.payload ≡ true → j.payload_sequence < job.payload_sequence)
          s
      → Run (IsSilent i) (attempt commits now job s) t
      → HasNoRow i t.database.tables
  incarnation_stays_erased now guarded older r =
      (Run-IsGone i job.payload_sequence r (record {
        jobs =
            attempt-Every (λ n. Unit) (λ n. IsBarred i job.payload_sequence)
              (IsBarred-kept i job.payload_sequence) job commits now s
              (λ w. absurd (ground (arith, w, ap (writes i) erasure.of_payload)))
              (Every-zip (IsGuarded i) _ _ s (λ j g o w. (g w, o w)) guarded older);
        erased = erasure-IsErased now;
      })).erased.0
