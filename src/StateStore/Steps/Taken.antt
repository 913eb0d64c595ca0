-- ===== src/StateStore/Steps/Taken.antt =====
-- What the writer takes: the head of the queue, or one of the retries.
use claudex.Prelude.{
  ◌≡◌, refl, ap, List, [], ◌∷◌, ◌++◌, Option, none, some, ◌&&◌, Bool-cases, Option-cases, inl, inr,
  arith,
}
use claudex.Prelude.Int.{ℤ, leb_ℤ}
use claudex.StateStore.Queue.{Job, StateStore}
use claudex.StateStore.Writer.{
  take, take_due, prepend, is_due, take_retry, take_next, wait_for_next_job, is_empty,
}

-- A list of jobs with one in its midst.
pub record Splits (jobs rest : List Job) (job : Job) : Type 0 where
  pub before : List Job
  pub after : List Job
  pub whole : jobs ≡ before ++ job ∷ after
  pub others : rest ≡ before ++ after

Splits-later :
    (j : Job) (js : List Job) (taken : Option (Job × List Job)) (job : Job) (rest : List Job)
    → ((r : List Job) → taken ≡ some (job, r) → Splits js r job)
    → prepend j taken ≡ some (job, rest)
    → Splits (j ∷ js) rest job
Splits-later j js none job rest later h = absurd (ground arith)
Splits-later j js (some (due, r)) job rest later h =
    let s = later r (ground arith) in
    record {
      before = j ∷ s.before;
      after = s.after;
      whole = ap (λ l. j ∷ l) s.whole;
      others = ground (arith, s.others);
    }

pub take_due-Splits :
    (now : ℤ) (jobs : List Job) (job : Job) (rest : List Job)
    → take_due now jobs ≡ some (job, rest)
    → Splits jobs rest job
unfolding take_due
take_due-Splits now [] job rest h = absurd (ground arith)
take_due-Splits now (j ∷ js) job rest h = elim (Bool-cases (is_due now j.next_attempt_at)) [
  | inl due ↦ record { before = []; after = js; whole = ground arith; others = ground arith }
  | inr early ↦
      Splits-later j js (take_due now js) job rest (λ r e. take_due-Splits now js job r e)
        (rw early at h)
]

module _ (P : StateStore → Type 0) (s : StateStore) where
  module _ (idle : P s)
      (from_queue : (job : Job) (js : List Job)
        → s.pending ≡ job ∷ js
        → P (record s { pending = js; writer_job = some job }))
      (from_retries : (job : Job) (rest : List Job)
        → Splits s.retrying rest job
        → P (record s { retrying = rest; writer_job = some job })) where
    take_retry_keeps : (now : ℤ) → P (take (take_retry now (take_due now s.retrying) s) s)
    take_retry_keeps now = elim (Option-cases (take_due now s.retrying)) [
      | inl e ↦ rw e (elim (Bool-cases (s.stopping && is_empty s.pending && is_empty s.retrying)) [
        | inl over ↦ rw over idle
        | inr more ↦ rw more idle
      ])
      | inr ((job, rest), e) ↦
          rw e (from_retries job rest (take_due-Splits now s.retrying job rest e))
    ]

    take_next_keeps :
        (now : ℤ) (jobs : List Job) → s.pending ≡ jobs → P (take (take_next now jobs s) s)
    take_next_keeps now [] e = take_retry_keeps now
    take_next_keeps now (j ∷ js) e = elim (Bool-cases (leb_ℤ j.flush_after now)) [
      | inl due ↦ rw due (from_queue j js e)
      | inr early ↦ rw early (take_retry_keeps now)
    ]

    -- What holds of the store when the writer takes nothing, the head, or a retry, holds after it has
    -- looked for a job.
    pub take_keeps : (now : ℤ) → P (take (wait_for_next_job now s) s)
    unfolding wait_for_next_job
    take_keeps now = take_next_keeps now s.pending refl
