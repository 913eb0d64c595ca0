-- ===== src/StateStore/Steps/Rounds.antt =====
-- The rounds of a writer loop that drains a closed store.
use claudex.Prelude.{
  ℕ, Option, false, suc, ◌+◌, ◌<◌, ◌≡◌, refl, sym, subst, ap, ◌∙◌, List, [], ◌∷◌, none, some, true,
  length, All, arith,
}
use claudex.Prelude.Int.{ℤ, ◌≤ℤ◌}
use claudex.StateStore.Queue.{Job, StateStore}
use claudex.StateStore.Writer.{
  run, stop, take_due, take_retry, take_next, is_due, wait_for_next_job, attempt, Round, or_crash,
  after_wake, writer_loop,
}
use claudex.StateStore.Steps.Handles.{IsAttempting}
use claudex.StateStore.Steps.Held.{IsAnswerable, count, job_handles, handles-head}
use claudex.StateStore.Steps.Drain.{
  IsFlushed, IsDue, IsDraining, attempt_frame, attempt-Shrinks, IsDraining-attempt, flushed_by,
  due_by,
}

abbrev pub left : StateStore → ℕ
left s = length s.pending + length s.retrying

-- The loop's result: a store with nothing left, whose handles are those of the store before.
pub record Drained (n : ℕ) (u : StateStore) : Type 0 where
  pub no_pending : u.pending ≡ []
  pub no_retrying : u.retrying ≡ []
  pub answerable : IsAnswerable u
  pub idle : u.writer_job ≡ none
  pub same_next : u.next_sequence ≡ n

pub record Ends (rounds : List Round) (s : StateStore) : Type 0 where
  pub final : StateStore
  pub runs : writer_loop rounds s ≡ some final
  pub drained : Drained s.next_sequence final

abbrev pub IsLate : ℤ → Round → Type 0
IsLate t r = t ≤ℤ r.woken_at

take_due_first :
    (now : ℤ) (j : Job) (js : List Job)
    → is_due now j.next_attempt_at ≡ true
    → take_due now (j ∷ js) ≡ some (j, js)
unfolding take_due
take_due_first now j js h = rw h

or_crash_alive :
    (loop : StateStore → Option StateStore) (s : StateStore)
    → s.writer_crashed ≡ false
    → or_crash loop s ≡ loop s
or_crash_alive loop s alive = rw alive refl

module _ (t : ℤ) where
  -- What the writer finds: the head of the queue, else the first retry, else nothing.
  pub take_head :
      (now : ℤ) (s : StateStore) (j : Job) (js : List Job)
      → s.pending ≡ j ∷ js
      → All (IsFlushed t) s.pending
      → t ≤ℤ now
      → wait_for_next_job now s ≡ run j (record s { pending = js })
  unfolding wait_for_next_job
  take_head now s j js e h late =
      let due = flushed_by t j now (subst (All (IsFlushed t)) e h).0 late in
      let taken : take_next now (j ∷ js) s ≡ run j (record s { pending = js }) = rw due refl in
      ap (λ l. take_next now l s) e ∙ taken

  take_first :
      (now : ℤ) (s : StateStore) (j : Job) (js : List Job)
      → s.pending ≡ []
      → s.retrying ≡ j ∷ js
      → All (IsDue t) s.retrying
      → t ≤ℤ now
      → wait_for_next_job now s ≡ run j (record s { retrying = js })
  unfolding wait_for_next_job
  take_first now s j js e e' h late =
      let due = due_by t now j.next_attempt_at (subst (All (IsDue t)) e' h).0 late in
      ap (λ l. take_next now l s) e
      ∙ (ap (λ l. take_retry now (take_due now l) s) e'
          ∙ ap (λ x. take_retry now x s) (take_due_first now j js due))

  take_none :
      (now : ℤ) (s : StateStore)
      → s.pending ≡ []
      → s.retrying ≡ []
      → s.stopping ≡ true
      → wait_for_next_job now s ≡ stop
  unfolding wait_for_next_job take_due
  take_none now s e e' st = rw (e, e', st)

  -- A round that takes a job, followed by rounds that end.
  round_runs :
      (r : Round) (rs : List Round) (s u : StateStore) (j : Job)
      → wait_for_next_job r.woken_at s ≡ run j u
      → s.next_sequence ≡ u.next_sequence
      → u.stopping ≡ true
      → u.writer_crashed ≡ false
      → Ends rs (attempt r.answer r.answered_at j u)
      → Ends (r ∷ rs) s
  unfolding writer_loop
  round_runs r rs s u j e same st alive h =
      let frame = attempt_frame r.answer r.answered_at j u st in
      record {
        final = h.final;
        runs =
            ap (after_wake (writer_loop rs) r s) e
            ∙ (or_crash_alive (writer_loop rs) _ (frame.2 ∙ alive) ∙ h.runs);
        drained = record {
          no_pending = h.drained.no_pending;
          no_retrying = h.drained.no_retrying;
          answerable = h.drained.answerable;
          idle = h.drained.idle;
          same_next = h.drained.same_next ∙ (frame.3 ∙ sym same);
        };
      }

  round_stops :
      (r : Round) (rs : List Round) (s : StateStore)
      → IsDraining t s
      → s.pending ≡ []
      → s.retrying ≡ []
      → Ends (r ∷ rs) s
  unfolding writer_loop
  round_stops r rs s d e e' = record {
    final = s;
    runs = ap (after_wake (writer_loop rs) r s) (take_none r.woken_at s e e' d.stopped);
    drained = record {
      no_pending = e;
      no_retrying = e';
      answerable = d.answerable;
      idle = d.idle;
      same_next = refl;
    };
  }

  left_after :
      (r : Round) (s u : StateStore) (j : Job)
      → u.stopping ≡ true
      → All (IsDue t) u.retrying
      → left u < left s
      → left (attempt r.answer r.answered_at j u) < left s
  left_after r s u j st due h = omega (
    arith,
    h,
    (attempt-Shrinks t r.answer r.answered_at j u st due).1,
    ap (length {A = Job}) (attempt_frame r.answer r.answered_at j u st).4,
  )

  module _ (r : Round) (rs : List Round) (s : StateStore) (d : IsDraining t s)
      (late : t ≤ℤ r.woken_at) (fuel : left s < suc (length rs))
      (ih : (u : StateStore) → IsDraining t u → left u < length rs → Ends rs u) where
    from_retries : (l : List Job) → s.pending ≡ [] → s.retrying ≡ l → Ends (r ∷ rs) s
    from_retries [] e e' = round_stops r rs s d e e'
    from_retries (j ∷ js) e e' =
        let u : StateStore = record s { retrying = js } in
        let due = (subst (All (IsDue t)) e' d.due).1 in
        let attempting : IsAttempting j u = (
          d.answerable.0,
          d.idle,
          λ n. omega (
            arith,
            d.answerable.1 n,
            handles-head j js n e',
            ap (λ w. count n (job_handles w)) d.idle,
          ),
        ) in
        round_runs r rs s u j (take_first r.woken_at s j js e e' d.due late) refl d.stopped d.alive
          (ih _
            (IsDraining-attempt t r.answer r.answered_at j u d.stopped d.alive d.flushed due
              attempting)
            (omega (
              arith,
              fuel,
              left_after r s u j d.stopped due (omega (arith, ap (length {A = Job}) e')),
            )))

    from_queue : (l : List Job) → s.pending ≡ l → Ends (r ∷ rs) s
    from_queue [] e = from_retries s.retrying e refl
    from_queue (j ∷ js) e =
        let u : StateStore = record s { pending = js } in
        let flushed = (subst (All (IsFlushed t)) e d.flushed).1 in
        let attempting : IsAttempting j u = (
          d.answerable.0,
          d.idle,
          λ n. omega (
            arith,
            d.answerable.1 n,
            handles-head j js n e,
            ap (λ w. count n (job_handles w)) d.idle,
          ),
        ) in
        round_runs r rs s u j (take_head r.woken_at s j js e d.flushed late) refl d.stopped d.alive
          (ih _
            (IsDraining-attempt t r.answer r.answered_at j u d.stopped d.alive flushed d.due
              attempting)
            (omega (
              arith,
              fuel,
              left_after r s u j d.stopped d.due (omega (arith, ap (length {A = Job}) e)),
            )))

  pub drain :
      (rs : List Round) (s : StateStore)
      → IsDraining t s
      → All (IsLate t) rs
      → left s < length rs
      → Ends rs s
  drain [] s d late fuel = absurd (omega (arith, fuel))
  drain (r ∷ rs) s d late fuel =
      from_queue r rs s d late.0 fuel (λ u d' f. drain rs u d' late.1 f) s.pending refl
