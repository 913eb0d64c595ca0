-- ===== src/StateStore/Steps/Jobs.antt =====
-- What holds of every job of a store, and how a run keeps it.
use claudex.Prelude.{
  ℕ, ◌+◌, ◌≡◌, sym, subst, List, [], ◌∷◌, Option, none, some, Bool, true, false, not, All,
  All-append, All-unappend, All-map, All-weaken, select, Bool-cases, inl, inr, arith, if_keeps,
}
use claudex.Prelude.Int.{ℤ}
use claudex.StateStore.Queue.{
  Job, StateStore, Failure, integrity_error, storage_full, transient, submit, enqueue, new_job,
  coalesce, hurry, hurry_if, same_scope,
}
use claudex.StateStore.Writer.{
  Answer, commits, fails_to_apply, fails_to_commit, take, wait_for_next_job, fail, succeed,
  is_retired, execute, is_fenced, attempt, close, due_at, delayed, failed_again, retry_after,
  backoff,
}
use claudex.StateStore.Steps.Taken.{take_keeps, Splits}
use claudex.StateStore.Steps.{
  Operation, perform_keeps, request_of, Step, operates, closes, wakes, attempts,
}

abbrev pub AllOption : (Job → Type 0) → Option Job → Type 0
AllOption P none = Unit
AllOption P (some job) = P job

-- A fact of the next sequence number, and one of each job at that number.
abbrev pub Every : (ℕ → Type 0) → (ℕ → Job → Type 0) → StateStore → Type 0
Every G P s =
    G s.next_sequence
    × All (P s.next_sequence) s.pending
    × All (P s.next_sequence) s.retrying
    × AllOption (P s.next_sequence) s.writer_job

pub All-Splits :
    (P : Job → Type 0) (jobs rest : List Job) (job : Job)
    → Splits jobs rest job
    → All P jobs
    → P job × All P rest
All-Splits P jobs rest job sp h =
    let parts = All-unappend P sp.before (job ∷ sp.after) (subst (All P) sp.whole h) in
    (parts.1.0, subst (All P) (sym sp.others) (All-append P sp.before sp.after parts.0 parts.1.1))

pub All-select :
    (P : Job → Type 0) (p : Job → Bool) (xs : List Job) → All P xs → All P (select p xs)
All-select P p [] h = tt
All-select P p (x ∷ xs) h = elim (Bool-cases (p x)) [
  | inl e ↦ rw e (h.0, All-select P p xs h.1)
  | inr e ↦ rw e (All-select P p xs h.1)
]

All-zip :
    (P Q R : Job → Type 0)
    → ((j : Job) → P j → Q j → R j)
    → (js : List Job) → All P js
    → All Q js
    → All R js
All-zip P Q R f [] p q = tt
All-zip P Q R f (j ∷ js) p q = (f j p.0 q.0, All-zip P Q R f js p.1 q.1)

AllOption-zip :
    (P Q R : Job → Type 0)
    → ((j : Job) → P j → Q j → R j)
    → (w : Option Job) → AllOption P w
    → AllOption Q w
    → AllOption R w
AllOption-zip P Q R f none p q = tt
AllOption-zip P Q R f (some j) p q = f j p q

pub Every-zip :
    (P Q R : Job → Type 0) (s : StateStore)
    → ((j : Job) → P j → Q j → R j)
    → Every (λ n. Unit) (λ n. P) s
    → Every (λ n. Unit) (λ n. Q) s
    → Every (λ n. Unit) (λ n. R) s
Every-zip P Q R s f p q = (
  tt,
  All-zip P Q R f s.pending p.1 q.1,
  All-zip P Q R f s.retrying p.2 q.2,
  AllOption-zip P Q R f s.writer_job p.3 q.3,
)

-- What an operation that is allowed, and the writer's changes to a job, must keep.
pub record Kept (Allowed : Operation → Type 0) (G : ℕ → Type 0) (P : ℕ → Job → Type 0)
    : Type 0 where
  pub bound_grows : (n : ℕ) → G n → G (n + 1)
  pub grows : (n : ℕ) (j : Job) → P n j → P (n + 1) j
  pub hurried : (n : ℕ) (now : ℤ) (j : Job) → P n j → P n (hurry now j)
  pub made_due : (n : ℕ) (now : ℤ) (j : Job) → P n j → P n (due_at now j)
  pub put_off : (n wait : ℕ) (now : ℤ) (j : Job) → P n j → P n (delayed wait now j)
  pub counted : (n : ℕ) (j : Job) → P n j → P n (failed_again j)
  pub fresh :
      (op : Operation)
      → Allowed op
      → (n : ℕ) (now debounce : ℤ) → G n
      → P (n + 1) (new_job (request_of op) n now debounce)
  pub merged :
      (op : Operation)
      → Allowed op
      → (n : ℕ) (j : Job) → G n
      → P n j
      → P (n + 1) (coalesce (request_of op) n j)

module _ {Allowed : Operation → Type 0} (G : ℕ → Type 0) (P : ℕ → Job → Type 0)
    (k : Kept Allowed G P) where
  AllOption-weaken : (n : ℕ) (w : Option Job) → AllOption (P n) w → AllOption (P (n + 1)) w
  AllOption-weaken n none h = tt
  AllOption-weaken n (some job) h = k.grows n job h

  All-grows : (n : ℕ) (jobs : List Job) → All (P n) jobs → All (P (n + 1)) jobs
  All-grows n jobs h = All-weaken (P n) (P (n + 1)) (k.grows n) jobs h

  All-enqueue :
      (op : Operation)
      → Allowed op
      → (n : ℕ) (now debounce : ℤ) (jobs : List Job) → G n
      → All (P n) jobs
      → All (P (n + 1)) (enqueue (request_of op) n now debounce jobs)
  unfolding enqueue
  All-enqueue op allowed n now debounce [] g h = (k.fresh op allowed n now debounce g, tt)
  All-enqueue op allowed n now debounce (j ∷ js) g h =
      elim (Bool-cases (same_scope j.scope_key (request_of op).scope_key)) [
        | inl same ↦ rw same (k.merged op allowed n j g h.0, All-grows n js h.1)
        | inr other ↦ rw other (k.grows n j h.0, All-enqueue op allowed n now debounce js g h.1)
      ]

  All-hurry_if :
      (n : ℕ) (high : Bool) (now : ℤ) (jobs : List Job)
      → All (P n) jobs
      → All (P n) (hurry_if high now jobs)
  All-hurry_if n false now jobs h = h
  All-hurry_if n true now jobs h = All-map (P n) (P n) (hurry now) (k.hurried n now) jobs h

  pub submit-Every :
      (op : Operation)
      → Allowed op
      → (now : ℤ) (s : StateStore) → Every G P s
      → Every G P (submit (request_of op) now s).0
  unfolding submit
  submit-Every op allowed now s h = elim (Bool-cases s.closed) [
    | inl shut ↦ rw shut h
    | inr on ↦ rw on (
        (
          k.bound_grows s.next_sequence h.0,
          All-hurry_if _ (request_of op).high_priority now _
              (All-enqueue op allowed s.next_sequence now s.debounce s.pending h.0 h.1),
          All-grows s.next_sequence s.retrying h.2,
          AllOption-weaken s.next_sequence s.writer_job h.3,
        ))
  ]

  close-Every : (now : ℤ) (s : StateStore) → Every G P s → Every G P (close now s)
  unfolding close
  close-Every now s h = elim (Bool-cases s.closed) [
    | inl shut ↦ rw shut h
    | inr on ↦ rw on (
        (
          h.0,
          All-map _ _ (hurry now) (k.hurried s.next_sequence now) s.pending h.1,
          All-map _ _ (due_at now) (k.made_due s.next_sequence now) s.retrying h.2,
          h.3,
        ))
  ]

  take-Every :
      (now : ℤ) (s : StateStore) → Every G P s → Every G P (take (wait_for_next_job now s) s)
  take-Every now s h =
      take_keeps (Every G P) s h
        (λ job js e.
          let parts : P s.next_sequence job × All (P s.next_sequence) js =
            subst (All (P s.next_sequence)) e h.1 in
          (h.0, parts.1, h.2, parts.0))
        (λ job rest sp.
          let parts = All-Splits (P s.next_sequence) s.retrying rest job sp h.2 in
          (h.0, h.1, parts.1, parts.0))
        now

  module _ (job : Job) where
    retry_after-Every :
        (wait : Option ℕ) (now : ℤ) (s : StateStore)
        → P s.next_sequence job
        → Every G P s
        → Every G P (retry_after wait now job s)
    retry_after-Every none now s p h = (h.0, h.1, h.2, k.counted s.next_sequence job p)
    retry_after-Every (some wait) now s p h = (
      h.0,
      h.1,
      All-append (P s.next_sequence) s.retrying _ h.2
          (k.put_off s.next_sequence wait now job p, tt),
      h.3,
    )

    fail-Every :
        (failure : Failure) (now : ℤ) (s : StateStore)
        → P s.next_sequence job
        → Every G P s
        → Every G P (fail failure now job s)
    unfolding fail
    fail-Every integrity_error now s p h = h
    fail-Every storage_full now s p h = h
    fail-Every transient now s p h = if_keeps (Every G P) s.stopping h (
        retry_after-Every (backoff s.retry_backoff_initial s.retry_backoff_max (job.attempts + 1))
          now s p h)

    succeed-Every : (s : StateStore) → Every G P s → Every G P (succeed job s)
    unfolding succeed
    succeed-Every s h = (
      h.0,
      h.1,
      All-select (P s.next_sequence) (λ retry. not (is_retired job retry)) s.retrying h.2,
      h.3,
    )

    execute_next : (s : StateStore) → (execute job s).next_sequence ≡ s.next_sequence
    unfolding execute
    execute_next s = ground arith

    execute-Every : (s : StateStore) → Every G P s → Every G P (execute job s)
    unfolding execute
    execute-Every s h = elim (Bool-cases (is_fenced s.committed_barriers job)) [
      | inl fenced ↦ rw fenced h
      | inr free ↦ rw free h
    ]

    pub attempt-Every :
        (answer : Answer) (now : ℤ) (s : StateStore)
        → P s.next_sequence job
        → Every G P s
        → Every G P (attempt answer now job s)
    unfolding attempt
    attempt-Every commits now s p h = succeed-Every _ (execute-Every s h)
    attempt-Every (fails_to_apply failure) now s p h = fail-Every failure now s p h
    attempt-Every (fails_to_commit failure) now s p h =
        fail-Every failure now (execute job s) (rw (execute_next s) p) (execute-Every s h)

  -- If the allowed operations and the writer's changes of a job keep it, every step does.
  pub Step-Every : (s t : StateStore) → Step Allowed s t → Every G P s → Every G P t
  Step-Every s t (operates op now allowed e) h =
      subst (Every G P) (sym e)
        (perform_keeps (Every G P) op now s (λ d. h) (λ u q. submit-Every op allowed now u q) h)
  Step-Every s t (closes now e) h = subst (Every G P) (sym e) (close-Every now s h)
  Step-Every s t (wakes now idle e) h = subst (Every G P) (sym e) (take-Every now s h)
  Step-Every s t (attempts answer now job alive e e') h = subst (Every G P) (sym e') (
      attempt-Every job answer now (record s { writer_job = none })
        (subst (AllOption (P s.next_sequence)) e h.3) (h.0, h.1, h.2, tt))
