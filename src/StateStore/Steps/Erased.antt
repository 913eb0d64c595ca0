-- ===== src/StateStore/Steps/Erased.antt =====
-- What no step brings back: the rows of an incarnation whose barrier is raised.
use claudex.Prelude.{
  ℕ, ◌≤◌, ◌<◌, ◌≡◌, sym, subst, String, string_eq, List, [], ◌∷◌, Option, none, some, true, false,
  contains, any, ◌==◌, ==_iff, Bool-cases, inl, inr, arith, if_keeps, ◌+◌,
}
use claudex.Prelude.Int.{ℤ}
use claudex.Dict.{Dict, get}
use claudex.Dict.Laws.{get-put}
use claudex.StateStore.Keys.{Barrier, barrier_eq, incarnation_barrier}
use claudex.StateStore.Tables.Rows.{HasNoRow, writes, apply_tables-HasNoRow, tables-apply_payload}
use claudex.StateStore.Queue.{
  Job, StateStore, Failure, integrity_error, storage_full, transient, submit, new_job, coalesce,
  Request, hurry,
}
use claudex.StateStore.Writer.{
  Answer, commits, fails_to_apply, fails_to_commit, is_later, raised, raise_barrier, is_fenced,
  fail, retry_after, backoff, succeed, execute, committed, attempt, close,
}
use claudex.StateStore.Steps.Taken.{take_keeps}
use claudex.StateStore.Steps.Jobs.{AllOption, Every, Kept, Step-Every}
use claudex.StateStore.Steps.{
  Operation, perform_keeps, request_of, Step, operates, closes, wakes, attempts, Run, Run_keeps,
}

-- An operation that writes no row of the incarnation.
abbrev pub IsSilent : String → Operation → Type 0
IsSilent i op = writes i (request_of op).payload ≡ false

-- The barrier has been raised to a sequence number.
pub record IsRaised (i : String) (b : ℕ) (barriers : Dict Barrier ℕ) : Type 0 where
  pub level : ℕ
  pub raised_to : get (incarnation_barrier i) barriers ≡ some level
  pub high : b ≤ level

raise-IsRaised :
    (i : String) (b : ℕ) (barrier : Option Barrier) (n : ℕ) (barriers : Dict Barrier ℕ)
    → IsRaised i b barriers
    → IsRaised i b (raise_barrier barrier n barriers)
raise-IsRaised i b none n barriers h = h
raise-IsRaised i b (some k) n barriers h = elim (Bool-cases (k == incarnation_barrier i)) [
  | inl same ↦ record {
    level = raised (some h.level) n;
    raised_to = ground (
      arith,
      get-put (incarnation_barrier i) k (raised (get k barriers) n) barriers,
      h.raised_to,
      ==_iff k (incarnation_barrier i),
    );
    high = omega (arith, h.high);
  }
  | inr other ↦ record {
    level = h.level;
    raised_to = ground (
      arith,
      get-put (incarnation_barrier i) k (raised (get k barriers) n) barriers,
      h.raised_to,
    );
    high = h.high;
  }
]

-- A job that writes a row of the incarnation is older than the deletion, and fenced.
abbrev pub IsBarred : String → ℕ → Job → Type 0
IsBarred i b j =
    writes i j.payload ≡ true
    → (contains j.fence (incarnation_barrier i) ≡ true) × (j.payload_sequence < b)

pub IsBarred-kept : (i : String) (b : ℕ) → Kept (IsSilent i) (λ n. Unit) (λ n. IsBarred i b)
unfolding hurry new_job coalesce
IsBarred-kept i b = record {
  bound_grows = λ n g. tt;
  grows = λ n j h. h;
  hurried = λ n now j h. h;
  made_due = λ n now j h. h;
  put_off = λ n wait now j h. h;
  counted = λ n j h. h;
  fresh = λ op silent n now debounce g w. ground (arith, silent, w);
  merged = λ op silent n j g h w. ground (arith, silent, w);
}

fence_bars :
    (i : String) (b n : ℕ) (fence : List Barrier) (barriers : Dict Barrier ℕ)
    → IsRaised i b barriers
    → n < b
    → contains fence (incarnation_barrier i) ≡ true
    → any (λ k. is_later (get k barriers) n) fence ≡ true
fence_bars i b n [] barriers r low h = cc
fence_bars i b n (k ∷ ks) barriers r low h = ground (
  arith,
  ==_iff k (incarnation_barrier i),
  r.raised_to,
  r.high,
  fence_bars i b n ks barriers r low,
)

-- The tables have no row of the incarnation, and its barrier is raised to a number.
abbrev pub IsErased : String → ℕ → StateStore → Type 0
IsErased i b s = HasNoRow i s.database.tables × IsRaised i b s.committed_barriers

-- And every job that writes a row of it will find the barrier raised above its payload.
pub record IsGone (i : String) (b : ℕ) (s : StateStore) : Type 0 where
  pub jobs : Every (λ n. Unit) (λ n. IsBarred i b) s
  pub erased : IsErased i b s

module _ (i : String) (b : ℕ) where
  committed-HasNoRow :
      (job : Job) (s : StateStore)
      → IsBarred i b job
      → HasNoRow i s.database.tables
      → IsRaised i b s.committed_barriers
      → HasNoRow i (committed job s).tables
  unfolding committed is_fenced
  committed-HasNoRow job s barred rows raised = elim (Bool-cases (writes i job.payload)) [
    | inl writer ↦
        let p = barred writer in
        rw (fence_bars i b job.payload_sequence job.fence s.committed_barriers raised p.1 p.0) rows
    | inr silent ↦ elim (Bool-cases (is_fenced s.committed_barriers job)) [
      | inl fenced ↦ rw fenced rows
      | inr free ↦
          rw (free, tables-apply_payload s.balanced_epoch_id job.payload s.database)
            (apply_tables-HasNoRow i s.balanced_epoch_id job.payload s.database.tables silent rows)
    ]
  ]

  execute-IsRaised :
      (job : Job) (s : StateStore)
      → IsRaised i b s.committed_barriers
      → IsRaised i b (execute job s).committed_barriers
  unfolding execute
  execute-IsRaised job s h = elim (Bool-cases (is_fenced s.committed_barriers job)) [
    | inl fenced ↦ rw fenced h
    | inr free ↦
        rw free (raise-IsRaised i b job.barrier job.payload_sequence s.committed_barriers h)
  ]

  retry_after-IsErased :
      (wait : Option ℕ) (now : ℤ) (job : Job) (s : StateStore)
      → IsErased i b s
      → IsErased i b (retry_after wait now job s)
  retry_after-IsErased none now job s h = h
  retry_after-IsErased (some wait) now job s h = h

  fail-IsErased :
      (failure : Failure) (now : ℤ) (job : Job) (s : StateStore)
      → IsErased i b s
      → IsErased i b (fail failure now job s)
  unfolding fail
  fail-IsErased integrity_error now job s h = h
  fail-IsErased storage_full now job s h = h
  fail-IsErased transient now job s h = if_keeps (IsErased i b) s.stopping h (
      retry_after-IsErased (backoff s.retry_backoff_initial s.retry_backoff_max (job.attempts + 1))
        now job s h)

  execute-IsErased : (job : Job) (s : StateStore) → IsErased i b s → IsErased i b (execute job s)
  unfolding execute
  execute-IsErased job s h = elim (Bool-cases (is_fenced s.committed_barriers job)) [
    | inl fenced ↦ rw fenced h
    | inr free ↦
        rw free (h.0, raise-IsRaised i b job.barrier job.payload_sequence s.committed_barriers h.1)
  ]

  attempt-IsErased :
      (answer : Answer) (now : ℤ) (job : Job) (s : StateStore)
      → IsBarred i b job
      → IsErased i b s
      → IsErased i b (attempt answer now job s)
  unfolding attempt succeed
  attempt-IsErased commits now job s barred h =
      (committed-HasNoRow job s barred h.0 h.1, execute-IsRaised job s h.1)
  attempt-IsErased (fails_to_apply failure) now job s barred h = fail-IsErased failure now job s h
  attempt-IsErased (fails_to_commit failure) now job s barred h =
      fail-IsErased failure now job _ (execute-IsErased job s h)

  submit-IsErased :
      (q : Request) (now : ℤ) (s : StateStore) → IsErased i b s → IsErased i b (submit q now s).0
  unfolding submit
  submit-IsErased q now s h = elim (Bool-cases s.closed) [ inl shut ↦ rw shut h | inr on ↦ rw on h ]

  close-IsErased : (now : ℤ) (s : StateStore) → IsErased i b s → IsErased i b (close now s)
  unfolding close
  close-IsErased now s h = elim (Bool-cases s.closed) [ inl shut ↦ rw shut h | inr on ↦ rw on h ]

  Step-IsErased : (s t : StateStore) → Step (IsSilent i) s t → IsGone i b s → IsErased i b t
  Step-IsErased s t (operates op now silent e) h = subst (IsErased i b) (sym e) (
      perform_keeps (IsErased i b) op now s (λ d. h.erased)
        (λ u k. submit-IsErased (request_of op) now u k) h.erased)
  Step-IsErased s t (closes now e) h = subst (IsErased i b) (sym e) (close-IsErased now s h.erased)
  Step-IsErased s t (wakes now idle e) h =
      subst (IsErased i b) (sym e)
        (take_keeps (IsErased i b) s h.erased (λ job js p. h.erased) (λ job rest p. h.erased) now)
  Step-IsErased s t (attempts answer now job alive e e') h = subst (IsErased i b) (sym e') (
      attempt-IsErased answer now job (record s { writer_job = none })
        (subst (AllOption (IsBarred i b)) e h.jobs.3) h.erased)

  pub Run-IsGone : {s t : StateStore} → Run (IsSilent i) s t → IsGone i b s → IsGone i b t
  Run-IsGone r h =
      Run_keeps (IsGone i b)
        (λ s t st g. record {
          jobs = Step-Every (λ n. Unit) (λ n. IsBarred i b) (IsBarred-kept i b) s t st g.jobs;
          erased = Step-IsErased s t st g;
        })
        r h
