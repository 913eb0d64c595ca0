-- ===== src/StateStore/Steps/Failing.antt =====
-- A failing attempt.
use claudex.Prelude.{
  ℕ, sym, if_keeps, ◌<◌, ◌↔◌, ap, ◌∙◌, Bool, ltb, suc, ◌+◌, ◌-◌, ◌*◌, ◌^◌, ◌≤◌, ◌≡◌, inl, inr, min,
  refl, subst, some_inj, List, [], ◌∷◌, ◌++◌, Option, none, some, true, false, contains, nat_eq,
  if◌then◌else◌, Bool-cases, arith,
}
use native.Mathlib.Omega.{pow_step}
use native.Mathlib.Nat.{mul_left_comm}
use claudex.Prelude.Int.{ℤ, pos, ◌+ℤ◌}
use claudex.StateStore.Steps.Crash.{backoff-eq-none}
use claudex.Dict.{Dict, get, put}
use claudex.Dict.Laws.{get-put}
use claudex.StateStore.Queue.{Job, StateStore, Failure, integrity_error, storage_full, transient}
use claudex.StateStore.Writer.{
  Answer, commits, fails_to_apply, fails_to_commit, mark_done, backoff, fail, execute, is_fenced,
  attempt, retry_after, remember, raise_barrier,
}

get-mark_done :
    (n : ℕ) (ns : List ℕ) (error : Option Failure) (settled : Dict ℕ (Option Failure))
    → get n (mark_done ns error settled) ≡ (if contains ns n then some error else get n settled)
unfolding mark_done
get-mark_done n [] error settled = refl
get-mark_done n (m ∷ ms) error settled =
    ground (arith, get-mark_done n ms error (put m error settled), get-put n m error settled)

abbrev pub failure_of : Answer → Option Failure
failure_of commits = none
failure_of (fails_to_apply f) = some f
failure_of (fails_to_commit f) = some f

-- The handles of the job are settled with the error, and the others are as they were.
abbrev pub IsRefused : Failure → Job → StateStore → StateStore → Type 0
IsRefused f job s t =
    (t.retrying ≡ s.retrying)
    × ((n : ℕ)
        → get n t.settled
          ≡ (if contains job.pending_writes n then some (some f) else get n s.settled))

-- What the failure comes to: an attempt that is not tried again settles the job's handles; a transient
-- error in a store that goes on puts the job off by a wait that doubles with each failure up to the
-- longest one, and from the 1025th failure on ends the writer's thread.
abbrev pub ComesTo : Failure → Bool → Bool → ℤ → Job → StateStore → StateStore → Type 0
ComesTo integrity_error stopping early now job s t =
    IsRefused integrity_error job s t × (t.persistence_degraded ≡ s.persistence_degraded)
ComesTo storage_full stopping early now job s t =
    IsRefused storage_full job s t × (t.persistence_degraded ≡ true)
ComesTo transient true early now job s t =
    IsRefused transient job s t × (t.persistence_degraded ≡ true)
ComesTo transient false true now job s t =
    (t.settled ≡ s.settled)
    × (t.writer_job ≡ s.writer_job)
    × (t.retrying
        ≡ s.retrying
          ++ record job {
            attempts = job.attempts + 1;
            next_attempt_at =
                some (
                  now
                  +ℤ pos (min s.retry_backoff_max (s.retry_backoff_initial * 2 ^ job.attempts)));
          }
            ∷ [])
    × (t.persistence_degraded ≡ true)
ComesTo transient false false now job s t =
    (t.settled ≡ s.settled)
    × (t.writer_job ≡ some (record job { attempts = job.attempts + 1 }))
    × (t.retrying ≡ s.retrying)
    × (t.writer_crashed ≡ true)

abbrev pub FailsWell : Failure → ℤ → Job → StateStore → StateStore → Type 0
FailsWell f now job s t =
    (t.database ≡ s.database)
    × (t.pending ≡ s.pending)
    × ComesTo f s.stopping (ltb job.attempts 1024) now job s t

refused :
    (f : Failure) (job : Job) (s : StateStore) (n : ℕ)
    → get n (mark_done job.pending_writes (some f) s.settled)
      ≡ (if contains job.pending_writes n then some (some f) else get n s.settled)
refused f job s n = get-mark_done n job.pending_writes (some f) s.settled

backoff-eq-some :
    (initial longest n : ℕ)
    → n < 1024
    → backoff initial longest (n + 1) ≡ some (min longest (initial * 2 ^ n))
unfolding backoff
backoff-eq-some initial longest n h =
    let within : ltb 1024 (n + 1) ≡ false = ground (arith, h) in
    let before : n + 1 - 1 ≡ n = omega arith in rw (within, before) refl

backoff_first : (initial longest : ℕ) → backoff initial longest 1 ≡ some (min longest initial)
unfolding backoff
backoff_first initial longest = ap some (omega arith)

backoff_overflows : (initial longest n : ℕ) → 1024 < n → backoff initial longest n ≡ none
unfolding backoff
backoff_overflows initial longest n h = ground (arith, h)

-- The branch that `fail` takes after a transient error.
module _ (now : ℤ) (job : Job) (s : StateStore) where
  abbrev gives_up : StateStore
  gives_up = record s {
    persistence_degraded = true;
    settled = mark_done job.pending_writes (some transient) s.settled;
  }

  fail-eq-gives_up : s.stopping ≡ true → fail transient now job s ≡ gives_up
  unfolding fail
  fail-eq-gives_up over =
      ap
        (λ b.
          if b
          then gives_up
          else retry_after (backoff s.retry_backoff_initial s.retry_backoff_max (job.attempts + 1))
              now job s)
        over

  fail-eq-retry_after :
      (wait : Option ℕ)
      → s.stopping ≡ false
      → backoff s.retry_backoff_initial s.retry_backoff_max (job.attempts + 1) ≡ wait
      → fail transient now job s ≡ retry_after wait now job s
  unfolding fail
  fail-eq-retry_after wait on e =
      ap
        (λ b.
          if b
          then gives_up
          else retry_after (backoff s.retry_backoff_initial s.retry_backoff_max (job.attempts + 1))
              now job s)
        on
      ∙ ap (λ w. retry_after w now job s) e

  ComesTo-at :
      (stopping early : Bool) (t u : StateStore)
      → s.stopping ≡ stopping
      → ltb job.attempts 1024 ≡ early
      → t ≡ u
      → ComesTo transient stopping early now job s u
      → ComesTo transient s.stopping (ltb job.attempts 1024) now job s t
  ComesTo-at stopping early t u e e' e'' h =
      subst (λ b. ComesTo transient b (ltb job.attempts 1024) now job s t) (sym e)
        (subst (λ b. ComesTo transient stopping b now job s t) (sym e')
          (subst (ComesTo transient stopping early now job s) (sym e'') h))

  transient_well : FailsWell transient now job s (fail transient now job s)
  transient_well = elim (Bool-cases s.stopping) [
    | inl over ↦
        let e = fail-eq-gives_up over in
        let h : ComesTo transient true (ltb job.attempts 1024) now job s gives_up =
          ((refl, refused transient job s), refl) in
        (
          ap (λ t. t.database) e,
          ap (λ t. t.pending) e,
          ComesTo-at true (ltb job.attempts 1024) _ gives_up over refl e h,
        )
    | inr on ↦ elim (Bool-cases (ltb job.attempts 1024)) [
      | inl early ↦
          let wait = min s.retry_backoff_max (s.retry_backoff_initial * 2 ^ job.attempts) in
          let e = fail-eq-retry_after (some wait) on (
            backoff-eq-some s.retry_backoff_initial s.retry_backoff_max job.attempts
              (ground (arith, early))) in
          (
            ap (λ t. t.database) e,
            ap (λ t. t.pending) e,
            ComesTo-at false true _ (retry_after (some wait) now job s) on early e
                (refl, refl, refl, refl),
          )
      | inr many ↦
          let e = fail-eq-retry_after none on (
            backoff_overflows s.retry_backoff_initial s.retry_backoff_max (job.attempts + 1)
              (ground (arith, many))) in
          (
            ap (λ t. t.database) e,
            ap (λ t. t.pending) e,
            ComesTo-at false false _ (retry_after none now job s) on many e
                (refl, refl, refl, refl),
          )
    ]
  ]

fail_well :
    (f : Failure) (now : ℤ) (job : Job) (s : StateStore) → FailsWell f now job s (fail f now job s)
unfolding fail
fail_well integrity_error now job s = (refl, refl, ((refl, refused integrity_error job s), refl))
fail_well storage_full now job s = (refl, refl, ((refl, refused storage_full job s), refl))
fail_well transient now job s = transient_well now job s

-- What the transaction changes in memory is nothing that a failure is about.
execute_same :
    (f : Failure) (now : ℤ) (job : Job) (s t : StateStore)
    → FailsWell f now job (execute job s) t
    → FailsWell f now job s t
unfolding execute
execute_same f now job s t =
    if_keeps (λ u. FailsWell f now job u t → FailsWell f now job s t)
      (is_fenced s.committed_barriers job) (λ h. h)
      (λ h. (h.0, h.1, same f s.stopping (ltb job.attempts 1024) h.2))
  where
    same :
        (f : Failure) (stopping early : Bool)
        → ComesTo f stopping early now job
            (record (remember job.payload job.payload_sequence s) {
              committed_barriers =
                  raise_barrier job.barrier job.payload_sequence s.committed_barriers;
            })
            t
        → ComesTo f stopping early now job s t
    same integrity_error stopping early h = h
    same storage_full stopping early h = h
    same transient true early h = h
    same transient false true h = h
    same transient false false h = h

-- An attempt that SQLite refuses leaves the database and the queue as they are. After an integrity
-- error or a full disk, and after any error while the store is stopping, exactly the job's handles are
-- settled with the error and no retry is added. After a transient error in a store that goes on no
-- handle is settled: up to its 1024th failure the job is put off, by a wait that doubles with each
-- failure up to the longest one; after more failures the writer's thread ends and keeps the job.
pub failed_attempt :
    (answer : Answer) (f : Failure) (now : ℤ) (job : Job) (s : StateStore)
    → failure_of answer ≡ some f
    → FailsWell f now job s (attempt answer now job s)
unfolding attempt
failed_attempt commits f now job s h = absurd (ground arith)
failed_attempt (fails_to_apply g) f now job s h =
    subst (λ x. FailsWell x now job s (fail g now job s)) (some_inj h) (fail_well g now job s)
failed_attempt (fails_to_commit g) f now job s h =
    subst (λ x. FailsWell x now job s (fail g now job (execute job s))) (some_inj h)
      (execute_same g now job s (fail g now job (execute job s))
        (fail_well g now job (execute job s)))

-- The wait doubles up to the longest one, whether the bound is taken before or after.
min_doubles :
    (longest initial n : ℕ)
    → min longest (initial * 2 ^ suc n) ≡ min longest (2 * min longest (initial * 2 ^ n))
min_doubles longest initial n =
    let doubled : initial * 2 ^ suc n ≡ 2 * (initial * 2 ^ n) =
      rw (pow_step 2 n) (mul_left_comm initial 2 (2 ^ n)) in
    omega (arith, doubled)

-- The wait after the first failure is the initial one, up to the longest; up to the 1024th failure it
-- is at most the longest one and doubles from one failure to the next up to it; and there is no wait,
-- but an exception, exactly after more than 1024 failures.
pub backoff_doubles :
    (initial longest attempts : ℕ)
    → attempts + 1 < 1024
    → (backoff initial longest 1 ≡ some (min longest initial))
      × ((wait : ℕ) × (backoff initial longest (attempts + 1) ≡ some wait)
          × (wait ≤ longest)
          × (backoff initial longest (attempts + 2) ≡ some (min longest (2 * wait))))
      × ((n : ℕ) → (backoff initial longest n ≡ none) ↔ (1024 < n))
backoff_doubles initial longest attempts early = (
  backoff_first initial longest,
  (
    min longest (initial * 2 ^ attempts),
    backoff-eq-some initial longest attempts (omega (arith, early)),
    omega arith,
    ap (backoff initial longest) (omega arith)
        ∙ backoff-eq-some initial longest (suc attempts) (omega (arith, early))
        ∙ ap some (min_doubles longest initial attempts),
  ),
  λ n. (backoff-eq-none initial longest n, backoff_overflows initial longest n),
)
