-- ===== src/Polling/Manual.antt =====
-- Manual refreshes: coalesced by account, and limited in rate over all accounts.
use claudex.Prelude.{
  ◌+◌, ◌≡◌, ◌⊎◌, inl, inr, refl, sym, string_eq, some, false, is_some, Bool-cases, ap, Option-cases,
  ◌==◌, Option, Bool, none, arith, true, if◌then◌else◌,
}
use claudex.Prelude.Int.{ℤ, ◌≤ℤ◌, ◌<ℤ◌, ◌-ℤ◌}
use claudex.Dict.{get}
use claudex.Dict.Laws.{get-put_self, get-put}
use claudex.Selection.Units.{AccountId}
use claudex.Selection.Units.{AccountId}
use claudex.Polling.Coordinator.{
  Coordinator, request_manual_refresh, is_manual_refresh_pending, is_within,
}

-- The limit's span since the last entry is over, or there was none.
abbrev pub IsOver : ℤ → Option ℤ → ℤ → Type 0
IsOver now none span = Unit
IsOver now (some last) span = span ≤ℤ now -ℤ last

abbrev pub IsEarly : ℤ → Option ℤ → ℤ → Type 0
IsEarly now none span = ⊥
IsEarly now (some last) span = now -ℤ last <ℤ span

-- The account is pending already; or it is too early for another one; or it is put into the queue.
abbrev pub Answers : AccountId → ℤ → Coordinator → Coordinator × Bool → Type 0
Answers account now c (d, queued) =
    ((is_some (get account c.pending_manual) ≡ true) × (queued ≡ true) × (d ≡ c))
    ⊎ ((get account c.pending_manual ≡ none)
        × IsEarly now c.last_manual_enqueue_at c.manual_rate_limit
        × (queued ≡ false)
        × (d ≡ record c { manual_rate_limited_count = c.manual_rate_limited_count + 1 }))
    ⊎ ((get account c.pending_manual ≡ none)
        × IsOver now c.last_manual_enqueue_at c.manual_rate_limit
        × (queued ≡ true)
        × ((a : AccountId)
            → get a d.pending_manual ≡ (if account == a then some now else get a c.pending_manual))
        × (d.last_manual_enqueue_at ≡ some now)
        × (d.manual_enqueued_count ≡ c.manual_enqueued_count + 1)
        × (d.manual_rate_limited_count ≡ c.manual_rate_limited_count))

is_within-IsEarly :
    (now span : ℤ) (last : Option ℤ) → is_within now last span ≡ true → IsEarly now last span
is_within-IsEarly now span none h = absurd (ground arith)
is_within-IsEarly now span (some last) h = ground (arith, h)

is_within-IsOver :
    (now span : ℤ) (last : Option ℤ) → is_within now last span ≡ false → IsOver now last span
is_within-IsOver now span none h = tt
is_within-IsOver now span (some last) h = ground (arith, h)

-- A manual refresh answers whether the account is pending afterwards. If it is pending already,
-- nothing changes. If not, and the limit's span since the last entry is not over, it answers false and
-- only counts the refusal. Otherwise it answers true, and the account and no other is put into the
-- queue, with the time, which is also kept as that of the last entry.
pub request_manual_refresh_sound :
    (account : AccountId) (now : ℤ) (c : Coordinator)
    → ((request_manual_refresh account now c).1
        ≡ is_manual_refresh_pending account (request_manual_refresh account now c).0)
      × Answers account now c (request_manual_refresh account now c)
unfolding request_manual_refresh is_manual_refresh_pending
request_manual_refresh_sound account now c = elim (Option-cases (get account c.pending_manual)) [
  | inr (t, there) ↦ rw there (sym (ap (is_some {A = ℤ}) there), inl (refl, refl, refl))
  | inl new ↦ elim (Bool-cases (is_within now c.last_manual_enqueue_at c.manual_rate_limit)) [
    | inl early ↦
        rw (new, early)
          (
            sym (ap (is_some {A = ℤ}) new),
            inr (inl (refl, is_within-IsEarly now _ c.last_manual_enqueue_at early, refl, refl)),
          )
    | inr late ↦
        rw (new, late)
          (
            sym (ap (is_some {A = ℤ}) (get-put_self account now c.pending_manual)),
            inr (
                inr (
                  refl,
                  is_within-IsOver now _ c.last_manual_enqueue_at late,
                  refl,
                  λ a. get-put a account now c.pending_manual,
                  refl,
                  refl,
                  refl,
                )),
          )
  ]
]
