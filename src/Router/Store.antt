-- ===== src/Router/Store.antt =====
-- The router's submissions to its store: a closed store raises `RuntimeError`.
use claudex.Prelude.{
  ℕ, [], ◌∷◌, ◌++◌, Option, none, some, Bool, ◌||◌, not, true, false, length, if◌then◌else◌,
}
use claudex.Router.State.{Router, RuntimeStore, StoreWrite}

-- No submission, a handle, or the exception.
pub data Submission : Type 0 where
  not_submitted : Submission
  pending_write : ℕ → Submission
  store_closed : Submission

unfoldable pub submit_to : Option RuntimeStore → StoreWrite → Router → Router × Submission
submit_to none write r = (r, not_submitted)
submit_to (some s) write r = if s.closed then (r, store_closed) else (
  record r { store = some (record s { submitted = s.submitted ++ write ∷ [] }) },
  pending_write (length s.submitted),
)

abbrev pub submit : StoreWrite → Router → Router × Submission
submit write r = submit_to r.store write r

abbrev pub is_degraded : Option RuntimeStore → Bool
is_degraded none = false
is_degraded (some s) = s.persistence_degraded

-- The property `persistence_degraded`.
abbrev pub persistence_degraded : Router → Bool
persistence_degraded r = r.persistence_degraded || is_degraded r.store

-- `try: submit … except RuntimeError: self.persistence_degraded = True`
abbrev pub degrade_if_closed : Router × Submission → Router
degrade_if_closed (r, store_closed) = record r { persistence_degraded = true }
degrade_if_closed (r, _) = r

-- A write's wait ends: one that failed degrades the router.
unfoldable pub finish_write : Option ℕ → Bool → Router → Router
finish_write none succeeded r = r
finish_write (some write) succeeded r = record r {
  persistence_degraded = r.persistence_degraded || not succeeded;
}

-- The write that a coroutine waits for, if it was submitted; a closed store degrades the router.
abbrev pub awaited : Router × Submission → Router × Option ℕ
awaited (r, not_submitted) = (r, none)
awaited (r, store_closed) = (record r { persistence_degraded = true }, none)
awaited (r, pending_write i) = (r, some i)
