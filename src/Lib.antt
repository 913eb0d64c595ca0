-- ===== src/Lib.antt =====
-- A model of how the gateway chooses an account for each request of its balanced pool
-- (src/claudex/balanced), and of the in-memory router that keeps every session on its account, moves
-- it to another one when its own fails, and remembers cooldowns and evidence; of the store that
-- persists all this behind a single writer; and of the fallback pool, which tries the accounts in
-- order.
--
-- The parts and their files:
--   Prelude            Boolean tests, list and number helpers, equality (Prelude/Keys), and signed
--                      numbers for clock readings (Prelude/Int).
--   Dict               Python's dict as an association list in insertion order, with its laws.
--   Selection          src/claudex/balanced/selection.py. Units (points and seconds), Family (the
--                      quota family and capability key of a model id), Pressure (freshness classes
--                      and the unknown floor), Observation (ObservationView), Weights (headroom,
--                      emergency weights, select_weights), Pick (session keys, the weighted
--                      rendezvous draw, eligibility), Gate (classify_balanced_cooldown_scope).
--   Router             src/claudex/balanced/router.py, the class ClaudeBalancedRouter. State (its
--                      fields, and the rows of src/claudex/balanced/state_model.py), Store (its
--                      submissions to the state store), Attempts (begin_attempt, end_attempt,
--                      ingestion), Pins (expiry, LRU eviction, the bound), Place (place_session),
--                      Migration (reservations, tokens, commit_at_headers), Removal
--                      (remove_account), Restore (restore_from_store), Cooldown, Capability and
--                      Durability (the barrier of a pin generation).
--   Pool               src/claudex/claude/account_pool.py: AccountCooldownTracker (Tracker) and
--                      build_serving_chain (Chain), the fallback order of the accounts; AccountRecord
--                      is of src/claudex/claude/account_model.py.
--   StateStore         src/claudex/balanced/state_store.py, the class ClaudePoolRuntimeStateStore. Keys
--                      (scopes of rows and barriers), Tables (the database, and what a payload does
--                      to it; Tables/Restore is _do_restore), Queue (the state, and _submit), Writer
--                      (_wait_for_next_job, _attempt, _writer_loop, close), Operations (the public
--                      methods that submit), Reads, Open (open_ and a new store), Steps (runs: any
--                      operation, the writer taking a job, an attempt, a close).
--   Polling            src/claudex/balanced/polling.py, the class ClaudeUsagePollCoordinator. Coordinator
--                      (its state, manual refreshes, _due_order), Persist (the durable rows of an
--                      observation), Tick (run_due_poll), First and Budget (which candidate of a tick
--                      gets its call), Order and Manual. It feeds the router and submits to the store.
--   Tests              The theorems at concrete inputs.
--
-- How the code and the model correspond. A method becomes a function from the state of the router
-- to its next state, with its result beside it; a method that only reads returns its result alone.
-- Each modelled method runs without a suspension point, so a run of the program is a sequence of
-- these functions in some order; a coroutine that waits is a function up to the wait and one from
-- its end. Only a tick of the poll coordinator is one function of what the cache answers at its
-- waits: the ticks run one after another, and no other call comes into the coordinator, its router
-- or its store during a poll. Objects that several coroutines hold (a reservation, a barrier) stand
-- on heaps of the router, by index. Clock readings are arguments, in microseconds, on signed
-- numbers; a loop that reads the clocks for each of its elements takes the readings as a function
-- of the element's place. Percentages are in hundredths of a point, a warning factor in halves of
-- one, and a weight or a score is an exact fraction: the rounding of floats is not modelled. An
-- exception is a constructor of the result.
--
-- The store is two threads: its callers submit under the lock of _submit, and the writer takes a job
-- under the lock of _wait_for_next_job and works on it outside of it. Steps interleaves them: between
-- the taking of a job and its attempt any operation may come, and the attempt itself is one step,
-- since no submission reads or writes what it changes. A handle (PendingWrite) is its sequence number,
-- and the map settled holds those that are done, each with its error. SQLite is seen as tables by
-- primary key with a transaction that commits or leaves them alone. An exception that leaves _attempt
-- (the wait after more than 1024 failures of a job overflows) ends the writer's thread: writer_crashed
-- is then true, the thread keeps its job, and no step of the writer follows.
--
-- Loops and fuel. The token search has as much fuel as the text has letters and two more, and each
-- round starts at a later position. The eviction loop has as much fuel as there are pins and one
-- more, and each round removes a pin. The writer loop runs over a list of rounds, each with its clock
-- readings and SQLite's answer. All other loops are by recursion on their list.
--
-- What is a parameter: HMAC-SHA-256 and the logarithm (record Sampling of Selection/Pick), the
-- canonical encoding of a request message, the session id that a body carries, the merging of
-- response headers into the observations at a commit, the order in which a set is visited, and the
-- formatting of a float. The usage cache's answers to a tick and SQLite's answer to each attempt
-- are arguments, as are a fresh epoch id and seed and what stands at the database's path. The
-- router sees its store as a list of submitted writes, or a refusal when it is closed.
--
-- What is not modelled: how the fallback pool derives a cooldown from a rejection, the permissions
-- and names of the store's files, the runtime that starts the poll driver, the network clients, the
-- translation of bodies, and the user interfaces.
pub mod Prelude
pub mod Dict
pub mod Selection
pub mod Router
pub mod Pool
pub mod StateStore
pub mod Polling
pub mod Tests
