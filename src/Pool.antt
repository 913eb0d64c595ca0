-- ===== src/Pool.antt =====
-- The fallback pool of src/claudex/claude/account_pool.py: cooldowns of rate-limited accounts, and the
-- order in which a request tries the accounts.
pub mod Tracker
pub mod Chain
