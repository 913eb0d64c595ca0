-- ===== src/Polling.antt =====
-- src/claudex/balanced/polling.py: the class ClaudeUsagePollCoordinator.
pub mod Coordinator
pub mod Persist
pub mod Tick
pub mod First
pub mod Budget
pub mod Order
pub mod Manual
