-- ===== src/StateStore.antt =====
-- src/claudex/balanced/state_store.py: the class ClaudePoolRuntimeStateStore.
pub mod Keys
pub mod Tables
pub mod Queue
pub mod Writer
pub mod Operations
pub mod Reads
pub mod Open
pub mod Steps
