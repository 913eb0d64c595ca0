-- ===== src/Router.antt =====
-- balanced/router.py: the pins, cooldowns, capability evidence and migrations of balanced routing.
-- A method is a function from the router to the router; the clocks are read by the caller.
pub mod State
pub mod Store
pub mod Attempts
pub mod Cooldown
pub mod Capability
pub mod Pins
pub mod Place
pub mod Migration
pub mod Removal
pub mod Restore
pub mod Durability
