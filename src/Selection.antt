-- ===== src/Selection.antt =====
-- balanced/selection.py: quota families, usage pressure, weights, the weighted draw, eligibility and
-- the cooldown gate.
-- A duration or a clock reading is a whole number of microseconds, a percentage a whole number of
-- hundredths of a point.
pub mod Units
pub mod Family
pub mod Pressure
pub mod Observation
pub mod Weights
pub mod Pick
pub mod Gate
