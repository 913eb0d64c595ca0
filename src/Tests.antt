-- ===== src/Tests.antt =====
-- Witnesses: the theorems at concrete inputs.
mod Data
mod Migration
mod Pins
mod Choice
mod Records
mod Fallback
mod Store
mod Polling
