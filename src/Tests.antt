-- ===== src/Tests.antt =====
-- Runs of the theorems at concrete inputs.
mod Data
mod Bump
mod Blocks
mod Caches
mod Worlds
mod Numbers
mod Runs
mod Lifetimes
mod Suites
mod Stress
