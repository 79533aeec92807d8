-- ===== src/Suite/Passing.antt =====
-- Tests that pass.
pub mod Alignments
pub mod Distinct
pub mod Exhausted
pub mod Mega
pub mod Stress
pub mod SizeChecks
