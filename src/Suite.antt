-- ===== src/Suite.antt =====
-- The tests: smmalloc_test01.cpp (Suite/Simple) and smmalloc_test02.cpp (Suite/Threads), over the C interface.
pub mod Gtest
pub mod Report
pub mod Process
pub mod Triples
pub mod Simple
pub mod Threads
pub mod Heaps
pub mod Created
pub mod Passing
