-- ===== src/Client.antt =====
-- A program that uses an allocator: it allocates, frees what it holds, and writes into what it
-- holds, in any order.
pub mod Lists
pub mod Heap
pub mod Runs
pub mod Ghost
pub mod Apart
pub mod Outside
pub mod Invariant
pub mod Frees
pub mod Aligned
pub mod Allocates
pub mod Own
pub mod Written
pub mod Covers
pub mod Resizes
pub mod Usage
pub mod Usable
pub mod Contents
pub mod Start
pub mod Statistics
pub mod Members
