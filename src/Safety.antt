-- ===== src/Safety.antt =====
-- What the operations of the allocator guarantee, over a set-up allocator and one thread.
pub mod Layout
pub mod Find
pub mod Buckets
pub mod Next
pub mod Sound
pub mod Release
pub mod Routing
pub mod Allocation
pub mod Fill
pub mod Start
pub mod Own
