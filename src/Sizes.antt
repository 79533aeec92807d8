-- ===== src/Sizes.antt =====
-- The partitioning of allocation sizes into buckets: what every scheme promises to the allocator,
-- and the three schemes of SmMalloc/smmalloc.h.
mod Defs
pub mod Linear
pub mod Piecewise
pub mod Float
pub mod Tables
pub use Defs.*
