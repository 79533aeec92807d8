-- ===== src/Allocator.antt =====
-- `sm::Allocator` of SmMalloc/smmalloc.h and SmMalloc/smmalloc.cpp.
mod Defs
mod Allocate
mod Free
mod Setup
mod ThreadCache
unfoldable pub use Defs.*
unfoldable pub use Allocate.*
unfoldable pub use Free.*
unfoldable pub use Setup.*
unfoldable pub use ThreadCache.*
