-- ===== src/Cache.antt =====
-- internal/cache: the cache of packages, addressed by their hashes.
pub mod DebFilename
pub mod State
pub mod Access
pub mod Store
pub mod Rows
pub mod Eviction
pub mod Ends
pub mod Sound
pub mod Space
pub mod World
pub mod PutGet
pub mod Metadata
mod Examples
