-- ===== src/Redis.antt =====
-- The server that the library stores its state on.
mod Interface
pub mod Memory
pub mod Hashes
pub mod HashMemory
pub mod Namespace
pub use Interface.{Redis, exists_set}
