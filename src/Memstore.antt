-- ===== src/Memstore.antt =====
-- internal/memstore/memstore.go: the store behind repo.Store, in memory. Each operation is named
-- after its method. `now` is the reading of the store's clock (`Now`); the lock has no state.
pub mod Grants
pub mod Categories
pub mod Messages
pub mod Channels
pub mod Defaults
pub mod Templates
pub mod Logs
pub mod Finality
pub mod Inbox
mod Owned
unfoldable pub use Owned.*
