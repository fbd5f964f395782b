-- ===== src/Stream.antt =====
-- internal/stream: the live events.
pub mod Ids
pub mod Memory
pub mod Limiter
pub mod Hub
