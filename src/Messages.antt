-- ===== src/Messages.antt =====
-- internal/messages: categories, the message state machine, fan-out to inboxes, the scheduler.
pub mod Input
pub mod Cursor
pub mod Publish
pub mod Categories
pub mod Service
pub mod Scheduler
pub mod Steps
pub mod Refines
pub mod Calls
pub mod Lifecycle
pub mod Delivery
pub mod Refusals
pub mod Leases
pub mod Validation
pub mod Revocation
