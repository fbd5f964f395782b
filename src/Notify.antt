-- ===== src/Notify.antt =====
-- internal/notify: channels with sealed settings, templates, and the send pipeline.
pub mod Settings
pub mod Envelope
pub mod Credentials
pub mod Sealing
pub mod Blind
pub mod Checks
pub mod Channels
pub mod Manage
pub mod Defaults
pub mod SystemKey
pub mod Deliver
pub mod Send
pub mod Outcome
pub mod Passing
pub mod Gates
pub mod Complete
pub mod SystemSend
pub mod Namespace
pub mod Log
pub mod Scope
pub mod Platform
pub mod Render
pub mod Templates
pub mod Survival
pub mod Preview
pub mod Seed
pub mod Wording
