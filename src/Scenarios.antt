-- ===== src/Scenarios.antt =====
-- Runs of the operations at concrete stores, at which the theorems apply.
mod Access
mod Messaging
mod Publication
mod Reading
mod Settings
mod Sealing
mod Sending
mod Wording
mod Complete
mod Streaming
mod Auditing
