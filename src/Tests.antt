-- ===== src/Tests.antt =====
-- Runs of the theorems on concrete data.
mod Data
mod Credit
mod Webhook
mod Subscription
mod Usage
mod NotesData
mod Notes
mod Sync
