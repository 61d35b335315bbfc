-- ===== src/Sync.antt =====
-- The synchronisation of a client's notes and folders: src/core/services/SyncService.ts.
pub mod Service
pub mod Pushes
pub mod Writes
pub mod Conflicts
pub mod Single
