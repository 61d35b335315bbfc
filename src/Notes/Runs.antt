-- ===== src/Notes/Runs.antt =====
-- Reasoning on the methods of src/core/services/NoteService.ts: transactions, faults and retries.
pub mod Atomic
pub mod Whole
pub mod Keeps
pub mod Ends
pub mod Retries
