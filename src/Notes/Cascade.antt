-- ===== src/Notes/Cascade.antt =====
-- Deletion, restoration and cleanup of whole trees in src/core/services/NoteService.ts.
pub mod Cuts
pub mod Answers
pub mod Restores
pub mod Rooted
pub mod RootedDelete
pub mod Regrown
pub mod RootedRestore
pub mod Undeleted
pub mod Again
pub mod RoundTrip
pub mod Cleanup
