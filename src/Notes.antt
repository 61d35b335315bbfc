-- ===== src/Notes.antt =====
-- Notes and folders: src/core/services/NoteService.ts on src/infra/repositories/NoteRepositoryMongo.ts.
pub mod Collections
pub mod Docs
pub mod Effects
pub mod Repository
pub mod Folders
pub mod Descendants
pub mod Listing
pub mod Queries
pub mod Service
pub mod Documents
pub mod Trees
pub mod Members
pub mod Runs
pub mod Lookup
pub mod Cascade
pub mod Pages
