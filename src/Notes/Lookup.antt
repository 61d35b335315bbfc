-- ===== src/Notes/Lookup.antt =====
-- The folders below a folder: the lookup of src/infra/repositories/NoteRepositoryMongo.ts, and keys.
pub mod Edges
pub mod Below
pub mod Updates
pub mod Keys
pub mod Owned
