-- ===== src/Notes/Pages.antt =====
-- The pages of the lists in src/infra/repositories/NoteRepositoryMongo.ts.
pub mod Paging
pub mod Walk
