-- ===== src/Notes/Documents.antt =====
-- The methods of src/core/services/NoteService.ts that hand documents to SyncService.
use graph_node_be.Common.{ℕ, Option, String, List, false}
use graph_node_be.Notes.Docs.{NoteDoc, FolderDoc}
use graph_node_be.Notes.Effects.{Act, query, run, with_retry}
use graph_node_be.Notes.Repository
use graph_node_be.Notes.Folders
use graph_node_be.Notes.Queries

module _ {G : Type 0} where
  unfoldable pub notes_modified_since : String → ℕ → Act G (List NoteDoc)
  notes_modified_since u since = with_retry (query (Queries.find_notes_modified_since u since))

  unfoldable pub folders_modified_since : String → ℕ → Act G (List FolderDoc)
  folders_modified_since u since = with_retry (query (Queries.find_folders_modified_since u since))

  unfoldable pub get_note_doc : String → String → Act G (Option NoteDoc)
  get_note_doc u id = with_retry (query (Repository.get_note id u false))

  unfoldable pub get_folder_doc : String → String → Act G (Option FolderDoc)
  get_folder_doc u id = with_retry (query (Folders.get_folder id u false))

  abbrev pub create_note_doc : ℕ → NoteDoc → Act G NoteDoc
  create_note_doc now doc = with_retry (run (Repository.create_note now doc))

  abbrev pub update_note_doc : ℕ → String → String → (NoteDoc → NoteDoc) → Act G (Option NoteDoc)
  update_note_doc now id u set = with_retry (run (Repository.update_note now id u set))

  abbrev pub create_folder_doc : ℕ → FolderDoc → Act G FolderDoc
  create_folder_doc now doc = with_retry (run (Folders.create_folder now doc))

  abbrev pub update_folder_doc :
      ℕ → String → String → (FolderDoc → FolderDoc) → Act G (Option FolderDoc)
  update_folder_doc now id u set = with_retry (run (Folders.update_folder now id u set))
