-- ===== src/Sync/Service.antt =====
-- src/core/services/SyncService.ts for notes and folders, on src/core/services/NoteService.ts: the
-- whole of pullNotes, and push of a request without conversations and messages. `now` is the
-- clock of the server, and a date of the request the number that it stands for. In MongoDB every
-- statement after a failed one of the same transaction fails too; here it may succeed.
use graph_node_be.Common.{ℕ, Option, none, some, String, List, [], ◌∷◌, map, leb, if◌then◌else◌}
use graph_node_be.Store.Effects.{validation, pure, raise, ◌>>=◌, ◌>>◌}
use graph_node_be.Notes.Collections.{find_all}
use graph_node_be.Notes.Docs.{NoteDoc, FolderDoc, is_null}
use graph_node_be.Notes.Effects.{Act, transaction}
use graph_node_be.Notes.Service.{or_null}
use graph_node_be.Notes.Documents.{
  notes_modified_since, folders_modified_since, get_note_doc, get_folder_doc, create_note_doc,
  create_folder_doc, update_note_doc, update_folder_doc,
}

-- A note and a folder of a request
pub record SyncNote : Type 0 where
  pub id : String
  pub title : String
  pub content : String
  pub folder_id : Option String
  pub created_at : ℕ
  pub updated_at : ℕ
  pub deleted_at : Option ℕ

pub record SyncFolder : Type 0 where
  pub id : String
  pub name : String
  pub parent_id : Option String
  pub created_at : ℕ
  pub updated_at : ℕ
  pub deleted_at : Option ℕ

abbrev pub note_doc : String → SyncNote → NoteDoc
note_doc u dto = record {
  id = dto.id;
  owner_user_id = u;
  title = dto.title;
  content = dto.content;
  folder_id = or_null dto.folder_id;
  created_at = dto.created_at;
  updated_at = dto.updated_at;
  deleted_at = dto.deleted_at;
}

abbrev pub folder_doc : String → SyncFolder → FolderDoc
folder_doc u dto = record {
  id = dto.id;
  owner_user_id = u;
  name = dto.name;
  parent_id = or_null dto.parent_id;
  created_at = dto.created_at;
  updated_at = dto.updated_at;
  deleted_at = dto.deleted_at;
}

module _ {G : Type 0} where
  -- No date, one that is none, or a date
  abbrev pub parse_since : Option (Option ℕ) → Act G ℕ
  parse_since none = pure 0
  parse_since (some none) = raise validation
  parse_since (some (some t)) = pure t

  unfoldable pull_notes : String → Option (Option ℕ) → Act G (List NoteDoc × List FolderDoc)
  pull_notes u since_input = do
    since ← parse_since since_input
    notes ← notes_modified_since u since
    folders ← folders_modified_since u since
    pure (find_all (λ n. is_null n.deleted_at) notes, find_all (λ f. is_null f.deleted_at) folders)

  unfoldable pub existing_notes : String → List NoteDoc → Act G (List (Option NoteDoc))
  existing_notes u [] = pure []
  existing_notes u (d ∷ ds) = do e ← get_note_doc u d.id; es ← existing_notes u ds; pure (e ∷ es)

  unfoldable pub existing_folders : String → List FolderDoc → Act G (List (Option FolderDoc))
  existing_folders u [] = pure []
  existing_folders u (d ∷ ds) = do
    e ← get_folder_doc u d.id
    es ← existing_folders u ds
    pure (e ∷ es)

  -- The newer document wins: what the server has from the same time or later stays.
  unfoldable pub push_note : ℕ → String → NoteDoc → Option NoteDoc → Act G (Unit {0})
  push_note now u doc none = create_note_doc now doc >> pure tt
  push_note now u doc (some e) =
      if leb doc.updated_at e.updated_at
      then pure tt
      else (update_note_doc now doc.id u (λ _. doc) >> pure tt)

  unfoldable pub push_folder : ℕ → String → FolderDoc → Option FolderDoc → Act G (Unit {0})
  push_folder now u doc none = create_folder_doc now doc >> pure tt
  push_folder now u doc (some e) =
      if leb doc.updated_at e.updated_at
      then pure tt
      else (update_folder_doc now doc.id u (λ _. doc) >> pure tt)

  unfoldable pub push_notes : ℕ → String → List NoteDoc → List (Option NoteDoc) → Act G (Unit {0})
  push_notes now u (d ∷ ds) (e ∷ es) = push_note now u d e >> push_notes now u ds es
  push_notes now u _ _ = pure tt

  unfoldable pub push_folders :
      ℕ → String → List FolderDoc → List (Option FolderDoc) → Act G (Unit {0})
  push_folders now u (d ∷ ds) (e ∷ es) = push_folder now u d e >> push_folders now u ds es
  push_folders now u _ _ = pure tt

  unfoldable pub push : ℕ → String → List SyncNote → List SyncFolder → Act G (Unit {0})
  push now u notes folders = do
    ns ← existing_notes u (map (note_doc u) notes)
    fs ← existing_folders u (map (folder_doc u) folders)
    transaction (
        push_notes now u (map (note_doc u) notes) ns
        >> push_folders now u (map (folder_doc u) folders) fs)
