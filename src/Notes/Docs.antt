-- ===== src/Notes/Docs.antt =====
-- The documents of notes and folders (src/core/types/persistence/note.persistence.ts) and the two
-- collections. A date is a number of milliseconds; `deletedAt` is null or a date, since the
-- repository writes the field into every document.
use graph_node_be.Common.{ℕ, Option, none, some, String, List, Bool, true, false, ◌&&◌}
use graph_node_be.Common.Text.{◌==◌}
use graph_node_be.Notes.Collections.{elem}

pub record NoteDoc : Type 0 where
  pub id : String
  pub owner_user_id : String
  pub title : String
  pub content : String
  pub folder_id : Option String
  pub created_at : ℕ
  pub updated_at : ℕ
  pub deleted_at : Option ℕ

pub record FolderDoc : Type 0 where
  pub id : String
  pub owner_user_id : String
  pub name : String
  pub parent_id : Option String
  pub created_at : ℕ
  pub updated_at : ℕ
  pub deleted_at : Option ℕ

pub record Tables : Type 0 where
  pub notes : List NoteDoc
  pub folders : List FolderDoc

-- `deletedAt: null`
abbrev pub is_null : Option ℕ → Bool
is_null none = true
is_null (some t) = false

-- The filters `{ _id, ownerUserId }`, with and without `deletedAt: null`.
abbrev pub is_note : String → String → NoteDoc → Bool
is_note id u n = (n.id == id) && (n.owner_user_id == u)

abbrev pub is_active_note : String → String → NoteDoc → Bool
is_active_note id u n = is_note id u n && is_null n.deleted_at

abbrev pub is_folder : String → String → FolderDoc → Bool
is_folder id u f = (f.id == id) && (f.owner_user_id == u)

abbrev pub is_active_folder : String → String → FolderDoc → Bool
is_active_folder id u f = is_folder id u f && is_null f.deleted_at

-- `{ _id: { $in: ids }, ownerUserId }`
abbrev pub is_folder_in : List String → String → FolderDoc → Bool
is_folder_in ids u f = elem f.id ids && (f.owner_user_id == u)
