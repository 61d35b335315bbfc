-- ===== src/Notes/Queries.antt =====
-- The rest of src/infra/repositories/NoteRepositoryMongo.ts: the queries by date for the
-- synchronisation, the search, and the methods that no service calls. `matches` is the test of a text
-- against the keyword's regular expression.
use graph_node_be.Common.{ℕ, Bool, ◌&&◌, ◌||◌, String, List, leb}
use graph_node_be.Common.Text.{◌==◌}
use graph_node_be.Store.Effects.{M, pure, gets, modify, ◌>>=◌, ◌>>◌}
use graph_node_be.Notes.Collections.{
  find_one, find_all, count, update_one, delete_one, delete_many, sort_newest,
}
use graph_node_be.Notes.Docs.{NoteDoc, FolderDoc, Tables, is_null, is_note, is_folder, is_folder_in}
use graph_node_be.Notes.Repository.{put_notes, put_folders, is_some, is_note_in, is_long_trashed}
use graph_node_be.Notes.Folders.{untrash_folder}

unfoldable pub find_notes_modified_since : String → ℕ → M Tables (List NoteDoc)
find_notes_modified_since u since =
    gets (λ t. find_all (λ n. (n.owner_user_id == u) && leb since n.updated_at) t.notes)

unfoldable pub find_folders_modified_since : String → ℕ → M Tables (List FolderDoc)
find_folders_modified_since u since =
    gets (λ t. find_all (λ f. (f.owner_user_id == u) && leb since f.updated_at) t.folders)

unfoldable search_notes_by_keyword :
    (String → String → Bool) → String → String → M Tables (List NoteDoc)
search_notes_by_keyword matches u keyword = gets (λ t.
    sort_newest (λ n. n.updated_at)
      (find_all
        (λ n.
          ((n.owner_user_id == u) && is_null n.deleted_at)
          && (matches keyword n.title || matches keyword n.content))
        t.notes))

unfoldable delete_note_by_id : String → String → M Tables Bool
delete_note_by_id id u = do
  found ← gets (λ t. find_one (is_note id u) t.notes)
  modify (λ t. put_notes (delete_one (is_note id u) t.notes) t)
  pure (is_some found)

unfoldable delete_notes_by_folder_ids : List String → String → M Tables ℕ
delete_notes_by_folder_ids ids u = do
  n ← gets (λ t. count (is_note_in ids u) t.notes)
  modify (λ t. put_notes (delete_many (is_note_in ids u) t.notes) t)
  pure n

unfoldable hard_delete_expired_notes : ℕ → M Tables ℕ
hard_delete_expired_notes before = do
  n ← gets (λ t. count (λ d. is_long_trashed before d.deleted_at) t.notes)
  modify (λ t. put_notes (delete_many (λ d. is_long_trashed before d.deleted_at) t.notes) t)
  pure n

unfoldable hard_delete_expired_folders : ℕ → M Tables ℕ
hard_delete_expired_folders before = do
  n ← gets (λ t. count (λ d. is_long_trashed before d.deleted_at) t.folders)
  modify (λ t. put_folders (delete_many (λ d. is_long_trashed before d.deleted_at) t.folders) t)
  pure n

unfoldable delete_folder_by_id : String → String → M Tables Bool
delete_folder_by_id id u = do
  found ← gets (λ t. find_one (is_folder id u) t.folders)
  modify (λ t. put_folders (delete_one (is_folder id u) t.folders) t)
  pure (is_some found)

unfoldable delete_folders : List String → String → M Tables ℕ
delete_folders ids u = do
  n ← gets (λ t. count (is_folder_in ids u) t.folders)
  modify (λ t. put_folders (delete_many (is_folder_in ids u) t.folders) t)
  pure n

unfoldable restore_folder_by_id : ℕ → String → String → M Tables Bool
restore_folder_by_id now id u = do
  found ← gets (λ t. find_one (is_folder id u) t.folders)
  modify (λ t. put_folders (update_one (is_folder id u) (untrash_folder now) t.folders) t)
  pure (is_some found)
