-- ===== src/Notes/Folders.antt =====
-- The folder methods of src/infra/repositories/NoteRepositoryMongo.ts but for its `$graphLookup`. The
-- counts of the methods on a list of ids are left out, since the service drops them, and so is their
-- early return on an empty list, which no document's id is in.
use graph_node_be.Common.{ℕ, Bool, Option, none, some, String, List, ◌∷◌, if◌then◌else◌}
use graph_node_be.Common.Text.{◌==◌}
use graph_node_be.Store.Effects.{M, database, pure, raise, gets, modify, ◌>>=◌, ◌>>◌}
use graph_node_be.Notes.Collections.{
  find_one, find_all, count, update_one, update_many, delete_many,
}
use graph_node_be.Notes.Docs.{FolderDoc, Tables, is_folder, is_active_folder, is_folder_in}
use graph_node_be.Notes.Repository.{put_folders, mapped, is_long_trashed}

abbrev pub stamp_folder : ℕ → FolderDoc → FolderDoc
stamp_folder now f = record f { created_at = now; updated_at = now; deleted_at = none }

abbrev pub insert_folder : Option FolderDoc → FolderDoc → M Tables FolderDoc
insert_folder (some other) f = raise database
insert_folder none f = do modify (λ t. put_folders (f ∷ t.folders) t); pure f

unfoldable pub create_folder : ℕ → FolderDoc → M Tables FolderDoc
create_folder now f t =
    insert_folder (find_one (λ g. g.id == f.id) t.folders) (stamp_folder now f) t

unfoldable pub get_folder : String → String → Bool → M Tables (Option FolderDoc)
get_folder id u include_deleted =
    gets
      (λ t. find_one (if include_deleted then is_folder id u else is_active_folder id u) t.folders)

abbrev pub touch_folder : ℕ → (FolderDoc → FolderDoc) → FolderDoc → FolderDoc
touch_folder now set f = record (set f) { updated_at = now }

unfoldable pub update_folder :
    ℕ → String → String → (FolderDoc → FolderDoc) → M Tables (Option FolderDoc)
update_folder now id u set = do
  found ← gets (λ t. find_one (is_active_folder id u) t.folders)
  modify (λ t. put_folders (update_one (is_active_folder id u) (touch_folder now set) t.folders) t)
  pure (mapped (touch_folder now set) found)

unfoldable pub delete_all_folders : String → M Tables ℕ
delete_all_folders u = do
  n ← gets (λ t. count (λ f. f.owner_user_id == u) t.folders)
  modify (λ t. put_folders (delete_many (λ f. f.owner_user_id == u) t.folders) t)
  pure n

abbrev pub trash_folder : ℕ → FolderDoc → FolderDoc
trash_folder now f = record f { deleted_at = some now; updated_at = now }

abbrev pub untrash_folder : ℕ → FolderDoc → FolderDoc
untrash_folder now f = record f { deleted_at = none; updated_at = now }

unfoldable pub soft_delete_folders : ℕ → List String → String → M Tables (Unit {0})
soft_delete_folders now ids u =
    modify (λ t. put_folders (update_many (is_folder_in ids u) (trash_folder now) t.folders) t)

unfoldable pub hard_delete_folders : List String → String → M Tables (Unit {0})
hard_delete_folders ids u = modify (λ t. put_folders (delete_many (is_folder_in ids u) t.folders) t)

abbrev pub move_folder : ℕ → Option String → FolderDoc → FolderDoc
move_folder now new_parent_id f = record f { parent_id = new_parent_id; updated_at = now }

-- Both statements of `restoreFolders`, with the target and its new parent given; each is a call of
-- its own in the transaction.
unfoldable pub restore_folders : ℕ → List String → String → M Tables (Unit {0})
restore_folders now ids u =
    modify (λ t. put_folders (update_many (is_folder_in ids u) (untrash_folder now) t.folders) t)

unfoldable pub set_parent : ℕ → String → String → Option String → M Tables (Unit {0})
set_parent now id u new_parent_id =
    modify
      (λ t. put_folders (update_one (is_folder id u) (move_folder now new_parent_id) t.folders) t)

unfoldable pub find_expired_folders : ℕ → M Tables (List FolderDoc)
find_expired_folders before =
    gets (λ t. find_all (λ f. is_long_trashed before f.deleted_at) t.folders)
