-- ===== src/Notes/Repository.antt =====
-- src/infra/repositories/NoteRepositoryMongo.ts. A method is its statement on the collections; the
-- `try`/`catch` around it is `run` of Notes.Effects, and a method that returns the promise of its
-- query without `await` is a plain `query`. `now` is the reading of the clock. A count of modified
-- documents is that of the matched ones: each update writes a new `updatedAt`. The counts of the
-- methods on a list of folders are left out, since the service drops them, and so is their early
-- return on an empty list, which no document's folder is in.
use graph_node_be.Common.{
  ℕ, Bool, true, false, not, ◌&&◌, Option, none, some, String, List, [], ◌∷◌, if◌then◌else◌, ltb,
}
use graph_node_be.Common.Text.{◌==◌}
use graph_node_be.Store.Effects.{M, ok, database, pure, raise, gets, modify, ◌>>=◌, ◌>>◌}
use graph_node_be.Notes.Collections.{
  in_ids, find_one, find_all, count, update_one, update_many, delete_one, delete_many,
}
use graph_node_be.Notes.Docs.{NoteDoc, FolderDoc, Tables, is_null, is_note, is_active_note}

abbrev pub put_notes : List NoteDoc → Tables → Tables
put_notes ns t = record t { notes = ns }

abbrev pub put_folders : List FolderDoc → Tables → Tables
put_folders fs t = record t { folders = fs }

abbrev pub stamp_note : ℕ → NoteDoc → NoteDoc
stamp_note now n = record n { created_at = now; updated_at = now; deleted_at = none }

-- An insert; `_id` is unique in the collection, whoever owns the document.
abbrev pub insert_note : Option NoteDoc → NoteDoc → M Tables NoteDoc
insert_note (some other) n = raise database
insert_note none n = do modify (λ t. put_notes (n ∷ t.notes) t); pure n

unfoldable pub create_note : ℕ → NoteDoc → M Tables NoteDoc
create_note now n t = insert_note (find_one (λ m. m.id == n.id) t.notes) (stamp_note now n) t

-- `insertMany` stops at the first document that is refused and keeps those before it; the answer
-- says whether all are in.
unfoldable pub insert_many : ℕ → List NoteDoc → M Tables Bool
insert_many now [] t = (ok true, t)
insert_many now (n ∷ ns) t = elim (find_one (λ m. m.id == n.id) t.notes) [
  | none ↦ insert_many now ns (put_notes (stamp_note now n ∷ t.notes) t)
  | some other ↦ (ok false, t)
]

unfoldable pub count_by_owner : String → M Tables ℕ
count_by_owner u = gets (λ t. count (λ n. (n.owner_user_id == u) && is_null n.deleted_at) t.notes)

unfoldable pub get_note : String → String → Bool → M Tables (Option NoteDoc)
get_note id u include_deleted =
    gets (λ t. find_one (if include_deleted then is_note id u else is_active_note id u) t.notes)

-- `$set: { ...rest, updatedAt: now }` where `set` writes the fields of `rest`.
abbrev pub touch_note : ℕ → (NoteDoc → NoteDoc) → NoteDoc → NoteDoc
touch_note now set n = record (set n) { updated_at = now }

abbrev pub mapped : {A : Type 0} → (A → A) → Option A → Option A
mapped f none = none
mapped f (some a) = some (f a)

unfoldable pub update_note : ℕ → String → String → (NoteDoc → NoteDoc) → M Tables (Option NoteDoc)
update_note now id u set = do
  found ← gets (λ t. find_one (is_active_note id u) t.notes)
  modify (λ t. put_notes (update_one (is_active_note id u) (touch_note now set) t.notes) t)
  pure (mapped (touch_note now set) found)

-- `result.modifiedCount > 0` and `result.deletedCount > 0` of a statement on one document
abbrev pub is_some : {A : Type 0} → Option A → Bool
is_some none = false
is_some (some a) = true

unfoldable pub hard_delete_note : String → String → M Tables Bool
hard_delete_note id u = do
  found ← gets (λ t. find_one (is_note id u) t.notes)
  modify (λ t. put_notes (delete_one (is_note id u) t.notes) t)
  pure (is_some found)

abbrev pub trash_note : ℕ → NoteDoc → NoteDoc
trash_note now n = record n { deleted_at = some now; updated_at = now }

unfoldable pub soft_delete_note : ℕ → String → String → M Tables Bool
soft_delete_note now id u = do
  found ← gets (λ t. find_one (is_active_note id u) t.notes)
  modify (λ t. put_notes (update_one (is_active_note id u) (trash_note now) t.notes) t)
  pure (is_some found)

-- `{ _id, ownerUserId, deletedAt: { $ne: null } }`
abbrev pub is_trashed_note : String → String → NoteDoc → Bool
is_trashed_note id u n = is_note id u n && not (is_null n.deleted_at)

abbrev pub untrash_note : ℕ → NoteDoc → NoteDoc
untrash_note now n = record n { deleted_at = none; updated_at = now }

unfoldable pub restore_note : ℕ → String → String → Option String → M Tables Bool
restore_note now id u new_parent_id = do
  found ← gets (λ t. find_one (is_trashed_note id u) t.notes)
  modify (λ t.
      put_notes
        (update_one (is_trashed_note id u)
          (λ n. record (untrash_note now n) { folder_id = new_parent_id }) t.notes)
        t)
  pure (is_some found)

unfoldable pub delete_all_notes : String → M Tables ℕ
delete_all_notes u = do
  n ← gets (λ t. count (λ n. n.owner_user_id == u) t.notes)
  modify (λ t. put_notes (delete_many (λ n. n.owner_user_id == u) t.notes) t)
  pure n

-- `{ ownerUserId, folderId: { $ne: null } }`
abbrev pub is_filed : String → NoteDoc → Bool
is_filed u n = (n.owner_user_id == u) && is_some n.folder_id

unfoldable pub delete_all_notes_in_folders : String → M Tables ℕ
delete_all_notes_in_folders u = do
  n ← gets (λ t. count (is_filed u) t.notes)
  modify (λ t. put_notes (delete_many (is_filed u) t.notes) t)
  pure n

-- `{ folderId: { $in: folderIds }, ownerUserId }`
abbrev pub is_note_in : List String → String → NoteDoc → Bool
is_note_in ids u n = in_ids n.folder_id ids && (n.owner_user_id == u)

unfoldable pub list_notes_by_folder_ids : List String → String → Bool → M Tables (List NoteDoc)
list_notes_by_folder_ids ids u include_deleted = gets (λ t.
    find_all (λ n. is_note_in ids u n && (if include_deleted then true else is_null n.deleted_at))
      t.notes)

unfoldable pub hard_delete_notes_by_folder_ids : List String → String → M Tables (Unit {0})
hard_delete_notes_by_folder_ids ids u =
    modify (λ t. put_notes (delete_many (is_note_in ids u) t.notes) t)

unfoldable pub soft_delete_notes_by_folder_ids : ℕ → List String → String → M Tables (Unit {0})
soft_delete_notes_by_folder_ids now ids u =
    modify (λ t. put_notes (update_many (is_note_in ids u) (trash_note now) t.notes) t)

unfoldable pub restore_notes_by_folder_ids : ℕ → List String → String → M Tables (Unit {0})
restore_notes_by_folder_ids now ids u =
    modify (λ t. put_notes (update_many (is_note_in ids u) (untrash_note now) t.notes) t)

-- `{ deletedAt: { $ne: null, $lt: expiredBefore } }`
abbrev pub is_long_trashed : ℕ → Option ℕ → Bool
is_long_trashed before none = false
is_long_trashed before (some at) = ltb at before

unfoldable pub find_expired_notes : ℕ → M Tables (List NoteDoc)
find_expired_notes before = gets (λ t. find_all (λ n. is_long_trashed before n.deleted_at) t.notes)
