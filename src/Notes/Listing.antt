-- ===== src/Notes/Listing.antt =====
-- The paged queries of src/infra/repositories/NoteRepositoryMongo.ts: `listNotes`, `listFolders`,
-- `listTrashNotes` and `listTrashFolders`, newest first, from a cursor on. The cursor is the number
-- whose text goes to the client and comes back.
use graph_node_be.Common.{
  ℕ, zero, suc, Bool, true, not, ◌&&◌, Option, none, some, String, List, [], ◌∷◌, length, take, ltb,
  nat_eq, if◌then◌else◌,
}
use graph_node_be.Common.Text.{◌==◌}
use graph_node_be.Store.Effects.{M, gets}
use graph_node_be.Notes.Collections.{find_all, sort_newest, same_id}
use graph_node_be.Notes.Docs.{NoteDoc, FolderDoc, Tables, is_null}

pub record Page (A : Type 0) : Type 0 where
  pub items : List A
  pub next_cursor : Option ℕ

-- `updatedAt: { $lt: cursor }`, where there is a cursor
abbrev pub is_before : Option ℕ → ℕ → Bool
is_before none at = true
is_before (some cursor) at = ltb at cursor

-- `.limit(0)` is no limit.
abbrev pub limited : {A : Type 0} → ℕ → List A → List A
limited zero xs = xs
limited (suc n) xs = take (suc n) xs

module _ {A : Type 0} (at : A → ℕ) where
  abbrev pub last_date : List A → Option ℕ
  last_date [] = none
  last_date (x ∷ []) = some (at x)
  last_date (x ∷ y ∷ ys) = last_date (y ∷ ys)

  abbrev pub page_of : ℕ → List A → Page A
  page_of limit items = record {
    items = items;
    next_cursor = if nat_eq (length items) limit then last_date items else none;
  }

  unfoldable pub list_page : (A → Bool) → ℕ → Option ℕ → List A → Page A
  list_page p limit cursor rows =
      page_of limit
        (limited limit (sort_newest at (find_all (λ x. p x && is_before cursor (at x)) rows)))

unfoldable pub list_notes : String → Option String → ℕ → Option ℕ → M Tables (Page NoteDoc)
list_notes u folder_id limit cursor = gets (λ t.
    list_page (λ n. n.updated_at)
      (λ n. ((n.owner_user_id == u) && same_id n.folder_id folder_id) && is_null n.deleted_at) limit
      cursor t.notes)

unfoldable pub list_folders : String → Option String → ℕ → Option ℕ → M Tables (Page FolderDoc)
list_folders u parent_id limit cursor = gets (λ t.
    list_page (λ f. f.updated_at)
      (λ f. ((f.owner_user_id == u) && same_id f.parent_id parent_id) && is_null f.deleted_at) limit
      cursor t.folders)

unfoldable pub list_trash_notes : String → ℕ → Option ℕ → M Tables (Page NoteDoc)
list_trash_notes u limit cursor = gets (λ t.
    list_page (λ n. n.updated_at) (λ n. (n.owner_user_id == u) && not (is_null n.deleted_at)) limit
      cursor t.notes)

unfoldable pub list_trash_folders : String → ℕ → Option ℕ → M Tables (Page FolderDoc)
list_trash_folders u limit cursor = gets (λ t.
    list_page (λ f. f.updated_at) (λ f. (f.owner_user_id == u) && not (is_null f.deleted_at)) limit
      cursor t.folders)
