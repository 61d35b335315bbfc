-- ===== src/Notes/Service.antt =====
-- src/core/services/NoteService.ts: notes, and the methods on one folder. `fresh` is the ULID that the
-- code draws where the client sends no id. An answer is the document, of which the mappers of
-- src/shared/mappers/note.ts leave out the owner and print the dates. The title that
-- `bulkCreateNotes` makes of a content that is not blank is the parameter `title_of`.
use graph_node_be.Common.{
  ℕ, Bool, true, false, Option, none, some, String, List, [], ◌∷◌, map, get_or, if◌then◌else◌,
}
use graph_node_be.Common.Text.{◌==◌}
use graph_node_be.Store.Effects.{
  upstream, not_found, database, pure, raise, raise_if, or_raise, catch, ◌>>=◌, ◌>>◌,
}
use graph_node_be.Notes.Docs.{NoteDoc, FolderDoc, is_null}
use graph_node_be.Notes.Effects.{Act, GraphNodes, query, run, on_graph, with_retry}
use graph_node_be.Notes.Repository
use graph_node_be.Notes.Folders
use graph_node_be.Notes.Listing
use graph_node_be.Notes.Listing.{Page}

-- `a || d` and `a || null` for a text that may be missing
abbrev pub or_text : Option String → String → String
or_text none d = d
or_text (some s) d = if s == "" then d else s

abbrev pub or_null : Option String → Option String
or_null none = none
or_null (some s) = if s == "" then none else some s

abbrev pub is_truthy : Option String → Bool
is_truthy none = false
is_truthy (some s) = if s == "" then false else true

pub record CreateNoteRequest : Type 0 where
  pub id : Option String
  pub title : Option String
  pub content : String
  pub folder_id : Option String

abbrev pub new_note : String → String → CreateNoteRequest → NoteDoc
new_note fresh u dto = record {
  id = or_text dto.id fresh;
  owner_user_id = u;
  title = or_text dto.title "Untitled";
  content = dto.content;
  folder_id = or_null dto.folder_id;
  created_at = 0;
  updated_at = 0;
  deleted_at = none;
}

-- A missing field leaves the document's; `folderId: null` is a field.
pub record UpdateNoteRequest : Type 0 where
  pub title : Option String
  pub content : Option String
  pub folder_id : Option (Option String)

abbrev pub set_note : UpdateNoteRequest → NoteDoc → NoteDoc
set_note dto n = record n {
  title = get_or dto.title n.title;
  content = get_or dto.content n.content;
  folder_id = get_or dto.folder_id n.folder_id;
}

pub record CreateFolderRequest : Type 0 where
  pub id : Option String
  pub name : String
  pub parent_id : Option String

abbrev pub new_folder : String → String → CreateFolderRequest → FolderDoc
new_folder fresh u dto = record {
  id = or_text dto.id fresh;
  owner_user_id = u;
  name = dto.name;
  parent_id = or_null dto.parent_id;
  created_at = 0;
  updated_at = 0;
  deleted_at = none;
}

pub record UpdateFolderRequest : Type 0 where
  pub name : Option String
  pub parent_id : Option (Option String)

abbrev pub set_folder : UpdateFolderRequest → FolderDoc → FolderDoc
set_folder dto f = record f {
  name = get_or dto.name f.name;
  parent_id = get_or dto.parent_id f.parent_id;
}

module _ (title_of : String → String) (is_blank : String → Bool) where
  abbrev pub bulk_title : CreateNoteRequest → String
  bulk_title dto =
      or_text dto.title (if is_blank dto.content then "Untitled" else title_of dto.content)

  abbrev pub bulk_note : String → String × CreateNoteRequest → NoteDoc
  bulk_note u (fresh, dto) = record (new_note fresh u dto) { title = bulk_title dto }

-- Where a restored document goes: its own folder where that is there and not trashed.
abbrev pub or_top : Option String → Option FolderDoc → Option String
or_top parent_id none = none
or_top parent_id (some f) = if is_null f.deleted_at then parent_id else none

module _ {G : Type 0} where
  unfoldable pub create_note : ℕ → String → String → CreateNoteRequest → Act G NoteDoc
  create_note now fresh u dto = with_retry (run (Repository.create_note now (new_note fresh u dto)))

  -- `createNotes` of the repository
  abbrev pub create_notes : ℕ → List NoteDoc → Act G (List NoteDoc)
  create_notes now [] = pure []
  create_notes now (n ∷ ns) =
      catch
        (do
          all_in ← query (Repository.insert_many now (n ∷ ns))
          raise_if (if all_in then false else true) database
          pure (map (Repository.stamp_note now) (n ∷ ns)))
        (λ e. raise upstream)

  unfoldable count_notes : String → Act G ℕ
  count_notes u = catch (with_retry (run (Repository.count_by_owner u))) (λ e. raise upstream)

  unfoldable pub get_note : String → String → Act G NoteDoc
  get_note u id = do
    note ← with_retry (query (Repository.get_note id u false))
    or_raise note not_found

  unfoldable pub list_notes : String → Option String → ℕ → Option ℕ → Act G (Page NoteDoc)
  list_notes u folder_id limit cursor =
      with_retry (run (Listing.list_notes u folder_id limit cursor))

  unfoldable pub update_note : ℕ → String → String → UpdateNoteRequest → Act G NoteDoc
  update_note now u id dto = do
    updated ← with_retry (run (Repository.update_note now id u (set_note dto)))
    or_raise updated not_found

  unfoldable list_trash : String → ℕ → Option ℕ → Option ℕ → Act G (Page NoteDoc × Page FolderDoc)
  list_trash u limit notes_cursor folders_cursor = with_retry (do
    notes ← run (Listing.list_trash_notes u limit notes_cursor)
    folders ← run (Listing.list_trash_folders u limit folders_cursor)
    pure (notes, folders))

  unfoldable pub create_folder : ℕ → String → String → CreateFolderRequest → Act G FolderDoc
  create_folder now fresh u dto =
      with_retry (run (Folders.create_folder now (new_folder fresh u dto)))

  unfoldable pub get_folder : String → String → Act G FolderDoc
  get_folder u id = do
    folder ← with_retry (query (Folders.get_folder id u false))
    or_raise folder not_found

  unfoldable pub list_folders : String → Option String → ℕ → Option ℕ → Act G (Page FolderDoc)
  list_folders u parent_id limit cursor =
      with_retry (run (Listing.list_folders u parent_id limit cursor))

  unfoldable pub update_folder : ℕ → String → String → UpdateFolderRequest → Act G FolderDoc
  update_folder now u id dto = do
    updated ← with_retry (run (Folders.update_folder now id u (set_folder dto)))
    or_raise updated not_found

  unfoldable pub delete_all_notes : String → Act G ℕ
  delete_all_notes u = with_retry (run (Repository.delete_all_notes u))

  unfoldable bulk_create_notes :
      (String → String)
      → (String → Bool)
      → ℕ
      → String
      → List (String × CreateNoteRequest)
      → Act G (List NoteDoc)
  bulk_create_notes title_of is_blank now u dtos =
      with_retry (create_notes now (map (bulk_note title_of is_blank u) dtos))

  abbrev pub valid_parent : String → Option String → Act G (Option String)
  valid_parent u none = pure none
  valid_parent u (some p) =
      if p == ""
      then pure (some p)
      else (do parent ← query (Folders.get_folder p u true); pure (or_top (some p) parent))

  module _ (graph : GraphNodes G) where
    unfoldable pub delete_note : ℕ → String → String → Bool → Act G (Unit {0})
    delete_note now u id permanent = do
      deleted ← with_retry (
          run (
            if permanent
            then Repository.hard_delete_note id u
            else Repository.soft_delete_note now id u))
      raise_if (if deleted then false else true) not_found
      on_graph (graph.delete_nodes_by_orig_ids u (id ∷ []) permanent)

    unfoldable pub restore_note : ℕ → String → String → Act G (Unit {0})
    restore_note now u id = do
      found ← query (Repository.get_note id u true)
      note ← or_raise found not_found
      parent_id ← valid_parent u note.folder_id
      restored ← with_retry (run (Repository.restore_note now id u parent_id))
      raise_if (if restored then false else true) not_found
      on_graph (graph.restore_nodes_by_orig_ids u (id ∷ []))
