-- ===== src/Sync/Pushes.antt =====
-- What `push` of src/core/services/SyncService.ts is to do to the collections, in one step.
use graph_node_be.Common.{
  ℕ, ◌≡◌, refl, false, Option, none, some, String, List, [], ◌∷◌, map, leb, if◌then◌else◌,
}
use graph_node_be.Store.Effects.{pure, ◌>>=◌}
use graph_node_be.Notes.Collections.{find_one, update_one}
use graph_node_be.Notes.Docs.{NoteDoc, FolderDoc, Tables, is_active_note, is_active_folder}
use graph_node_be.Notes.Effects.{query, never, retries}
use graph_node_be.Notes.Repository
use graph_node_be.Notes.Folders
use graph_node_be.Notes.Repository.{put_notes, put_folders, stamp_note, touch_note}
use graph_node_be.Notes.Folders.{stamp_folder, touch_folder}
use graph_node_be.Notes.Runs.Ends.{Reads, pure-EndsIn, query-EndsIn, retry-EndsIn, bind-EndsIn}
use graph_node_be.Notes.Documents.{get_note_doc, get_folder_doc}
use graph_node_be.Sync.Service.{
  SyncNote, SyncFolder, note_doc, folder_doc, existing_notes, existing_folders,
}

-- The server's clock replaces the date of the change, and a new document is not in the trash.
abbrev pub written_note : ℕ → String → NoteDoc → Option NoteDoc → Tables → Tables
written_note now u d none t = put_notes (stamp_note now d ∷ t.notes) t
written_note now u d (some e) t =
    if leb d.updated_at e.updated_at
    then t
    else put_notes (update_one (is_active_note d.id u) (touch_note now (λ _. d)) t.notes) t

abbrev pub written_folder : ℕ → String → FolderDoc → Option FolderDoc → Tables → Tables
written_folder now u d none t = put_folders (stamp_folder now d ∷ t.folders) t
written_folder now u d (some e) t =
    if leb d.updated_at e.updated_at
    then t
    else put_folders (update_one (is_active_folder d.id u) (touch_folder now (λ _. d)) t.folders) t

-- Each document against what the server had before the request
abbrev pub written_notes : ℕ → String → Tables → List NoteDoc → Tables → Tables
written_notes now u before [] t = t
written_notes now u before (d ∷ ds) t =
    written_notes now u before ds
      (written_note now u d (find_one (is_active_note d.id u) before.notes) t)

abbrev pub written_folders : ℕ → String → Tables → List FolderDoc → Tables → Tables
written_folders now u before [] t = t
written_folders now u before (d ∷ ds) t =
    written_folders now u before ds
      (written_folder now u d (find_one (is_active_folder d.id u) before.folders) t)

abbrev pub pushed : ℕ → String → List SyncNote → List SyncFolder → Tables → Tables
pushed now u notes folders t =
    written_folders now u t (map (folder_doc u) folders)
      (written_notes now u t (map (note_doc u) notes) t)

abbrev pub had_notes : String → Tables → List NoteDoc → List (Option NoteDoc)
had_notes u t ds = map (λ d. find_one (is_active_note d.id u) t.notes) ds

abbrev pub had_folders : String → Tables → List FolderDoc → List (Option FolderDoc)
had_folders u t ds = map (λ d. find_one (is_active_folder d.id u) t.folders) ds

module _ {G : Type 0} (u : String) (t : Tables) where
  note-Reads :
      (id : String) → Reads {G = G} t (find_one (is_active_note id u) t.notes) (get_note_doc u id)
  unfolding get_note_doc Repository.get_note
  note-Reads id =
      retry-EndsIn t _ never retries (query (Repository.get_note id u false))
        (query-EndsIn t _ (Repository.get_note id u false) (refl, refl))

  folder-Reads :
      (id : String)
      → Reads {G = G} t (find_one (is_active_folder id u) t.folders) (get_folder_doc u id)
  unfolding get_folder_doc Folders.get_folder
  folder-Reads id =
      retry-EndsIn t _ never retries (query (Folders.get_folder id u false))
        (query-EndsIn t _ (Folders.get_folder id u false) (refl, refl))

  pub notes-Reads : (ds : List NoteDoc) → Reads {G = G} t (had_notes u t ds) (existing_notes u ds)
  unfolding existing_notes
  notes-Reads [] = pure-EndsIn t _ [] (refl, refl)
  notes-Reads (d ∷ ds) =
      let e = find_one (is_active_note d.id u) t.notes in
      let P : List (Option NoteDoc) → Tables → Type 0 =
        λ a t'. (a ≡ had_notes u t (d ∷ ds)) × (t' ≡ t) in
      bind-EndsIn t e P (get_note_doc u d.id) (λ x. existing_notes u ds >>= (λ xs. pure (x ∷ xs)))
        (note-Reads d.id)
        (bind-EndsIn t (had_notes u t ds) P (existing_notes u ds) (λ xs. pure (e ∷ xs))
          (notes-Reads ds) (pure-EndsIn t P (e ∷ had_notes u t ds) (refl, refl)))

  pub folders-Reads :
      (ds : List FolderDoc) → Reads {G = G} t (had_folders u t ds) (existing_folders u ds)
  unfolding existing_folders
  folders-Reads [] = pure-EndsIn t _ [] (refl, refl)
  folders-Reads (d ∷ ds) =
      let e = find_one (is_active_folder d.id u) t.folders in
      let P : List (Option FolderDoc) → Tables → Type 0 =
        λ a t'. (a ≡ had_folders u t (d ∷ ds)) × (t' ≡ t) in
      bind-EndsIn t e P (get_folder_doc u d.id)
        (λ x. existing_folders u ds >>= (λ xs. pure (x ∷ xs))) (folder-Reads d.id)
        (bind-EndsIn t (had_folders u t ds) P (existing_folders u ds) (λ xs. pure (e ∷ xs))
          (folders-Reads ds) (pure-EndsIn t P (e ∷ had_folders u t ds) (refl, refl)))
