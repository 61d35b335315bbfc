-- ===== src/Notes/Trees.antt =====
-- The methods of src/core/services/NoteService.ts on a folder with all that lies below it, and the
-- cleanup of the trash. A transaction reads before it writes, so that a read outside its session
-- sees what one inside would.
use graph_node_be.Common.{
  ℕ, suc, Bool, true, false, Option, String, List, [], ◌∷◌, map, if◌then◌else◌,
}
use graph_node_be.Store.Effects.{not_found, pure, or_raise, catch, ◌>>=◌, ◌>>◌}
use graph_node_be.Notes.Docs.{NoteDoc, FolderDoc}
use graph_node_be.Notes.Effects.{Act, GraphNodes, query, run, on_graph, transaction, with_bail}
use graph_node_be.Notes.Repository.{
  list_notes_by_folder_ids, hard_delete_notes_by_folder_ids, soft_delete_notes_by_folder_ids,
  restore_notes_by_folder_ids, delete_all_notes_in_folders, find_expired_notes,
}
use graph_node_be.Notes.Folders.{
  get_folder, hard_delete_folders, soft_delete_folders, restore_folders, set_parent,
  find_expired_folders,
}
use graph_node_be.Notes.Folders
use graph_node_be.Notes.Descendants.{find_descendant_folder_ids}
use graph_node_be.Notes.Service.{delete_note, valid_parent}

abbrev pub note_ids : List NoteDoc → List String
note_ids = map (λ n. n.id)

module _ {G : Type 0} where
  unfoldable pub delete_all_folders : String → Act G ℕ
  delete_all_folders u =
      with_bail
        (transaction (do run (delete_all_notes_in_folders u); run (Folders.delete_all_folders u)))

  module _ (graph : GraphNodes G) where
    -- `if (noteIds.length > 0)`
    abbrev pub delete_nodes : String → List String → Bool → Act G (Unit {0})
    delete_nodes u [] permanent = pure tt
    delete_nodes u (id ∷ ids) permanent =
        on_graph (graph.delete_nodes_by_orig_ids u (id ∷ ids) permanent)

    abbrev pub restore_nodes : String → List String → Act G (Unit {0})
    restore_nodes u [] = pure tt
    restore_nodes u (id ∷ ids) = on_graph (graph.restore_nodes_by_orig_ids u (id ∷ ids))

    abbrev pub hard_delete_tree : String → List String → Act G (Unit {0})
    hard_delete_tree u ids = do
      notes ← run (list_notes_by_folder_ids ids u true)
      run (hard_delete_notes_by_folder_ids ids u)
      run (hard_delete_folders ids u)
      delete_nodes u (note_ids notes) true

    abbrev pub soft_delete_tree : ℕ → String → List String → Act G (Unit {0})
    soft_delete_tree now u ids = do
      notes ← run (list_notes_by_folder_ids ids u false)
      run (soft_delete_notes_by_folder_ids now ids u)
      run (soft_delete_folders now ids u)
      delete_nodes u (note_ids notes) false

    -- The callback of the transaction
    unfoldable pub delete_folder_body : ℕ → String → String → Bool → Act G (Unit {0})
    delete_folder_body now u id permanent = do
      found ← query (get_folder id u false)
      target ← or_raise found not_found
      below ← run (find_descendant_folder_ids id u)
      if permanent then hard_delete_tree u (id ∷ below) else soft_delete_tree now u (id ∷ below)

    unfoldable pub delete_folder : ℕ → String → String → Bool → Act G (Unit {0})
    delete_folder now u id permanent =
        with_bail (transaction (delete_folder_body now u id permanent))

    abbrev pub restore_tree : ℕ → String → String → Option String → List String → Act G (Unit {0})
    restore_tree now u id parent_id below = do
      notes ← run (list_notes_by_folder_ids (id ∷ below) u true)
      run (restore_notes_by_folder_ids now (id ∷ below) u)
      run (restore_folders now (id ∷ below) u)
      run (set_parent now id u parent_id)
      restore_nodes u (note_ids notes)

    unfoldable pub restore_folder_body : ℕ → String → String → Act G (Unit {0})
    restore_folder_body now u id = do
      found ← query (get_folder id u true)
      target ← or_raise found not_found
      parent_id ← valid_parent u target.parent_id
      below ← run (find_descendant_folder_ids id u)
      restore_tree now u id parent_id below

    unfoldable pub restore_folder : ℕ → String → String → Act G (Unit {0})
    restore_folder now u id = with_bail (transaction (restore_folder_body now u id))

    -- One round of a loop of the cleanup: the count grows by one unless the deletion throws.
    abbrev pub counted : Act G (Unit {0}) → ℕ → Act G ℕ
    counted m n = catch (do m; pure (suc n)) (λ e. pure n)

    unfoldable pub delete_notes_of : ℕ → List NoteDoc → ℕ → Act G ℕ
    delete_notes_of now [] n = pure n
    delete_notes_of now (d ∷ ds) n = do
      m ← counted (delete_note graph now d.owner_user_id d.id true) n
      delete_notes_of now ds m

    unfoldable pub delete_folders_of : ℕ → List FolderDoc → ℕ → Act G ℕ
    delete_folders_of now [] n = pure n
    delete_folders_of now (d ∷ ds) n = do
      m ← counted (delete_folder now d.owner_user_id d.id true) n
      delete_folders_of now ds m

    unfoldable pub cleanup_expired_notes_and_folders : ℕ → ℕ → Act G ℕ
    cleanup_expired_notes_and_folders now expired_before = do
      notes ← run (find_expired_notes expired_before)
      folders ← run (find_expired_folders expired_before)
      n ← delete_notes_of now notes 0
      delete_folders_of now folders n
