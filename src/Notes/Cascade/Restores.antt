-- ===== src/Notes/Cascade/Restores.antt =====
-- What `restoreFolder` of src/core/services/NoteService.ts is to do to the collections, in one step,
-- and that its transaction does this or nothing.
use graph_node_be.Common.{
  inr, inl, Bool-cases, ℕ, ◌≡◌, refl, ◌∙◌, Option, none, some, String, List, [], ◌∷◌, if◌then◌else◌,
}
use graph_node_be.Common.Text.{◌==◌}
use graph_node_be.Store.Effects.{pure, or_raise, not_found, ◌>>=◌}
use graph_node_be.Notes.Collections.{find_one, update_one, update_many}
use graph_node_be.Notes.Docs.{FolderDoc, Tables, is_folder, is_folder_in}
use graph_node_be.Notes.Effects.{Stores, Act, GraphNodes, run, transaction}
use graph_node_be.Notes.Repository.{
  is_note_in, untrash_note, list_notes_by_folder_ids, restore_notes_by_folder_ids,
}
use graph_node_be.Notes.Folders.{
  untrash_folder, move_folder, get_folder, restore_folders, set_parent,
}
use graph_node_be.Notes.Descendants.{descendant_ids, find_descendant_folder_ids}
use graph_node_be.Notes.Service.{valid_parent, or_top}
use graph_node_be.Notes.Trees.{restore_tree, restore_nodes, restore_folder_body, restore_folder}
use graph_node_be.Notes.Runs.Atomic.{
  bind_then, write_then, read_then, or_raise_then, query_then, Leaves, graph_ok,
}
use graph_node_be.Notes.Runs.Whole.{AllOrNothing, transaction_atomic, with_bail_atomic}
use graph_node_be.Notes.Cascade.Cuts.{tree_ids}

-- Where the restored folder goes
abbrev pub restored_parent : String → List FolderDoc → Option String → Option String
restored_parent u fs none = none
restored_parent u fs (some p) =
    if p == "" then some p else or_top (some p) (find_one (is_folder p u) fs)

abbrev pub restored_tree : ℕ → String → List String → Option String → String → Tables → Tables
restored_tree now u ids parent_id id t = record {
  notes = update_many (is_note_in ids u) (untrash_note now) t.notes;
  folders =
      update_one (is_folder id u) (move_folder now parent_id)
        (update_many (is_folder_in ids u) (untrash_folder now) t.folders);
}

abbrev pub restored_from : ℕ → String → String → Option FolderDoc → Tables → Tables
restored_from now u id none t = t
restored_from now u id (some f) t =
    restored_tree now u (tree_ids u id t) (restored_parent u t.folders f.parent_id) id t

abbrev pub restored : ℕ → String → String → Tables → Tables
restored now u id t = restored_from now u id (find_one (is_folder id u) t.folders) t

module _ {G : Type 0} where
  valid_parent_ok :
      (u : String) (o : Option String) (s : Stores G)
      → Leaves
          (λ a d. (a ≡ restored_parent u s.mongo.db.folders o) × (d ≡ s.mongo.db))
          (valid_parent u o)
          s
  unfolding get_folder
  valid_parent_ok u none s = record { holds = (refl, refl) }
  valid_parent_ok u (some p) s = elim (Bool-cases (p == "")) [
    | inl top ↦ rw top (record { holds = (refl, refl) })
    | inr named ↦ rw named (
        query_then
          (λ a d.
            (a ≡ or_top (some p) (find_one (is_folder p u) s.mongo.db.folders)) × (d ≡ s.mongo.db))
          (λ d. find_one (is_folder p u) d.folders) (λ parent. pure (or_top (some p) parent)) s
          (λ s' e. record { holds = (refl, e) }))
  ]

  module _ (graph : GraphNodes G) where
    restore_nodes_ok :
        (u : String) (ids : List String) (t : Tables) (s : Stores G)
        → s.mongo.db ≡ t
        → Leaves (λ _ d. d ≡ t) (restore_nodes graph u ids) s
    restore_nodes_ok u [] t s e = record { holds = e }
    restore_nodes_ok u (id ∷ ids) t s e = record {
      holds = graph_ok (λ _ d. d ≡ t) (graph.restore_nodes_by_orig_ids u (id ∷ ids)) s (λ _. e);
    }

    restore_tree_ok :
        (now : ℕ) (u id : String) (parent_id : Option String) (t d : Tables) (s : Stores G)
        → d ≡ t
        → s.mongo.db ≡ d
        → Leaves
            (λ _ d'. d' ≡ restored_tree now u (tree_ids u id t) parent_id id t)
            (restore_tree graph now u id parent_id (descendant_ids id u d.folders))
            s
    unfolding list_notes_by_folder_ids restore_notes_by_folder_ids restore_folders set_parent
    restore_tree_ok now u id parent_id t d s seen same =
        let P : Unit {0} → Tables → Type 0 =
          λ _ d'. d' ≡ restored_tree now u (tree_ids u id t) parent_id id t in
        read_then P _ _ s (λ s1 e1. write_then P _ _ s1 (λ s2 e2. write_then P _ _ s2 (λ s3 e3.
          write_then P _ _ s3 (λ s4 e4.
            restore_nodes_ok u _ (restored_tree now u (tree_ids u id t) parent_id id t) s4
              (rw (e4, e3, e2, e1, same, seen) refl)))))

    restore_target_ok :
        (now : ℕ) (u id : String) (f : FolderDoc) (t : Tables) (s : Stores G)
        → s.mongo.db ≡ t
        → Leaves
            (λ _ d.
              d
              ≡ restored_tree now u
                  (tree_ids u id t)
                  (restored_parent u t.folders f.parent_id)
                  id
                  t)
            (valid_parent u f.parent_id >>= (λ parent_id.
              run (find_descendant_folder_ids id u) >>= restore_tree graph now u id parent_id))
            s
    unfolding find_descendant_folder_ids
    restore_target_ok now u id f t s e =
        let P : Unit {0} → Tables → Type 0 = λ _ d.
          d
          ≡ restored_tree now u (tree_ids u id t) (restored_parent u t.folders f.parent_id) id t in
        let Q : Option String → Tables → Type 0 =
          λ a d. (a ≡ restored_parent u s.mongo.db.folders f.parent_id) × (d ≡ s.mongo.db) in
        bind_then Q P (valid_parent u f.parent_id)
          (λ parent_id.
            run (find_descendant_folder_ids id u) >>= restore_tree graph now u id parent_id)
          s (valid_parent_ok u f.parent_id s)
          (λ a s1 q.
            read_then P (λ d. descendant_ids id u d.folders) (restore_tree graph now u id a) s1
              (λ s2 e2.
                rw (q.0, e)
                  (restore_tree_ok now u id (restored_parent u t.folders f.parent_id) t s1.mongo.db
                    s2 (q.1 ∙ e) e2)))

    pub restore_folder_body_ok :
        (now : ℕ) (u id : String) (s : Stores G)
        → Leaves (λ _ d. d ≡ restored now u id s.mongo.db) (restore_folder_body graph now u id) s
    unfolding restore_folder_body get_folder find_descendant_folder_ids
    restore_folder_body_ok now u id s =
        let P : Unit {0} → Tables → Type 0 = λ _ d. d ≡ restored now u id s.mongo.db in
        let next : FolderDoc → Act G (Unit {0}) = λ f. valid_parent u f.parent_id >>= (λ parent_id.
          run (find_descendant_folder_ids id u) >>= restore_tree graph now u id parent_id) in
        query_then P (λ d. find_one (is_folder id u) d.folders)
          (λ found. or_raise found not_found >>= next) s
          (λ s1 e1.
            or_raise_then P (find_one (is_folder id u) s.mongo.db.folders) not_found next s1
              (λ f found. rw found (restore_target_ok now u id f s.mongo.db s1 e1)))

    -- Whatever fails and whatever the graph store does, where a restoration would change nothing
    -- once it is done: restoreFolder answers after the folder, all folders below it and all their
    -- notes are out of the trash, under the old parent or at the top level, or it throws after this
    -- or nothing has happened.
    pub restore_folder-atomic :
        (now : ℕ) (u id : String) (s : Stores G)
        → restored now u id (restored now u id s.mongo.db) ≡ restored now u id s.mongo.db
        → AllOrNothing (restored now u id) s.mongo.db (restore_folder graph now u id s)
    unfolding restore_folder
    restore_folder-atomic now u id s again =
        with_bail_atomic (restored now u id) s.mongo.db again
          (transaction (restore_folder_body graph now u id))
          (transaction_atomic (restored now u id) (restore_folder_body graph now u id)
            (restore_folder_body_ok now u id))
          s refl
