-- ===== src/Notes/Cascade/Cuts.antt =====
-- What `deleteFolder` and `restoreFolder` of src/core/services/NoteService.ts are to do to the
-- collections, in one step each, and that the transactions do this or nothing.
use graph_node_be.Notes.Lookup.Owned.{descendant_ids-none}
use graph_node_be.Notes.Lookup.Updates.{
  delete_many-twice, update_many-twice, find_one-delete_many, descendant_ids-update_many,
}
use graph_node_be.Common.{
  arith, ℕ, ◌≡◌, refl, ◌∙◌, Bool, true, false, String, List, [], ◌∷◌, if◌then◌else◌,
}
use graph_node_be.Store.Effects.{not_found, ◌>>=◌}
use graph_node_be.Notes.Collections.{elem, find_one, update_many, delete_many}
use graph_node_be.Notes.Docs.{is_folder, FolderDoc, Tables, is_active_folder, is_folder_in}
use graph_node_be.Notes.Effects.{Stores, Act, GraphNodes, run, transaction}
use graph_node_be.Notes.Repository.{
  is_note_in, trash_note, list_notes_by_folder_ids, hard_delete_notes_by_folder_ids,
  soft_delete_notes_by_folder_ids,
}
use graph_node_be.Notes.Folders.{trash_folder, get_folder, soft_delete_folders, hard_delete_folders}
use graph_node_be.Notes.Descendants.{descendant_ids, find_descendant_folder_ids}
use graph_node_be.Notes.Trees.{
  hard_delete_tree, soft_delete_tree, delete_nodes, delete_folder_body, delete_folder,
}
use graph_node_be.Notes.Runs.Atomic.{
  write_then, read_then, or_raise_then, query_then, Leaves, graph_ok,
}
use graph_node_be.Notes.Runs.Whole.{AllOrNothing, transaction_atomic, with_bail_atomic}

-- The root and all below it
abbrev pub tree_ids : String → String → Tables → List String
tree_ids u id t = id ∷ descendant_ids id u t.folders

abbrev pub trashed : ℕ → String → List String → Tables → Tables
trashed now u ids t = record {
  notes = update_many (is_note_in ids u) (trash_note now) t.notes;
  folders = update_many (is_folder_in ids u) (trash_folder now) t.folders;
}

abbrev pub purged : String → List String → Tables → Tables
purged u ids t = record {
  notes = delete_many (is_note_in ids u) t.notes;
  folders = delete_many (is_folder_in ids u) t.folders;
}

abbrev pub cut : ℕ → String → String → Bool → Tables → Tables
cut now u id permanent t =
    if permanent then purged u (tree_ids u id t) t else trashed now u (tree_ids u id t) t

trashed_twice :
    (now : ℕ) (u id : String) (t : Tables)
    → cut now u id false (cut now u id false t) ≡ cut now u id false t
trashed_twice now u id t =
    let ids = tree_ids u id t in
    let same =
      descendant_ids-update_many (is_folder_in ids u) (trash_folder now) (λ g. refl) (λ g. refl)
        (λ g. refl) id u t.folders in
    rw
      (
        same,
        update_many-twice (is_note_in ids u) (trash_note now) t.notes (λ n. refl) (λ n. refl),
        update_many-twice (is_folder_in ids u) (trash_folder now) t.folders (λ g. refl) (λ g. refl),
      )
      refl

purged_twice :
    (now : ℕ) (u id : String) (t : Tables)
    → cut now u id true (cut now u id true t) ≡ cut now u id true t
unfolding elem
purged_twice now u id t =
    let ids = tree_ids u id t in
    let gone =
      find_one-delete_many (is_folder id u) (is_folder_in ids u) (λ g h. ground arith) t.folders in
    let none_below = descendant_ids-none id u (delete_many (is_folder_in ids u) t.folders) gone in
    rw
      (
        none_below,
        delete_many-twice (is_note_in (id ∷ []) u) (is_note_in ids u) (λ n h. ground arith) t.notes,
        delete_many-twice (is_folder_in (id ∷ []) u) (is_folder_in ids u) (λ g h. ground arith)
            t.folders,
      )
      refl

-- A tree that is cut is not cut again.
cut_twice :
    (now : ℕ) (u id : String) (permanent : Bool) (t : Tables)
    → cut now u id permanent (cut now u id permanent t) ≡ cut now u id permanent t
cut_twice now u id true t = purged_twice now u id t
cut_twice now u id false t = trashed_twice now u id t

module _ {G : Type 0} (graph : GraphNodes G) where
  delete_nodes_ok :
      (u : String) (ids : List String) (permanent : Bool) (t : Tables) (s : Stores G)
      → s.mongo.db ≡ t
      → Leaves (λ _ d. d ≡ t) (delete_nodes graph u ids permanent) s
  delete_nodes_ok u [] permanent t s e = record { holds = e }
  delete_nodes_ok u (id ∷ ids) permanent t s e = record {
    holds =
        graph_ok (λ _ d. d ≡ t) (graph.delete_nodes_by_orig_ids u (id ∷ ids) permanent) s (λ _. e);
  }

  hard_delete_tree_ok :
      (u : String) (ids : List String) (t : Tables) (s : Stores G)
      → s.mongo.db ≡ t
      → Leaves (λ _ d. d ≡ purged u ids t) (hard_delete_tree graph u ids) s
  unfolding list_notes_by_folder_ids hard_delete_notes_by_folder_ids hard_delete_folders
  hard_delete_tree_ok u ids t s e =
      let P : Unit {0} → Tables → Type 0 = λ _ d. d ≡ purged u ids t in
      read_then P _ _ s (λ s1 e1. write_then P _ _ s1 (λ s2 e2.
        write_then P _ _ s2
          (λ s3 e3. delete_nodes_ok u _ true (purged u ids t) s3 (rw (e3, e2, e1, e) refl))))

  soft_delete_tree_ok :
      (now : ℕ) (u : String) (ids : List String) (t : Tables) (s : Stores G)
      → s.mongo.db ≡ t
      → Leaves (λ _ d. d ≡ trashed now u ids t) (soft_delete_tree graph now u ids) s
  unfolding list_notes_by_folder_ids soft_delete_notes_by_folder_ids soft_delete_folders
  soft_delete_tree_ok now u ids t s e =
      let P : Unit {0} → Tables → Type 0 = λ _ d. d ≡ trashed now u ids t in
      read_then P _ _ s (λ s1 e1. write_then P _ _ s1 (λ s2 e2.
        write_then P _ _ s2
          (λ s3 e3. delete_nodes_ok u _ false (trashed now u ids t) s3 (rw (e3, e2, e1, e) refl))))

  delete_tree_ok :
      (now : ℕ) (u : String) (ids : List String) (permanent : Bool) (t : Tables) (s : Stores G)
      → s.mongo.db ≡ t
      → Leaves
          (λ _ d. d ≡ (if permanent then purged u ids t else trashed now u ids t))
          (if permanent then hard_delete_tree graph u ids else soft_delete_tree graph now u ids)
          s
  delete_tree_ok now u ids true t s e = hard_delete_tree_ok u ids t s e
  delete_tree_ok now u ids false t s e = soft_delete_tree_ok now u ids t s e

  delete_read_tree_ok :
      (now : ℕ) (u id : String) (permanent : Bool) (t d : Tables) (s : Stores G)
      → d ≡ t
      → s.mongo.db ≡ d
      → Leaves
          (λ _ d'. d' ≡ cut now u id permanent t)
          (if permanent
            then hard_delete_tree graph u (tree_ids u id d)
            else soft_delete_tree graph now u (tree_ids u id d))
          s
  delete_read_tree_ok now u id permanent t d s seen same =
      rw seen (delete_tree_ok now u (tree_ids u id t) permanent t s (same ∙ seen))

  delete_folder_body_ok :
      (now : ℕ) (u id : String) (permanent : Bool) (s : Stores G)
      → Leaves
          (λ _ d. d ≡ cut now u id permanent s.mongo.db)
          (delete_folder_body graph now u id permanent)
          s
  unfolding delete_folder_body get_folder find_descendant_folder_ids
  delete_folder_body_ok now u id permanent s =
      let P : Unit {0} → Tables → Type 0 = λ _ d. d ≡ cut now u id permanent s.mongo.db in
      let found = find_one (is_active_folder id u) s.mongo.db.folders in
      let k : List String → Act G (Unit {0}) = λ below.
        if permanent
        then hard_delete_tree graph u (id ∷ below)
        else soft_delete_tree graph now u (id ∷ below) in
      let next : FolderDoc → Act G (Unit {0}) = λ _. run (find_descendant_folder_ids id u) >>= k in
      query_then P _ _ s (λ s1 e1. or_raise_then P found not_found next s1 (λ target _.
        read_then P (λ d. descendant_ids id u d.folders) k s1
          (λ s2 e2. delete_read_tree_ok now u id permanent s.mongo.db s1.mongo.db s2 e1 e2)))

  pub delete_folder-atomic :
      (now : ℕ) (u id : String) (permanent : Bool) (s : Stores G)
      → AllOrNothing (cut now u id permanent) s.mongo.db (delete_folder graph now u id permanent s)
  unfolding delete_folder
  delete_folder-atomic now u id permanent s =
      let f = cut now u id permanent in
      with_bail_atomic f s.mongo.db (cut_twice now u id permanent s.mongo.db)
        (transaction (delete_folder_body graph now u id permanent))
        (transaction_atomic f (delete_folder_body graph now u id permanent)
          (delete_folder_body_ok now u id permanent))
        s refl
