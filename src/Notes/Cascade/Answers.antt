-- ===== src/Notes/Cascade/Answers.antt =====
-- That `deleteFolder` (src/core/services/NoteService.ts) gets to its end.
use graph_node_be.Common.{arith, ℕ, ◌≡◌, refl, Bool, true, false, ◌&&◌, some, String, List, [], ◌∷◌}
use graph_node_be.Store.Effects.{Result, ok}
use graph_node_be.Notes.Collections.{find_all, find_one}
use graph_node_be.Notes.Docs.{FolderDoc, Tables, is_null, is_active_folder}
use graph_node_be.Notes.Effects.{retry, Stores, GraphNodes}
use graph_node_be.Notes.Repository.{
  is_note_in, list_notes_by_folder_ids, hard_delete_notes_by_folder_ids,
  soft_delete_notes_by_folder_ids,
}
use graph_node_be.Notes.Folders.{get_folder, soft_delete_folders, hard_delete_folders}
use graph_node_be.Notes.Descendants.{find_descendant_folder_ids}
use graph_node_be.Notes.Trees.{note_ids, delete_nodes, delete_folder_body, delete_folder}
use graph_node_be.Notes.Runs.Whole.{AllOrNothing}
use graph_node_be.Notes.Cascade.Cuts.{tree_ids, purged, trashed, cut, delete_folder-atomic}

pub all_on_ok :
    {G A : Type 0} (f : Tables → Tables) (before : Tables) (a : A) (r : Result A × Stores G)
    → AllOrNothing f before r
    → r.0 ≡ ok a
    → r.1.mongo.db ≡ f before
all_on_ok f before a _ (AllOrNothing.all b s e) h = e
all_on_ok f before a _ (AllOrNothing.nothing x s e) h = ground arith
all_on_ok f before a _ (AllOrNothing.applied x s e) h = ground arith

module _ {G : Type 0} (graph : GraphNodes G) where
  delete_nodes-ok :
      (u : String) (ids : List String) (permanent : Bool) (s : Stores G)
      → ((v : String) (xs : List String) (b : Bool) (g : G)
          → (g' : G) × (graph.delete_nodes_by_orig_ids v xs b g ≡ (ok tt, g')))
      → (g' : G) × (delete_nodes graph u ids permanent s ≡ (ok tt, record s { graph = g' }))
  delete_nodes-ok u [] permanent s answers = (s.graph, refl)
  delete_nodes-ok u (id ∷ ids) permanent s answers =
      let (g', e) = answers u (id ∷ ids) permanent s.graph in (g', rw e refl)

  delete_folder-ok :
      (now : ℕ) (u id : String) (permanent : Bool) (t : Tables) (g : G) (f : FolderDoc)
      → ((v : String) (xs : List String) (b : Bool) (g1 : G)
          → (g' : G) × (graph.delete_nodes_by_orig_ids v xs b g1 ≡ (ok tt, g')))
      → find_one (is_active_folder id u) t.folders ≡ some f
      → (delete_folder graph now u id permanent
          (record { mongo = record { db = t; faults = [] }; graph = g })).0
        ≡ ok tt
  unfolding delete_folder delete_folder_body get_folder find_descendant_folder_ids retry
      list_notes_by_folder_ids soft_delete_notes_by_folder_ids soft_delete_folders
      hard_delete_notes_by_folder_ids hard_delete_folders
  delete_folder-ok now u id true t g f answers found =
      let ids = tree_ids u id t in
      let cut_off : Stores G = record {
        mongo = record { db = purged u ids t; faults = [] };
        graph = g;
      } in
      let (g', e) =
        delete_nodes-ok u (note_ids (find_all (λ n. is_note_in ids u n && true) t.notes)) true
          cut_off answers in
      simp (found, e)
  delete_folder-ok now u id false t g f answers found =
      let ids = tree_ids u id t in
      let cut_off : Stores G = record {
        mongo = record { db = trashed now u ids t; faults = [] };
        graph = g;
      } in
      let (g', e) =
        delete_nodes-ok u
          (note_ids (find_all (λ n. is_note_in ids u n && is_null n.deleted_at) t.notes)) false
          cut_off answers in
      simp (found, e)

  -- With no failing call and a graph store that answers every deletion, deleteFolder of an active
  -- folder answers, soft or permanent, and the whole tree is cut.
  pub delete_folder-answers :
      (now : ℕ) (u id : String) (permanent : Bool) (t : Tables) (g : G) (f : FolderDoc)
      → ((v : String) (xs : List String) (b : Bool) (g1 : G)
          → (g' : G) × (graph.delete_nodes_by_orig_ids v xs b g1 ≡ (ok tt, g')))
      → find_one (is_active_folder id u) t.folders ≡ some f
      → let s : Stores G = record { mongo = record { db = t; faults = [] }; graph = g } in
        ((delete_folder graph now u id permanent s).0 ≡ ok tt)
        × ((delete_folder graph now u id permanent s).1.mongo.db ≡ cut now u id permanent t)
  delete_folder-answers now u id permanent t g f answers found =
      let s : Stores G = record { mongo = record { db = t; faults = [] }; graph = g } in
      let answered = delete_folder-ok now u id permanent t g f answers found in
      (
        answered,
        all_on_ok (cut now u id permanent) t tt (delete_folder graph now u id permanent s)
            (delete_folder-atomic graph now u id permanent s) answered,
      )
