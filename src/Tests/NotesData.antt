-- ===== src/Tests/NotesData.antt =====
-- Folders and notes for the runs: `work` at the top level, `trips` below it, `japan` below `trips`, and
-- `old`, which is in the trash.
use graph_node_be.Common.{◌+◌, ℕ, Bool, Option, none, some, String, List, [], ◌∷◌}
use graph_node_be.Store.Effects.{ok}
use graph_node_be.Notes.Docs.{NoteDoc, FolderDoc, Tables}
use graph_node_be.Notes.Effects.{Stores, GraphNodes}

abbrev pub folder : String → Option String → Option ℕ → FolderDoc
folder id parent deleted = record {
  id = id;
  owner_user_id = "alice";
  name = id;
  parent_id = parent;
  created_at = 1;
  updated_at = 1;
  deleted_at = deleted;
}

abbrev pub note : String → Option String → ℕ → NoteDoc
note id folder_id at = record {
  id = id;
  owner_user_id = "alice";
  title = id;
  content = "text";
  folder_id = folder_id;
  created_at = at;
  updated_at = at;
  deleted_at = none;
}

abbrev pub trips : FolderDoc
trips = folder "trips" (some "work") none

abbrev pub shelf : List FolderDoc
shelf =
    folder "japan" (some "trips") none
    ∷ trips
    ∷ folder "work" none none
    ∷ folder "old" (some "work") (some 2)
    ∷ []

abbrev pub papers : List NoteDoc
papers = note "plan" (some "japan") 3 ∷ note "list" (some "work") 5 ∷ note "idea" none 4 ∷ []

abbrev pub desk : Tables
desk = record { notes = papers; folders = shelf }

-- A graph store that answers and counts the calls.
abbrev pub counting : GraphNodes ℕ
counting = record {
  delete_nodes_by_orig_ids = λ u ids permanent n. (ok tt, n + 1);
  restore_nodes_by_orig_ids = λ u ids n. (ok tt, n + 1);
}

abbrev pub office : List Bool → Stores ℕ
office faults = record { mongo = record { db = desk; faults = faults }; graph = 0 }
