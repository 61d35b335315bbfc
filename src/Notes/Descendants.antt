-- ===== src/Notes/Descendants.antt =====
-- `findDescendantFolderIds` of src/infra/repositories/NoteRepositoryMongo.ts: `$graphLookup` from the
-- folder's `_id` along `parentId`, over the folders of the same owner, trashed ones included. The
-- operator is the database's; `graph_lookup` is its documented behaviour: each round takes the
-- folders whose parent was reached before, and a document is taken once.
use graph_node_be.Common.{
  ℕ, zero, suc, not, Option, none, some, String, List, [], ◌∷◌, ◌++◌, length, map,
}
use graph_node_be.Common.Text.{◌==◌}
use graph_node_be.Store.Effects.{M, gets}
use graph_node_be.Notes.Collections.{in_ids, find_one, find_all}
use graph_node_be.Notes.Docs.{FolderDoc, Tables, is_folder}

abbrev pub folder_ids : List FolderDoc → List String
folder_ids = map (λ f. f.id)

-- The folders of `rest` with a parent among `reached`, and the others.
unfoldable pub children : List String → List FolderDoc → List FolderDoc
children reached rest = find_all (λ f. in_ids f.parent_id reached) rest

unfoldable pub others : List String → List FolderDoc → List FolderDoc
others reached rest = find_all (λ f. not (in_ids f.parent_id reached)) rest

-- A round that finds nothing is the last.
abbrev pub then_later : List String → List String → List String
then_later [] later = []
then_later (id ∷ ids) later = (id ∷ ids) ++ later

-- The rounds of the lookup
unfoldable pub graph_lookup : ℕ → List String → List FolderDoc → List String
graph_lookup zero reached rest = []
graph_lookup (suc fuel) reached rest =
    let found = folder_ids (children reached rest) in
    then_later found (graph_lookup fuel (reached ++ found) (others reached rest))

-- A round takes at least one folder, so that as many rounds as there are folders are enough.
unfoldable pub descendants : List FolderDoc → String → List String
descendants owned root = graph_lookup (length owned) (root ∷ []) owned

abbrev pub owned_by : String → List FolderDoc → List FolderDoc
owned_by u fs = find_all (λ f. f.owner_user_id == u) fs

-- `$match` on the root first: nothing where it is missing.
abbrev pub where_found : Option FolderDoc → List String → List String
where_found none ids = []
where_found (some f) ids = ids

unfoldable pub descendant_ids : String → String → List FolderDoc → List String
descendant_ids root u fs =
    where_found (find_one (is_folder root u) fs) (descendants (owned_by u fs) root)

unfoldable pub find_descendant_folder_ids : String → String → M Tables (List String)
find_descendant_folder_ids root u = gets (λ t. descendant_ids root u t.folders)
