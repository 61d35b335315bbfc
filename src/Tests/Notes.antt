-- ===== src/Tests/Notes.antt =====
-- The folder tree and the pages of notes at concrete inputs.
use graph_node_be.Notes.Docs.{is_active_note}
use graph_node_be.Notes.Runs.Retries.{with_retry-run, failing}
use graph_node_be.Notes.Pages.Paging.{is_descending}
use graph_node_be.Notes.Folders.{set_parent, restore_folders, soft_delete_folders}
use graph_node_be.Notes.Repository.{
  restore_notes_by_folder_ids, soft_delete_notes_by_folder_ids, list_notes_by_folder_ids,
}
use graph_node_be.Notes.Folders.{get_folder}
use graph_node_be.Common.{◌+◌, ◌≡◌, refl, ◌↔◌, Bool, true, false, none, List, [], ◌∷◌, map, arith}
use graph_node_be.Store.Effects.{not_found, err, ok}
use graph_node_be.Notes.Collections.{
  insert_by, update_one, update_many, elem, find_one, find_all, sort_newest,
}
use graph_node_be.Notes.Effects.{run, with_retry, retry}
use graph_node_be.Notes.Descendants.{
  find_descendant_folder_ids, others, children, descendant_ids, descendants, graph_lookup,
}
use graph_node_be.Notes.Lookup.Owned.{Descends, find_descendant_folder_ids-Descends}
use graph_node_be.Notes.Cascade.Cuts.{cut}
use graph_node_be.Notes.Cascade.Answers.{delete_folder-answers}
use graph_node_be.Notes.Trees.{
  restore_folder_body, delete_folder_body, delete_folder, restore_folder,
  cleanup_expired_notes_and_folders,
}
use graph_node_be.Notes.Members.{all_of, any_of}
use graph_node_be.Notes.Lookup.Keys.{has_unique_ids}
use graph_node_be.Notes.Cascade.Rooted.{IsRooted}
use graph_node_be.Notes.Repository.{soft_delete_note, trash_note}
use graph_node_be.Notes.Cascade.RootedDelete.{delete_folder-IsRooted}
use graph_node_be.Notes.Cascade.RootedRestore.{restore_folder-IsRooted}
use graph_node_be.Notes.Cascade.Cleanup.{cleanup-keeps_folders}
use graph_node_be.Notes.Pages.Walk.{walk, walk_complete}
use graph_node_be.Notes.Cascade.RoundTrip.{restore_folder-delete_folder}
use graph_node_be.Notes.Cascade.Undeleted.{undated_folder, undated_note}
use graph_node_be.Tests.NotesData.{shelf, papers, desk, trips, counting, office}

find_descendant_folder_ids-Descends_example :
    (find_descendant_folder_ids "work" "alice" desk
      ≡ (ok (descendant_ids "work" "alice" shelf), desk))
    × ((elem "japan" (descendant_ids "work" "alice" shelf) ≡ true)
        ↔ Descends "alice" "work" shelf "japan")
find_descendant_folder_ids-Descends_example =
    find_descendant_folder_ids-Descends "work" "alice" "japan" desk

-- The first attempt fails at its second call; the commit of the second one fails, but has taken
-- effect.
abbrev shaky : List Bool
shaky = false ∷ true ∷ false ∷ false ∷ false ∷ false ∷ false ∷ true ∷ true ∷ []

-- The third attempt does not find the folder, which is gone.
shaky_answer :
    ((delete_folder counting 7 "alice" "trips" false (office shaky)).0 ≡ err not_found)
    × ((delete_folder counting 7 "alice" "trips" false (office shaky)).1.mongo.db
        ≡ cut 7 "alice" "trips" false desk)
unfolding delete_folder delete_folder_body get_folder find_descendant_folder_ids retry find_one
    list_notes_by_folder_ids soft_delete_notes_by_folder_ids soft_delete_folders find_all
    update_many descendant_ids descendants graph_lookup children others elem
shaky_answer = (refl, refl)

delete_folder-answers_example :
    ((delete_folder counting 7 "alice" "trips" true (office [])).0 ≡ ok tt)
    × ((delete_folder counting 7 "alice" "trips" true (office [])).1.mongo.db
        ≡ cut 7 "alice" "trips" true desk)
unfolding find_one
delete_folder-answers_example =
    delete_folder-answers counting 7 "alice" "trips" true desk 0 trips
      (λ u ids permanent n. (n + 1, refl)) refl

desk-IsRooted : IsRooted "alice" desk
unfolding all_of any_of
desk-IsRooted = record { folders_placed = refl; notes_placed = refl }

delete_folder-IsRooted_example :
    IsRooted "alice" (delete_folder counting 7 "alice" "trips" false (office shaky)).1.mongo.db
delete_folder-IsRooted_example =
    delete_folder-IsRooted counting 7 "alice" "trips" false (office shaky) desk-IsRooted

restore_folder-IsRooted_example :
    IsRooted "alice" (restore_folder counting 7 "alice" "old" (office shaky)).1.mongo.db
unfolding has_unique_ids any_of
restore_folder-IsRooted_example =
    restore_folder-IsRooted counting 7 "alice" "old" (office shaky) refl desk-IsRooted

cleanup-keeps_folders_example :
    (cleanup_expired_notes_and_folders counting 9000000000 8000000000
      (office [])).1.mongo.db.folders
    ≡ shelf
unfolding has_unique_ids any_of
cleanup-keeps_folders_example =
    cleanup-keeps_folders counting 9000000000 8000000000 (office []) refl

restore_folder-delete_folder_example :
    let deleted = (delete_folder counting 7 "alice" "trips" false (office [])).1 in
    let t = (restore_folder counting 8 "alice" "trips" deleted).1.mongo.db in
    (map undated_folder t.folders ≡ map undated_folder shelf)
    × (map undated_note t.notes ≡ map undated_note papers)
unfolding has_unique_ids any_of find_one elem descendant_ids descendants graph_lookup find_all
    children others all_of delete_folder retry delete_folder_body get_folder
    find_descendant_folder_ids list_notes_by_folder_ids update_many soft_delete_folders
    soft_delete_notes_by_folder_ids restore_folder restore_folder_body restore_notes_by_folder_ids
    restore_folders set_parent update_one
restore_folder-delete_folder_example =
    restore_folder-delete_folder counting 7 8 "alice" "trips" (office []) trips refl refl refl refl
      refl refl refl refl

walk_complete_example :
    walk (λ n. n.updated_at) (λ n. true) papers 2 4 none
    ≡ sort_newest (λ n. n.updated_at) (find_all (λ n. true) papers)
unfolding is_descending sort_newest find_all insert_by
walk_complete_example = walk_complete (λ n. n.updated_at) (λ n. true) papers 1 4 refl (omega arith)

with_retry-run_example :
    with_retry (run (soft_delete_note 7 "list" "alice")) (office (failing 2)) ≡ (
      ok true,
      record (office []) {
        mongo = record {
          db = record desk {
            notes = update_one (is_active_note "list" "alice") (trash_note 7) papers;
          };
          faults = [];
        };
      },
    )
unfolding find_one soft_delete_note
with_retry-run_example =
    with_retry-run (soft_delete_note 7 "list" "alice") true desk
      (record desk { notes = update_one (is_active_note "list" "alice") (trash_note 7) papers }) 0 2
      refl
