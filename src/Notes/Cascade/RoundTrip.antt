-- ===== src/Notes/Cascade/RoundTrip.antt =====
-- `restoreFolder` after a soft `deleteFolder` (src/core/services/NoteService.ts).
use graph_node_be.Notes.Cascade.Again.{restored_twice}
use graph_node_be.Notes.Cascade.Answers.{all_on_ok}
use graph_node_be.Common.{sym, subst, ℕ, ◌≡◌, ◌∙◌, ap, true, false, some, String, map}
use graph_node_be.Store.Effects.{ok}
use graph_node_be.Notes.Collections.{in_ids, find_one}
use graph_node_be.Notes.Docs.{FolderDoc, is_active_folder}
use graph_node_be.Notes.Effects.{Stores, GraphNodes}
use graph_node_be.Notes.Trees.{delete_folder, restore_folder}
use graph_node_be.Notes.Members.{all_of}
use graph_node_be.Notes.Lookup.Keys.{has_unique_ids}
use graph_node_be.Notes.Cascade.Cuts.{tree_ids, cut, delete_folder-atomic}
use graph_node_be.Notes.Cascade.Restores.{restored, restore_folder-atomic}
use graph_node_be.Notes.Cascade.Rooted.{is_placed}
use graph_node_be.Notes.Cascade.Undeleted.{
  undated_folder, undated_note, folder_untouched, note_untouched, restored-target, folders_back,
  notes_back,
}

-- Let an active folder be deleted into the trash and then restored, both with an answer, whatever
-- calls failed and were retried, commits among them that took effect all the same. Where no two folders share an id, nothing in the folder's tree was
-- in the trash before, and its parent is the top level or an active folder outside the tree, every
-- folder and every note is as it was before, but for the dates of the last change.
pub restore_folder-delete_folder :
    {G : Type 0} (graph : GraphNodes G) (gone back : ℕ) (u id : String) (s : Stores G)
    (f : FolderDoc)
    → has_unique_ids s.mongo.db.folders ≡ true
    → find_one (is_active_folder id u) s.mongo.db.folders ≡ some f
    → in_ids f.parent_id (tree_ids u id s.mongo.db) ≡ false
    → is_placed u s.mongo.db.folders f.parent_id ≡ true
    → all_of (folder_untouched (tree_ids u id s.mongo.db) u) s.mongo.db.folders ≡ true
    → all_of (note_untouched (tree_ids u id s.mongo.db) u) s.mongo.db.notes ≡ true
    → (delete_folder graph gone u id false s).0 ≡ ok tt
    → (restore_folder graph back u id (delete_folder graph gone u id false s).1).0 ≡ ok tt
    → let t =
        (restore_folder graph back u id (delete_folder graph gone u id false s).1).1.mongo.db in
      (map undated_folder t.folders ≡ map undated_folder s.mongo.db.folders)
      × (map undated_note t.notes ≡ map undated_note s.mongo.db.notes)
restore_folder-delete_folder graph gone back u id s f unique active outside placed folders notes
      deleted restored_ok =
    let t = s.mongo.db in
    let s1 = (delete_folder graph gone u id false s).1 in
    let cut_off =
      all_on_ok (cut gone u id false) t tt (delete_folder graph gone u id false s)
        (delete_folder-atomic graph gone u id false s) deleted in
    let again : restored back u id (restored back u id s1.mongo.db)
        ≡ restored back u id s1.mongo.db =
      subst (λ d. restored back u id (restored back u id d) ≡ restored back u id d) (sym cut_off)
        (restored_twice gone back u id t f unique active outside placed) in
    let after =
      all_on_ok (restored back u id) s1.mongo.db tt (restore_folder graph back u id s1)
        (restore_folder-atomic graph back u id s1 again) restored_ok
      ∙ ap (restored back u id) cut_off
      ∙ restored-target gone back u id t f unique active outside placed in
    (
      ap (λ d. map undated_folder d.folders) after
          ∙ folders_back gone back u id t f unique active folders,
      ap (λ d. map undated_note d.notes) after ∙ notes_back gone back u id t f unique active notes,
    )
