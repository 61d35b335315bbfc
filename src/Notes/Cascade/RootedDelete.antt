-- ===== src/Notes/Cascade/RootedDelete.antt =====
-- That `deleteFolder` (src/core/services/NoteService.ts) keeps the rule of Notes.Cascade.Rooted.
use graph_node_be.Notes.Trees.{delete_folder}
use graph_node_be.Common.{ℕ, Bool, true, false, String, arith}
use graph_node_be.Notes.Docs.{Tables, is_folder_in}
use graph_node_be.Notes.Effects.{Stores, GraphNodes}
use graph_node_be.Notes.Repository.{is_note_in, trash_note}
use graph_node_be.Notes.Folders.{trash_folder}
use graph_node_be.Notes.Members.{
  update_many-stays, update_many-kept, delete_many-member, delete_many-intro,
}
use graph_node_be.Notes.Cascade.Cuts.{delete_folder-atomic, tree_ids, trashed, purged, cut}
use graph_node_be.Notes.Cascade.Rooted.{
  IsRooted, IsUncut, IsRooted-of_cut, AllOrNothing-keeps, owned_active_folder, owned_active_note,
}

purged-IsRooted :
    (u id : String) (t : Tables) → IsRooted u t → IsRooted u (purged u (tree_ids u id t) t)
unfolding IsUncut
purged-IsRooted u id t =
    let ids = tree_ids u id t in
    IsRooted-of_cut u id t (purged u ids t)
      (λ g m active.
        let (m', out) = delete_many-member (is_folder_in ids u) t.folders g m in (m', ground arith))
      (λ h m out. delete_many-intro (is_folder_in ids u) t.folders h m out)
      (λ n m active.
        let (m', out) = delete_many-member (is_note_in ids u) t.notes n m in (m', ground arith))

trashed-IsRooted :
    (now : ℕ) (u id : String) (t : Tables)
    → IsRooted u t
    → IsRooted u (trashed now u (tree_ids u id t) t)
unfolding IsUncut
trashed-IsRooted now u id t =
    let ids = tree_ids u id t in
    IsRooted-of_cut u id t (trashed now u ids t)
      (λ g m active.
        let (m', out) =
          update_many-kept (is_folder_in ids u) (trash_folder now) (owned_active_folder u) t.folders
            g (λ f. ground arith) m active in
        (m', ground arith))
      (λ h m out. update_many-stays (is_folder_in ids u) (trash_folder now) t.folders h m out)
      (λ n m active.
        let (m', out) =
          update_many-kept (is_note_in ids u) (trash_note now) (owned_active_note u) t.notes n
            (λ k. ground arith) m active in
        (m', ground arith))

cut-IsRooted :
    (now : ℕ) (u id : String) (permanent : Bool) (t : Tables)
    → IsRooted u t
    → IsRooted u (cut now u id permanent t)
cut-IsRooted now u id true t r = purged-IsRooted u id t r
cut-IsRooted now u id false t r = trashed-IsRooted now u id t r

-- Where no active folder or note of the user hangs below a folder that is missing or trashed,
-- none does after deleteFolder, soft or permanent, whatever fails and however it ends.
pub delete_folder-IsRooted :
    {G : Type 0} (graph : GraphNodes G) (now : ℕ) (u id : String) (permanent : Bool) (s : Stores G)
    → IsRooted u s.mongo.db
    → IsRooted u (delete_folder graph now u id permanent s).1.mongo.db
delete_folder-IsRooted graph now u id permanent s =
    AllOrNothing-keeps (IsRooted u) (cut now u id permanent) s.mongo.db
      (delete_folder graph now u id permanent s) (delete_folder-atomic graph now u id permanent s)
      (cut-IsRooted now u id permanent s.mongo.db)
