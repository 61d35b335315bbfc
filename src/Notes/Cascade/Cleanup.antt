-- ===== src/Notes/Cascade/Cleanup.antt =====
-- `cleanupExpiredNotesAndFolders` of src/core/services/NoteService.ts.
use graph_node_be.Common.{
  ℕ, suc, ◌≡◌, refl, ap, inl, inr, true, false, Option, none, some, String, List, [], ◌∷◌,
  if◌then◌else◌, Option-cases, arith, subst,
}
use graph_node_be.Store.Effects.{not_found, or_raise, pure, raise_if, gets, ◌>>=◌, ◌>>◌}
use graph_node_be.Notes.Collections.{find_one, find_all}
use graph_node_be.Notes.Docs.{FolderDoc, NoteDoc, Tables, is_null, is_active_folder}
use graph_node_be.Notes.Effects.{
  Stores, Act, GraphNodes, run, on_graph, transaction, with_retry, retries, never,
}
use graph_node_be.Notes.Repository.{is_long_trashed, hard_delete_note, find_expired_notes}
use graph_node_be.Notes.Folders.{get_folder, find_expired_folders}
use graph_node_be.Notes.Descendants.{find_descendant_folder_ids}
use graph_node_be.Notes.Service.{delete_note}
use graph_node_be.Notes.Trees.{
  hard_delete_tree, delete_folder_body, delete_folder, counted, delete_notes_of, delete_folders_of,
  cleanup_expired_notes_and_folders,
}
use graph_node_be.Notes.Runs.Atomic.{query_then, or_raise_then}
use graph_node_be.Notes.Runs.Keeps.{
  read-Keeps, Keeps, pure-Keeps, raise_if-Keeps, bind-Keeps, catch-Keeps, retry-Keeps, run-Keeps,
  on_graph-Keeps, transaction-Keeps, with_bail-Keeps,
}
use graph_node_be.Notes.Members.{Memᴰ, find_one-member, find_all-member}
use graph_node_be.Notes.Lookup.Keys.{has_unique_ids, same_row}

-- A folder that is in the trash is not found by `getFolder`.
expired-missing :
    (before : ℕ) (fs : List FolderDoc) (d : FolderDoc)
    → has_unique_ids fs ≡ true
    → Memᴰ d (find_all (λ f. is_long_trashed before f.deleted_at) fs)
    → find_one (is_active_folder d.id d.owner_user_id) fs ≡ none
expired-missing before fs d unique m =
    elim (Option-cases (find_one (is_active_folder d.id d.owner_user_id) fs)) [
      | inl missing ↦ missing
      | inr (f, found) ↦
          let (md, expired) = find_all-member (λ f. is_long_trashed before f.deleted_at) fs d m in
          let (mf, active) = find_one-member (is_active_folder d.id d.owner_user_id) fs f found in
          let same = same_row fs f d unique mf md (ground arith) in
          clash d.deleted_at before expired (ground (arith, ap (λ g. is_null g.deleted_at) same))
    ]
  where
    clash :
        (o : Option ℕ) (t : ℕ)
        → is_long_trashed t o ≡ true
        → is_null o ≡ true
        → find_one (is_active_folder d.id d.owner_user_id) fs ≡ none
    clash none t e h = ground arith
    clash (some at) t e h = ground arith

module _ {G : Type 0} (graph : GraphNodes G) (fs : List FolderDoc) where
  HasFolders : Tables → Type 0
  HasFolders t = t.folders ≡ fs

  delete_note-Keeps : (now : ℕ) (u id : String) → Keeps HasFolders (delete_note graph now u id true)
  unfolding HasFolders delete_note hard_delete_note
  delete_note-Keeps now u id =
      bind-Keeps (with_retry (run (hard_delete_note id u)))
        (λ deleted.
          raise_if (if deleted then false else true) not_found
          >> on_graph (graph.delete_nodes_by_orig_ids u (id ∷ []) true))
        (retry-Keeps never retries (run (hard_delete_note id u))
          (run-Keeps (hard_delete_note id u) (λ d h. h)))
        (λ deleted.
          bind-Keeps (raise_if (if deleted then false else true) not_found)
            (λ _. on_graph (graph.delete_nodes_by_orig_ids u (id ∷ []) true))
            (raise_if-Keeps (if deleted then false else true) not_found)
            (λ _. on_graph-Keeps (graph.delete_nodes_by_orig_ids u (id ∷ []) true)))

  missing-Keeps :
      (now : ℕ) (u id : String)
      → find_one (is_active_folder id u) fs ≡ none
      → Keeps HasFolders (delete_folder graph now u id true)
  unfolding HasFolders delete_folder delete_folder_body get_folder find_descendant_folder_ids
  missing-Keeps now u id missing =
      with_bail-Keeps (transaction (delete_folder_body graph now u id true)) (
        transaction-Keeps (delete_folder_body graph now u id true) (λ s h.
          let P : Unit {0} → Tables → Type 0 = λ _ d. d.folders ≡ fs in
          let next : FolderDoc → Act G (Unit {0}) = λ _.
            run (find_descendant_folder_ids id u)
            >>= (λ below. hard_delete_tree graph u (id ∷ below)) in
          query_then P (λ d. find_one (is_active_folder id u) d.folders)
            (λ found. or_raise found not_found >>= next) s
            (λ s1 e1.
              or_raise_then P (find_one (is_active_folder id u) s.mongo.db.folders) not_found next
                s1 (λ f found. ground (arith, missing, ap (find_one (is_active_folder id u)) h)))))

  counted-Keeps :
      (m : Act G (Unit {0})) (n : ℕ) → Keeps HasFolders m → Keeps HasFolders (counted graph m n)
  counted-Keeps m n h =
      catch-Keeps (m >> pure (suc n)) (λ e. pure n)
        (bind-Keeps m (λ _. pure (suc n)) h (λ _. pure-Keeps (suc n))) (λ e. pure-Keeps n)

  notes-Keeps :
      (now : ℕ) (ds : List NoteDoc) (n : ℕ) → Keeps HasFolders (delete_notes_of graph now ds n)
  unfolding delete_notes_of
  notes-Keeps now [] n = pure-Keeps n
  notes-Keeps now (d ∷ ds) n =
      bind-Keeps (counted graph (delete_note graph now d.owner_user_id d.id true) n)
        (delete_notes_of graph now ds)
        (counted-Keeps (delete_note graph now d.owner_user_id d.id true) n
          (delete_note-Keeps now d.owner_user_id d.id))
        (notes-Keeps now ds)

  folders-Keeps :
      (now : ℕ) (ds : List FolderDoc) (n : ℕ)
      → ((d : FolderDoc) → Memᴰ d ds → find_one (is_active_folder d.id d.owner_user_id) fs ≡ none)
      → Keeps HasFolders (delete_folders_of graph now ds n)
  unfolding delete_folders_of
  folders-Keeps now [] n missing = pure-Keeps n
  folders-Keeps now (d ∷ ds) n missing =
      bind-Keeps (counted graph (delete_folder graph now d.owner_user_id d.id true) n)
        (delete_folders_of graph now ds)
        (counted-Keeps (delete_folder graph now d.owner_user_id d.id true) n
          (missing-Keeps now d.owner_user_id d.id (missing d (Memᴰ.head refl))))
        (λ m. folders-Keeps now ds m (λ e me. missing e (Memᴰ.tail me)))

  loops-Keeps :
      (now before : ℕ) (ns : List NoteDoc) (t : Tables)
      → has_unique_ids fs ≡ true
      → HasFolders t
      → Keeps HasFolders (
          delete_notes_of graph now ns 0
          >>= delete_folders_of graph now
              (find_all (λ f. is_long_trashed before f.deleted_at) t.folders))
  unfolding HasFolders
  loops-Keeps now before ns t unique h =
      let ds = find_all (λ f. is_long_trashed before f.deleted_at) t.folders in
      bind-Keeps (delete_notes_of graph now ns 0) (delete_folders_of graph now ds)
        (notes-Keeps now ns 0)
        (λ n. folders-Keeps now ds n (λ d m.
          expired-missing before fs d unique (
            subst (λ rows. Memᴰ d (find_all (λ f. is_long_trashed before f.deleted_at) rows)) h m)))

-- Where no two folders share an id, the cleanup deletes no folder at all, whatever is in the trash,
-- for how long, and whatever fails: it looks for each expired folder among the active ones.
pub cleanup-keeps_folders :
    {G : Type 0} (graph : GraphNodes G) (now expired_before : ℕ) (s : Stores G)
    → has_unique_ids s.mongo.db.folders ≡ true
    → (cleanup_expired_notes_and_folders graph now expired_before s).1.mongo.db.folders
      ≡ s.mongo.db.folders
unfolding HasFolders cleanup_expired_notes_and_folders find_expired_notes find_expired_folders
cleanup-keeps_folders {G} graph now expired_before s unique =
    let fs = s.mongo.db.folders in
    let expired : Tables → List FolderDoc =
      λ t. find_all (λ f. is_long_trashed expired_before f.deleted_at) t.folders in
    let both : List NoteDoc → List FolderDoc → Act G ℕ =
      λ ns ds. delete_notes_of graph now ns 0 >>= delete_folders_of graph now ds in
    (read-Keeps {I = HasFolders graph fs}
        (λ t. find_all (λ n. is_long_trashed expired_before n.deleted_at) t.notes)
        (λ ns. run (gets expired) >>= both ns)
        (λ t h.
          let ns = find_all (λ n. is_long_trashed expired_before n.deleted_at) t.notes in
          read-Keeps expired (both ns)
            (λ t' h'. loops-Keeps graph fs now expired_before ns t' unique h'))).keeps
      s refl
