-- ===== src/Sync/Conflicts.antt =====
-- A request of src/core/services/SyncService.ts that `push` cannot carry out.
use graph_node_be.Common.{
  ℕ, ◌≡◌, refl, true, false, Option, none, some, String, List, ◌∷◌, map, arith,
}
use graph_node_be.Common.Text.{◌==◌}
use graph_node_be.Store.Effects.{Error, Result, ok, err, pure, ◌>>=◌, ◌>>◌}
use graph_node_be.Notes.Collections.{find_one}
use graph_node_be.Notes.Docs.{NoteDoc, FolderDoc, Tables, is_active_note}
use graph_node_be.Notes.Effects.{Stores, Act, run, transaction, with_retry, never, retries}
use graph_node_be.Notes.Repository
use graph_node_be.Notes.Repository.{insert_note, stamp_note}
use graph_node_be.Notes.Runs.Atomic.{OnOkTx, Leaves, bind_then}
use graph_node_be.Notes.Runs.Ends.{
  Ending, run-EndsIn, retry-EndsIn, EndsIn-Leaves, transaction-EndsIn, bind-EndsIn,
}
use graph_node_be.Sync.Service.{
  SyncNote, SyncFolder, note_doc, folder_doc, existing_notes, existing_folders, push_note,
  push_notes, push_folders, push,
}
use graph_node_be.Sync.Pushes.{had_notes, had_folders, notes-Reads, folders-Reads}

-- What no answer satisfies
abbrev Never : {A : Type 0} → A → Tables → Type 0
Never a d = true ≡ false

insert_refused :
    (o : Option NoteDoc) (m n : NoteDoc) (t : Tables)
    → o ≡ some m
    → OnOkTx Never (insert_note o n t)
insert_refused none m n t e = ground arith
insert_refused (some k) m n t e = tt

refused :
    {G : Type 0} (t : Tables) (r : Result (Unit {0}) × Stores G)
    → Ending t Never r
    → (e : Error) × (r.0 ≡ err e) × (r.1.mongo.db ≡ t)
refused t (ok a, s) h = ground arith
refused t (err e, s) h = (e, refl, h)

module _ {G : Type 0} (now : ℕ) (u : String) (d : NoteDoc) (m : NoteDoc) (t : Tables)
    (gone : find_one (is_active_note d.id u) t.notes ≡ none)
    (taken : find_one (λ n. n.id == d.id) t.notes ≡ some m) where
  create_refused : (s : Stores G) → s.mongo.db ≡ t → Leaves Never (push_note now u d none) s
  unfolding push_note Repository.create_note
  create_refused s e =
      bind_then Never Never (with_retry (run (Repository.create_note now d))) (λ _. pure tt) s
        (EndsIn-Leaves t Never (with_retry (run (Repository.create_note now d))) s
          (retry-EndsIn t Never never retries (run (Repository.create_note now d)) (
            run-EndsIn t Never (Repository.create_note now d)
              (insert_refused (find_one (λ n. n.id == d.id) t.notes) m (stamp_note now d) t taken)))
          e)
        (λ a s' q. ground arith)

  push_notes_refused :
      (ds : List NoteDoc) (s : Stores G)
      → s.mongo.db ≡ t
      → Leaves Never (push_notes now u (d ∷ ds) (had_notes u t (d ∷ ds))) s
  unfolding push_notes
  push_notes_refused ds s e = rw gone (
      bind_then Never Never (push_note now u d none) (λ _. push_notes now u ds (had_notes u t ds)) s
        (create_refused s e) (λ a s' q. ground arith))

-- Where a stored note has the id of the request's first note and the user has no active one with it
-- (it is in the trash, or another user's), push throws and writes nothing of the whole request,
-- whatever the dates are and whether calls fail or not.
pub push-trashed :
    {G : Type 0} (now : ℕ) (u : String) (note : SyncNote) (notes : List SyncNote)
    (folders : List SyncFolder) (m : NoteDoc) (s : Stores G)
    → find_one (is_active_note note.id u) s.mongo.db.notes ≡ none
    → find_one (λ n. n.id == note.id) s.mongo.db.notes ≡ some m
    → (e : Error) × ((push now u (note ∷ notes) folders s).0 ≡ err e)
      × ((push now u (note ∷ notes) folders s).1.mongo.db ≡ s.mongo.db)
unfolding push
push-trashed {G} now u note notes folders m s gone taken =
    let t = s.mongo.db in
    let d = note_doc u note in
    let ds = map (note_doc u) notes in
    let fs = map (folder_doc u) folders in
    let write : List (Option NoteDoc) → List (Option FolderDoc) → Act G (Unit {0}) =
      λ xs ys. transaction (push_notes now u (d ∷ ds) xs >> push_folders now u fs ys) in
    refused t (push now u (note ∷ notes) folders s) (
      (bind-EndsIn t (had_notes u t (d ∷ ds)) Never (existing_notes u (d ∷ ds))
          (λ xs. existing_folders u fs >>= write xs) (notes-Reads u t (d ∷ ds))
          (bind-EndsIn t (had_folders u t fs) Never (existing_folders u fs)
            (write (had_notes u t (d ∷ ds))) (folders-Reads u t fs)
            (transaction-EndsIn t Never
              (push_notes now u (d ∷ ds) (had_notes u t (d ∷ ds))
                >> push_folders now u fs (had_folders u t fs))
              (λ a d' q. ground arith)
              (λ s1 e1.
                bind_then Never Never (push_notes now u (d ∷ ds) (had_notes u t (d ∷ ds)))
                  (λ _. push_folders now u fs (had_folders u t fs)) s1
                  (push_notes_refused now u d m t gone taken ds s1 e1)
                  (λ a s2 q. ground arith))))).ends
        s refl)
