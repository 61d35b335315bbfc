-- ===== src/Sync/Single.antt =====
-- That `push` of src/core/services/SyncService.ts carries out the change of one note.
use graph_node_be.Common.{
  ℕ, ◌≡◌, refl, inl, inr, ◌⊎◌, Option, none, some, String, List, [], ◌∷◌, leb, Bool-cases, arith,
}
use graph_node_be.Common.Text.{◌==◌}
use graph_node_be.Store.Effects.{ok}
use graph_node_be.Notes.Collections.{find_one}
use graph_node_be.Notes.Docs.{NoteDoc, Tables, is_active_note}
use graph_node_be.Notes.Effects.{Stores, retry}
use graph_node_be.Notes.Repository
use graph_node_be.Notes.Documents.{get_note_doc}
use graph_node_be.Sync.Service.{
  SyncNote, note_doc, existing_notes, existing_folders, push_note, push_notes, push_folders, push,
}
use graph_node_be.Sync.Pushes.{written_note}

no_active :
    (id u : String) (ns : List NoteDoc)
    → find_one (λ m. m.id == id) ns ≡ none
    → find_one (is_active_note id u) ns ≡ none
unfolding find_one
no_active id u [] e = refl
no_active id u (n ∷ ns) e = ground (arith, no_active id u ns)

module _ {G : Type 0} (now : ℕ) (u : String) (note : SyncNote) (t : Tables) (g : G) where
  abbrev start : Stores G
  start = record { mongo = record { db = t; faults = [] }; graph = g }

  abbrev done : Option NoteDoc → Stores G
  done e = record {
    mongo = record { db = written_note now u (note_doc u note) e t; faults = [] };
    graph = g;
  }

  push_new :
      find_one (λ m. m.id == note.id) t.notes ≡ none
      → push now u (note ∷ []) [] start ≡ (ok tt, done none)
  unfolding push existing_notes existing_folders push_notes push_folders push_note get_note_doc
      retry Repository.get_note Repository.create_note
  push_new free = simp (no_active note.id u t.notes free, free)

  push_known :
      (e : NoteDoc)
      → find_one (is_active_note note.id u) t.notes ≡ some e
      → push now u (note ∷ []) [] start ≡ (ok tt, done (some e))
  unfolding push existing_notes existing_folders push_notes push_folders push_note get_note_doc
      retry Repository.get_note Repository.update_note
  push_known e found = elim (Bool-cases (leb note.updated_at e.updated_at)) [
    | inl stale ↦ simp (found, stale)
    | inr newer ↦ simp (found, newer)
  ]

  -- With no failing call a push of one note answers where the id is not stored or is that of an
  -- active note of the user: the note is added, or it replaces an older one, each with the
  -- server's date, or the server's stays as it is from the same time or later.
  pub push-answers :
      (find_one (λ m. m.id == note.id) t.notes ≡ none)
        ⊎ ((e : NoteDoc) × (find_one (is_active_note note.id u) t.notes ≡ some e))
      → push now u (note ∷ []) [] start
        ≡ (ok tt, done (find_one (is_active_note note.id u) t.notes))
  push-answers (inl free) = rw (no_active note.id u t.notes free) (push_new free)
  push-answers (inr (e, found)) = rw found (push_known e found)
