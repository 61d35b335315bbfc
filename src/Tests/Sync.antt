-- ===== src/Tests/Sync.antt =====
-- A push of notes and folders at concrete inputs.
use graph_node_be.Common.{inr, ℕ, ◌≡◌, refl, none, some, [], ◌∷◌}
use graph_node_be.Store.Effects.{ok, Error, err}
use graph_node_be.Notes.Collections.{find_one}
use graph_node_be.Notes.Docs.{NoteDoc}
use graph_node_be.Notes.Effects.{Stores}
use graph_node_be.Sync.Service.{note_doc, SyncNote, SyncFolder, push}
use graph_node_be.Sync.Pushes.{written_note}
use graph_node_be.Sync.Conflicts.{push-trashed}
use graph_node_be.Sync.Single.{push-answers}
use graph_node_be.Tests.NotesData.{desk, office, note}

-- A newer version of a note that the server has, and a new one
abbrev edited : SyncNote
edited = record {
  id = "list";
  title = "list";
  content = "more";
  folder_id = some "work";
  created_at = 5;
  updated_at = 6;
  deleted_at = none;
}

abbrev fresh : SyncNote
fresh = record edited { id = "fresh"; folder_id = some "" }

abbrev garden : SyncFolder
garden = record {
  id = "garden";
  name = "garden";
  parent_id = none;
  created_at = 5;
  updated_at = 6;
  deleted_at = none;
}

abbrev binned : NoteDoc
binned = record (note "list" none 5) { deleted_at = some 7 }

abbrev bin : Stores ℕ
bin = record {
  mongo = record { db = record { notes = binned ∷ []; folders = [] }; faults = [] };
  graph = 0;
}

push-trashed_example :
    (e : Error) × ((push 9 "alice" (edited ∷ fresh ∷ []) [] bin).0 ≡ err e)
    × ((push 9 "alice" (edited ∷ fresh ∷ []) [] bin).1.mongo.db ≡ bin.mongo.db)
unfolding find_one
push-trashed_example = push-trashed 9 "alice" edited (fresh ∷ []) [] binned bin refl refl

push-answers_example : push 9 "alice" (edited ∷ []) [] (office []) ≡ (
  ok tt,
  record (office []) {
    mongo = record {
      db =
          written_note 9 "alice"
            (note_doc "alice" edited)
            (some (note "list" (some "work") 5))
            desk;
      faults = [];
    };
  },
)
unfolding find_one
push-answers_example =
    push-answers 9 "alice" edited desk 0 (inr (note "list" (some "work") 5, refl))
