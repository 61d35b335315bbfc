-- ===== src/Notes/Cascade/Undeleted.antt =====
-- What the updates of `restoreFolder` (src/core/services/NoteService.ts) make of the documents that a soft
-- `deleteFolder` has left.
use graph_node_be.Common.{
  ℕ, ◌≡◌, refl, sym, ◌∙◌, ap, inl, inr, Bool, true, false, not, ◌||◌, Option, none, some, String,
  List, [], ◌∷◌, map, Bool-cases, Option-cases, arith,
}
use graph_node_be.Common.Text.{◌==◌, eq_iff}
use graph_node_be.Notes.Collections.{elem, in_ids, find_one, update_many}
use graph_node_be.Notes.Docs.{
  FolderDoc, NoteDoc, Tables, is_null, is_folder, is_active_folder, is_folder_in,
}
use graph_node_be.Notes.Repository.{is_note_in, trash_note, untrash_note, mapped}
use graph_node_be.Notes.Folders.{trash_folder, untrash_folder, move_folder}
use graph_node_be.Notes.Members.{
  Memᴰ, all_of, all_of-member, any_of-member, find_one-member, find_one-none,
}
use graph_node_be.Notes.Lookup.Keys.{
  has_unique_ids, same_row, update_one-many, has_unique_ids-update_many,
}
use graph_node_be.Notes.Lookup.Updates.{update_if, find_one-update_many, descendant_ids-update_many}
use graph_node_be.Notes.Cascade.Cuts.{tree_ids, trashed}
use graph_node_be.Notes.Cascade.Restores.{restored_parent, restored_tree, restored}
use graph_node_be.Notes.Cascade.Rooted.{is_placed}

-- The documents but for the date of the last change
abbrev pub undated_folder : FolderDoc → FolderDoc
undated_folder f = record f { updated_at = 0 }

abbrev pub undated_note : NoteDoc → NoteDoc
undated_note n = record n { updated_at = 0 }

-- No folder and no note in the tree is in the trash.
abbrev pub folder_untouched : List String → String → FolderDoc → Bool
folder_untouched ids u g = not (is_folder_in ids u g) || is_null g.deleted_at

abbrev pub note_untouched : List String → String → NoteDoc → Bool
note_untouched ids u n = not (is_note_in ids u n) || is_null n.deleted_at

map-updates :
    {A : Type 0} (g h k l : A → A) (c d e : A → Bool) (xs : List A)
    → ((x : A) → Memᴰ x xs → g (update_if e l (update_if d k (update_if c h x))) ≡ g x)
    → map g (update_many e l (update_many d k (update_many c h xs))) ≡ map g xs
unfolding update_many
map-updates g h k l c d e [] same = refl
map-updates g h k l c d e (x ∷ xs) same =
    rw (same x (Memᴰ.head refl), map-updates g h k l c d e xs (λ y m. same y (Memᴰ.tail m))) refl

map-two :
    {A : Type 0} (g h k : A → A) (c d : A → Bool) (xs : List A)
    → ((x : A) → Memᴰ x xs → g (update_if d k (update_if c h x)) ≡ g x)
    → map g (update_many d k (update_many c h xs)) ≡ map g xs
unfolding update_many
map-two g h k c d [] same = refl
map-two g h k c d (x ∷ xs) same =
    rw (same x (Memᴰ.head refl), map-two g h k c d xs (λ y m. same y (Memᴰ.tail m))) refl

null_eq : (o : Option ℕ) → is_null o ≡ true → o ≡ none
null_eq none e = refl
null_eq (some t) e = ground arith

module _ (gone back : ℕ) (u id : String) (t : Tables) (f : FolderDoc)
    (unique : has_unique_ids t.folders ≡ true)
    (active : find_one (is_active_folder id u) t.folders ≡ some f) where
  abbrev ids : List String
  ids = tree_ids u id t

  pub found : find_one (is_folder id u) t.folders ≡ some f
  found =
      let (mf, is_f) = find_one-member (is_active_folder id u) t.folders f active in
      elim (Option-cases (find_one (is_folder id u) t.folders)) [
        | inl missing ↦
            let out = find_one-none (is_folder id u) t.folders f missing mf in ground arith
        | inr (g, e) ↦
            let (mg, is_g) = find_one-member (is_folder id u) t.folders g e in
            e
            ∙ ap some (
                same_row t.folders g f unique mg mf
                  (ground (arith, eq_iff g.id id, eq_iff f.id id, eq_iff g.id f.id)))
      ]

  pub same_tree : tree_ids u id (trashed gone u ids t) ≡ ids
  same_tree =
      ap (λ below. id ∷ below)
        (descendant_ids-update_many (is_folder_in ids u) (trash_folder gone) (λ g. refl) (λ g. refl)
          (λ g. refl) id u t.folders)

  same_parent :
      (o : Option String)
      → in_ids o ids ≡ false
      → is_placed u t.folders o ≡ true
      → restored_parent u (trashed gone u ids t).folders o ≡ o
  same_parent none outside placed = refl
  same_parent (some p) outside placed = elim (Bool-cases (p == "")) [
    | inl top ↦ rw top refl
    | inr named ↦
        let there =
          find_one-update_many (is_folder_in ids u) (trash_folder gone) (is_folder p u) t.folders
            (λ g. refl) in
        let (h, mh, live) = any_of-member (is_active_folder p u) t.folders (ground arith) in
        elim (Option-cases (find_one (is_folder p u) t.folders)) [
          | inl missing ↦
              let out = find_one-none (is_folder p u) t.folders h missing mh in ground arith
          | inr (y, e) ↦
              let (my, is_p) = find_one-member (is_folder p u) t.folders y e in
              let same =
                same_row t.folders y h unique my mh
                  (ground (arith, eq_iff y.id p, eq_iff h.id p, eq_iff y.id h.id)) in
              let alive : is_null y.deleted_at ≡ true =
                ap (λ g. is_null g.deleted_at) same ∙ ground arith in
              let kept : is_folder_in ids u y ≡ false =
                ground (arith, ap (λ q. elem q ids) ((eq_iff y.id p).0 (ground arith))) in
              rw (named, there, e, kept, alive) refl
        ]
  ]

  not_root : (x : FolderDoc) → is_folder_in ids u x ≡ false → is_folder id u x ≡ false
  unfolding elem
  not_root x outside = ground arith

  row_back :
      (x : FolderDoc)
      → Memᴰ x t.folders
      → folder_untouched ids u x ≡ true
      → undated_folder (
          update_if (is_folder id u) (move_folder back f.parent_id) (
            update_if
              (is_folder_in ids u)
              (untrash_folder back)
              (update_if (is_folder_in ids u) (trash_folder gone) x)))
        ≡ undated_folder x
  row_back x m untouched = elim (Bool-cases (is_folder_in ids u x)) [
    | inl inside ↦
        let alive = null_eq x.deleted_at (ground arith) in
        elim (Bool-cases (is_folder id u x)) [
          | inl root ↦
              let (mf, is_f) = find_one-member (is_active_folder id u) t.folders f active in
              let same =
                same_row t.folders x f unique m mf
                  (ground (arith, eq_iff x.id id, eq_iff f.id id, eq_iff x.id f.id)) in
              rw (inside, inside, root, alive, ap (λ g. g.parent_id) (sym same)) refl
          | inr other ↦ rw (inside, inside, other, alive) refl
        ]
    | inr outside ↦ rw (outside, outside, not_root x outside) refl
  ]

  note_back :
      (n : NoteDoc)
      → note_untouched ids u n ≡ true
      → undated_note (
          update_if
            (is_note_in ids u)
            (untrash_note back)
            (update_if (is_note_in ids u) (trash_note gone) n))
        ≡ undated_note n
  note_back n untouched = elim (Bool-cases (is_note_in ids u n)) [
    | inl inside ↦ rw (inside, inside, null_eq n.deleted_at (ground arith)) refl
    | inr outside ↦ rw (outside, outside) refl
  ]

  pub parent_kept :
      (x : FolderDoc)
      → (update_if (is_folder_in ids u) (trash_folder gone) x).parent_id ≡ x.parent_id
  parent_kept x = elim (Bool-cases (is_folder_in ids u x)) [
    | inl inside ↦ rw inside refl
    | inr outside ↦ rw outside refl
  ]

  -- The restored folder goes back to where it was.
  pub restored-target :
      in_ids f.parent_id ids ≡ false
      → is_placed u t.folders f.parent_id ≡ true
      → restored back u id (trashed gone u ids t)
        ≡ restored_tree back u ids f.parent_id id (trashed gone u ids t)
  restored-target outside placed =
      let there =
        find_one-update_many (is_folder_in ids u) (trash_folder gone) (is_folder id u) t.folders
          (λ g. refl)
        ∙ ap (mapped (update_if (is_folder_in ids u) (trash_folder gone))) found in
      rw (there, parent_kept f, same_parent f.parent_id outside placed, same_tree) refl

  pub folders_back :
      all_of (folder_untouched ids u) t.folders ≡ true
      → map undated_folder (restored_tree back u ids f.parent_id id (trashed gone u ids t)).folders
        ≡ map undated_folder t.folders
  folders_back folders =
      let trash = update_many (is_folder_in ids u) (trash_folder gone) t.folders in
      let untrash = update_many (is_folder_in ids u) (untrash_folder back) trash in
      let keyed : has_unique_ids untrash ≡ true =
        has_unique_ids-update_many (is_folder_in ids u) (untrash_folder back) trash (λ g. refl)
        ∙ has_unique_ids-update_many (is_folder_in ids u) (trash_folder gone) t.folders (λ g. refl)
        ∙ unique in
      ap (map undated_folder) (update_one-many id u (move_folder back f.parent_id) untrash keyed)
      ∙ map-updates undated_folder (trash_folder gone) (untrash_folder back)
          (move_folder back f.parent_id) (is_folder_in ids u) (is_folder_in ids u) (is_folder id u)
          t.folders
          (λ x m. row_back x m (all_of-member (folder_untouched ids u) t.folders x folders m))

  pub notes_back :
      all_of (note_untouched ids u) t.notes ≡ true
      → map undated_note (restored_tree back u ids f.parent_id id (trashed gone u ids t)).notes
        ≡ map undated_note t.notes
  notes_back notes =
      map-two undated_note (trash_note gone) (untrash_note back) (is_note_in ids u)
        (is_note_in ids u) t.notes
        (λ n m. note_back n (all_of-member (note_untouched ids u) t.notes n notes m))
