-- ===== src/Notes/Cascade/Again.antt =====
-- A tree that was deleted into the trash and restored: a second restoration of it changes nothing, as
-- when a commit of `restoreFolder` (src/core/services/NoteService.ts) took effect that was reported as
-- failed and is tried again.
use graph_node_be.Notes.Cascade.Undeleted.{found, same_tree, restored-target}
use graph_node_be.Notes.Cascade.Cuts.{tree_ids, trashed}
use graph_node_be.Notes.Cascade.Restores.{restored_parent, restored_tree, restored}
use graph_node_be.Common.{
  ℕ, ◌≡◌, refl, sym, ◌∙◌, ap, inl, inr, Bool, true, false, Option, none, some, String, List, [],
  ◌∷◌, Bool-cases, Option-cases, arith,
}
use graph_node_be.Common.Text.{◌==◌, eq_iff}
use graph_node_be.Notes.Collections.{elem, in_ids, find_one, update_many}
use graph_node_be.Notes.Docs.{FolderDoc, Tables, is_null, is_folder, is_active_folder, is_folder_in}
use graph_node_be.Notes.Repository.{is_note_in, untrash_note, mapped}
use graph_node_be.Notes.Folders.{trash_folder, untrash_folder, move_folder}
use graph_node_be.Notes.Members.{Memᴰ, any_of-member, find_one-member, find_one-none}
use graph_node_be.Notes.Lookup.Keys.{
  has_unique_ids, same_row, update_one-many, has_unique_ids-update_many,
}
use graph_node_be.Notes.Lookup.Updates.{
  update_many-twice, update_if, find_one-update_many, descendant_ids-update_many,
}
use graph_node_be.Notes.Cascade.Rooted.{is_placed}

-- An update that leaves the updated rows as they are
update_many-idle :
    {A : Type 0} (h k l : A → A) (c d e : A → Bool) (xs : List A)
    → ((x : A)
        → Memᴰ x xs
        → update_if e l (update_if d k (update_if c h x)) ≡ update_if d k (update_if c h x))
    → update_many e l (update_many d k (update_many c h xs)) ≡ update_many d k (update_many c h xs)
unfolding update_many
update_many-idle h k l c d e [] same = refl
update_many-idle h k l c d e (x ∷ xs) same =
    rw (same x (Memᴰ.head refl), update_many-idle h k l c d e xs (λ y m. same y (Memᴰ.tail m))) refl

module _ (gone back : ℕ) (u id : String) (t : Tables) (f : FolderDoc)
    (unique : has_unique_ids t.folders ≡ true)
    (active : find_one (is_active_folder id u) t.folders ≡ some f) where
  abbrev tree : List String
  tree = tree_ids u id t

  abbrev trash : Tables
  trash = trashed gone u tree t

  -- The tree out of the trash, with the root's parent as it was
  abbrev untrashed : Tables
  untrashed = record {
    notes = update_many (is_note_in tree u) (untrash_note back) trash.notes;
    folders = update_many (is_folder_in tree u) (untrash_folder back) trash.folders;
  }

  not_root : (x : FolderDoc) → is_folder_in tree u x ≡ false → is_folder id u x ≡ false
  unfolding elem
  not_root x outside = ground arith

  row_idle :
      (x : FolderDoc)
      → Memᴰ x t.folders
      → update_if (is_folder id u) (move_folder back f.parent_id) (
          update_if
            (is_folder_in tree u)
            (untrash_folder back)
            (update_if (is_folder_in tree u) (trash_folder gone) x))
        ≡ update_if
            (is_folder_in tree u)
            (untrash_folder back)
            (update_if (is_folder_in tree u) (trash_folder gone) x)
  row_idle x m = elim (Bool-cases (is_folder_in tree u x)) [
    | inl inside ↦ elim (Bool-cases (is_folder id u x)) [
      | inl root ↦
          let (mf, is_f) = find_one-member (is_active_folder id u) t.folders f active in
          let same =
            same_row t.folders x f unique m mf
              (ground (arith, eq_iff x.id id, eq_iff f.id id, eq_iff x.id f.id)) in
          rw (inside, inside, root, ap (λ g. g.parent_id) (sym same)) refl
      | inr other ↦ rw (inside, inside, other) refl
    ]
    | inr outside ↦ rw (outside, outside, not_root x outside) refl
  ]

  restored_untrashed : restored_tree back u tree f.parent_id id trash ≡ untrashed
  restored_untrashed =
      let keyed : has_unique_ids untrashed.folders ≡ true =
        has_unique_ids-update_many (is_folder_in tree u) (untrash_folder back) trash.folders
          (λ g. refl)
        ∙ has_unique_ids-update_many (is_folder_in tree u) (trash_folder gone) t.folders (λ g. refl)
        ∙ unique in
      ap (λ fs. record { notes = untrashed.notes; folders = fs })
        (update_one-many id u (move_folder back f.parent_id) untrashed.folders keyed
          ∙ update_many-idle (trash_folder gone) (untrash_folder back)
              (move_folder back f.parent_id) (is_folder_in tree u) (is_folder_in tree u)
              (is_folder id u) t.folders row_idle)

  found_again :
      (q : FolderDoc → Bool)
      → ((g : FolderDoc) → q (trash_folder gone g) ≡ q g)
      → ((g : FolderDoc) → q (untrash_folder back g) ≡ q g)
      → find_one q untrashed.folders
        ≡ mapped
            (update_if (is_folder_in tree u) (untrash_folder back))
            (mapped (update_if (is_folder_in tree u) (trash_folder gone)) (find_one q t.folders))
  found_again q kept kept' =
      find_one-update_many (is_folder_in tree u) (untrash_folder back) q trash.folders kept'
      ∙ ap (mapped (update_if (is_folder_in tree u) (untrash_folder back)))
          (find_one-update_many (is_folder_in tree u) (trash_folder gone) q t.folders kept)

  tree_again : tree_ids u id untrashed ≡ tree
  tree_again =
      ap (λ below. id ∷ below)
        (descendant_ids-update_many (is_folder_in tree u) (untrash_folder back) (λ g. refl)
          (λ g. refl) (λ g. refl) id u trash.folders)
      ∙ same_tree gone back u id t f unique active

  parent_again :
      (o : Option String)
      → in_ids o tree ≡ false
      → is_placed u t.folders o ≡ true
      → restored_parent u untrashed.folders o ≡ o
  parent_again none outside placed = refl
  parent_again (some p) outside placed = elim (Bool-cases (p == "")) [
    | inl top ↦ rw top refl
    | inr named ↦
        let there = found_again (is_folder p u) (λ g. refl) (λ g. refl) in
        let (h, mh, live) = any_of-member (is_active_folder p u) t.folders (ground arith) in
        elim (Option-cases (find_one (is_folder p u) t.folders)) [
          | inl missing ↦
              let out = find_one-none (is_folder p u) t.folders h missing mh in ground arith
          | inr (y, e) ↦
              let (my, is_p) = find_one-member (is_folder p u) t.folders y e in
              let same =
                same_row t.folders y h unique my mh
                  (ground (arith, eq_iff y.id p, eq_iff h.id p, eq_iff y.id h.id)) in
              let alive : is_null y.deleted_at ≡ true =
                ap (λ g. is_null g.deleted_at) same ∙ ground arith in
              let kept : is_folder_in tree u y ≡ false =
                ground (arith, ap (λ q. elem q tree) ((eq_iff y.id p).0 (ground arith))) in
              rw (named, there, e, kept, kept, alive) refl
        ]
  ]

  root_parent :
      (update_if
        (is_folder_in tree u)
        (untrash_folder back)
        (update_if (is_folder_in tree u) (trash_folder gone) f)).parent_id
      ≡ f.parent_id
  root_parent = elim (Bool-cases (is_folder_in tree u f)) [
    | inl inside ↦ rw (inside, inside) refl
    | inr outside ↦ rw (outside, outside) refl
  ]

  pub restored_twice :
      in_ids f.parent_id tree ≡ false
      → is_placed u t.folders f.parent_id ≡ true
      → restored back u id (restored back u id trash) ≡ restored back u id trash
  restored_twice outside placed =
      let once = restored-target gone back u id t f unique active outside placed in
      let there =
        found_again (is_folder id u) (λ g. refl) (λ g. refl)
        ∙ ap
            (λ o.
              mapped (update_if (is_folder_in tree u) (untrash_folder back))
                (mapped (update_if (is_folder_in tree u) (trash_folder gone)) o))
            (found gone back u id t f unique active) in
      let again : restored back u id untrashed ≡ restored_tree back u tree f.parent_id id trash =
        rw
          (
            there,
            root_parent,
            parent_again f.parent_id outside placed,
            tree_again,
            update_many-twice (is_note_in tree u) (untrash_note back) trash.notes (λ n. refl)
                (λ n. refl),
            update_many-twice (is_folder_in tree u) (untrash_folder back) trash.folders (λ g. refl)
                (λ g. refl),
          )
          refl in
      ap (restored back u id) (once ∙ restored_untrashed) ∙ again ∙ sym once
