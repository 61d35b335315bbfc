-- ===== src/Notes/Cascade/Regrown.antt =====
-- `restoreFolder` (src/core/services/NoteService.ts) and the rule of Notes.Cascade.Rooted.
use graph_node_be.Notes.Lookup.Edges.{edge-member, deeper, child, has_edge, Below}
use graph_node_be.Notes.Lookup.Below.{descendants-Below}
use graph_node_be.Common.{
  ℕ, ◌≡◌, refl, sym, ◌∙◌, ap, inl, inr, true, false, ◌||◌, Option, some, String, List,
  if◌then◌else◌, Bool-cases, arith, subst,
}
use graph_node_be.Common.Text.{◌==◌, eq_iff, eq_refl}
use graph_node_be.Notes.Collections.{elem, same_id, find_one, update_many}
use graph_node_be.Notes.Docs.{FolderDoc, Tables, is_null, is_folder, is_active_folder, is_folder_in}
use graph_node_be.Notes.Folders.{untrash_folder, move_folder}
use graph_node_be.Notes.Descendants.{descendants, owned_by}
use graph_node_be.Notes.Members.{
  Memᴰ, any_of-intro, find_all-member, find_one-member, update_many-member, update_many-intro,
}
use graph_node_be.Notes.Lookup.Keys.{
  has_unique_ids, same_row, update_one-many, has_unique_ids-update_many,
}
use graph_node_be.Notes.Cascade.Cuts.{tree_ids}
use graph_node_be.Notes.Cascade.Restores.{restored_tree}
use graph_node_be.Notes.Cascade.Rooted.{is_live}
use graph_node_be.Notes.Lookup.Owned.{descendant_ids-some}

-- The last step of the way down to a folder
last_edge :
    (rows : List FolderDoc) (root x : String)
    → Below rows root x
    → (p : String) × (((p == root) || elem p (descendants rows root)) ≡ true)
      × (has_edge rows p x ≡ true)
last_edge rows root x (child _ e) = (root, rw (eq_refl root) refl, e)
last_edge rows root x (deeper p _ b e) = (p, ground (arith, (descendants-Below rows root p).1 b), e)

module _ (u id : String) (t : Tables) (root : FolderDoc)
    (found : find_one (is_folder id u) t.folders ≡ some root) where
  in_tree :
      (p : String)
      → ((p == id) || elem p (descendants (owned_by u t.folders) id)) ≡ true
      → elem p (tree_ids u id t) ≡ true
  unfolding elem
  in_tree p h = rw (descendant_ids-some id u t.folders root found) h

  -- The parent of a folder below the root is in the tree.
  pub parent-in_tree :
      (x : FolderDoc)
      → has_unique_ids t.folders ≡ true
      → Memᴰ x t.folders
      → (x.id == id) ≡ false
      → elem x.id (tree_ids u id t) ≡ true
      → (p : String) × (elem p (tree_ids u id t) ≡ true) × (same_id x.parent_id (some p) ≡ true)
  unfolding elem
  parent-in_tree x unique mx other inside =
      let below = descendant_ids-some id u t.folders root found in
      let rows = owned_by u t.folders in
      let (p, p_in, edge) =
        last_edge rows id x.id
          ((descendants-Below rows id x.id).0 (ground (arith, ap (elem x.id) below))) in
      let (y, my, same, parent) = edge-member rows p x.id edge in
      let my' = (find_all-member (λ f. f.owner_user_id == u) t.folders y my).0 in
      let y_is_x = same_row t.folders y x unique my' mx same in
      (p, in_tree p p_in, rw (sym y_is_x) parent)

  -- An id of the tree is that of one of the user's folders.
  pub row-in_tree :
      (p : String)
      → elem p (tree_ids u id t) ≡ true
      → (y : FolderDoc) × Memᴰ y t.folders × (is_folder p u y ≡ true)
  unfolding elem
  row-in_tree p inside = elim (Bool-cases (p == id)) [
    | inl top ↦
        let (m, is_root) = find_one-member (is_folder id u) t.folders root found in
        (root, m, ground (arith, ap (λ q. is_folder q u root) ((eq_iff p id).0 top)))
    | inr lower ↦
        let below = descendant_ids-some id u t.folders root found in
        let rows = owned_by u t.folders in
        let (q, q_in, edge) =
          last_edge rows id p
            ((descendants-Below rows id p).0 (ground (arith, ap (elem p) below))) in
        let (y, my, same, parent) = edge-member rows q p edge in
        let (my', owned) = find_all-member (λ f. f.owner_user_id == u) t.folders y my in
        (y, my', ground arith)
  ]

-- What becomes of a row.
module _ (now : ℕ) (u id : String) (ids : List String) (parent_id : Option String) where
  unfoldable untrashed : FolderDoc → FolderDoc
  untrashed x = if is_folder_in ids u x then untrash_folder now x else x

  unfoldable pub image : FolderDoc → FolderDoc
  unfolding untrashed
  image x =
      if is_folder id u (untrashed x) then move_folder now parent_id (untrashed x) else untrashed x

  pub image-root : (x : FolderDoc) → is_folder id u x ≡ true → (image x).parent_id ≡ parent_id
  unfolding image untrashed
  image-root x target = ground arith

  pub image-other : (x : FolderDoc) → is_folder id u x ≡ false → (image x).parent_id ≡ x.parent_id
  unfolding image untrashed
  image-other x other = ground arith

  pub image-outside :
      (x : FolderDoc) → is_folder id u x ≡ false → is_folder_in ids u x ≡ false → image x ≡ x
  unfolding image untrashed
  image-outside x other outside = rw (outside, other) refl

  module _ (t : Tables) (unique : has_unique_ids t.folders ≡ true) where
    unfoldable pub regrown : List FolderDoc
    regrown = (restored_tree now u ids parent_id id t).folders

    regrown-updates :
        regrown
        ≡ update_many
            (is_folder id u)
            (move_folder now parent_id)
            (update_many (is_folder_in ids u) (untrash_folder now) t.folders)
    unfolding regrown
    regrown-updates =
        update_one-many id u (move_folder now parent_id)
          (update_many (is_folder_in ids u) (untrash_folder now) t.folders)
          (has_unique_ids-update_many (is_folder_in ids u) (untrash_folder now) t.folders
              (λ f. refl)
            ∙ unique)

    image-member : (x : FolderDoc) → Memᴰ x t.folders → Memᴰ (image x) regrown
    unfolding image untrashed
    image-member x m = subst (Memᴰ (image x)) (sym regrown-updates) (
        update_many-intro (is_folder id u) (move_folder now parent_id)
          (update_many (is_folder_in ids u) (untrash_folder now) t.folders) (untrashed x)
          (update_many-intro (is_folder_in ids u) (untrash_folder now) t.folders x m))

    pub member-image :
        (g : FolderDoc) → Memᴰ g regrown → (x : FolderDoc) × Memᴰ x t.folders × (g ≡ image x)
    unfolding image untrashed
    member-image g m =
        let (y, my, ey) =
          update_many-member (is_folder id u) (move_folder now parent_id)
            (update_many (is_folder_in ids u) (untrash_folder now) t.folders) g
            (subst (Memᴰ g) regrown-updates m) in
        let (x, mx, ex) =
          update_many-member (is_folder_in ids u) (untrash_folder now) t.folders y my in
        (x, mx, ey ∙ ap (λ z. if is_folder id u z then move_folder now parent_id z else z) ex)

    pub live_regrown :
        (p : String) (x : FolderDoc)
        → Memᴰ x t.folders
        → is_folder p u x ≡ true
        → (elem p ids || is_null x.deleted_at) ≡ true
        → is_live u regrown p ≡ true
    unfolding image untrashed
    live_regrown p x m is_p active =
        any_of-intro (is_active_folder p u) regrown (image x) (image-member x m) (
          let same : x.id ≡ p = ground (arith, eq_iff x.id p) in
          ground (arith, ap (λ q. elem q ids) same))
