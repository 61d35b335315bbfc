-- ===== src/Notes/Cascade/RootedRestore.antt =====
-- That `restoreFolder` (src/core/services/NoteService.ts) keeps the rule of Notes.Cascade.Rooted.
use graph_node_be.Store.Effects.{err, ok, Result}
use graph_node_be.Notes.Folders.{move_folder, untrash_folder}
use graph_node_be.Notes.Runs.Atomic.{OnOk, Leaves}
use graph_node_be.Notes.Runs.Keeps.{transaction-Keeps, with_bail-Keeps}
use graph_node_be.Notes.Lookup.Edges.{in_ids-some}
use graph_node_be.Common.{
  sym, subst, ◌∙◌, ℕ, ◌≡◌, refl, ap, inl, inr, true, ◌||◌, Option, none, some, String, List,
  if◌then◌else◌, Bool-cases, Option-cases, arith,
}
use graph_node_be.Common.Text.{◌==◌, eq_iff}
use graph_node_be.Notes.Collections.{elem, same_id, find_one, update_many}
use graph_node_be.Notes.Docs.{
  FolderDoc, NoteDoc, Tables, is_null, is_folder, is_active_folder, is_folder_in,
}
use graph_node_be.Notes.Effects.{transaction, Stores, GraphNodes}
use graph_node_be.Notes.Repository.{is_note_in, untrash_note}
use graph_node_be.Notes.Service.{or_top}
use graph_node_be.Notes.Trees.{restore_folder_body, restore_folder}
use graph_node_be.Notes.Members.{
  Memᴰ, all_of-member, all_of-intro, any_of-member, find_one-member, update_many-member,
}
use graph_node_be.Notes.Lookup.Keys.{update_one-many, has_unique_ids-update_many, has_unique_ids}
use graph_node_be.Notes.Cascade.Cuts.{tree_ids}
use graph_node_be.Notes.Cascade.Restores.{
  restore_folder_body_ok, restored_parent, restored_tree, restored,
}
use graph_node_be.Notes.Cascade.Rooted.{
  IsRooted, is_live, is_placed, folder_placed, note_placed, owned_active_folder, owned_active_note,
}
use graph_node_be.Notes.Cascade.Regrown.{
  image-outside, image-other, image-root, parent-in_tree, row-in_tree, image, regrown, member-image,
  live_regrown,
}

module _ (now : ℕ) (u id : String) (t : Tables) (root : FolderDoc)
    (found : find_one (is_folder id u) t.folders ≡ some root)
    (unique : has_unique_ids t.folders ≡ true) (r : IsRooted u t) where
  abbrev new_parent : Option String
  new_parent = restored_parent u t.folders root.parent_id

  rows : List FolderDoc
  rows = regrown now u id (tree_ids u id t) new_parent t unique

  live :
      (p : String) (x : FolderDoc)
      → Memᴰ x t.folders
      → is_folder p u x ≡ true
      → (elem p (tree_ids u id t) || is_null x.deleted_at) ≡ true
      → is_live u rows p ≡ true
  unfolding rows
  live = live_regrown now u id (tree_ids u id t) new_parent t unique

  in_tree_placed :
      (o : Option String) (p : String)
      → elem p (tree_ids u id t) ≡ true
      → same_id o (some p) ≡ true
      → is_placed u rows o ≡ true
  in_tree_placed none p inside e = ground arith
  in_tree_placed (some q) p inside e =
      let (y, m, is_p) = row-in_tree u id t root found p inside in
      let alive = live p y m is_p (rw inside refl) in
      let same = (eq_iff q p).0 e in ground (arith, ap (is_live u rows) same)

  still_placed : (o : Option String) → is_placed u t.folders o ≡ true → is_placed u rows o ≡ true
  still_placed none placed = refl
  still_placed (some p) placed = elim (Bool-cases (p == "")) [
    | inl top ↦ rw top refl
    | inr named ↦
        let (y, m, active) = any_of-member (is_active_folder p u) t.folders (ground arith) in
        let alive = live p y m (ground arith) (ground arith) in ground arith
  ]

  found_placed :
      (p : String) (o : Option FolderDoc)
      → find_one (is_folder p u) t.folders ≡ o
      → is_placed u rows (or_top (some p) o) ≡ true
  found_placed p none e = refl
  found_placed p (some y) e =
      let (m, is_p) = find_one-member (is_folder p u) t.folders y e in
      elim (Bool-cases (is_null y.deleted_at)) [
        | inl active ↦
            let alive = live p y m is_p (ground arith) in rw (active, alive) (ground arith)
        | inr gone ↦ rw gone refl
      ]

  new_parent_placed : (o : Option String) → is_placed u rows (restored_parent u t.folders o) ≡ true
  new_parent_placed none = refl
  new_parent_placed (some p) = elim (Bool-cases (p == "")) [
    | inl top ↦ rw (top, top) refl
    | inr named ↦ rw named (found_placed p (find_one (is_folder p u) t.folders) refl)
  ]

  row_placed :
      (x : FolderDoc)
      → Memᴰ x t.folders
      → folder_placed u rows (image now u id (tree_ids u id t) new_parent x) ≡ true
  row_placed x m = elim (Bool-cases (is_folder id u x)) [
    | inl target ↦
        let parent = image-root now u id (tree_ids u id t) new_parent x target in
        ground (arith, ap (is_placed u rows) parent, new_parent_placed root.parent_id)
    | inr other ↦ elim (Bool-cases (is_folder_in (tree_ids u id t) u x)) [
      | inl inside ↦
          let parent = image-other now u id (tree_ids u id t) new_parent x other in
          let (p, p_in, of_p) =
            parent-in_tree u id t root found x unique m (ground arith) (ground arith) in
          ground (arith, ap (is_placed u rows) parent, in_tree_placed x.parent_id p p_in of_p)
      | inr outside ↦
          let same = image-outside now u id (tree_ids u id t) new_parent x other outside in
          let before = all_of-member (folder_placed u t.folders) t.folders x r.folders_placed m in
          elim (Bool-cases (owned_active_folder u x)) [
            | inl active ↦ rw (same, still_placed x.parent_id (ground arith)) (ground arith)
            | inr gone ↦ rw (same, gone) refl
          ]
    ]
  ]

  note_row_placed :
      (n : NoteDoc)
      → Memᴰ n t.notes
      → note_placed u rows (if is_note_in (tree_ids u id t) u n then untrash_note now n else n)
        ≡ true
  note_row_placed n m = elim (Bool-cases (is_note_in (tree_ids u id t) u n)) [
    | inl inside ↦
        let (p, p_in, of_p) = in_ids-some n.folder_id (tree_ids u id t) (ground arith) in
        rw (inside, in_tree_placed n.folder_id p p_in of_p) (ground arith)
    | inr outside ↦
        let before = all_of-member (note_placed u t.folders) t.notes n r.notes_placed m in
        elim (Bool-cases (owned_active_note u n)) [
          | inl active ↦ rw (outside, still_placed n.folder_id (ground arith)) (ground arith)
          | inr gone ↦ rw (outside, gone) refl
        ]
  ]

  restored_tree-IsRooted : IsRooted u (restored_tree now u (tree_ids u id t) new_parent id t)
  unfolding rows regrown
  restored_tree-IsRooted = record {
    folders_placed = all_of-intro (folder_placed u rows) rows (λ g m.
        let (x, mx, e) = member-image now u id (tree_ids u id t) new_parent t unique g m in
        rw e (row_placed x mx));
    notes_placed =
        all_of-intro (note_placed u rows)
          (update_many (is_note_in (tree_ids u id t) u) (untrash_note now) t.notes)
          (λ n m.
            let (k, mk, e) =
              update_many-member (is_note_in (tree_ids u id t) u) (untrash_note now) t.notes n m in
            rw e (note_row_placed k mk));
  }

restored-IsRooted :
    (now : ℕ) (u id : String) (t : Tables)
    → has_unique_ids t.folders ≡ true
    → IsRooted u t
    → IsRooted u (restored now u id t)
restored-IsRooted now u id t unique r = elim (Option-cases (find_one (is_folder id u) t.folders)) [
  | inl missing ↦ rw missing r
  | inr (root, found) ↦ rw found (restored_tree-IsRooted now u id t root found unique r)
]

IsKeyed : String → Tables → Type 0
IsKeyed u t = (has_unique_ids t.folders ≡ true) × IsRooted u t

restored_unique :
    (now : ℕ) (u id : String) (t : Tables)
    → has_unique_ids t.folders ≡ true
    → has_unique_ids (restored now u id t).folders ≡ true
restored_unique now u id t unique = elim (Option-cases (find_one (is_folder id u) t.folders)) [
  | inl missing ↦ rw missing unique
  | inr (root, found) ↦
      let p = restored_parent u t.folders root.parent_id in
      let ids = tree_ids u id t in
      let untrash = update_many (is_folder_in ids u) (untrash_folder now) t.folders in
      let keyed : has_unique_ids untrash ≡ true =
        has_unique_ids-update_many (is_folder_in ids u) (untrash_folder now) t.folders (λ g. refl)
        ∙ unique in
      rw found (
        ap has_unique_ids (update_one-many id u (move_folder now p) untrash keyed)
        ∙ has_unique_ids-update_many (is_folder id u) (move_folder now p) untrash (λ g. refl)
        ∙ keyed)
]

restored_Leaves :
    {G : Type 0} (graph : GraphNodes G) (now : ℕ) (u id : String) (s : Stores G)
    → IsKeyed u s.mongo.db
    → Leaves (λ _ d. IsKeyed u d) (restore_folder_body graph now u id) s
unfolding IsKeyed
restored_Leaves {G} graph now u id s (unique, rooted) = record {
  holds = go (restore_folder_body graph now u id s) (restore_folder_body_ok graph now u id s).holds;
}
  where
    go :
        (r : Result (Unit {0}) × Stores G)
        → OnOk (λ _ d. d ≡ restored now u id s.mongo.db) r
        → OnOk (λ _ d. IsKeyed u d) r
    go (ok a, s') e = subst (IsKeyed u) (sym e) (
      restored_unique now u id s.mongo.db unique,
      restored-IsRooted now u id s.mongo.db unique rooted,
    )
    go (err e, s') h = tt

-- Where no two folders share an id and no active folder or note of the user hangs below a folder
-- that is missing or trashed, none does after restoreFolder, whatever fails and however it ends:
-- not even where the folder's own parent is in the trash or the parents run in a circle.
pub restore_folder-IsRooted :
    {G : Type 0} (graph : GraphNodes G) (now : ℕ) (u id : String) (s : Stores G)
    → has_unique_ids s.mongo.db.folders ≡ true
    → IsRooted u s.mongo.db
    → IsRooted u (restore_folder graph now u id s).1.mongo.db
unfolding restore_folder IsKeyed
restore_folder-IsRooted graph now u id s unique rooted =
    ((with_bail-Keeps {I = IsKeyed u} (transaction (restore_folder_body graph now u id)) (
        transaction-Keeps {I = IsKeyed u} (restore_folder_body graph now u id)
          (restored_Leaves graph now u id))).keeps
      s (unique, rooted)).1
