-- ===== src/Notes/Cascade/Rooted.antt =====
-- That no active folder or note hangs below a folder that is missing or trashed, where the client
-- would not find it: what the cascade of `deleteFolder` and the checks of `restoreFolder` in
-- src/core/services/NoteService.ts are for.
use graph_node_be.Notes.Lookup.Owned.{descendant_ids-some, descendant_ids-none}
use graph_node_be.Notes.Lookup.Below.{descendants-closed}
use graph_node_be.Notes.Lookup.Edges.{has_edge-member}
use graph_node_be.Notes.Runs.Whole.{AllOrNothing}
use graph_node_be.Common.{
  subst, ◌≡◌, refl, sym, ap, inl, inr, Bool, true, false, not, ◌&&◌, ◌||◌, Option, none, some,
  String, List, Bool-cases, Option-cases, arith,
}
use graph_node_be.Common.Text.{◌==◌, eq_iff}
use graph_node_be.Store.Effects.{Result}
use graph_node_be.Notes.Collections.{elem, in_ids, find_one}
use graph_node_be.Notes.Docs.{
  FolderDoc, NoteDoc, Tables, is_null, is_folder, is_active_folder, is_folder_in,
}
use graph_node_be.Notes.Effects.{Stores}
use graph_node_be.Notes.Descendants.{descendant_ids, owned_by}
use graph_node_be.Notes.Members.{
  find_one-none, Memᴰ, all_of, any_of, all_of-member, all_of-intro, any_of-member, any_of-intro,
  find_all-intro,
}
use graph_node_be.Notes.Cascade.Cuts.{tree_ids}

abbrev pub owned_active_folder : String → FolderDoc → Bool
owned_active_folder u f = (f.owner_user_id == u) && is_null f.deleted_at

abbrev pub owned_active_note : String → NoteDoc → Bool
owned_active_note u n = (n.owner_user_id == u) && is_null n.deleted_at

abbrev pub is_live : String → List FolderDoc → String → Bool
is_live u fs p = any_of (is_active_folder p u) fs

-- The top level, for which the service takes an empty id too, or an active folder
abbrev pub is_placed : String → List FolderDoc → Option String → Bool
is_placed u fs none = true
is_placed u fs (some p) = (p == "") || is_live u fs p

abbrev pub folder_placed : String → List FolderDoc → FolderDoc → Bool
folder_placed u fs f = not (owned_active_folder u f) || is_placed u fs f.parent_id

abbrev pub note_placed : String → List FolderDoc → NoteDoc → Bool
note_placed u fs n = not (owned_active_note u n) || is_placed u fs n.folder_id

pub record IsRooted (u : String) (t : Tables) : Type 0 where
  pub folders_placed : all_of (folder_placed u t.folders) t.folders ≡ true
  pub notes_placed : all_of (note_placed u t.folders) t.notes ≡ true

-- Where a folder's parent is in the tree, and is there at all, the folder is in it.
tree-closed :
    (u id : String) (t : Tables) (f h : FolderDoc) (p : String)
    → Memᴰ f t.folders
    → (f.owner_user_id == u) ≡ true
    → f.parent_id ≡ some p
    → Memᴰ h t.folders
    → is_folder p u h ≡ true
    → elem p (tree_ids u id t) ≡ true
    → elem f.id (descendant_ids id u t.folders) ≡ true
unfolding elem
tree-closed u id t f h p mf owned parent mh is_p p_in =
    elim (Option-cases (find_one (is_folder id u) t.folders)) [
      | inl missing ↦
          let none_below = descendant_ids-none id u t.folders missing in
          let not_h = find_one-none (is_folder id u) t.folders h missing mh in
          let p_root : p ≡ id = ground (arith, ap (elem p) none_below, eq_iff p id) in
          ground (arith, ap (λ q. is_folder q u h) p_root)
      | inr (root, found) ↦
          let below = descendant_ids-some id u t.folders root found in
          rw below (
            descendants-closed (owned_by u t.folders) id p f.id (ground (arith, ap (elem p) below))
              (has_edge-member (owned_by u t.folders) f p
                (find_all-intro (λ g. g.owner_user_id == u) t.folders f mf owned) parent))
    ]

module _ (u id : String) (t t' : Tables) where
  unfoldable pub IsUncut : Type 0
  IsUncut =
      (h : FolderDoc)
      → Memᴰ h t.folders
      → is_folder_in (tree_ids u id t) u h ≡ false
      → Memᴰ h t'.folders

  live_after :
      (p : String)
      → IsUncut
      → elem p (tree_ids u id t) ≡ false
      → (h : FolderDoc) → Memᴰ h t.folders
      → is_active_folder p u h ≡ true
      → is_live u t'.folders p ≡ true
  unfolding IsUncut
  live_after p stay out h mh active =
      any_of-intro (is_active_folder p u) t'.folders h
        (stay h mh (let same : h.id ≡ p = ground (arith, eq_iff h.id p) in rw (same, out) refl))
        active

  placed_after :
      (o : Option String)
      → IsUncut
      → in_ids o (tree_ids u id t) ≡ false
      → is_placed u t.folders o ≡ true
      → is_placed u t'.folders o ≡ true
  placed_after none stay out placed = refl
  placed_after (some p) stay out placed = elim (Bool-cases (p == "")) [
    | inl top ↦ rw top refl
    | inr named ↦
        let live : is_live u t.folders p ≡ true = ground arith in
        let (h, mh, active) = any_of-member (is_active_folder p u) t.folders live in
        rw (live_after p stay out h mh active) (ground arith)
  ]

  -- A folder that stays has a parent that stays.
  parent_after :
      (f : FolderDoc) (o : Option String)
      → IsUncut
      → f.parent_id ≡ o
      → Memᴰ f t.folders
      → (f.owner_user_id == u) ≡ true
      → elem f.id (tree_ids u id t) ≡ false
      → is_placed u t.folders o ≡ true
      → is_placed u t'.folders o ≡ true
  unfolding elem
  parent_after f none stay e mf owned out placed = refl
  parent_after f (some p) stay e mf owned out placed = elim (Bool-cases (p == "")) [
    | inl top ↦ rw top refl
    | inr named ↦
        let live : is_live u t.folders p ≡ true = ground arith in
        let (h, mh, active) = any_of-member (is_active_folder p u) t.folders live in
        elim (Bool-cases (elem p (tree_ids u id t))) [
          | inl inside ↦
              let below = tree-closed u id t f h p mf owned e mh (ground arith) inside in
              ground arith
          | inr outside ↦ rw (live_after p stay outside h mh active) (ground arith)
        ]
  ]

  pub IsRooted-of_cut :
      ((g : FolderDoc)
        → Memᴰ g t'.folders
        → owned_active_folder u g ≡ true
        → Memᴰ g t.folders × (elem g.id (tree_ids u id t) ≡ false))
      → IsUncut
      → ((n : NoteDoc)
          → Memᴰ n t'.notes
          → owned_active_note u n ≡ true
          → Memᴰ n t.notes × (in_ids n.folder_id (tree_ids u id t) ≡ false))
      → IsRooted u t
      → IsRooted u t'
  IsRooted-of_cut from stay notes_from r = record {
    folders_placed = all_of-intro (folder_placed u t'.folders) t'.folders (λ g m.
        elim (Bool-cases (owned_active_folder u g)) [
          | inl active ↦
              let (m', out) = from g m active in
              let before =
                all_of-member (folder_placed u t.folders) t.folders g r.folders_placed m' in
              rw (parent_after g g.parent_id stay refl m' (ground arith) out (ground arith))
                (ground arith)
          | inr other ↦ rw other refl
        ]);
    notes_placed = all_of-intro (note_placed u t'.folders) t'.notes (λ n m.
        elim (Bool-cases (owned_active_note u n)) [
          | inl active ↦
              let (m', out) = notes_from n m active in
              let before = all_of-member (note_placed u t.folders) t.notes n r.notes_placed m' in
              rw (placed_after n.folder_id stay out (ground arith)) (ground arith)
          | inr other ↦ rw other refl
        ]);
  }

-- A property of the collections is kept where all or nothing keeps it.
pub AllOrNothing-keeps :
    {G A : Type 0} (I : Tables → Type 0) (f : Tables → Tables) (before : Tables)
    (r : Result A × Stores G)
    → AllOrNothing f before r
    → (I before → I (f before))
    → I before
    → I r.1.mongo.db
AllOrNothing-keeps I f before _ (AllOrNothing.all a s e) k i = subst I (sym e) (k i)
AllOrNothing-keeps I f before _ (AllOrNothing.nothing x s e) k i = subst I (sym e) i
AllOrNothing-keeps I f before _ (AllOrNothing.applied x s e) k i = subst I (sym e) (k i)
