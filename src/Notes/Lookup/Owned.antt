-- ===== src/Notes/Lookup/Owned.antt =====
-- What `findDescendantFolderIds` (src/infra/repositories/NoteRepositoryMongo.ts) answers: the folders of
-- a user below one of the user's folders.
use graph_node_be.Notes.Lookup.Below.{descendants-Below}
use graph_node_be.Common.Text.{eq_refl, ◌==◌, eq_iff}
use graph_node_be.Notes.Members.{
  find_all-member, find_all-intro, find_one-member, Memᴰ, find_one-none,
}
use graph_node_be.Store.Effects.{ok}
use graph_node_be.Notes.Lookup.Edges.{has_edge-folder, has_edge-member, Below, has_edge}
use graph_node_be.Common.{
  [], refl, sym, inr, ap, arith, some, none, inl, ◌∙◌, ◌↔◌, Option-cases, true, ◌≡◌, List,
}
use graph_node_be.Notes.Docs.{is_folder, FolderDoc, Tables}
use graph_node_be.Notes.Collections.{find_one, elem}
use Prim.Native.String.{[], String}
use graph_node_be.Notes.Descendants.{
  descendants, owned_by, descendant_ids, find_descendant_folder_ids,
}

pub descendant_ids-none :
    (id u : String) (fs : List FolderDoc)
    → find_one (is_folder id u) fs ≡ none
    → descendant_ids id u fs ≡ []
unfolding descendant_ids
descendant_ids-none id u fs e = rw e refl

pub descendant_ids-some :
    (id u : String) (fs : List FolderDoc) (f : FolderDoc)
    → find_one (is_folder id u) fs ≡ some f
    → descendant_ids id u fs ≡ descendants (owned_by u fs) id
unfolding descendant_ids
descendant_ids-some id u fs f e = rw e refl

-- The folder lies below the folder with the id `root`, along folders of `u` only.
pub data IsUnder (u root : String) (fs : List FolderDoc) : FolderDoc → Type 0 where
  child :
      (f : FolderDoc)
      → Memᴰ f fs
      → f.owner_user_id ≡ u
      → f.parent_id ≡ some root
      → IsUnder u root fs f
  deeper :
      (f p : FolderDoc)
      → IsUnder u root fs p
      → Memᴰ f fs
      → f.owner_user_id ≡ u
      → f.parent_id ≡ some p.id
      → IsUnder u root fs f

-- `root` is the id of a folder of `u`, and `x` that of a folder below it.
pub data Descends (u root : String) (fs : List FolderDoc) (x : String) : Type 0 where
  found :
      (r f : FolderDoc)
      → Memᴰ r fs
      → r.id ≡ root
      → r.owner_user_id ≡ u
      → IsUnder u root fs f
      → f.id ≡ x
      → Descends u root fs x

edge_of :
    (u : String) (fs : List FolderDoc) (f : FolderDoc) (p : String)
    → Memᴰ f fs
    → f.owner_user_id ≡ u
    → f.parent_id ≡ some p
    → has_edge (owned_by u fs) p f.id ≡ true
edge_of u fs f p m owned parent =
    has_edge-member (owned_by u fs) f p
      (find_all-intro (λ g. g.owner_user_id == u) fs f m (rw (owned, eq_refl u) refl)) parent

owned_edge :
    (u : String) (fs : List FolderDoc) (p x : String)
    → has_edge (owned_by u fs) p x ≡ true
    → (f : FolderDoc) × Memᴰ f fs × (f.owner_user_id ≡ u) × (f.id ≡ x) × (f.parent_id ≡ some p)
owned_edge u fs p x e =
    let (f, m, is_x, parent) = has_edge-folder (owned_by u fs) p x e in
    let (m', owned) = find_all-member (λ g. g.owner_user_id == u) fs f m in
    (f, m', (eq_iff f.owner_user_id u).0 owned, is_x, parent)

IsUnder-Below :
    (u root : String) (fs : List FolderDoc) (f : FolderDoc)
    → IsUnder u root fs f
    → Below (owned_by u fs) root f.id
IsUnder-Below u root fs _ (IsUnder.child f m owned parent) =
    Below.child f.id (edge_of u fs f root m owned parent)
IsUnder-Below u root fs _ (IsUnder.deeper f p b m owned parent) =
    Below.deeper p.id f.id (IsUnder-Below u root fs p b) (edge_of u fs f p.id m owned parent)

Below-IsUnder :
    (u root : String) (fs : List FolderDoc) (x : String)
    → Below (owned_by u fs) root x
    → (f : FolderDoc) × IsUnder u root fs f × (f.id ≡ x)
Below-IsUnder u root fs x (Below.child _ e) =
    let (f, m, owned, is_x, parent) = owned_edge u fs root x e in
    (f, IsUnder.child f m owned parent, is_x)
Below-IsUnder u root fs x (Below.deeper p _ b e) =
    let (g, under, is_p) = Below-IsUnder u root fs p b in
    let (f, m, owned, is_x, parent) = owned_edge u fs p x e in
    (f, IsUnder.deeper f g under m owned (parent ∙ ap (λ s. some s) (sym is_p)), is_x)

descends-found :
    (root u : String) (fs : List FolderDoc) (x : String)
    → Descends u root fs x
    → elem x (descendant_ids root u fs) ≡ true
descends-found root u fs x (Descends.found r f mr is_root owned under is_x) =
    elim (Option-cases (find_one (is_folder root u) fs)) [
      | inl missing ↦
          let not_r = find_one-none (is_folder root u) fs r missing mr in
          ground (arith, eq_iff r.id root, eq_iff r.owner_user_id u)
      | inr (g, there) ↦
          rw (descendant_ids-some root u fs g there, sym is_x)
            ((descendants-Below (owned_by u fs) root f.id).1 (IsUnder-Below u root fs f under))
    ]

found-descends :
    (root u : String) (fs : List FolderDoc) (x : String)
    → elem x (descendant_ids root u fs) ≡ true
    → Descends u root fs x
unfolding elem
found-descends root u fs x e = elim (Option-cases (find_one (is_folder root u) fs)) [
  | inl missing ↦ ground (arith, ap (elem x) (descendant_ids-none root u fs missing))
  | inr (r, there) ↦
      let (mr, is_r) = find_one-member (is_folder root u) fs r there in
      let (f, under, is_x) = Below-IsUnder u root fs x (
        (descendants-Below (owned_by u fs) root x).0
          (ground (arith, ap (elem x) (descendant_ids-some root u fs r there)))) in
      Descends.found r f mr (ground (arith, eq_iff r.id root))
        (ground (arith, eq_iff r.owner_user_id u)) under is_x
]

-- `findDescendantFolderIds` of `root` for the user `u` changes nothing and answers with ids of which
-- `x` is one exactly where `root` is a folder of `u` and `x` is the id of a folder of `u` that lies
-- below it, along any number of parents that are folders of `u` too, trashed or not, and whatever
-- circles the parents run in.
pub find_descendant_folder_ids-Descends :
    (root u x : String) (t : Tables)
    → let ids = descendant_ids root u t.folders in
      (find_descendant_folder_ids root u t ≡ (ok ids, t))
      × ((elem x ids ≡ true) ↔ Descends u root t.folders x)
unfolding find_descendant_folder_ids
find_descendant_folder_ids-Descends root u x t =
    (refl, (found-descends root u t.folders x, descends-found root u t.folders x))
