-- ===== src/Notes/Lookup/Edges.antt =====
-- One round of `findDescendantFolderIds` (src/infra/repositories/NoteRepositoryMongo.ts), and the
-- relation that the lookup is to compute: the ids of the folders below a root.
use graph_node_be.Notes.Members.{Memᴰ}
use graph_node_be.Common.{
  List-cases, ap, sym, ◌+◌, ℕ, suc, ◌≤◌, ◌≡◌, refl, inl, inr, Bool, true, false, ◌&&◌, ◌||◌, Option,
  none, some, String, List, [], ◌∷◌, ◌++◌, length, arith, Bool-cases,
}
use graph_node_be.Common.Text.{◌==◌, eq_iff, eq_refl}
use graph_node_be.Notes.Collections.{elem, in_ids, same_id, find_all}
use graph_node_be.Notes.Docs.{FolderDoc}
use graph_node_be.Notes.Descendants.{children, others, folder_ids}

-- Some folder with the id `x` has the parent `p`.
unfoldable pub has_edge : List FolderDoc → String → String → Bool
has_edge [] p x = false
has_edge (f ∷ fs) p x = ((f.id == x) && same_id f.parent_id (some p)) || has_edge fs p x

pub data Below (rows : List FolderDoc) (root : String) : String → Type 0 where
  child : (x : String) → has_edge rows root x ≡ true → Below rows root x
  deeper : (p x : String) → Below rows root p → has_edge rows p x ≡ true → Below rows root x

pub elem-append : (x : String) (xs ys : List String) → elem x (xs ++ ys) ≡ (elem x xs || elem x ys)
unfolding elem
elem-append x [] ys = refl
elem-append x (y ∷ xs) ys = ground (arith, elem-append x xs ys)

in_ids-same :
    (o : Option String) (p : String) (ids : List String)
    → same_id o (some p) ≡ true
    → in_ids o ids ≡ elem p ids
in_ids-same none p ids e = ground arith
in_ids-same (some q) p ids e = ap (λ s. elem s ids) ((eq_iff q p).0 e)

pub in_ids-some :
    (o : Option String) (ids : List String)
    → in_ids o ids ≡ true
    → (p : String) × (elem p ids ≡ true) × (same_id o (some p) ≡ true)
in_ids-some none ids e = ground arith
in_ids-some (some p) ids e = (p, e, eq_refl p)

length-others :
    (reached : List String) (rest : List FolderDoc)
    → length (children reached rest) + length (others reached rest) ≡ length rest
unfolding children others find_all
length-others reached [] = refl
length-others reached (f ∷ rest) = ground (arith, length-others reached rest)

pub others-shorter :
    (reached : List String) (rest : List FolderDoc) (y : String) (ys : List String) (fuel : ℕ)
    → folder_ids (children reached rest) ≡ y ∷ ys
    → length rest ≤ suc fuel
    → length (others reached rest) ≤ fuel
others-shorter reached rest y ys fuel e enough = elim (List-cases (children reached rest)) [
  | inl none_found ↦ ground (arith, e, ap folder_ids none_found)
  | inr (f, fs, some_found) ↦
      ground (arith, length-others reached rest, ap (length {A = FolderDoc}) some_found)
]

-- The parent by which a folder was taken
pub children-edge :
    (reached : List String) (rest : List FolderDoc) (x : String)
    → elem x (folder_ids (children reached rest)) ≡ true
    → (p : String) × (elem p reached ≡ true) × (has_edge rest p x ≡ true)
unfolding children find_all has_edge elem
children-edge reached [] x e = ground arith
children-edge reached (f ∷ rest) x e =
    elim (Bool-cases (in_ids f.parent_id reached && (x == f.id))) [
      | inl here ↦
          let (p, reached_p, of_f) = in_ids-some f.parent_id reached (ground arith) in
          (p, reached_p, ground (arith, eq_iff x f.id, eq_iff f.id x))
      | inr there ↦
          let (p, reached_p, edge) = children-edge reached rest x (ground arith) in
          (p, reached_p, ground arith)
    ]

pub edge-children :
    (reached : List String) (rest : List FolderDoc) (p x : String)
    → elem p reached ≡ true
    → has_edge rest p x ≡ true
    → elem x (folder_ids (children reached rest)) ≡ true
unfolding children find_all has_edge elem
edge-children reached [] p x h e = ground arith
edge-children reached (f ∷ rest) p x h e = ground (
  arith,
  eq_iff f.id x,
  eq_iff x f.id,
  in_ids-same f.parent_id p reached,
  edge-children reached rest p x h,
)

pub edge-others :
    (reached : List String) (rest : List FolderDoc) (p x : String)
    → elem p reached ≡ false
    → has_edge rest p x ≡ true
    → has_edge (others reached rest) p x ≡ true
unfolding others find_all has_edge
edge-others reached [] p x h e = ground arith
edge-others reached (f ∷ rest) p x h e =
    ground (arith, in_ids-same f.parent_id p reached, edge-others reached rest p x h)

pub others-edge :
    (reached : List String) (rest : List FolderDoc) (p x : String)
    → has_edge (others reached rest) p x ≡ true
    → has_edge rest p x ≡ true
unfolding others find_all has_edge
others-edge reached [] p x e = ground arith
others-edge reached (f ∷ rest) p x e = ground (arith, others-edge reached rest p x)

-- An edge is a folder with a parent.
same_parent : (o : Option String) (p : String) → same_id o (some p) ≡ true → o ≡ some p
same_parent none p e = ground arith
same_parent (some q) p e = ap (λ s. some s) ((eq_iff q p).0 e)

pub has_edge-member :
    (rows : List FolderDoc) (f : FolderDoc) (p : String)
    → Memᴰ f rows
    → f.parent_id ≡ some p
    → has_edge rows p f.id ≡ true
unfolding has_edge
has_edge-member [] f p m e = elim m [ ]
has_edge-member (g ∷ rows) f p (Memᴰ.head same) e = rw (sym same, e, eq_refl f.id, eq_refl p) refl
has_edge-member (g ∷ rows) f p (Memᴰ.tail m) e = ground (arith, has_edge-member rows f p m e)

pub edge-member :
    (rows : List FolderDoc) (p x : String)
    → has_edge rows p x ≡ true
    → (y : FolderDoc) × Memᴰ y rows × ((y.id == x) ≡ true) × (same_id y.parent_id (some p) ≡ true)
unfolding has_edge
edge-member [] p x e = ground arith
edge-member (f ∷ rows) p x e = elim (Bool-cases ((f.id == x) && same_id f.parent_id (some p))) [
  | inl here ↦ (f, Memᴰ.head refl, ground arith, ground arith)
  | inr there ↦ let (y, m, a, b) = edge-member rows p x (ground arith) in (y, Memᴰ.tail m, a, b)
]

pub has_edge-folder :
    (rows : List FolderDoc) (p x : String)
    → has_edge rows p x ≡ true
    → (f : FolderDoc) × Memᴰ f rows × (f.id ≡ x) × (f.parent_id ≡ some p)
has_edge-folder rows p x e =
    let (f, m, is_x, parent) = edge-member rows p x e in
    (f, m, (eq_iff f.id x).0 is_x, same_parent f.parent_id p parent)
