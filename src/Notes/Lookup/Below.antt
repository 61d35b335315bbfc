-- ===== src/Notes/Lookup/Below.antt =====
-- That the rounds of `findDescendantFolderIds` (src/infra/repositories/NoteRepositoryMongo.ts) find the
-- ids of the folders below the root.
use graph_node_be.Common.{
  ap, ℕ, zero, suc, ◌≤◌, ◌≡◌, refl, sym, ◌∙◌, inl, inr, ◌⊎◌, ◌↔◌, true, false, ◌||◌, String, List,
  [], ◌∷◌, ◌++◌, length, arith, Bool-cases,
}
use graph_node_be.Common.Text.{◌==◌, eq_iff, eq_refl}
use graph_node_be.Notes.Collections.{elem}
use graph_node_be.Notes.Docs.{FolderDoc}
use graph_node_be.Notes.Descendants.{
  then_later, children, others, folder_ids, graph_lookup, descendants,
}
use graph_node_be.Notes.Lookup.Edges.{
  has_edge, Below, child, deeper, elem-append, others-shorter, children-edge, edge-children,
  edge-others, others-edge,
}

-- Closure of what a lookup reaches or finds: enough rounds find the child of any of these.
IsClosed : List String → List String → List FolderDoc → Type 0
IsClosed reached found rest =
    (p x : String)
    → (elem p reached || elem p found) ≡ true
    → has_edge rest p x ≡ true
    → elem x found ≡ true

-- One round, over any later ones that are closed.
round-IsClosed :
    (reached found later : List String) (rest next : List FolderDoc)
    → ((p x : String) → elem p reached ≡ true → has_edge rest p x ≡ true → elem x found ≡ true)
    → ((p x : String)
        → elem p reached ≡ false
        → has_edge rest p x ≡ true
        → has_edge next p x ≡ true)
    → ((y : String) (ys : List String) → found ≡ y ∷ ys → IsClosed (reached ++ found) later next)
    → IsClosed reached (then_later found later) rest
unfolding IsClosed elem
round-IsClosed reached [] later rest next taken left closed p x h e = taken p x (ground arith) e
round-IsClosed reached (y ∷ ys) later rest next taken left closed p x h e =
    elim (Bool-cases (elem p reached)) [
      | inl here ↦ rw (elem-append x (y ∷ ys) later, taken p x here e) refl
      | inr there ↦
          let e' =
            closed y ys refl p x
              (ground (arith, elem-append p reached (y ∷ ys), elem-append p (y ∷ ys) later))
              (left p x there e) in
          ground (arith, elem-append x (y ∷ ys) later)
    ]

graph_lookup-IsClosed :
    (fuel : ℕ) (reached : List String) (rest : List FolderDoc)
    → length rest ≤ fuel
    → IsClosed reached (graph_lookup fuel reached rest) rest
unfolding graph_lookup IsClosed has_edge
graph_lookup-IsClosed zero reached [] enough = λ p x h e. ground arith
graph_lookup-IsClosed zero reached (f ∷ rest) enough = λ p x h e. ground arith
graph_lookup-IsClosed (suc fuel) reached rest enough =
    let found = folder_ids (children reached rest) in
    let next = others reached rest in
    round-IsClosed reached found (graph_lookup fuel (reached ++ found) next) rest next
      (edge-children reached rest) (edge-others reached rest)
      (λ y ys some_found.
        graph_lookup-IsClosed fuel (reached ++ found) next
          (others-shorter reached rest y ys fuel some_found enough))

step :
    (rows : List FolderDoc) (root p x : String)
    → (p ≡ root) ⊎ Below rows root p
    → has_edge rows p x ≡ true
    → Below rows root x
step rows root p x (inl is_root) e = child x (ap (λ q. has_edge rows q x) (sym is_root) ∙ e)
step rows root p x (inr b) e = deeper p x b e

elem-then_later :
    (x : String) (found later : List String)
    → elem x (then_later found later) ≡ true
    → (elem x found || elem x later) ≡ true
unfolding elem
elem-then_later x [] later e = ground arith
elem-then_later x (y ∷ ys) later e = sym (elem-append x (y ∷ ys) later) ∙ e

graph_lookup-sound :
    (rows : List FolderDoc) (root : String) (fuel : ℕ) (reached : List String)
    (rest : List FolderDoc)
    → ((p : String) → elem p reached ≡ true → (p ≡ root) ⊎ Below rows root p)
    → ((p x : String) → has_edge rest p x ≡ true → has_edge rows p x ≡ true)
    → (x : String) → elem x (graph_lookup fuel reached rest) ≡ true
    → Below rows root x
unfolding graph_lookup elem
graph_lookup-sound rows root zero reached rest known edges x e = ground arith
graph_lookup-sound rows root (suc fuel) reached rest known edges x e =
    let found = folder_ids (children reached rest) in
    let next = others reached rest in
    let later = graph_lookup fuel (reached ++ found) next in
    let below : (y : String) → elem y found ≡ true → Below rows root y = λ y hy.
      let (p, reached_p, edge) = children-edge reached rest y hy in
      step rows root p y (known p reached_p) (edges p y edge) in
    elim (Bool-cases (elem x found)) [
      | inl here ↦ below x here
      | inr there ↦
          graph_lookup-sound rows root fuel (reached ++ found) next
            (λ p h. elim (Bool-cases (elem p reached)) [
              | inl before ↦ known p before
              | inr new ↦ inr (below p (ground (arith, elem-append p reached found)))
            ])
            (λ p y h. edges p y (others-edge reached rest p y h)) x
            (ground (arith, elem-then_later x found later e))
    ]

only : (root p : String) → elem p (root ∷ []) ≡ true → p ≡ root
unfolding elem
only root p h = ground (arith, eq_iff p root)

-- What is found is closed under children.
pub descendants-closed :
    (rows : List FolderDoc) (root p x : String)
    → ((p == root) || elem p (descendants rows root)) ≡ true
    → has_edge rows p x ≡ true
    → elem x (descendants rows root) ≡ true
unfolding descendants IsClosed elem
descendants-closed rows root p x h e =
    graph_lookup-IsClosed (length rows) (root ∷ []) rows (omega arith) p x (ground arith) e

below-found :
    (rows : List FolderDoc) (root x : String)
    → Below rows root x
    → elem x (descendants rows root) ≡ true
below-found rows root x (child _ e) = descendants-closed rows root root x (rw (eq_refl root) refl) e
below-found rows root x (deeper p _ b e) =
    descendants-closed rows root p x (ground (arith, below-found rows root p b)) e

-- The lookup over given folders finds an id exactly where a folder with that id lies below the root,
-- along any number of parents and whatever circles there are.
pub descendants-Below :
    (rows : List FolderDoc) (root x : String)
    → (elem x (descendants rows root) ≡ true) ↔ Below rows root x
unfolding descendants elem
descendants-Below rows root x = (
  graph_lookup-sound rows root (length rows) (root ∷ []) rows (λ p h. inl (only root p h))
      (λ p y h. h) x,
  below-found rows root x,
)
