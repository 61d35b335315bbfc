-- ===== src/Notes/Lookup/Updates.antt =====
-- Updates that leave a folder's id, parent and owner alone do not move it: the queries of
-- Notes.Descendants answer as before.
use graph_node_be.Common.{
  true, false, Bool-cases, inl, inr, ℕ, zero, suc, ◌≡◌, refl, ◌∙◌, ap, Bool, not, Option, none,
  some, String, List, [], ◌∷◌, ◌++◌, length, map, if◌then◌else◌, arith,
}
use graph_node_be.Common.Text.{◌==◌}
use graph_node_be.Notes.Collections.{find_one, find_all, update_many, delete_many, in_ids}
use graph_node_be.Notes.Docs.{FolderDoc, is_folder}
use graph_node_be.Notes.Repository.{mapped}
use graph_node_be.Notes.Descendants.{
  children, others, folder_ids, then_later, graph_lookup, descendants, owned_by, where_found,
  descendant_ids,
}

module _ {A : Type 0} (c : A → Bool) (h : A → A) where
  abbrev pub update_if : A → A
  update_if x = if c x then h x else x

  pub find_all-update_many :
      (q : A → Bool) (xs : List A)
      → ((x : A) → q (h x) ≡ q x)
      → find_all q (update_many c h xs) ≡ update_many c h (find_all q xs)
  unfolding find_all update_many
  find_all-update_many q [] keeps = refl
  find_all-update_many q (x ∷ xs) keeps = ground (arith, keeps x, find_all-update_many q xs keeps)

  pub find_one-update_many :
      (q : A → Bool) (xs : List A)
      → ((x : A) → q (h x) ≡ q x)
      → find_one q (update_many c h xs) ≡ mapped update_if (find_one q xs)
  unfolding find_one update_many
  find_one-update_many q [] keeps = refl
  find_one-update_many q (x ∷ xs) keeps = ground (arith, keeps x, find_one-update_many q xs keeps)

  pub length-update_many : (xs : List A) → length (update_many c h xs) ≡ length xs
  unfolding update_many
  length-update_many [] = refl
  length-update_many (x ∷ xs) = ap suc (length-update_many xs)

  pub map-update_many :
      {B : Type 0} (g : A → B) (xs : List A)
      → ((x : A) → g (h x) ≡ g x)
      → map g (update_many c h xs) ≡ map g xs
  unfolding update_many
  map-update_many g [] keeps = refl
  map-update_many g (x ∷ xs) keeps = ground (arith, keeps x, map-update_many g xs keeps)

  -- Once more changes nothing.
  pub update_many-twice :
      (xs : List A)
      → ((x : A) → c (h x) ≡ c x)
      → ((x : A) → h (h x) ≡ h x)
      → update_many c h (update_many c h xs) ≡ update_many c h xs
  unfolding update_many
  update_many-twice [] kept same = refl
  update_many-twice (x ∷ xs) kept same = elim (Bool-cases (c x)) [
    | inl hit ↦ rw (hit, kept x, hit, same x, update_many-twice xs kept same) refl
    | inr miss ↦ rw (miss, miss, update_many-twice xs kept same) refl
  ]

module _ {A : Type 0} (c d : A → Bool) (part : (x : A) → c x ≡ true → d x ≡ true) where
  pub delete_many-twice : (xs : List A) → delete_many c (delete_many d xs) ≡ delete_many d xs
  unfolding delete_many
  delete_many-twice [] = refl
  delete_many-twice (x ∷ xs) = elim (Bool-cases (d x)) [
    | inl hit ↦ rw (hit, delete_many-twice xs) refl
    | inr miss ↦
        let stays : c x ≡ false = ground (arith, part x) in
        rw (miss, stays, delete_many-twice xs) refl
  ]

  pub find_one-delete_many : (xs : List A) → find_one c (delete_many d xs) ≡ none
  unfolding delete_many find_one
  find_one-delete_many [] = refl
  find_one-delete_many (x ∷ xs) = elim (Bool-cases (d x)) [
    | inl hit ↦ rw (hit, find_one-delete_many xs) refl
    | inr miss ↦
        let stays : c x ≡ false = ground (arith, part x) in
        rw (miss, stays, find_one-delete_many xs) refl
  ]

module _ (c : FolderDoc → Bool) (h : FolderDoc → FolderDoc)
    (id_kept : (f : FolderDoc) → (h f).id ≡ f.id)
    (parent_kept : (f : FolderDoc) → (h f).parent_id ≡ f.parent_id)
    (owner_kept : (f : FolderDoc) → (h f).owner_user_id ≡ f.owner_user_id) where
  graph_lookup-update_many :
      (fuel : ℕ) (reached : List String) (rest : List FolderDoc)
      → graph_lookup fuel reached (update_many c h rest) ≡ graph_lookup fuel reached rest
  unfolding graph_lookup children others
  graph_lookup-update_many zero reached rest = refl
  graph_lookup-update_many (suc fuel) reached rest =
      let taken : children reached (update_many c h rest)
          ≡ update_many c h (children reached rest) =
        find_all-update_many c h (λ f. in_ids f.parent_id reached) rest
          (λ f. ap (λ o. in_ids o reached) (parent_kept f)) in
      let left : others reached (update_many c h rest) ≡ update_many c h (others reached rest) =
        find_all-update_many c h (λ f. not (in_ids f.parent_id reached)) rest
          (λ f. ap (λ o. not (in_ids o reached)) (parent_kept f)) in
      let found : folder_ids (children reached (update_many c h rest))
          ≡ folder_ids (children reached rest) =
        ap folder_ids taken ∙ map-update_many c h (λ f. f.id) (children reached rest) id_kept in
      rw (found, left)
        (ap (then_later (folder_ids (children reached rest))) (
          graph_lookup-update_many fuel (reached ++ folder_ids (children reached rest))
            (others reached rest)))

  found_still :
      (o : Option FolderDoc) (ids : List String)
      → where_found (mapped (update_if c h) o) ids ≡ where_found o ids
  found_still none ids = refl
  found_still (some f) ids = refl

  pub descendant_ids-update_many :
      (root u : String) (fs : List FolderDoc)
      → descendant_ids root u (update_many c h fs) ≡ descendant_ids root u fs
  unfolding descendant_ids descendants
  descendant_ids-update_many root u fs =
      let owned : owned_by u (update_many c h fs) ≡ update_many c h (owned_by u fs) =
        find_all-update_many c h (λ f. f.owner_user_id == u) fs
          (λ f. ap (λ v. v == u) (owner_kept f)) in
      let there =
        find_one-update_many c h (is_folder root u) fs (λ f. rw (id_kept f, owner_kept f) refl) in
      rw
        (
          there,
          owned,
          length-update_many c h (owned_by u fs),
          graph_lookup-update_many (length (owned_by u fs)) (root ∷ []) (owned_by u fs),
        )
        (found_still (find_one (is_folder root u) fs)
          (graph_lookup (length (owned_by u fs)) (root ∷ []) (owned_by u fs)))
