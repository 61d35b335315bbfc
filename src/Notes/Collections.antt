-- ===== src/Notes/Collections.antt =====
-- What the MongoDB driver does on one collection, seen as a list of documents: the statements that
-- src/infra/repositories/NoteRepositoryMongo.ts issues, over any filter and any update.
use graph_node_be.Common.{
  ℕ, suc, Bool, true, false, Option, none, some, List, [], ◌∷◌, if◌then◌else◌, leb, ◌||◌, String,
}
use graph_node_be.Common.Text.{◌==◌}

-- `$in` on a list of ids
unfoldable pub elem : String → List String → Bool
elem x [] = false
elem x (y ∷ ys) = (x == y) || elem x ys

-- The same for a field that can be null, which is in no list.
abbrev pub in_ids : Option String → List String → Bool
in_ids none ids = false
in_ids (some x) ids = elem x ids

-- A filter on a field that can be null.
abbrev pub same_id : Option String → Option String → Bool
same_id none none = true
same_id (some x) (some y) = x == y
same_id _ _ = false

module _ {A : Type 0} where
  unfoldable pub find_one : (A → Bool) → List A → Option A
  find_one p [] = none
  find_one p (x ∷ xs) = if p x then some x else find_one p xs

  unfoldable pub find_all : (A → Bool) → List A → List A
  find_all p [] = []
  find_all p (x ∷ xs) = let rest = find_all p xs in if p x then x ∷ rest else rest

  unfoldable pub count : (A → Bool) → List A → ℕ
  count p [] = 0
  count p (x ∷ xs) = let rest = count p xs in if p x then suc rest else rest

  unfoldable pub update_one : (A → Bool) → (A → A) → List A → List A
  update_one p f [] = []
  update_one p f (x ∷ xs) = if p x then f x ∷ xs else x ∷ update_one p f xs

  unfoldable pub update_many : (A → Bool) → (A → A) → List A → List A
  update_many p f [] = []
  update_many p f (x ∷ xs) = (if p x then f x else x) ∷ update_many p f xs

  unfoldable pub delete_one : (A → Bool) → List A → List A
  delete_one p [] = []
  delete_one p (x ∷ xs) = if p x then xs else x ∷ delete_one p xs

  unfoldable pub delete_many : (A → Bool) → List A → List A
  delete_many p [] = []
  delete_many p (x ∷ xs) = let rest = delete_many p xs in if p x then rest else x ∷ rest

  -- `.sort({ updatedAt: -1 })`, by the date that `at` reads; equal dates keep their order.
  unfoldable pub insert_by : (A → ℕ) → A → List A → List A
  insert_by at x [] = x ∷ []
  insert_by at x (y ∷ ys) = if leb (at y) (at x) then x ∷ y ∷ ys else y ∷ insert_by at x ys

  unfoldable pub sort_newest : (A → ℕ) → List A → List A
  sort_newest at [] = []
  sort_newest at (x ∷ xs) = insert_by at x (sort_newest at xs)
