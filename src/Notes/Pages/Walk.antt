-- ===== src/Notes/Pages/Walk.antt =====
-- That a client which follows the cursors of Notes.Listing (the paged queries of
-- src/infra/repositories/NoteRepositoryMongo.ts) sees every document.
use graph_node_be.Common.{
  ℕ, zero, suc, ◌<◌, ◌≡◌, refl, sym, ◌∙◌, ap, inl, inr, Bool, true, Option, none, some, List, [],
  ◌∷◌, ◌++◌, length, take, drop, nat_eq, if◌then◌else◌, Bool-cases, Option-cases, arith,
}
use graph_node_be.Notes.Collections.{find_all, sort_newest}
use graph_node_be.Notes.Listing.{Page, is_before, last_date, page_of, list_page}
use graph_node_be.Notes.Pages.Paging.{
  no_last_date, find_all-and, find_all-sort, is_descending, after_page, take_short, take-drop,
  is_descending-drop, length-drop, last_date-before, before_before,
}

abbrev pub follow : {A : Type 0} → (ℕ → List A) → Option ℕ → List A
follow f none = []
follow f (some c) = f c

-- The client: it asks for pages of `limit` documents from a cursor on, and follows the next cursor as
-- long as there is one.
module _ {A : Type 0} (at : A → ℕ) (p : A → Bool) (rows : List A) where
  unfoldable pub walk : ℕ → ℕ → Option ℕ → List A
  walk limit zero cursor = []
  walk limit (suc fuel) cursor =
      let page = list_page at p limit cursor rows in
      page.items ++ follow (λ c. walk limit fuel (some c)) page.next_cursor

  ordered : List A
  ordered = sort_newest at (find_all p rows)

  -- What a page shows
  page_at : (n : ℕ) (cursor : Option ℕ) → Page A
  page_at n cursor =
      page_of at (suc n) (take (suc n) (find_all (λ y. is_before cursor (at y)) ordered))

  list_page-at : (n : ℕ) (cursor : Option ℕ) → list_page at p (suc n) cursor rows ≡ page_at n cursor
  unfolding list_page page_at ordered
  list_page-at n cursor =
      ap (λ xs. page_of at (suc n) (take (suc n) xs))
        (ap (sort_newest at) (find_all-and at p (λ y. is_before cursor (at y)) rows)
          ∙ find_all-sort at cursor (find_all p rows))

  append_nil : (xs : List A) → xs ++ [] ≡ xs
  append_nil [] = refl
  append_nil (x ∷ xs) = ap (λ ys. x ∷ ys) (append_nil xs)

  page_end :
      (n : ℕ) (xs : List A) (f : ℕ → List A)
      → ((c : ℕ)
          → last_date at (take (suc n) xs) ≡ some c
          → nat_eq (length (take (suc n) xs)) (suc n) ≡ true
          → f c ≡ drop (suc n) xs)
      → take (suc n) xs
          ++ follow f (
              if nat_eq (length (take (suc n) xs)) (suc n)
              then last_date at (take (suc n) xs)
              else none)
        ≡ xs
  page_end n xs f rest = elim (Bool-cases (nat_eq (length (take (suc n) xs)) (suc n))) [
    | inl full ↦ elim (Option-cases (last_date at (take (suc n) xs))) [
      | inl no_date ↦ ground (arith, no_last_date at (take (suc n) xs) no_date)
      | inr (c, e) ↦ rw (full, e, rest c e full) (take-drop at (suc n) xs)
    ]
    | inr short ↦ rw (short, append_nil (take (suc n) xs)) (take_short at (suc n) xs short)
  ]

  next_rest :
      (n : ℕ) (cursor : Option ℕ) (c : ℕ) (xs : List A)
      → find_all (λ y. is_before cursor (at y)) ordered ≡ xs
      → is_descending at xs ≡ true
      → last_date at (take (suc n) xs) ≡ some c
      → nat_eq (length (take (suc n) xs)) (suc n) ≡ true
      → find_all (λ y. is_before (some c) (at y)) ordered ≡ drop (suc n) xs
  next_rest n cursor c xs e d last full =
      sym (
        before_before at cursor c ordered (
          last_date-before at cursor (suc n) c ordered
            (ap (λ ys. last_date at (take (suc n) ys)) e ∙ last)))
      ∙ ap (find_all (λ y. is_before (some c) (at y))) e
      ∙ after_page at n c xs d last full

  walk_rest :
      (n fuel : ℕ) (cursor : Option ℕ) (xs : List A)
      → find_all (λ y. is_before cursor (at y)) ordered ≡ xs
      → is_descending at xs ≡ true
      → length xs < fuel
      → walk (suc n) fuel cursor ≡ xs
  unfolding walk page_at
  walk_rest n zero cursor xs e d enough = ground arith
  walk_rest n (suc fuel) cursor xs e d enough =
      rw (list_page-at n cursor, e)
        (page_end n xs (λ c. walk (suc n) fuel (some c))
          (λ c last full.
            walk_rest n fuel (some c) (drop (suc n) xs) (next_rest n cursor c xs e d last full)
              (is_descending-drop at (suc n) xs d)
              (ground (arith, length-drop at (suc n) xs full))))

  find_all-none : (xs : List A) → find_all (λ y. is_before none (at y)) xs ≡ xs
  unfolding find_all
  find_all-none [] = refl
  find_all-none (x ∷ xs) = ap (λ ys. x ∷ ys) (find_all-none xs)

  -- Where no two of the documents asked for have the same `updatedAt`, a client that follows the
  -- cursors, with pages of any size but 0, sees each of them once, newest first, and then the end.
  pub walk_complete :
      (n fuel : ℕ)
      → is_descending at (sort_newest at (find_all p rows)) ≡ true
      → length (sort_newest at (find_all p rows)) < fuel
      → walk (suc n) fuel none ≡ sort_newest at (find_all p rows)
  unfolding ordered
  walk_complete n fuel d enough =
      walk_rest n fuel none (sort_newest at (find_all p rows))
        (find_all-none (sort_newest at (find_all p rows))) d enough
