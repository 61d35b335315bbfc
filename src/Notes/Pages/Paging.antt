-- ===== src/Notes/Pages/Paging.antt =====
-- Lists of documents from the newest on, for the paged queries of
-- src/infra/repositories/NoteRepositoryMongo.ts.
use graph_node_be.Notes.Members.{all_of}
use graph_node_be.Common.{
  ℕ, zero, suc, ◌+◌, ◌≤◌, ◌<◌, ◌≡◌, refl, ap, Bool, true, false, ◌&&◌, Option, none, some, List, [],
  ◌∷◌, ◌++◌, length, take, drop, ltb, nat_eq, if◌then◌else◌, arith,
}
use graph_node_be.Notes.Collections.{find_all, insert_by, sort_newest}
use graph_node_be.Notes.Listing.{is_before, last_date}

some_eq : {a b : ℕ} → some a ≡ some b → a ≡ b
some_eq e = ground arith

module _ {A : Type 0} (at : A → ℕ) where
  pub find_all-and :
      (p q : A → Bool) (xs : List A) → find_all (λ x. p x && q x) xs ≡ find_all q (find_all p xs)
  unfolding find_all
  find_all-and p q [] = refl
  find_all-and p q (x ∷ xs) = ground (arith, find_all-and p q xs)

  find_all-insert :
      (cursor : Option ℕ) (x : A) (xs : List A)
      → find_all (λ y. is_before cursor (at y)) (insert_by at x xs) ≡ (
          if is_before cursor (at x)
          then insert_by at x (find_all (λ y. is_before cursor (at y)) xs)
          else find_all (λ y. is_before cursor (at y)) xs)
  unfolding find_all insert_by
  find_all-insert none x [] = ground arith
  find_all-insert none x (y ∷ ys) = ground (arith, find_all-insert none x ys)
  find_all-insert (some c) x [] = ground arith
  find_all-insert (some c) x (y ∷ ys) = ground (arith, find_all-insert (some c) x ys)

  pub find_all-sort :
      (cursor : Option ℕ) (xs : List A)
      → sort_newest at (find_all (λ y. is_before cursor (at y)) xs)
        ≡ find_all (λ y. is_before cursor (at y)) (sort_newest at xs)
  unfolding find_all sort_newest
  find_all-sort cursor [] = refl
  find_all-sort cursor (x ∷ xs) =
      ground (arith, find_all-insert cursor x (sort_newest at xs), find_all-sort cursor xs)

  -- From the newest on, no two dates alike
  unfoldable pub is_descending : List A → Bool
  is_descending [] = true
  is_descending (x ∷ []) = true
  is_descending (x ∷ y ∷ ys) = ltb (at y) (at x) && is_descending (y ∷ ys)

  before_all :
      (c : ℕ) (x : A) (xs : List A)
      → at x ≤ c
      → is_descending (x ∷ xs) ≡ true
      → find_all (λ y. is_before (some c) (at y)) xs ≡ xs
  unfolding find_all is_descending
  before_all c x [] le d = refl
  before_all c x (y ∷ ys) le d =
      let rest = before_all c y ys (ground arith) (ground arith) in
      let now : ltb (at y) c ≡ true = ground arith in rw (now, rest) refl

  last_date-bound :
      (n c : ℕ) (x : A) (xs : List A)
      → is_descending (x ∷ xs) ≡ true
      → last_date at (take n xs) ≡ some c
      → c < at x
  unfolding is_descending
  last_date-bound zero c x xs d e = ground arith
  last_date-bound (suc n) c x [] d e = ground arith
  last_date-bound (suc zero) c x (y ∷ ys) d e = ground arith
  last_date-bound (suc (suc n)) c x (y ∷ []) d e = ground arith
  last_date-bound (suc (suc n)) c x (y ∷ z ∷ zs) d e =
      ground (arith, last_date-bound (suc n) c y (z ∷ zs) (ground arith) e)

  -- What comes after the date of a full page is what comes after the page.
  pub after_page :
      (n c : ℕ) (xs : List A)
      → is_descending xs ≡ true
      → last_date at (take (suc n) xs) ≡ some c
      → nat_eq (length (take (suc n) xs)) (suc n) ≡ true
      → find_all (λ y. is_before (some c) (at y)) xs ≡ drop (suc n) xs
  unfolding find_all is_descending
  after_page n c [] d e full = ground arith
  after_page zero c (x ∷ xs) d e full =
      let rest = before_all c x xs (ground arith) d in
      let now : ltb (at x) c ≡ false = ground arith in rw (now, rest) refl
  after_page (suc n) c (x ∷ []) d e full = ground arith
  after_page (suc n) c (x ∷ y ∷ ys) d e full =
      let rest = after_page n c (y ∷ ys) (ground arith) e (ground arith) in
      let bound = last_date-bound (suc n) c x (y ∷ ys) d e in
      let now : ltb (at x) c ≡ false = ground arith in rw (now, rest) refl

  pub take_short : (n : ℕ) (xs : List A) → nat_eq (length (take n xs)) n ≡ false → take n xs ≡ xs
  take_short zero xs short = ground arith
  take_short (suc n) [] short = refl
  take_short (suc n) (x ∷ xs) short = ap (λ ys. x ∷ ys) (take_short n xs (ground arith))

  pub take-drop : (n : ℕ) (xs : List A) → take n xs ++ drop n xs ≡ xs
  take-drop zero xs = refl
  take-drop (suc n) [] = refl
  take-drop (suc n) (x ∷ xs) = ap (λ ys. x ∷ ys) (take-drop n xs)

  pub is_descending-drop :
      (n : ℕ) (xs : List A) → is_descending xs ≡ true → is_descending (drop n xs) ≡ true
  unfolding is_descending
  is_descending-drop zero xs d = d
  is_descending-drop (suc n) [] d = refl
  is_descending-drop (suc zero) (x ∷ []) d = refl
  is_descending-drop (suc (suc n)) (x ∷ []) d = refl
  is_descending-drop (suc n) (x ∷ y ∷ ys) d = is_descending-drop n (y ∷ ys) (ground arith)

  pub length-drop :
      (n : ℕ) (xs : List A)
      → nat_eq (length (take n xs)) n ≡ true
      → length (drop n xs) + n ≡ length xs
  length-drop zero xs full = ground arith
  length-drop (suc n) [] full = ground arith
  length-drop (suc n) (x ∷ xs) full = ground (arith, length-drop n xs (ground arith))

  pub no_last_date : (xs : List A) → last_date at xs ≡ none → length xs ≡ 0
  no_last_date [] e = refl
  no_last_date (x ∷ []) e = ground arith
  no_last_date (x ∷ y ∷ ys) e = ground (arith, no_last_date (y ∷ ys) e)

  all_before :
      (cursor : Option ℕ) (xs : List A)
      → all_of (λ y. is_before cursor (at y)) (find_all (λ y. is_before cursor (at y)) xs) ≡ true
  unfolding all_of find_all
  all_before cursor [] = refl
  all_before cursor (x ∷ xs) = ground (arith, all_before cursor xs)

  last_date-all :
      (cursor : Option ℕ) (n c : ℕ) (xs : List A)
      → all_of (λ y. is_before cursor (at y)) xs ≡ true
      → last_date at (take n xs) ≡ some c
      → is_before cursor c ≡ true
  unfolding all_of
  last_date-all cursor zero c xs h e = ground arith
  last_date-all cursor (suc n) c [] h e = ground arith
  last_date-all cursor (suc zero) c (x ∷ xs) h e = ground (arith, ap (is_before cursor) (some_eq e))
  last_date-all cursor (suc (suc n)) c (x ∷ []) h e =
      ground (arith, ap (is_before cursor) (some_eq e))
  last_date-all cursor (suc (suc n)) c (x ∷ y ∷ ys) h e =
      last_date-all cursor (suc n) c (y ∷ ys) (ground arith) e

  pub last_date-before :
      (cursor : Option ℕ) (n c : ℕ) (xs : List A)
      → last_date at (take n (find_all (λ y. is_before cursor (at y)) xs)) ≡ some c
      → is_before cursor c ≡ true
  last_date-before cursor n c xs e =
      last_date-all cursor n c (find_all (λ y. is_before cursor (at y)) xs) (all_before cursor xs) e

  pub before_before :
      (cursor : Option ℕ) (c : ℕ) (xs : List A)
      → is_before cursor c ≡ true
      → find_all (λ y. is_before (some c) (at y)) (find_all (λ y. is_before cursor (at y)) xs)
        ≡ find_all (λ y. is_before (some c) (at y)) xs
  unfolding find_all
  before_before cursor c [] h = refl
  before_before none c (x ∷ xs) h = ground (arith, before_before none c xs h)
  before_before (some d) c (x ∷ xs) h = ground (arith, before_before (some d) c xs h)
