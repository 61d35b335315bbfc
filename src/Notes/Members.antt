-- ===== src/Notes/Members.antt =====
-- Membership in a collection after the statements of Notes.Collections, and Boolean tests over it.
use graph_node_be.Common.{
  subst, ◌≡◌, refl, sym, ◌∙◌, ap, inl, inr, ◌⊎◌, Bool, true, false, ◌&&◌, ◌||◌, none, some, List,
  [], ◌∷◌, Bool-cases, if◌then◌else◌, arith,
}
use graph_node_be.Notes.Collections.{find_one, find_all, update_many, delete_many}
pub use mathlib.Core.List.{Memᴰ}

module _ {A : Type 0} where
  unfoldable pub all_of : (A → Bool) → List A → Bool
  all_of p [] = true
  all_of p (x ∷ xs) = p x && all_of p xs

  unfoldable pub any_of : (A → Bool) → List A → Bool
  any_of p [] = false
  any_of p (x ∷ xs) = p x || any_of p xs

  pub all_of-member :
      (p : A → Bool) (xs : List A) (x : A) → all_of p xs ≡ true → Memᴰ x xs → p x ≡ true
  unfolding all_of
  all_of-member p [] x h m = elim m [ ]
  all_of-member p (y ∷ xs) x h (Memᴰ.head e) = rw e (ground arith)
  all_of-member p (y ∷ xs) x h (Memᴰ.tail m) = all_of-member p xs x (ground arith) m

  pub all_of-intro :
      (p : A → Bool) (xs : List A) → ((x : A) → Memᴰ x xs → p x ≡ true) → all_of p xs ≡ true
  unfolding all_of
  all_of-intro p [] h = refl
  all_of-intro p (x ∷ xs) h =
      rw (h x (Memᴰ.head refl), all_of-intro p xs (λ y m. h y (Memᴰ.tail m))) refl

  pub any_of-member :
      (p : A → Bool) (xs : List A) → any_of p xs ≡ true → (x : A) × Memᴰ x xs × (p x ≡ true)
  unfolding any_of
  any_of-member p [] h = ground arith
  any_of-member p (x ∷ xs) h = elim (Bool-cases (p x)) [
    | inl here ↦ (x, Memᴰ.head refl, here)
    | inr there ↦ let (y, m, e) = any_of-member p xs (ground arith) in (y, Memᴰ.tail m, e)
  ]

  pub any_of-intro :
      (p : A → Bool) (xs : List A) (x : A) → Memᴰ x xs → p x ≡ true → any_of p xs ≡ true
  unfolding any_of
  any_of-intro p [] x m h = elim m [ ]
  any_of-intro p (y ∷ xs) x (Memᴰ.head e) h = ground (arith, ap p e)
  any_of-intro p (y ∷ xs) x (Memᴰ.tail m) h = ground (arith, any_of-intro p xs x m h)

  -- The head of a list that is kept on a condition
  kept-member :
      (b : Bool) (y : A) (rest : List A) (x : A)
      → Memᴰ x (if b then y ∷ rest else rest)
      → ((b ≡ true) × (x ≡ y)) ⊎ Memᴰ x rest
  kept-member true y rest x (Memᴰ.head e) = inl (refl, e)
  kept-member true y rest x (Memᴰ.tail m) = inr m
  kept-member false y rest x m = inr m

  kept-tail :
      (b : Bool) (y : A) (rest : List A) (x : A)
      → Memᴰ x rest
      → Memᴰ x (if b then y ∷ rest else rest)
  kept-tail true y rest x m = Memᴰ.tail m
  kept-tail false y rest x m = m

  dropped-member :
      (b : Bool) (y : A) (rest : List A) (x : A)
      → Memᴰ x (if b then rest else y ∷ rest)
      → ((b ≡ false) × (x ≡ y)) ⊎ Memᴰ x rest
  dropped-member false y rest x (Memᴰ.head e) = inl (refl, e)
  dropped-member false y rest x (Memᴰ.tail m) = inr m
  dropped-member true y rest x m = inr m

  dropped-tail :
      (b : Bool) (y : A) (rest : List A) (x : A)
      → Memᴰ x rest
      → Memᴰ x (if b then rest else y ∷ rest)
  dropped-tail false y rest x m = Memᴰ.tail m
  dropped-tail true y rest x m = m

  pub find_all-member :
      (c : A → Bool) (xs : List A) (x : A) → Memᴰ x (find_all c xs) → Memᴰ x xs × (c x ≡ true)
  unfolding find_all
  find_all-member c [] x m = elim m [ ]
  find_all-member c (y ∷ xs) x m = elim (kept-member (c y) y (find_all c xs) x m) [
    | inl (holds, same) ↦ (Memᴰ.head same, rw same holds)
    | inr later ↦ let (n, holds) = find_all-member c xs x later in (Memᴰ.tail n, holds)
  ]

  pub find_all-intro :
      (c : A → Bool) (xs : List A) (x : A) → Memᴰ x xs → c x ≡ true → Memᴰ x (find_all c xs)
  unfolding find_all
  find_all-intro c [] x m h = elim m [ ]
  find_all-intro c (y ∷ xs) x (Memᴰ.head e) h = rw (sym (ap c e) ∙ h) (Memᴰ.head e)
  find_all-intro c (y ∷ xs) x (Memᴰ.tail m) h =
      kept-tail (c y) y (find_all c xs) x (find_all-intro c xs x m h)

  pub find_one-member :
      (c : A → Bool) (xs : List A) (x : A) → find_one c xs ≡ some x → Memᴰ x xs × (c x ≡ true)
  unfolding find_one
  find_one-member c [] x e = ground arith
  find_one-member c (y ∷ xs) x e = elim (Bool-cases (c y)) [
    | inl here ↦ let same : x ≡ y = ground arith in (Memᴰ.head same, rw same here)
    | inr there ↦ let (m, holds) = find_one-member c xs x (ground arith) in (Memᴰ.tail m, holds)
  ]

  pub find_one-none :
      (c : A → Bool) (xs : List A) (x : A) → find_one c xs ≡ none → Memᴰ x xs → c x ≡ false
  unfolding find_one
  find_one-none c [] x e m = elim m [ ]
  find_one-none c (y ∷ xs) x e (Memᴰ.head same) = ground (arith, ap c same)
  find_one-none c (y ∷ xs) x e (Memᴰ.tail m) = find_one-none c xs x (ground arith) m

  pub update_many-member :
      (c : A → Bool) (f : A → A) (xs : List A) (y : A)
      → Memᴰ y (update_many c f xs)
      → (x : A) × Memᴰ x xs × (y ≡ (if c x then f x else x))
  unfolding update_many
  update_many-member c f [] y m = elim m [ ]
  update_many-member c f (x ∷ xs) y (Memᴰ.head e) = (x, Memᴰ.head refl, e)
  update_many-member c f (x ∷ xs) y (Memᴰ.tail m) =
      let (z, n, e) = update_many-member c f xs y m in (z, Memᴰ.tail n, e)

  pub update_many-intro :
      (c : A → Bool) (f : A → A) (xs : List A) (x : A)
      → Memᴰ x xs
      → Memᴰ (if c x then f x else x) (update_many c f xs)
  unfolding update_many
  update_many-intro c f [] x m = elim m [ ]
  update_many-intro c f (y ∷ xs) x (Memᴰ.head e) = Memᴰ.head (ap (λ z. if c z then f z else z) e)
  update_many-intro c f (y ∷ xs) x (Memᴰ.tail m) = Memᴰ.tail (update_many-intro c f xs x m)

  pub delete_many-member :
      (c : A → Bool) (xs : List A) (x : A) → Memᴰ x (delete_many c xs) → Memᴰ x xs × (c x ≡ false)
  unfolding delete_many
  delete_many-member c [] x m = elim m [ ]
  delete_many-member c (y ∷ xs) x m = elim (dropped-member (c y) y (delete_many c xs) x m) [
    | inl (fails, same) ↦ (Memᴰ.head same, rw same fails)
    | inr later ↦ let (n, fails) = delete_many-member c xs x later in (Memᴰ.tail n, fails)
  ]

  pub delete_many-intro :
      (c : A → Bool) (xs : List A) (x : A) → Memᴰ x xs → c x ≡ false → Memᴰ x (delete_many c xs)
  unfolding delete_many
  delete_many-intro c [] x m h = elim m [ ]
  delete_many-intro c (y ∷ xs) x (Memᴰ.head e) h = rw (sym (ap c e) ∙ h) (Memᴰ.head e)
  delete_many-intro c (y ∷ xs) x (Memᴰ.tail m) h =
      dropped-tail (c y) y (delete_many c xs) x (delete_many-intro c xs x m h)

  -- What passes a test that no updated element passes was not updated.
  pub update_many-kept :
      (c : A → Bool) (f : A → A) (q : A → Bool) (xs : List A) (y : A)
      → ((x : A) → q (f x) ≡ false)
      → Memᴰ y (update_many c f xs)
      → q y ≡ true
      → Memᴰ y xs × (c y ≡ false)
  update_many-kept c f q xs y fails m h =
      let (x, n, e) = update_many-member c f xs y m in
      elim (Bool-cases (c x)) [
        | inl updated ↦
            let e' : y ≡ f x = e ∙ ap (λ b. if b then f x else x) updated in
            ground (arith, ap q e', fails x)
        | inr kept ↦
            let e' : y ≡ x = e ∙ ap (λ b. if b then f x else x) kept in (rw e' n, rw e' kept)
      ]

  pub update_many-stays :
      (c : A → Bool) (f : A → A) (xs : List A) (x : A)
      → Memᴰ x xs
      → c x ≡ false
      → Memᴰ x (update_many c f xs)
  update_many-stays c f xs x m h =
      subst (λ y. Memᴰ y (update_many c f xs)) (ap (λ b. if b then f x else x) h)
        (update_many-intro c f xs x m)
