-- ===== src/Dict/Sort.antt =====
-- sort.Strings and sort.Slice: insertion by a Boolean order.
use skall.Base.{
  zero, take, drop, ℕ, false, eq_iff, IsDistinct, suc, ◌≡◌, refl, ◌⊎◌, Bool, true, ◌||◌, List, [],
  ◌∷◌, arith, HasEquals, ◌==◌, contains, length, if◌then◌else◌, All,
}

module _ {ℓ} {A : Type ℓ} (le : A → A → Bool) where
  insert : A → List A → List A
  insert a [] = a ∷ []
  insert a (x ∷ xs) = if le a x then a ∷ x ∷ xs else x ∷ insert a xs

  unfoldable pub sort : List A → List A
  unfolding insert
  sort [] = []
  sort (x ∷ xs) = insert x (sort xs)

  -- Every element is at most each that follows it.
  abbrev pub IsSorted : List A → Type 0
  IsSorted [] = Unit
  IsSorted (x ∷ xs) = All (λ y. le x y ≡ true) xs × IsSorted xs

  length-insert : (a : A) (xs : List A) → length (insert a xs) ≡ suc (length xs)
  unfolding insert
  length-insert a [] = refl
  length-insert a (x ∷ xs) = ground (arith, length-insert a xs)

  pub length-sort : (xs : List A) → length (sort xs) ≡ length xs
  length-sort [] = unfold sort in refl
  length-sort (x ∷ xs) = go (length-sort xs)
    where
      go : length (sort xs) ≡ length xs → length (sort (x ∷ xs)) ≡ suc (length xs)
      go h = unfold sort in omega (arith, length-insert x (sort xs))

module _ {ℓ} {A : Type ℓ} (P : A → Type 0) where
  pub All-take : (n : ℕ) (xs : List A) → All P xs → All P (take n xs)
  All-take zero xs h = tt
  All-take (suc n) [] h = tt
  All-take (suc n) (x ∷ xs) h = (h.0, All-take n xs h.1)

  pub All-drop : (n : ℕ) (xs : List A) → All P xs → All P (drop n xs)
  All-drop zero xs h = h
  All-drop (suc n) [] h = tt
  All-drop (suc n) (x ∷ xs) h = All-drop n xs h.1

  module _ (le : A → A → Bool) where
    All-insert : (a : A) (xs : List A) → P a → All P xs → All P (insert le a xs)
    unfolding insert
    All-insert a [] p h = (p, tt)
    All-insert a (x ∷ xs) p h = ground (arith, All-insert a xs p h.1)

    pub All-sort : (xs : List A) → All P xs → All P (sort le xs)
    unfolding sort
    All-sort [] h = tt
    All-sort (x ∷ xs) h = All-insert x (sort le xs) h.0 (All-sort xs h.1)

module _ {ℓ} {A : Type ℓ} (le : A → A → Bool) where
  module _ (total : (a b : A) → (le a b ≡ true) ⊎ (le b a ≡ true))
      (trans : (a b c : A) → le a b ≡ true → le b c ≡ true → le a c ≡ true) where
    All-le :
        (a x : A) (xs : List A)
        → le a x ≡ true
        → All (λ y. le x y ≡ true) xs
        → All (λ y. le a y ≡ true) xs
    All-le a x [] p h = tt
    All-le a x (y ∷ xs) p h = (trans a x y p h.0, All-le a x xs p h.1)

    insert-IsSorted : (a : A) (xs : List A) → IsSorted le xs → IsSorted le (insert le a xs)
    unfolding insert
    insert-IsSorted a [] h = (tt, tt)
    insert-IsSorted a (x ∷ xs) h = ground (
      arith,
      insert-IsSorted a xs h.1,
      All-le a x xs,
      total a x,
      All-insert (λ y. le x y ≡ true) le a xs,
    )

    pub sort-IsSorted : (xs : List A) → IsSorted le (sort le xs)
    unfolding sort
    sort-IsSorted [] = tt
    sort-IsSorted (x ∷ xs) = insert-IsSorted x (sort le xs) (sort-IsSorted xs)

module _ {ℓ} {A : Type ℓ} (le : A → A → Bool) where
  -- In a sorted list each of the first n is at most each of the others.
  pub take-le-drop :
      (n : ℕ) (xs : List A)
      → IsSorted le xs
      → All (λ x. All (λ y. le x y ≡ true) (drop n xs)) (take n xs)
  take-le-drop zero xs h = tt
  take-le-drop (suc n) [] h = tt
  take-le-drop (suc n) (x ∷ xs) h = (All-drop (λ y. le x y ≡ true) n xs h.0, take-le-drop n xs h.1)

module _ {ℓ} {A : Type ℓ} ⦃e : HasEquals A⦄ (le : A → A → Bool) where
  contains-insert :
      (b a : A) (xs : List A) → contains b (insert le a xs) ≡ (a == b || contains b xs)
  unfolding insert
  contains-insert b a [] = refl
  contains-insert b a (x ∷ xs) = ground (arith, contains-insert b a xs)

  -- Sorting keeps what is in the list.
  pub contains-sort : (b : A) (xs : List A) → contains b (sort le xs) ≡ contains b xs
  unfolding sort
  contains-sort b [] = refl
  contains-sort b (x ∷ xs) = ground (arith, contains-insert b x (sort le xs), contains-sort b xs)

-- What f makes of the elements.
abbrev pub images {ℓ κ} : {A : Type ℓ} {B : Type κ} → (A → B) → List A → List B
images f [] = []
images f (x ∷ xs) = f x ∷ images f xs

module _ {ℓ κ} {A : Type ℓ} {B : Type κ} ⦃e : HasEquals B⦄ (le : A → A → Bool) (f : A → B) where
  contains_image-insert :
      (b : B) (a : A) (xs : List A)
      → contains b (images f (insert le a xs)) ≡ (f a == b || contains b (images f xs))
  unfolding insert
  contains_image-insert b a [] = refl
  contains_image-insert b a (x ∷ xs) = ground (arith, contains_image-insert b a xs)

  pub contains_image-sort :
      (b : B) (xs : List A) → contains b (images f (sort le xs)) ≡ contains b (images f xs)
  unfolding sort
  contains_image-sort b [] = refl
  contains_image-sort b (x ∷ xs) =
      ground (arith, contains_image-insert b x (sort le xs), contains_image-sort b xs)

  IsDistinct-insert :
      (a : A) (xs : List A)
      → contains (f a) (images f xs) ≡ false
      → IsDistinct (images f xs)
      → IsDistinct (images f (insert le a xs))
  unfolding insert
  IsDistinct-insert a [] new d = (refl, tt)
  IsDistinct-insert a (x ∷ xs) new d = ground (
    arith,
    contains_image-insert (f x) a xs,
    IsDistinct-insert a xs,
    eq_iff (f a) (f x),
    eq_iff (f x) (f a),
  )

  pub IsDistinct-sort :
      (xs : List A) → IsDistinct (images f xs) → IsDistinct (images f (sort le xs))
  unfolding sort
  IsDistinct-sort [] d = tt
  IsDistinct-sort (x ∷ xs) d =
      IsDistinct-insert x (sort le xs) (ground (arith, contains_image-sort (f x) xs, d.0))
        (IsDistinct-sort xs d.1)
