-- ===== src/Base/Sort.antt =====
-- Stable sorting: Rust's `sort` and `sort_by`, and SQL's `ORDER BY`, by any Boolean order.
use v_note.Base.{
  Bool, true, false, List, [], ◌∷◌, if◌then◌else◌, ◌≡◌, refl, arith, any, All, All-map, Bool-cases,
  inl, inr,
}

module _ {ℓ} {A : Type ℓ} (le : A → A → Bool) where
  -- Before the first entry that it is not above: equal entries keep their order.
  abbrev pub insert : A → List A → List A
  insert x [] = x ∷ []
  insert x (y ∷ ys) = if le x y then x ∷ y ∷ ys else y ∷ insert x ys

  abbrev pub sort : List A → List A
  sort [] = []
  sort (x ∷ xs) = insert x (sort xs)

  abbrev pub IsSorted : List A → Type ℓ
  IsSorted [] = Unit
  IsSorted (x ∷ xs) = All (λ y. le x y ≡ true) xs × IsSorted xs

  insert_front : (x : A) (xs : List A) → All (λ y. le x y ≡ true) xs → insert x xs ≡ x ∷ xs
  insert_front x [] h = refl
  insert_front x (y ∷ ys) h = ground arith

  -- Sorting leaves a sorted list as it is.
  pub sort_of_IsSorted : (xs : List A) → IsSorted xs → sort xs ≡ xs
  sort_of_IsSorted [] h = refl
  sort_of_IsSorted (x ∷ xs) h = rw (sort_of_IsSorted xs h.1) (insert_front x xs h.0)

  pub All-insert {κ} : (P : A → Type κ) (x : A) (xs : List A) → P x → All P xs → All P (insert x xs)
  All-insert P x [] p h = (p, tt)
  All-insert P x (y ∷ ys) p h = ground (arith, All-insert P x ys p h.1)

  pub All-sort {κ} : (P : A → Type κ) (xs : List A) → All P xs → All P (sort xs)
  All-sort P [] h = tt
  All-sort P (x ∷ xs) h = All-insert P x (sort xs) h.0 (All-sort P xs h.1)

  any-insert : (q : A → Bool) (x : A) (xs : List A) → any q (insert x xs) ≡ any q (x ∷ xs)
  any-insert q x [] = refl
  any-insert q x (y ∷ ys) = ground (arith, any-insert q x ys)

  -- Sorting keeps what is in the list.
  pub any-sort : (q : A → Bool) (xs : List A) → any q (sort xs) ≡ any q xs
  any-sort q [] = refl
  any-sort q (x ∷ xs) = ground (arith, any-insert q x (sort xs), any-sort q xs)

module _ {ℓ} {A : Type ℓ} (le : A → A → Bool) (total : (x y : A) → le x y ≡ false → le y x ≡ true)
    (trans : (x y z : A) → le x y ≡ true → le y z ≡ true → le x z ≡ true) where
  insert-IsSorted : (x : A) (xs : List A) → IsSorted le xs → IsSorted le (insert le x xs)
  insert-IsSorted x [] h = (tt, tt)
  insert-IsSorted x (y ∷ ys) h = elim (Bool-cases (le x y)) [
    | inl e ↦ rw (e) ((e, All-map _ _ ys (λ z. trans x y z e) h.0), h)
    | inr e ↦
        rw e (All-insert le (λ z. le y z ≡ true) x ys (total x y e) h.0, insert-IsSorted x ys h.1)
  ]

  -- By a total and transitive order, sorting sorts.
  pub sort-IsSorted : (xs : List A) → IsSorted le (sort le xs)
  sort-IsSorted [] = tt
  sort-IsSorted (x ∷ xs) = insert-IsSorted x (sort le xs) (sort-IsSorted xs)
