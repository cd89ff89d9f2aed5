-- ===== src/Notes/Sync/Order.antt =====
-- `results.sort_by_key(|(idx, _)| *idx)`: the standard library's stable sort, as an insertion sort,
-- and the order that it restores after folders and notes were processed apart.
use meno.Prelude.{
  ℕ, suc, ◌<◌, ◌≡◌, refl, ap, ◌∙◌, List, [], ◌∷◌, ◌++◌, map, arith, leb, if◌then◌else◌,
}

module _ {A : Type 0} where
  -- `into_iter().enumerate()`, from a given index on.
  unfoldable pub enumerate : ℕ → List A → List (ℕ × A)
  enumerate k [] = []
  enumerate k (x ∷ xs) = (k, x) ∷ enumerate (suc k) xs

  insert_by_key : ℕ × A → List (ℕ × A) → List (ℕ × A)
  insert_by_key x [] = x ∷ []
  insert_by_key x (y ∷ ys) =
      let rest = insert_by_key x ys in if leb x.0 y.0 then x ∷ y ∷ ys else y ∷ rest

  unfoldable pub sort_by_key : List (ℕ × A) → List (ℕ × A)
  unfolding insert_by_key
  sort_by_key [] = []
  sort_by_key (x ∷ xs) = insert_by_key x (sort_by_key xs)

  -- Every key is above the bound.
  abbrev pub Above : ℕ → List (ℕ × A) → Type 0
  Above k [] = Unit
  Above k (x ∷ xs) = (k < x.0) × Above k xs

  insert-Above :
      (k : ℕ) (x : ℕ × A) (xs : List (ℕ × A)) → k < x.0 → Above k xs → Above k (insert_by_key x xs)
  unfolding insert_by_key
  insert-Above k x [] h a = (h, tt)
  insert-Above k x (y ∷ ys) h a = ground (arith, insert-Above k x ys h a.1)

  sort-Above : (k : ℕ) (xs : List (ℕ × A)) → Above k xs → Above k (sort_by_key xs)
  unfolding sort_by_key
  sort-Above k [] a = tt
  sort-Above k (x ∷ xs) a = insert-Above k x (sort_by_key xs) a.0 (sort-Above k xs a.1)

  insert_front : (x : ℕ × A) (xs : List (ℕ × A)) → Above x.0 xs → insert_by_key x xs ≡ x ∷ xs
  unfolding insert_by_key
  insert_front x [] a = refl
  insert_front x (y ∷ ys) a = ground arith

  insert_after :
      (x y : ℕ × A) (ys : List (ℕ × A))
      → y.0 < x.0
      → insert_by_key x (y ∷ ys) ≡ y ∷ insert_by_key x ys
  unfolding insert_by_key
  insert_after x y ys h = ground arith

  -- An entry whose key is below all others comes first, wherever it stands.
  pub sort_lowest :
      (xs : List (ℕ × A)) (e : ℕ × A) (ys : List (ℕ × A))
      → Above e.0 xs
      → Above e.0 ys
      → sort_by_key (xs ++ e ∷ ys) ≡ e ∷ sort_by_key (xs ++ ys)
  unfolding sort_by_key
  sort_lowest [] e ys a b = insert_front e (sort_by_key ys) (sort-Above e.0 ys b)
  sort_lowest (x ∷ xs) e ys a b =
      ap (insert_by_key x) (sort_lowest xs e ys a.1 b)
      ∙ insert_after x e (sort_by_key (xs ++ ys)) a.0

module _ {A B : Type 0} (f : A → B) where
  abbrev pub on_value : ℕ × A → ℕ × B
  on_value (i, a) = (i, f a)

  map-insert :
      (x : ℕ × A) (xs : List (ℕ × A))
      → map on_value (insert_by_key x xs) ≡ insert_by_key (on_value x) (map on_value xs)
  unfolding insert_by_key
  map-insert x [] = refl
  map-insert x (y ∷ ys) = ground (arith, map-insert x ys)

  -- Sorting looks at the keys alone.
  pub map-sort_by_key :
      (xs : List (ℕ × A)) → map on_value (sort_by_key xs) ≡ sort_by_key (map on_value xs)
  unfolding sort_by_key
  map-sort_by_key [] = refl
  map-sort_by_key (x ∷ xs) =
      map-insert x (sort_by_key xs) ∙ ap (insert_by_key (on_value x)) (map-sort_by_key xs)
