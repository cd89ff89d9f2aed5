-- ===== src/Prelude/Maps.antt =====
-- Maps from identifiers as lists of entries, the latest first. `put` writes an entry in place of the one there
-- is, `erase` removes it.
use mathlib.Core.Path.{subst}
use meno.Prelude.{
  ℕ, ◌≤◌, ◌≡◌, refl, inl, inr, Bool, true, false, Option, none, some, List, [], ◌∷◌, arith, ◌==◌,
  if◌then◌else◌, Bool-cases, length, All,
}

abbrev pub Map : Type 0 → Type 0
Map V = List (ℕ × V)

module _ {V : Type 0} where
  unfoldable pub get : ℕ → Map V → Option V
  get k [] = none
  get k ((i, v) ∷ m) = if i == k then some v else get k m

  unfoldable pub erase : ℕ → Map V → Map V
  erase k [] = []
  erase k ((i, v) ∷ m) = let rest = erase k m in if i == k then rest else (i, v) ∷ rest

  unfoldable pub put : ℕ → V → Map V → Map V
  unfolding erase
  put k v m = (k, v) ∷ erase k m

  pub get-erase : (k i : ℕ) (m : Map V) → get i (erase k m) ≡ (if k == i then none else get i m)
  unfolding get erase
  get-erase k i [] = ground arith
  get-erase k i ((j, v) ∷ m) = ground (arith, get-erase k i m)

  pub get-put :
      (k i : ℕ) (v : V) (m : Map V) → get i (put k v m) ≡ (if k == i then some v else get i m)
  unfolding get put
  get-put k i v m = ground (arith, get-erase k i m)

-- Members of a list of identifiers without repeats.
unfoldable pub has : ℕ → List ℕ → Bool
has a [] = false
has a (x ∷ xs) = if x == a then true else has a xs

unfoldable pub insert : ℕ → List ℕ → List ℕ
unfolding has
insert a xs = if has a xs then xs else a ∷ xs

unfoldable pub without : ℕ → List ℕ → List ℕ
without a [] = []
without a (x ∷ xs) = let rest = without a xs in if x == a then rest else x ∷ rest

unfoldable pub is_empty {ℓ} : {A : Type ℓ} → List A → Bool
is_empty [] = true
is_empty (x ∷ xs) = false

pub has-insert : (a b : ℕ) (xs : List ℕ) → has b (insert a xs) ≡ (if a == b then true else has b xs)
unfolding has insert
has-insert a b xs = elim (Bool-cases (has a xs)) [
  | inl h ↦ rw h (elim (Bool-cases (a == b)) [
    | inl e ↦ let same : a ≡ b = ground arith in rw e (rw same at h)
    | inr e ↦ rw e refl
  ])
  | inr h ↦ rw h refl
]

pub has-without :
    (a b : ℕ) (xs : List ℕ) → has b (without a xs) ≡ (if a == b then false else has b xs)
unfolding has without
has-without a b [] = ground arith
has-without a b (x ∷ xs) = ground (arith, has-without a b xs)

pub length-without : (a : ℕ) (xs : List ℕ) → length (without a xs) ≤ length xs
unfolding without
length-without a [] = omega arith
length-without a (x ∷ xs) = ground (arith, length-without a xs)

-- What holds of every value of a map.
module _ {κ} {V : Type 0} (P : V → Type κ) where
  abbrev pub Values : Map V → Type κ
  Values m = All (λ e. P e.1) m

  pub Values-erase : (k : ℕ) (m : Map V) → Values m → Values (erase k m)
  unfolding erase
  Values-erase k [] h = tt
  Values-erase k ((i, v) ∷ m) h = elim (Bool-cases (i == k)) [
    | inl e ↦ rw e (Values-erase k m h.1)
    | inr e ↦ rw e (h.0, Values-erase k m h.1)
  ]

  pub Values-put : (k : ℕ) (v : V) (m : Map V) → P v → Values m → Values (put k v m)
  unfolding put
  Values-put k v m p h = (p, Values-erase k m h)

  pub Values-get : (k : ℕ) (v : V) (m : Map V) → get k m ≡ some v → Values m → P v
  unfolding get
  Values-get k v [] e h = absurd (ground arith)
  Values-get k v ((i, w) ∷ m) e h = elim (Bool-cases (i == k)) [
    | inl q ↦ subst P (let same : w ≡ v = ground arith in same) h.0
    | inr q ↦ Values-get k v m (rw q at e) h.1
  ]

pub is_empty-length : {A : Type 0} (xs : List A) → is_empty xs ≡ false → 1 ≤ length xs
unfolding is_empty
is_empty-length [] h = absurd (ground arith)
is_empty-length (x ∷ xs) h = omega arith

pub insert_kept : (a : ℕ) (xs : List ℕ) → is_empty (insert a xs) ≡ false
unfolding insert is_empty has
insert_kept a [] = refl
insert_kept a (x ∷ xs) = ground arith
