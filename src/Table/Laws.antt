-- ===== src/Table/Laws.antt =====
-- Laws of the statements on tables: what a statement leaves alone, and what it returns.
use meno.Prelude.{
  suc, ◌≡◌, refl, ap, inl, inr, Bool, true, false, none, some, List, [], ◌∷◌, map, arith,
  if◌then◌else◌, Bool-cases, is_some, length, All,
}
use mathlib.Core.Path.{subst}
use meno.Table.{select, find, exists, update, delete}

module _ {A : Type 0} (p : A → Bool) (f : A → A) where
  -- An update of no row changes nothing.
  pub update-none : (rows : List A) → find p rows ≡ none → update p f rows ≡ rows
  unfolding update find
  update-none [] h = refl
  update-none (r ∷ rows) h = ground (arith, update-none rows)

  pub length-update : (rows : List A) → length (update p f rows) ≡ length rows
  unfolding update
  length-update [] = refl
  length-update (r ∷ rows) = ap suc (length-update rows)

  -- What the update changes no longer passes the test, if the new values do not.
  pub find-update_gone :
      (rows : List A) → ((r : A) → p r ≡ true → p (f r) ≡ false) → find p (update p f rows) ≡ none
  unfolding find update
  find-update_gone [] h = refl
  find-update_gone (r ∷ rows) h = ground (arith, h r, find-update_gone rows h)

  pub select-update_gone :
      (rows : List A) → ((r : A) → p r ≡ true → p (f r) ≡ false) → select p (update p f rows) ≡ []
  unfolding select update
  select-update_gone [] h = refl
  select-update_gone (r ∷ rows) h = ground (arith, h r, select-update_gone rows h)

  -- Where the update hit a row, a test that holds of every updated row finds one.
  pub find-update_kept :
      (q : A → Bool) (rows : List A) (r : A)
      → ((x : A) → p x ≡ true → q (f x) ≡ true)
      → find p rows ≡ some r
      → (x : A) × (find q (update p f rows) ≡ some x)
  unfolding find update
  find-update_kept q [] r h e = absurd (ground arith)
  find-update_kept q (x ∷ rows) r h e = elim (Bool-cases (p x)) [
    | inl hit ↦ (f x, ground (arith, h x))
    | inr miss ↦
        let (y, found) = find-update_kept q rows r h (ground arith) in
        (if q x then x else y, ground (arith, found))
  ]

  -- What the update does not set stays.
  pub map-update {κ} :
      {B : Type κ} (k : A → B) (rows : List A)
      → ((r : A) → k (f r) ≡ k r)
      → map k (update p f rows) ≡ map k rows
  unfolding update
  map-update k [] h = refl
  map-update k (r ∷ rows) h = ground (arith, h r, map-update k rows h)

  -- The rows that a test keeps apart from the updated ones are left alone.
  pub select-update :
      (q : A → Bool) (rows : List A)
      → ((r : A) → p r ≡ true → (q r ≡ false) × (q (f r) ≡ false))
      → select q (update p f rows) ≡ select q rows
  unfolding select update
  select-update q [] h = refl
  select-update q (r ∷ rows) h = ground (arith, h r, select-update q rows h)

  -- A test that the update cannot change finds what it found, updated where `p` held.
  pub find-update :
      (q : A → Bool) (rows : List A)
      → ((r : A) → q (f r) ≡ q r)
      → (r : A) → find q rows ≡ some r
      → find q (update p f rows) ≡ some (if p r then f r else r)
  unfolding find update
  find-update q [] h r e = cc
  find-update q (x ∷ rows) h r e = ground (arith, h x, find-update q rows h r)

  pub find-update-none :
      (q : A → Bool) (rows : List A)
      → ((r : A) → q (f r) ≡ q r)
      → find q rows ≡ none
      → find q (update p f rows) ≡ none
  unfolding find update
  find-update-none q [] h e = refl
  find-update-none q (x ∷ rows) h e = ground (arith, h x, find-update-none q rows h)

  -- What the update sets neither in the test nor in the value read is as it was.
  pub map-select-update {κ} :
      {B : Type κ} (q : A → Bool) (k : A → B) (rows : List A)
      → ((r : A) → q (f r) ≡ q r)
      → ((r : A) → k (f r) ≡ k r)
      → map k (select q (update p f rows)) ≡ map k (select q rows)
  unfolding select update
  map-select-update q k [] h e = refl
  map-select-update q k (x ∷ rows) h e = ground (arith, h x, e x, map-select-update q k rows h e)

  pub exists-update :
      (q : A → Bool) (rows : List A)
      → ((r : A) → q (f r) ≡ q r)
      → exists q (update p f rows) ≡ exists q rows
  unfolding exists update
  exists-update q [] h = refl
  exists-update q (x ∷ rows) h = ground (arith, h x, exists-update q rows h)

  pub All-update {κ} :
      (P : A → Type κ) (rows : List A)
      → ((r : A) → p r ≡ true → P r → P (f r))
      → All P rows
      → All P (update p f rows)
  unfolding update
  All-update P [] h a = tt
  All-update P (r ∷ rows) h a = (head (p r) refl, All-update P rows h a.1)
    where
      head : (b : Bool) → p r ≡ b → P (if b then f r else r)
      head true e = h r e a.0
      head false e = a.0

module _ {A : Type 0} (p : A → Bool) where
  -- A row that is found is in the table and passes the test.
  pub find_passes : (rows : List A) (r : A) → find p rows ≡ some r → p r ≡ true
  unfolding find
  find_passes [] r e = cc
  find_passes (x ∷ rows) r e = ground (arith, find_passes rows r)

  pub find_All {κ} :
      (P : A → Type κ) (rows : List A) (r : A) → All P rows → find p rows ≡ some r → P r
  unfolding find
  find_All P [] r a e = cc
  find_All P (x ∷ rows) r a e = elim (Bool-cases (p x)) [
    | inl h ↦ subst P (let q : x ≡ r = ground arith in q) a.0
    | inr h ↦ find_All P rows r a.1 (ground arith)
  ]

  pub find-exists : (rows : List A) → exists p rows ≡ is_some (find p rows)
  unfolding find exists
  find-exists [] = refl
  find-exists (x ∷ rows) = ground (arith, find-exists rows)

  pub select-delete :
      (q : A → Bool) (rows : List A)
      → ((r : A) → p r ≡ true → q r ≡ false)
      → select q (delete p rows) ≡ select q rows
  unfolding select delete
  select-delete q [] h = refl
  select-delete q (r ∷ rows) h = ground (arith, h r, select-delete q rows h)

  pub find-delete : (rows : List A) → find p (delete p rows) ≡ none
  unfolding find delete
  find-delete [] = refl
  find-delete (r ∷ rows) = ground (arith, find-delete rows)

  pub delete-none : (rows : List A) → find p rows ≡ none → delete p rows ≡ rows
  unfolding find delete
  delete-none [] h = refl
  delete-none (r ∷ rows) h = ground (arith, delete-none rows)
