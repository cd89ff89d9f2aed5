-- ===== src/Pagination/Page/Bounds.antt =====
-- The number of rows on a page.
use meno.Prelude.{
  ℕ, zero, suc, ◌≤◌, ◌≡◌, refl, ◌∙◌, inl, inr, true, Bool-cases, List, [], ◌∷◌, Option, none, some,
  is_some, arith, unwrap_or, ltb, if◌then◌else◌, length, last, take, length-take,
}
use meno.Table.{select}
use meno.Prelude.Int.{ℤ, pos, negsuc, clamp, clamp_lem, ◌+ℤ◌, ◌≤ℤ◌}
use meno.Prelude.Texts.{Text}
use meno.Pagination.Page.{
  CursorParams, limit_of, limit_plus_one, as_usize, from_rows, Order, Key, past,
}

one_more : (n : ℤ) → pos 1 ≤ℤ n → as_usize (n +ℤ pos 1) ≡ suc (as_usize n)
unfolding ◌+ℤ◌
one_more (pos n) h = ground arith
one_more (negsuc n) h = absurd (omega arith)

asked :
    (l : Option ℤ) (n : ℤ)
    → l ≡ some n
    → pos 1 ≤ℤ n
    → n ≤ℤ pos 100
    → clamp (pos 1) (pos 100) (unwrap_or l (pos 20)) ≡ n
asked none n e h k = ground arith
asked (some m) n e h k =
    let same : m ≡ n = ground arith in rw same ((clamp_lem (pos 1) (pos 100) n (omega arith)).2 h k)

by_default : (l : Option ℤ) → l ≡ none → clamp (pos 1) (pos 100) (unwrap_or l (pos 20)) ≡ pos 20
unfolding clamp
by_default none e = refl
by_default (some m) e = ground arith

pub positive : (n : ℤ) → pos 1 ≤ℤ n → (m : ℕ) × (n ≡ pos (suc m))
positive (pos zero) h = absurd (omega arith)
positive (pos (suc m)) h = (m, refl)
positive (negsuc n) h = absurd (omega arith)

pub plus_one : (m : ℕ) → pos (suc m) +ℤ pos 1 ≡ pos (suc (suc m))
unfolding ◌+ℤ◌
plus_one m = ground arith

pub next_size :
    (p : CursorParams) (m : ℕ) → limit_of p ≡ pos (suc m) → limit_plus_one p ≡ pos (suc (suc m))
unfolding limit_plus_one
next_size p m l = rw l (plus_one m)

pub limit_from :
    (p : CursorParams) (c : Option Text) → limit_of (record p { cursor = c }) ≡ limit_of p
unfolding limit_of
limit_from p c = refl

-- The limit is between 1 and 100, whatever the client asks for; one in these bounds is taken as it is; without
-- one it is 20; and the query may fetch one row more.
pub limit_within :
    (p : CursorParams)
    → (pos 1 ≤ℤ limit_of p)
      × (limit_of p ≤ℤ pos 100)
      × ((n : ℤ) → p.limit ≡ some n → pos 1 ≤ℤ n → n ≤ℤ pos 100 → limit_of p ≡ n)
      × (p.limit ≡ none → limit_of p ≡ pos 20)
      × (as_usize (limit_plus_one p) ≡ suc (as_usize (limit_of p)))
unfolding limit_of limit_plus_one
limit_within p =
    let law = clamp_lem (pos 1) (pos 100) (unwrap_or p.limit (pos 20)) (omega arith) in
    (law.0, law.1, asked p.limit, by_default p.limit, one_more _ law.0)

last_row : {A : Type 0} → (xs : List A) → 1 ≤ length xs → is_some (last xs) ≡ true
last_row [] h = absurd (omega arith)
last_row (x ∷ []) h = refl
last_row (x ∷ y ∷ xs) h = last_row (y ∷ xs) (omega arith)

encoded :
    {A : Type 0}
    → (enc : A → Text) (o : Option A)
    → is_some (elim o as (λ _. Option Text) [ none ↦ none | some r ↦ some (enc r) ]) ≡ is_some o
encoded enc none = refl
encoded enc (some r) = refl

module _ {A : Type 0} (enc : A → Text) where
  page_of :
      (m : ℕ) (xs : List A)
      → let page = from_rows xs (pos (suc m)) enc in
        (length page.items ≡ (if ltb (suc m) (length xs) then suc m else length xs))
        × (page.has_next_page ≡ ltb (suc m) (length xs))
        × (is_some page.next_cursor ≡ ltb (suc m) (length xs))
  unfolding from_rows
  page_of m xs = elim (Bool-cases (ltb (suc m) (length xs))) [
    | inl e ↦
        let full : length (take (suc m) xs) ≡ suc m = length-take (suc m) xs ∙ ground (arith, e) in
        rw e (
          full,
          refl,
          encoded enc (last (take (suc m) xs)) ∙ last_row (take (suc m) xs) (omega (arith, full)),
        )
    | inr e ↦ rw e (refl, refl, refl)
  ]

  module _ (o : Order) (key : A → Key) (k : Option Key) (rows : List A) where
    abbrev found : List A
    found = select (past o key k) rows
