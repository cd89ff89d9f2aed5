-- ===== src/Pagination/Page/Feeds.antt =====
-- A feed whose pages a client follows: the queries of the repositories, page by page.
use meno.Prelude.{
  ℕ, suc, ◌≤◌, ◌≡◌, refl, sym, ap, ◌∙◌, inl, inr, Bool, false, Option, none, some, List, [], ◌∷◌,
  map, arith, ◌==◌, Bool-cases, length, take, All,
}
use meno.Table.{select}
use meno.Prelude.Int.{pos}
use meno.Prelude.Texts.{Text}
use meno.Pagination.Page.{CursorPage, from_rows, Order, Key, past, insert_row, order_by, feed}
use meno.Pagination.Page.Sorting.{Distinct, All-order_by, order_by-Ascending, select-order_by}
use meno.Pagination.Page.Walk.{walk, whole_walk}

module _ {A : Type 0} (p : A → Bool) where
  pub length-select : (rows : List A) → length (select p rows) ≤ length rows
  unfolding select
  length-select [] = omega arith
  length-select (r ∷ rows) = ground (arith, length-select rows)

  pub select-All {κ} : (P : A → Type κ) (rows : List A) → All P rows → All P (select p rows)
  unfolding select
  select-All P [] h = tt
  select-All P (r ∷ rows) h = elim (Bool-cases (p r)) [
    | inl e ↦ rw e (h.0, select-All P rows h.1)
    | inr e ↦ rw e (select-All P rows h.1)
  ]

module _ {A : Type 0} (o : Order) (key : A → Key) where
  length-insert_row : (x : A) (ys : List A) → length (insert_row o key x ys) ≡ suc (length ys)
  unfolding insert_row
  length-insert_row x [] = refl
  length-insert_row x (y ∷ ys) = ground (arith, length-insert_row x ys)

  pub length-order_by : (rows : List A) → length (order_by o key rows) ≡ length rows
  unfolding order_by
  length-order_by [] = refl
  length-order_by (r ∷ rows) =
      length-insert_row r (order_by o key rows) ∙ ap suc (length-order_by rows)

  pub Distinct-select :
      (p : A → Bool) (rows : List A) → Distinct o key rows → Distinct o key (select p rows)
  unfolding select
  Distinct-select p [] d = tt
  Distinct-select p (r ∷ rows) d = elim (Bool-cases (p r)) [
    | inl e ↦
        rw e (
          select-All p (λ y. ((key r).1 == (key y).1) ≡ false) rows d.0,
          Distinct-select p rows d.1,
        )
    | inr e ↦ rw e (Distinct-select p rows d.1)
  ]

  select-all : (rows : List A) → select (past o key none) rows ≡ rows
  unfolding select past
  select-all [] = refl
  select-all (r ∷ rows) = ap (λ zs. r ∷ zs) (select-all rows)

  -- The rows of a page are a prefix of what is past the cursor, in the order of all rows.
  feed_prefix :
      (k : Option Key) (m : ℕ) (rows : List A)
      → Distinct o key rows
      → feed o key k (pos m) rows ≡ take m (select (past o key k) (order_by o key rows))
  unfolding feed
  feed_prefix k m rows d = ap (take m) (sym (select-order_by o key (past o key k) rows d))

-- A row is `A`, an item of a page is `T`. `P` is what a row needs for its cursor to be read back.
module _ {A T : Type 0} (o : Order) (key : A → Key) (f : A → T) (enc : T → Text) (P : A → Type 0)
    (rows : List A) (m : ℕ) (page : Option Text → Option (CursorPage T))
    (first : page none
      ≡ some (from_rows (map f (feed o key none (pos (suc (suc m))) rows)) (pos (suc m)) enc))
    (next : (c : A)
      → P c
      → page (some (enc (f c)))
        ≡ some (
            from_rows
              (map f (feed o key (some (key c)) (pos (suc (suc m))) rows))
              (pos (suc m))
              enc)) where
  -- A client that follows the cursors gets the rows of the table in their order.
  pub follow :
      Distinct o key rows
      → All P rows
      → (fuel : ℕ) → length rows ≤ fuel
      → walk page (suc fuel) none ≡ some (map f (order_by o key rows))
  follow d fine fuel enough =
      let sorted = order_by o key rows in
      let as_page = λ (zs : List A). some (from_rows (map f zs) (pos (suc m)) enc) in
      whole_walk o key f enc P page (pos (suc m)) m refl sorted (order_by-Ascending o key rows d)
        (λ c pc. next c pc ∙ ap as_page (feed_prefix o key (some (key c)) (suc (suc m)) rows d))
        fuel (All-order_by o key P rows fine) (omega (arith, length-order_by o key rows))
        (first
          ∙ ap as_page (
              feed_prefix o key none (suc (suc m)) rows d
              ∙ ap (take (suc (suc m))) (select-all o key sorted)))
