-- ===== src/Pagination/Page.antt =====
-- `CursorParams`, `CursorPage` and `Order` of apps/api/src/shared/pagination.rs, and the fragments of SQL that
-- apps/api/src/shared/repository.rs makes from them.
pub mod Sorting
pub mod Walk
pub mod Feeds
pub mod Bounds
use meno.Prelude.{
  ℕ, zero, suc, ◌+◌, ◌-◌, ◌*◌, ◌/◌, ◌%◌, ◌^◌, ◌≤◌, ◌<◌, ◌≡◌, refl, sym, ap, ◌∙◌, ◌≢◌, ◌↔◌, ◌⊎◌, inl,
  inr, Bool, true, false, not, ◌&&◌, ◌||◌, Option, none, some, List, [], ◌∷◌, ◌++◌, map, arith, ltb,
  leb, ◌==◌, if◌then◌else◌, ltb→lt, lt→ltb, leb→le, ==_iff, ==_self, tests, Bool-cases,
  Option-cases, is_some, unwrap_or, or_else, length, take, drop, last, replicate, All,
  length-append, take-append-drop, length-take, take_all, All-append, All-map_iff, length-map,
}
use meno.Table.{select}
use meno.Prelude.Int.{ℤ, pos, negsuc, pos_part, neg_part, clamp, ◌+ℤ◌}
use meno.Prelude.Texts.{Text}

pub record CursorParams : Type 0 where
  pub cursor : Option Text
  pub limit : Option ℤ

unfoldable pub limit_of : CursorParams → ℤ
unfolding clamp
limit_of p = clamp (pos 1) (pos 100) (unwrap_or p.limit (pos 20))

unfoldable pub limit_plus_one : CursorParams → ℤ
unfolding limit_of ◌+ℤ◌
limit_plus_one p = limit_of p +ℤ pos 1

pub record CursorPage (T : Type 0) : Type 0 where
  pub items : List T
  pub next_cursor : Option Text
  pub has_next_page : Bool

-- `as usize` of an i64.
abbrev pub as_usize : ℤ → ℕ
as_usize (pos n) = n
as_usize (negsuc n) = 2 ^ 64 - 1 - n

module _ {T : Type 0} where
  unfoldable pub from_rows : List T → ℤ → (T → Text) → CursorPage T
  from_rows rows limit encode_cursor =
      let has_next = ltb (as_usize limit) (length rows) in
      let kept = if has_next then take (as_usize limit) rows else rows in
      record {
        items = kept;
        next_cursor =
            if has_next
            then elim (last kept) [ none ↦ none | some r ↦ some (encode_cursor r) ]
            else none;
        has_next_page = has_next;
      }

pub data Order : Type 0 where
  desc asc : Order

-- The columns by which a feed is ordered: a time and an id.
abbrev pub Key : Type 0
Key = ℤ × ℕ

-- Comparison of the pairs, as Postgres compares rows.
abbrev pub lt_ℤ : ℤ → ℤ → Bool
lt_ℤ a b = ltb (pos_part a + neg_part b) (pos_part b + neg_part a)

abbrev pub same_ℤ : ℤ → ℤ → Bool
same_ℤ a b = (pos_part a + neg_part b) == (pos_part b + neg_part a)

abbrev pub lt_key : Key → Key → Bool
lt_key a b = lt_ℤ a.0 b.0 || (same_ℤ a.0 b.0 && ltb a.1 b.1)

-- Whether the first key comes before the second in the order of a feed: `cursor_op`, and `sql` for
-- columns that are not null.
unfoldable pub precedes : Order → Key → Key → Bool
precedes desc a b = lt_key b a
precedes asc a b = lt_key a b

module _ {A : Type 0} (o : Order) (key : A → Key) where
  -- `push_cursor_condition`
  unfoldable pub past : Option Key → A → Bool
  unfolding precedes
  past none r = true
  past (some k) r = precedes o k (key r)

  insert_row : A → List A → List A
  unfolding precedes
  insert_row x [] = x ∷ []
  insert_row x (y ∷ ys) =
      let rest = insert_row x ys in if precedes o (key y) (key x) then y ∷ rest else x ∷ y ∷ ys

  -- `ORDER BY` on the rows.
  unfoldable pub order_by : List A → List A
  unfolding insert_row
  order_by [] = []
  order_by (r ∷ rows) = insert_row r (order_by rows)

  -- A query with a cursor, an order and a limit.
  unfoldable pub feed : Option Key → ℤ → List A → List A
  unfolding past order_by
  feed cursor limit rows = take (as_usize limit) (order_by (select (past cursor) rows))
