-- ===== src/Table.antt =====
-- SQL tables as lists of rows, and what the statements of the repositories under
-- apps/api/src/modules do to them: `WHERE` is a test on a row, `SET` a function on a row.
-- `find` is `SELECT … WHERE` read by `fetch_optional`, `update` is `UPDATE … SET … WHERE`, and
-- `delete` is `DELETE … WHERE`.
pub mod Laws
use meno.Prelude.{
  ℕ, zero, suc, ◌+◌, ◌-◌, ◌*◌, ◌/◌, ◌%◌, ◌^◌, ◌≤◌, ◌<◌, ◌≡◌, refl, sym, ap, ◌∙◌, ◌≢◌, ◌↔◌, ◌⊎◌, inl,
  inr, Bool, true, false, not, ◌&&◌, ◌||◌, Option, none, some, List, [], ◌∷◌, ◌++◌, map, arith, ltb,
  leb, ◌==◌, if◌then◌else◌, ltb→lt, lt→ltb, leb→le, ==_iff, ==_self, tests, Bool-cases,
  Option-cases, is_some, unwrap_or, or_else, length, take, drop, last, replicate, All,
  length-append, take-append-drop, length-take, take_all, All-append, All-map_iff, length-map,
}

module _ {A : Type 0} where
  unfoldable pub select : (A → Bool) → List A → List A
  select p [] = []
  select p (r ∷ rows) = let rest = select p rows in if p r then r ∷ rest else rest

  unfoldable pub find : (A → Bool) → List A → Option A
  find p [] = none
  find p (r ∷ rows) = let rest = find p rows in if p r then some r else rest

  unfoldable pub exists : (A → Bool) → List A → Bool
  exists p [] = false
  exists p (r ∷ rows) = let rest = exists p rows in if p r then true else rest

  unfoldable pub update : (A → Bool) → (A → A) → List A → List A
  update p f [] = []
  update p f (r ∷ rows) = (if p r then f r else r) ∷ update p f rows

  unfoldable pub delete : (A → Bool) → List A → List A
  delete p [] = []
  delete p (r ∷ rows) = let rest = delete p rows in if p r then rest else r ∷ rest

-- A set of identifiers, and the test of membership.
unfoldable pub contains : ℕ → List ℕ → Bool
contains a [] = false
contains a (x ∷ xs) = if a == x then true else contains a xs
