-- ===== src/Pagination/Page/Sorting.antt =====
-- The rows of a feed in their order.
use meno.Prelude.{
  ◌≡◌, refl, ap, ◌∙◌, inl, inr, Bool, true, false, List, [], ◌∷◌, arith, ◌==◌, if◌then◌else◌,
  Bool-cases, All,
}
use meno.Table.{select}
use meno.Pagination.Page.{Order, desc, asc, Key, precedes, insert_row, order_by}

precedes_trans :
    (o : Order) (a b c : Key)
    → precedes o a b ≡ true
    → precedes o b c ≡ true
    → precedes o a c ≡ true
unfolding precedes
precedes_trans desc a b c h k = ground arith
precedes_trans asc a b c h k = ground arith

pub precedes_irrefl : (o : Order) (a : Key) → precedes o a a ≡ false
unfolding precedes
precedes_irrefl desc a = ground arith
precedes_irrefl asc a = ground arith

pub precedes_asym : (o : Order) (a b : Key) → precedes o a b ≡ true → precedes o b a ≡ false
unfolding precedes
precedes_asym desc a b h = ground arith
precedes_asym asc a b h = ground arith

precedes_total :
    (o : Order) (a b : Key) → (a.1 == b.1) ≡ false → precedes o b a ≡ false → precedes o a b ≡ true
unfolding precedes
precedes_total desc a b h k = ground arith
precedes_total asc a b h k = ground arith

module _ {A : Type 0} (o : Order) (key : A → Key) where
  abbrev pub Before : A → List A → Type 0
  Before x ys = All (λ y. precedes o (key x) (key y) ≡ true) ys

  abbrev pub Ascending : List A → Type 0
  Ascending [] = Unit
  Ascending (x ∷ xs) = Before x xs × Ascending xs

  abbrev pub Other : A → List A → Type 0
  Other x ys = All (λ y. ((key x).1 == (key y).1) ≡ false) ys

  -- No two rows have the same id.
  abbrev pub Distinct : List A → Type 0
  Distinct [] = Unit
  Distinct (x ∷ xs) = Other x xs × Distinct xs

  All-insert_row {κ} :
      (P : A → Type κ) (x : A) (ys : List A) → P x → All P ys → All P (insert_row o key x ys)
  unfolding insert_row
  All-insert_row P x [] p h = (p, tt)
  All-insert_row P x (y ∷ ys) p h = elim (Bool-cases (precedes o (key y) (key x))) [
    | inl e ↦ rw e (h.0, All-insert_row P x ys p h.1)
    | inr e ↦ rw e (p, h)
  ]

  pub All-order_by {κ} : (P : A → Type κ) (rows : List A) → All P rows → All P (order_by o key rows)
  unfolding order_by
  All-order_by P [] h = tt
  All-order_by P (r ∷ rows) h =
      All-insert_row P r (order_by o key rows) h.0 (All-order_by P rows h.1)

  Before-trans :
      (x y : A) (zs : List A) → precedes o (key x) (key y) ≡ true → Before y zs → Before x zs
  Before-trans x y [] h b = tt
  Before-trans x y (z ∷ zs) h b =
      (precedes_trans o (key x) (key y) (key z) h b.0, Before-trans x y zs h b.1)

  insert_row-Ascending :
      (x : A) (ys : List A) → Other x ys → Ascending ys → Ascending (insert_row o key x ys)
  unfolding insert_row
  insert_row-Ascending x [] d a = (tt, tt)
  insert_row-Ascending x (y ∷ ys) d a = elim (Bool-cases (precedes o (key y) (key x))) [
    | inl e ↦ rw e (
      All-insert_row (λ z. precedes o (key y) (key z) ≡ true) x ys e a.0,
      insert_row-Ascending x ys d.1 a.1,
    )
    | inr e ↦
        rw e (let h = precedes_total o (key x) (key y) d.0 e in ((h, Before-trans x y ys h a.0), a))
  ]

  pub order_by-Ascending : (rows : List A) → Distinct rows → Ascending (order_by o key rows)
  unfolding order_by
  order_by-Ascending [] d = tt
  order_by-Ascending (r ∷ rows) d =
      insert_row-Ascending r (order_by o key rows)
        (All-order_by (λ y. ((key r).1 == (key y).1) ≡ false) rows d.0)
        (order_by-Ascending rows d.1)

  module _ (p : A → Bool) where
    All-select {κ} : (P : A → Type κ) (ys : List A) → All P ys → All P (select p ys)
    unfolding select
    All-select P [] h = tt
    All-select P (y ∷ ys) h = elim (Bool-cases (p y)) [
      | inl e ↦ rw e (h.0, All-select P ys h.1)
      | inr e ↦ rw e (All-select P ys h.1)
    ]

    insert_front : (x : A) (ys : List A) → Before x ys → insert_row o key x ys ≡ x ∷ ys
    unfolding insert_row
    insert_front x [] h = refl
    insert_front x (y ∷ ys) h = rw (precedes_asym o (key x) (key y) h.0) refl

    select-insert_row :
        (x : A) (ys : List A)
        → Ascending ys
        → Other x ys
        → select p (insert_row o key x ys)
          ≡ (if p x then insert_row o key x (select p ys) else select p ys)
    unfolding insert_row select
    select-insert_row x [] a d = refl
    select-insert_row x (y ∷ ys) a d = elim (Bool-cases (precedes o (key y) (key x))) [
      | inl e ↦
          let ih = select-insert_row x ys a.1 d.1 in
          rw e (elim (Bool-cases (p y)) [
            | inl k ↦
                rw k
                  (rw ih (elim (Bool-cases (p x)) [ inl m ↦ rw m (rw e refl) | inr m ↦ rw m refl ]))
            | inr k ↦ rw k ih
          ])
      | inr e ↦
          let b = precedes_total o (key x) (key y) d.0 e in
          let front = insert_front x (select p (y ∷ ys)) (
            All-select (λ z. precedes o (key x) (key z) ≡ true) (y ∷ ys)
              (b, Before-trans x y ys b a.0)) in
          rw e (rw front refl)
    ]

    -- The rows that a condition keeps are in the order that they have among all.
    pub select-order_by :
        (rows : List A)
        → Distinct rows
        → select p (order_by o key rows) ≡ order_by o key (select p rows)
    unfolding order_by select
    select-order_by [] d = refl
    select-order_by (r ∷ rows) d =
        select-insert_row r (order_by o key rows) (order_by-Ascending rows d.1)
          (All-order_by (λ y. ((key r).1 == (key y).1) ≡ false) rows d.0)
        ∙ (elim (Bool-cases (p r)) [
          | inl e ↦ rw e (ap (insert_row o key r) (select-order_by rows d.1))
          | inr e ↦ rw e (select-order_by rows d.1)
        ])
