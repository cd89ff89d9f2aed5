-- ===== src/Pagination/Page/Walk.antt =====
-- A client that follows the cursors of a feed sees every row once, in order.
use meno.Prelude.{
  ℕ, zero, suc, ◌+◌, ◌-◌, ◌≤◌, ◌<◌, ◌≡◌, refl, sym, ap, ◌∙◌, inl, inr, Bool, true, false, Option,
  none, some, List, [], ◌∷◌, ◌++◌, map, arith, ltb, ltb→lt, lt→ltb, Bool-cases, length, take, drop,
  last, All, take-append-drop, length-take, take_all, length-map,
}
use mathlib.Core.Path.{subst}
use mathlib.Core.List.{append_assoc}
use meno.Table.{select}
use meno.Prelude.Int.{ℤ}
use meno.Prelude.Texts.{Text}
use meno.Pagination.Page.{CursorPage, as_usize, from_rows, Order, Key, precedes, past}
use meno.Pagination.Page.Sorting.{precedes_irrefl, precedes_asym, Before, Ascending}

-- The client: it asks for a page until one has no cursor, at most `fuel` times.
unfoldable pub walk :
    {T : Type 0} → (Option Text → Option (CursorPage T)) → ℕ → Option Text → Option (List T)
walk page zero cursor = none
walk page (suc fuel) cursor = elim (page cursor) [
  | none ↦ none
  | some p ↦ elim p.next_cursor [
    | none ↦ some p.items
    | some c ↦ elim (walk page fuel (some c)) [ none ↦ none | some rest ↦ some (p.items ++ rest) ]
  ]
]

module _ {A : Type 0} where
  -- The last row of a list that is not empty, and what stands before it.
  pub unsnoc :
      (x : A) (xs : List A)
      → (init : List A) × (c : A) × (x ∷ xs ≡ init ++ c ∷ []) × (last (x ∷ xs) ≡ some c)
  unsnoc x [] = ([], x, refl, refl)
  unsnoc x (y ∷ ys) = let (init, c, e, l) = unsnoc y ys in (x ∷ init, c, ap (λ zs. x ∷ zs) e, l)

  length-drop : (n : ℕ) (xs : List A) → length (drop n xs) + n ≡ length xs + (n - length xs)
  length-drop zero xs = omega arith
  length-drop (suc n) [] = omega arith
  length-drop (suc n) (x ∷ xs) = omega (arith, length-drop n xs)

module _ {A : Type 0} (o : Order) (key : A → Key) where
  abbrev Behind : Key → List A → Type 0
  Behind k xs = All (λ x. precedes o k (key x) ≡ false) xs

  nothing_past : (k : Key) (xs : List A) → Behind k xs → select (past o key (some k)) xs ≡ []
  unfolding select past
  nothing_past k [] h = refl
  nothing_past k (x ∷ xs) h = rw h.0 (nothing_past k xs h.1)

  everything_ahead :
      (k : Key) (xs : List A)
      → All (λ x. precedes o k (key x) ≡ true) xs
      → select (past o key (some k)) xs ≡ xs
  unfolding select past
  everything_ahead k [] h = refl
  everything_ahead k (x ∷ xs) h = rw h.0 (ap (λ ys. x ∷ ys) (everything_ahead k xs h.1))

  select-append : (p : A → Bool) (xs ys : List A) → select p (xs ++ ys) ≡ select p xs ++ select p ys
  unfolding select
  select-append p [] ys = refl
  select-append p (x ∷ xs) ys = elim (Bool-cases (p x)) [
    | inl e ↦ rw e (ap (λ zs. x ∷ zs) (select-append p xs ys))
    | inr e ↦ rw e (select-append p xs ys)
  ]

  behind : (xs : List A) (c : A) (ys : List A) → Ascending o key (xs ++ c ∷ ys) → Behind (key c) xs
  behind [] c ys a = tt
  behind (x ∷ xs) c ys a = (precedes_asym o (key x) (key c) (middle xs a.0), behind xs c ys a.1)
    where
      middle : (xs : List A) → Before o key x (xs ++ c ∷ ys) → precedes o (key x) (key c) ≡ true
      middle [] h = h.0
      middle (z ∷ zs) h = middle zs h.1

  ahead : (xs : List A) (c : A) (ys : List A) → Ascending o key (xs ++ c ∷ ys) → Before o key c ys
  ahead [] c ys a = a.0
  ahead (x ∷ xs) c ys a = ahead xs c ys a.1

  -- Past the key of a row come the rows behind it.
  select-past :
      (xs : List A) (c : A) (ys : List A)
      → Ascending o key (xs ++ c ∷ ys)
      → select (past o key (some (key c))) (xs ++ c ∷ ys) ≡ ys
  unfolding select past
  select-past xs c ys a =
      select-append (past o key (some (key c))) xs (c ∷ ys)
      ∙ rw (nothing_past (key c) xs (behind xs c ys a)) (
          let self = precedes_irrefl o (key c) in
          rw (self, past) (everything_ahead (key c) ys (ahead xs c ys a)))

module _ {A T : Type 0} (f : A → T) where
  pub take-map : (n : ℕ) (xs : List A) → take n (map f xs) ≡ map f (take n xs)
  take-map zero xs = refl
  take-map (suc n) [] = refl
  take-map (suc n) (x ∷ xs) = ap (λ ys. f x ∷ ys) (take-map n xs)

  pub last-map : (xs : List A) (c : A) → last xs ≡ some c → last (map f xs) ≡ some (f c)
  last-map [] c h = ground (arith, h)
  last-map (x ∷ []) c h = ap (λ (o : Option A). elim o [ none ↦ none | some a ↦ some (f a) ]) h
  last-map (x ∷ y ∷ ys) c h = last-map (y ∷ ys) c h

  map-append : (xs ys : List A) → map f xs ++ map f ys ≡ map f (xs ++ ys)
  map-append [] ys = refl
  map-append (x ∷ xs) ys = ap (λ zs. f x ∷ zs) (map-append xs ys)

take_again : {A : Type 0} (n : ℕ) (xs : List A) → take n (take (suc n) xs) ≡ take n xs
take_again zero xs = refl
take_again (suc n) [] = refl
take_again (suc n) (x ∷ xs) = ap (λ ys. x ∷ ys) (take_again n xs)

module _ {T : Type 0} (limit : ℤ) (enc : T → Text) (rows : List T) where
  pub short_page :
      ltb (as_usize limit) (length rows) ≡ false
      → from_rows rows limit enc
        ≡ record { items = rows; next_cursor = none; has_next_page = false }
  unfolding from_rows
  short_page h = rw h refl

  pub full_page :
      (c : T)
      → ltb (as_usize limit) (length rows) ≡ true
      → last (take (as_usize limit) rows) ≡ some c
      → from_rows rows limit enc ≡ record {
        items = take (as_usize limit) rows;
        next_cursor = some (enc c);
        has_next_page = true;
      }
  unfolding from_rows
  full_page c h k = rw h (rw k refl)

module _ {T : Type 0} (page : Option Text → Option (CursorPage T)) (fuel : ℕ) (cursor : Option Text)
    (items : List T) where
  last_page :
      page cursor ≡ some (record { items = items; next_cursor = none; has_next_page = false })
      → walk page (suc fuel) cursor ≡ some items
  unfolding walk
  last_page h = rw (h, walk) refl

  more_pages :
      (c : Text) (rest : List T)
      → page cursor ≡ some (record { items = items; next_cursor = some c; has_next_page = true })
      → walk page fuel (some c) ≡ some rest
      → walk page (suc fuel) cursor ≡ some (items ++ rest)
  unfolding walk
  more_pages c rest h k = rw (h, walk) (rw (k, walk) refl)

-- One row of the table is `A`, one item of the page is `T`. `P` is what a row needs for its cursor to
-- be read back.
module _ {A T : Type 0} (o : Order) (key : A → Key) (f : A → T) (enc : T → Text) (P : A → Type 0)
    (page : Option Text → Option (CursorPage T)) (limit : ℤ) (m : ℕ) (size : as_usize limit ≡ suc m)
    (sorted : List A) (asc : Ascending o key sorted)
    (next : (c : A)
      → P c
      → page (some (enc (f c)))
        ≡ some (
            from_rows
              (map f (take (suc (suc m)) (select (past o key (some (key c))) sorted)))
              limit
              enc)) where
  all_on_page :
      (ys : List A)
      → length ys ≤ suc m
      → from_rows (map f (take (suc (suc m)) ys)) limit enc
        ≡ record { items = map f ys; next_cursor = none; has_next_page = false }
  all_on_page ys h =
      rw (take_all (suc (suc m)) ys (omega arith))
        (short_page limit enc (map f ys) (rw size (rw (length-map ys f) (ground arith))))

  first_of :
      (y : A) (ys : List A)
      → suc m < length (y ∷ ys)
      → (init : List A) × (c : A) × (y ∷ ys ≡ (init ++ c ∷ []) ++ drop (suc m) (y ∷ ys))
        × (from_rows (map f (take (suc (suc m)) (y ∷ ys))) limit enc ≡ record {
          items = map f (init ++ c ∷ []);
          next_cursor = some (enc (f c));
          has_next_page = true;
        })
  first_of y ys h =
      let (init, c, e, l) = unsnoc y (take m ys) in
      let rows = map f (take (suc (suc m)) (y ∷ ys)) in
      let kept : take (as_usize limit) rows ≡ map f (init ++ c ∷ []) = rw size (
        take-map f (suc m) (take (suc (suc m)) (y ∷ ys))
        ∙ ap (map f) (take_again (suc m) (y ∷ ys) ∙ e)) in
      let long : ltb (as_usize limit) (length rows) ≡ true = rw size (
        rw (length-map (take (suc (suc m)) (y ∷ ys)) f)
          (lt→ltb (suc m) _ (omega (arith, length-take (suc (suc m)) (y ∷ ys))))) in
      let end_row : last (take (as_usize limit) rows) ≡ some (f c) =
        rw kept (last-map f (init ++ c ∷ []) c (rw e at l)) in
      (
        init,
        c,
        sym (take-append-drop (suc m) (y ∷ ys)) ∙ ap (λ zs. zs ++ drop (suc m) (y ∷ ys)) e,
        full_page limit enc rows (f c) long end_row ∙ rw kept refl,
      )

  All-drop : (xs ys : List A) → All P (xs ++ ys) → All P ys
  All-drop [] ys h = h
  All-drop (x ∷ xs) ys h = All-drop xs ys h.1

  All-middle : (xs : List A) (c : A) (ys : List A) → All P ((xs ++ c ∷ []) ++ ys) → P c
  All-middle [] c ys h = h.0
  All-middle (x ∷ xs) c ys h = All-middle xs c ys h.1

  rejoin :
      (pre init rest : List A) (c : A)
      → pre ++ ((init ++ c ∷ []) ++ rest) ≡ (pre ++ init) ++ c ∷ rest
  rejoin pre init rest c =
      ap (λ zs. pre ++ zs) (append_assoc init (c ∷ []) rest)
      ∙ sym (append_assoc pre init (c ∷ rest))

  -- The page after the row `c` starts with the rest.
  resume :
      (pre init rest : List A) (c : A)
      → sorted ≡ pre ++ ((init ++ c ∷ []) ++ rest)
      → P c
      → page (some (enc (f c))) ≡ some (from_rows (map f (take (suc (suc m)) rest)) limit enc)
  resume pre init rest c e fine =
      let whole = e ∙ rejoin pre init rest c in
      let behind_c : select (past o key (some (key c))) sorted ≡ rest =
        ap (select (past o key (some (key c)))) whole
        ∙ select-past o key (pre ++ init) c rest (subst (Ascending o key) whole asc) in
      next c fine
      ∙ ap (λ (zs : List A). some (from_rows (map f (take (suc (suc m)) zs)) limit enc)) behind_c

  walk_from :
      (fuel : ℕ) (pre ys : List A) (cursor : Option Text)
      → sorted ≡ pre ++ ys
      → All P ys
      → length ys ≤ fuel
      → page cursor ≡ some (from_rows (map f (take (suc (suc m)) ys)) limit enc)
      → walk page (suc fuel) cursor ≡ some (map f ys)
  walk_from fuel pre [] cursor e fine enough first =
      last_page page fuel cursor []
        (first ∙ ap (λ (p : CursorPage T). some p) (all_on_page [] (omega arith)))
  walk_from zero pre (y ∷ ys) cursor e fine enough first = absurd (omega arith)
  walk_from (suc fuel) pre (y ∷ ys) cursor e fine enough first =
      elim (Bool-cases (ltb (suc m) (length (y ∷ ys)))) [
        | inr h ↦
            last_page page (suc fuel) cursor (map f (y ∷ ys))
              (first ∙ ap (λ (p : CursorPage T). some p) (all_on_page (y ∷ ys) (ground arith)))
        | inl h ↦
            let long = ltb→lt (suc m) (length (y ∷ ys)) h in
            let (init, c, parts, p) = first_of y ys long in
            let rest = drop (suc m) (y ∷ ys) in
            let split_e : sorted ≡ pre ++ ((init ++ c ∷ []) ++ rest) =
              e ∙ ap (λ zs. pre ++ zs) parts in
            let fine_parts = subst (All P) parts fine in
            let shorter : length rest ≤ fuel = omega (arith, length-drop (suc m) (y ∷ ys)) in
            let tail =
              walk_from fuel (pre ++ (init ++ c ∷ [])) rest (some (enc (f c)))
                (split_e ∙ sym (append_assoc pre (init ++ c ∷ []) rest))
                (All-drop (init ++ c ∷ []) rest fine_parts) shorter
                (resume pre init rest c split_e (All-middle init c rest fine_parts)) in
            more_pages page (suc fuel) cursor (map f (init ++ c ∷ [])) (enc (f c)) (map f rest)
              (first ∙ ap (λ (p : CursorPage T). some p) p) tail
            ∙ ap (λ (zs : List T). some zs)
                (map-append f (init ++ c ∷ []) rest ∙ ap (map f) (sym parts))
      ]

  -- From the first page on.
  pub whole_walk :
      (fuel : ℕ)
      → All P sorted
      → length sorted ≤ fuel
      → page none ≡ some (from_rows (map f (take (suc (suc m)) sorted)) limit enc)
      → walk page (suc fuel) none ≡ some (map f sorted)
  whole_walk fuel fine enough first = walk_from fuel [] sorted none refl fine enough first
