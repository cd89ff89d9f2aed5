-- ===== src/Subscribers/Joined.antt =====
-- The join of a list of subscribers, user by user.
use meno.Prelude.{
  ==_self, ℕ, suc, ◌≤◌, ◌≡◌, refl, sym, ap, ◌∙◌, inl, inr, Bool, true, false, not, ◌&&◌, Option,
  none, some, List, [], ◌∷◌, arith, ◌==◌, if◌then◌else◌, Bool-cases, Option-cases, is_some, length,
  All,
}
use mathlib.Core.Path.{subst}
use meno.Table.{select, find, exists}
use meno.Table.Laws.{find-exists}
use meno.Subscribers.{User, Subscription}
use meno.Subscribers.Listing.{item_of, SubscriberItem, joined_users}

-- How often a user is in a list.
unfoldable pub occurs : ℕ → List SubscriberItem → ℕ
unfolding select
occurs u items = length (select (λ r. r.id == u) items)

abbrev pub known : ℕ → List User → Bool
known u users = exists (λ v. v.id == u && not (is_some v.deleted_at)) users

found_id :
    (i : ℕ) (users : List User) (v : User)
    → find (λ v. v.id == i && not (is_some v.deleted_at)) users ≡ some v
    → v.id ≡ i
unfolding find
found_id i [] v h = absurd (ground arith)
found_id i (x ∷ users) v h = elim (Bool-cases (x.id == i && not (is_some x.deleted_at))) [
  | inl e ↦
      let same : some x ≡ some v = rw e at h in
      let id : x.id ≡ i = ground arith in
      ap (λ (o : Option User). elim o [ none ↦ i | some y ↦ y.id ]) (sym same) ∙ id
  | inr e ↦ found_id i users v (rw e at h)
]

module _ (mine other : Subscription → ℕ) (id : ℕ) where
  abbrev pub about : ℕ → Subscription → Bool
  about u q = mine q == id && other q == u

  -- No two rows of the list of `id` are about one user.
  abbrev pub Once : List Subscription → Type 0
  Once [] = Unit
  Once (r ∷ rows) = ((mine r == id) ≡ true → exists (about (other r)) rows ≡ false) × Once rows

  unfoldable pub count_of : ℕ → List User → List Subscription → ℕ
  count_of u users rows = if known u users && exists (about u) rows then 1 else 0

  module _ (u : ℕ) (users : List User) (r : Subscription) (rows : List Subscription) where
    other_list : (mine r == id) ≡ false → count_of u users (r ∷ rows) ≡ count_of u users rows
    unfolding count_of exists
    other_list e = rw e refl

    exists_other : (other r == u) ≡ false → exists (about u) (r ∷ rows) ≡ exists (about u) rows
    unfolding exists
    exists_other e =
        rw e (elim (Bool-cases (mine r == id)) [ inl k ↦ rw k refl | inr k ↦ rw k refl ])

    other_user : (other r == u) ≡ false → count_of u users (r ∷ rows) ≡ count_of u users rows
    unfolding count_of
    other_user e = ap (λ b. if known u users && b then 1 else 0) (exists_other e)

    unknown : known u users ≡ false → count_of u users (r ∷ rows) ≡ count_of u users rows
    unfolding count_of
    unknown e = rw e refl

    first :
        (mine r == id) ≡ true
        → (other r == u) ≡ true
        → known u users ≡ true
        → exists (about u) rows ≡ false
        → (count_of u users (r ∷ rows) ≡ 1) × (count_of u users rows ≡ 0)
    unfolding count_of exists
    first m o k h = (rw (m, o, k) refl, rw (k, h) refl)

  no_rows : (u : ℕ) (users : List User) → count_of u users [] ≡ 0
  unfolding count_of exists
  no_rows u users = elim (Bool-cases (known u users)) [ inl k ↦ rw k refl | inr k ↦ rw k refl ]

  pub count_le : (u : ℕ) (users : List User) (rows : List Subscription) → count_of u users rows ≤ 1
  unfolding count_of
  count_le u users rows = ground arith

  module _ (users : List User) (r : Subscription) (rows : List Subscription) where
    skips :
        (mine r == id) ≡ false
        → joined_users mine other id users (r ∷ rows) ≡ joined_users mine other id users rows
    unfolding joined_users
    skips e = rw e refl

    misses :
        (mine r == id) ≡ true
        → find (λ v. v.id == other r && not (is_some v.deleted_at)) users ≡ none
        → joined_users mine other id users (r ∷ rows) ≡ joined_users mine other id users rows
    unfolding joined_users
    misses e f = rw (e, f) refl

    adds :
        (v : User)
        → (mine r == id) ≡ true
        → find (λ v. v.id == other r && not (is_some v.deleted_at)) users ≡ some v
        → joined_users mine other id users (r ∷ rows)
          ≡ item_of r v ∷ joined_users mine other id users rows
    unfolding joined_users
    adds v e f = rw (e, f) refl

  pub joined_All :
      (P : ℕ → Type 0) (users : List User) (rows : List Subscription)
      → All (λ r. P r.created_at) rows
      → All (λ r. P r.subscribed_at) (joined_users mine other id users rows)
  unfolding joined_users
  joined_All P users [] h = tt
  joined_All P users (r ∷ rows) h = elim (Bool-cases (mine r == id)) [
    | inr e ↦ rw e (joined_All P users rows h.1)
    | inl e ↦
        elim (Option-cases (find (λ v. v.id == other r && not (is_some v.deleted_at)) users)) [
          | inl f ↦ rw (e, f) (joined_All P users rows h.1)
          | inr (v, f) ↦ rw (e, f) (h.0, joined_All P users rows h.1)
        ]
  ]

  pub length_joined :
      (users : List User) (rows : List Subscription)
      → length (joined_users mine other id users rows) ≤ length rows
  unfolding joined_users
  length_joined users [] = omega arith
  length_joined users (r ∷ rows) =
      let shorter = length_joined users rows in
      elim (Bool-cases (mine r == id)) [
        | inr e ↦ rw e (omega (arith, shorter))
        | inl e ↦
            elim (Option-cases (find (λ v. v.id == other r && not (is_some v.deleted_at)) users)) [
              | inl f ↦ rw (e, f) (omega (arith, shorter))
              | inr (v, f) ↦ rw (e, f) (omega (arith, shorter))
            ]
      ]

  pub occurs_joined :
      (u : ℕ) (users : List User) (rows : List Subscription)
      → Once rows
      → occurs u (joined_users mine other id users rows) ≡ count_of u users rows
  unfolding joined_users occurs select
  occurs_joined u users [] h = sym (no_rows u users)
  occurs_joined u users (r ∷ rows) h = elim (Bool-cases (mine r == id)) [
    | inr e ↦ rw e (occurs_joined u users rows h.1 ∙ sym (other_list u users r rows e))
    | inl e ↦
        elim (Option-cases (find (λ v. v.id == other r && not (is_some v.deleted_at)) users)) [
          | inl f ↦
              let nobody : known (other r) users ≡ false =
                find-exists (λ v. v.id == other r && not (is_some v.deleted_at)) users
                ∙ rw f refl in
              let skip : count_of u users (r ∷ rows) ≡ count_of u users rows =
                elim (Bool-cases (other r == u)) [
                  | inl k ↦
                      let same : other r ≡ u = ground arith in
                      unknown u users r rows (subst (λ i. known i users ≡ false) same nobody)
                  | inr k ↦ other_user u users r rows k
                ] in
              rw (e, f) (occurs_joined u users rows h.1 ∙ sym skip)
          | inr (v, f) ↦
              let at = found_id (other r) users v f in
              elim (Bool-cases (other r == u)) [
                | inl k ↦
                    let same : other r ≡ u = ground arith in
                    let there : known u users ≡ true =
                      subst (λ i. known i users ≡ true) same
                        (find-exists (λ v. v.id == other r && not (is_some v.deleted_at)) users
                          ∙ rw f refl) in
                    let (one, zero_left) =
                      first u users r rows e k there
                        (subst (λ i. exists (about i) rows ≡ false) same (h.0 e)) in
                    rw (e, f)
                      (rw at (rw k (ap suc (occurs_joined u users rows h.1 ∙ zero_left) ∙ sym one)))
                | inr k ↦
                    rw (e, f)
                      (rw at
                        (rw k (occurs_joined u users rows h.1 ∙ sym (other_user u users r rows k))))
              ]
        ]
  ]

  -- A row of the list about a user, made at a time.
  abbrev pub made : SubscriberItem → Subscription → Bool
  made i q = about i.id q && q.created_at == i.subscribed_at

  made_before :
      (r : Subscription) (rows : List Subscription) (items : List SubscriberItem)
      → All (λ i. exists (made i) rows ≡ true) items
      → All (λ i. exists (made i) (r ∷ rows) ≡ true) items
  unfolding exists
  made_before r rows [] h = tt
  made_before r rows (i ∷ items) h = (
    elim (Bool-cases (made i r)) [ inl e ↦ rw e refl | inr e ↦ rw e h.0 ],
    made_before r rows items h.1,
  )

  made_first :
      (v : User) (r : Subscription) (rows : List Subscription)
      → (mine r == id) ≡ true
      → v.id ≡ other r
      → exists (made (item_of r v)) (r ∷ rows) ≡ true
  unfolding exists
  made_first v r rows e at = rw e (rw at (rw (==_self (other r), ==_self r.created_at) refl))

  -- Each item stands for a row of the list, with the time at which that was made.
  pub joined_made :
      (users : List User) (rows : List Subscription)
      → All (λ i. exists (made i) rows ≡ true) (joined_users mine other id users rows)
  unfolding joined_users
  joined_made users [] = tt
  joined_made users (r ∷ rows) =
      let rest = joined_users mine other id users rows in
      let Made = λ (xs : List SubscriberItem). All (λ i. exists (made i) (r ∷ rows) ≡ true) xs in
      let later = made_before r rows rest (joined_made users rows) in
      elim (Bool-cases (mine r == id)) [
        | inr e ↦ subst Made (sym (skips users r rows e)) later
        | inl e ↦
            elim (Option-cases (find (λ v. v.id == other r && not (is_some v.deleted_at)) users)) [
              | inl f ↦ subst Made (sym (misses users r rows e f)) later
              | inr (v, f) ↦
                  subst Made (sym (adds users r rows v e f))
                    (made_first v r rows e (found_id (other r) users v f), later)
            ]
      ]
