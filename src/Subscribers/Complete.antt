-- ===== src/Subscribers/Complete.antt =====
-- What the lists of subscribers hold, against the tables.
use meno.Prelude.{
  ℕ, suc, ◌≤◌, ◌≡◌, refl, ap, ◌∙◌, inl, inr, Bool, true, false, ◌&&◌, none, some, List, [], ◌∷◌,
  map, arith, ◌==◌, if◌then◌else◌, ==_self, Bool-cases, length, All,
}
use mathlib.Core.Path.{subst, sym}
use meno.Table.{select, exists}
use meno.Prelude.Int.{pos}
use meno.Pagination.{Formats}
use meno.Pagination.Cursor.RoundTrip.{Lawful}
use meno.Pagination.Page.{CursorParams, desc, order_by}
use meno.Pagination.Page.Sorting.{
  Distinct, Ascending, Before, order_by-Ascending, All-order_by, select-order_by,
}
use meno.Pagination.Page.Feeds.{length-order_by}
use meno.Pagination.Page.Walk.{walk}
use meno.Subscribers.{Subscription, Store, is_pair, follows}
use meno.Subscribers.Listing.{
  SubscriberItem, user_exists, joined_users, item_key, page_of_items, get_user_subscribers,
  get_user_subscriptions,
}
use meno.Subscribers.Lists.{mark, answered, from_cursor, walk_joined}
use meno.Subscribers.Joined.{
  occurs, about, Once, count_of, count_le, made, joined_made, joined_All, length_joined,
  occurs_joined,
}

apart_from :
    (u : ℕ) (xs : List SubscriberItem) → occurs u xs ≡ 0 → All (λ y. (u == y.id) ≡ false) xs
unfolding occurs select
apart_from u [] h = tt
apart_from u (x ∷ xs) h = elim (Bool-cases (x.id == u)) [
  | inl e ↦ absurd (let k : suc (occurs u xs) ≡ 0 = rw e at h in ground arith)
  | inr e ↦ (ground arith, apart_from u xs (rw e at h))
]

occurs_le :
    (u : ℕ) (x : SubscriberItem) (xs : List SubscriberItem) → occurs u xs ≤ occurs u (x ∷ xs)
unfolding occurs select
occurs_le u x xs = ground arith

once-Distinct : (xs : List SubscriberItem) → ((u : ℕ) → occurs u xs ≤ 1) → Distinct desc item_key xs
unfolding occurs select
once-Distinct [] h = tt
once-Distinct (x ∷ xs) h =
    let first_one : occurs x.id (x ∷ xs) ≡ suc (occurs x.id xs) = rw (==_self x.id) refl in
    (
      apart_from x.id xs (let k = h x.id in omega (arith, k, first_one)),
      once-Distinct xs (λ u. omega (arith, h u, occurs_le u x xs)),
    )

occurs_sorted :
    (u : ℕ) (xs : List SubscriberItem)
    → Distinct desc item_key xs
    → occurs u (order_by desc item_key xs) ≡ occurs u xs
unfolding occurs
occurs_sorted u xs d =
    ap length (select-order_by desc item_key (λ r. r.id == u) xs d)
    ∙ length-order_by desc item_key (select (λ r. r.id == u) xs)

module _ (viewer : ℕ) (s : Store) where
  occurs_marked :
      (u : ℕ) (xs : List SubscriberItem) → occurs u (map (mark viewer s) xs) ≡ occurs u xs
  unfolding occurs select mark
  occurs_marked u [] = refl
  occurs_marked u (x ∷ xs) = elim (Bool-cases (x.id == u)) [
    | inl e ↦ rw e (ap suc (occurs_marked u xs))
    | inr e ↦ rw e (occurs_marked u xs)
  ]

  mark-Before :
      (x : SubscriberItem) (xs : List SubscriberItem)
      → Before desc item_key x xs
      → Before desc item_key (mark viewer s x) (map (mark viewer s) xs)
  unfolding mark
  mark-Before x [] h = tt
  mark-Before x (y ∷ ys) h = (h.0, mark-Before x ys h.1)

  mark-Ascending :
      (xs : List SubscriberItem)
      → Ascending desc item_key xs
      → Ascending desc item_key (map (mark viewer s) xs)
  mark-Ascending [] h = tt
  mark-Ascending (x ∷ xs) h = (mark-Before x xs h.0, mark-Ascending xs h.1)

  marks :
      (xs : List SubscriberItem)
      → All (λ r. r.is_following ≡ follows viewer r.id s) (map (mark viewer s) xs)
  unfolding mark
  marks [] = tt
  marks (x ∷ xs) = (refl, marks xs)

  mark-All :
      (p : SubscriberItem → Bool) (xs : List SubscriberItem)
      → ((x : SubscriberItem) → p (mark viewer s x) ≡ p x)
      → All (λ x. p x ≡ true) xs
      → All (λ x. p x ≡ true) (map (mark viewer s) xs)
  mark-All p [] same h = tt
  mark-All p (x ∷ xs) same h = (same x ∙ h.0, mark-All p xs same h.1)

  -- A list for this viewer: the newest first, each user who is not deleted and is wanted once, no one
  -- else, since a time that is right, and marked by whether the viewer follows the user.
  abbrev pub Listing : (ℕ → Bool) → (ℕ → ℕ → Bool) → List SubscriberItem → Type 0
  Listing wanted since items =
      Ascending desc item_key items
      × ((u : ℕ) → occurs u items ≡ (if user_exists u s && wanted u then 1 else 0))
      × All (λ r. since r.id r.subscribed_at ≡ true) items
      × All (λ r. r.is_following ≡ follows viewer r.id s) items

swapped :
    (u id : ℕ) (rows : List Subscription)
    → exists (about (λ r. r.subscription_id) (λ r. r.subscriber_id) id u) rows
      ≡ exists (is_pair u id) rows
unfolding exists
swapped u id [] = refl
swapped u id (r ∷ rows) = ground (arith, swapped u id rows)

unfoldable pub follows_since : ℕ → ℕ → ℕ → Store → Bool
unfolding exists
follows_since t a b s = exists (λ r. is_pair a b r && r.created_at == t) s.subscriptions

since_swapped :
    (u id t : ℕ) (rows : List Subscription)
    → exists
        (λ q. about (λ r. r.subscription_id) (λ r. r.subscriber_id) id u q && q.created_at == t)
        rows
      ≡ exists (λ r. is_pair u id r && r.created_at == t) rows
unfolding exists
since_swapped u id t [] = refl
since_swapped u id t (r ∷ rows) = ground (arith, since_swapped u id t rows)

same-All :
    (p q : SubscriberItem → Bool) (items : List SubscriberItem)
    → ((i : SubscriberItem) → p i ≡ q i)
    → All (λ i. p i ≡ true) items
    → All (λ i. q i ≡ true) items
same-All p q [] same h = tt
same-All p q (i ∷ items) same h = (sym (same i) ∙ h.0, same-All p q items same h.1)

-- The primary key of `user_subscribers`: no user follows another twice.
abbrev pub NoRepeat : List Subscription → Type 0
NoRepeat [] = Unit
NoRepeat (r ∷ rows) =
    (exists (is_pair r.subscriber_id r.subscription_id) rows ≡ false) × NoRepeat rows

subscribers-Once :
    (id : ℕ) (rows : List Subscription)
    → NoRepeat rows
    → Once (λ r. r.subscription_id) (λ r. r.subscriber_id) id rows
subscribers-Once id [] h = tt
subscribers-Once id (r ∷ rows) h = (
  λ e.
      let same : r.subscription_id ≡ id = ground arith in
      swapped r.subscriber_id id rows
      ∙ subst (λ i. exists (is_pair r.subscriber_id i) rows ≡ false) same h.0,
  subscribers-Once id rows h.1,
)

subscriptions-Once :
    (id : ℕ) (rows : List Subscription)
    → NoRepeat rows
    → Once (λ r. r.subscriber_id) (λ r. r.subscription_id) id rows
subscriptions-Once id [] h = tt
subscriptions-Once id (r ∷ rows) h = (
  λ e.
      let same : r.subscriber_id ≡ id = ground arith in
      subst (λ i. exists (is_pair i r.subscription_id) rows ≡ false) same h.0,
  subscriptions-Once id rows h.1,
)

module _ (fm : Formats) (auth_id user_id : ℕ) (s : Store) (p : CursorParams) (fuel : ℕ)
    (lawful : Lawful fm) (there : user_exists user_id s ≡ true)
    (instants : All (λ r. fm.is_instant (pos r.created_at) ≡ true) s.subscriptions)
    (enough : length s.subscriptions ≤ fuel) where
  listed :
      (mine other : Subscription → ℕ)
      → Once mine other user_id s.subscriptions
      → (items : List SubscriberItem) × (walk
            (λ c. answered (page_of_items fm mine other user_id (some auth_id) (from_cursor p c) s))
            (suc fuel)
            none
          ≡ some items)
        × Listing auth_id s
            (λ u. exists (about mine other user_id u) s.subscriptions)
            (λ u t. exists (λ q. about mine other user_id u q && q.created_at == t) s.subscriptions)
            items
  unfolding user_exists count_of mark
  listed mine other once =
      let rows = joined_users mine other user_id s.users s.subscriptions in
      let count = λ (u : ℕ). occurs_joined mine other user_id u s.users s.subscriptions once in
      let d : Distinct desc item_key rows = once-Distinct rows (λ u.
        let le = count_le mine other user_id u s.users s.subscriptions in
        omega (arith, count u, le)) in
      (
        map (mark auth_id s) (order_by desc item_key rows),
        walk_joined fm mine other auth_id user_id s p fuel lawful there d
            (joined_All mine other user_id (λ t. fm.is_instant (pos t) ≡ true) s.users
              s.subscriptions instants)
            (let le = length_joined mine other user_id s.users s.subscriptions in
              omega (arith, le, enough)),
        (
          mark-Ascending auth_id s (order_by desc item_key rows)
              (order_by-Ascending desc item_key rows d),
          λ u.
              occurs_marked auth_id s u (order_by desc item_key rows)
              ∙ occurs_sorted u rows d
              ∙ count u,
          mark-All auth_id s (λ i. exists (made mine other user_id i) s.subscriptions)
              (order_by desc item_key rows) (λ i. refl)
              (All-order_by desc item_key
                (λ i. exists (made mine other user_id i) s.subscriptions ≡ true) rows
                (joined_made mine other user_id s.users s.subscriptions)),
          marks auth_id s (order_by desc item_key rows),
        ),
      )

  -- A client pages through the list of those who follow an existing user, or of those whom the user
  -- follows. It gets each of them who is not deleted once, no one else, the newest first, with the time at
  -- which the one followed the other, marked by whether the one who asks follows them. No user follows
  -- another twice, and the times are instants of `time`.
  pub list_complete :
      NoRepeat s.subscriptions
      → ((items : List SubscriberItem) × (walk
              (λ c. answered (get_user_subscribers fm auth_id user_id (from_cursor p c) s))
              (suc fuel)
              none
            ≡ some items)
          × Listing auth_id s (λ u. follows u user_id s) (λ u t. follows_since t u user_id s) items)
        × ((items : List SubscriberItem) × (walk
                (λ c. answered (get_user_subscriptions fm auth_id user_id (from_cursor p c) s))
                (suc fuel)
                none
              ≡ some items)
            × Listing auth_id s
                (λ u. follows user_id u s)
                (λ u t. follows_since t user_id u s)
                items)
  unfolding get_user_subscribers get_user_subscriptions follows follows_since
  list_complete key =
      let (items, pages, (order, count, since, marked)) =
        listed (λ r. r.subscription_id) (λ r. r.subscriber_id)
          (subscribers-Once user_id s.subscriptions key) in
      (
        (
          items,
          pages,
          (
            order,
            λ u.
                count u
                ∙ ap (λ b. if user_exists u s && b then 1 else 0)
                    (swapped u user_id s.subscriptions),
            same-All _ (λ i. follows_since i.subscribed_at i.id user_id s) items
                (λ i. since_swapped i.id user_id i.subscribed_at s.subscriptions) since,
            marked,
          ),
        ),
        listed (λ r. r.subscriber_id) (λ r. r.subscription_id)
            (subscriptions-Once user_id s.subscriptions key),
      )
