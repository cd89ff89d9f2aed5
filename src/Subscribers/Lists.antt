-- ===== src/Subscribers/Lists.antt =====
-- The mark on the rows of a list: the batch query agrees with asking for each row.
use meno.Prelude.{
  ℕ, suc, ◌≤◌, ◌≡◌, refl, ap, ◌∙◌, inl, inr, true, ◌&&◌, Option, none, some, List, [], ◌∷◌, map,
  arith, ◌==◌, Bool-cases, length, All,
}
use meno.Table.{select, exists, contains}
use meno.Prelude.Int.{pos}
use meno.Prelude.Texts.{Text}
use meno.Prelude.Results.{ok, err}
use meno.Pagination.{Formats}
use meno.Pagination.Cursor.{from_timestamp_id}
use meno.Pagination.Cursor.RoundTrip.{Lawful, timestamp_id}
use meno.Pagination.Page.{CursorParams, limit_of, CursorPage, from_rows, desc, Key, order_by, feed}
use meno.Pagination.Page.Sorting.{Distinct}
use meno.Pagination.Page.Walk.{walk}
use meno.Pagination.Page.Feeds.{follow}
use meno.Pagination.Page.Bounds.{limit_within, limit_from, next_size, positive}
use meno.Subscribers.{Subscription, Store, Reply, is_pair, follows}
use meno.Subscribers.Listing.{
  SubscriberItem, user_exists, joined_users, batch_is_subscribed, annotate, item_key, list_key,
  find_items, page_of_items,
}

module _ (viewer : ℕ) where
  in_batch :
      (id : ℕ) (ids : List ℕ) (rows : List Subscription)
      → contains id ids ≡ true
      → contains id (
          map
            (λ r. r.subscription_id)
            (select
              (λ (r : Subscription). r.subscriber_id == viewer && contains r.subscription_id ids)
              rows))
        ≡ exists (is_pair viewer id) rows
  unfolding contains select exists
  in_batch id ids [] h = refl
  in_batch id ids (r ∷ rows) h = elim (Bool-cases (id == r.subscription_id)) [
    | inl e ↦
        let same : r.subscription_id ≡ id = ground arith in
        rw same (ground (arith, in_batch id ids rows h))
    | inr e ↦ ground (arith, in_batch id ids rows h)
  ]

  unfoldable pub mark : Store → SubscriberItem → SubscriberItem
  unfolding follows
  mark s r = record r { is_following = follows viewer r.id s }

  marked :
      (ids : List ℕ) (s : Store) (rows : List SubscriberItem)
      → All (λ r. contains r.id ids ≡ true) rows
      → map {B = SubscriberItem}
          (λ (r : SubscriberItem). record r {
            is_following = contains r.id (
                map
                  (λ r. r.subscription_id)
                  (select
                    (λ (r : Subscription).
                      r.subscriber_id == viewer && contains r.subscription_id ids)
                    s.subscriptions));
          })
          rows
        ≡ map (mark s) rows
  unfolding mark follows
  marked ids s [] h = refl
  marked ids s (r ∷ rows) h =
      rw (in_batch r.id ids s.subscriptions h.0) (ap (λ zs. mark s r ∷ zs) (marked ids s rows h.1))

  self_contained :
      (rows all : List SubscriberItem)
      → ((i : ℕ)
          → contains i (map (λ (r : SubscriberItem). r.id) rows) ≡ true
          → contains i (map (λ (r : SubscriberItem). r.id) all) ≡ true)
      → All (λ r. contains r.id (map (λ (r : SubscriberItem). r.id) all) ≡ true) rows
  unfolding contains
  self_contained [] all h = tt
  self_contained (r ∷ rows) all h =
      (h r.id (ground arith), self_contained rows all (λ i k. h i (ground arith)))

  -- One query for the rows of a page marks each row as a question for it alone would.
  annotate_lem :
      (rows : List SubscriberItem) (s : Store) → annotate (some viewer) rows s ≡ map (mark s) rows
  unfolding annotate batch_is_subscribed
  annotate_lem [] s = refl
  annotate_lem (r ∷ rows) s =
      marked (map (λ (r : SubscriberItem). r.id) (r ∷ rows)) s (r ∷ rows)
        (self_contained (r ∷ rows) (r ∷ rows) (λ i k. k))

unfoldable pub answered : {A : Type 0} → Reply A → Option A
answered (ok a) = some a
answered (err e) = none

abbrev pub from_cursor : CursorParams → Option Text → CursorParams
from_cursor p c = record p { cursor = c }

module _ (fm : Formats) (mine other : Subscription → ℕ) (auth_id user_id : ℕ) (s : Store) where
  items_page :
      (p : CursorParams) (m : ℕ) (k : Option Key)
      → user_exists user_id s ≡ true
      → limit_of p ≡ pos (suc m)
      → list_key fm p.cursor ≡ ok k
      → page_of_items fm mine other user_id (some auth_id) p s
        ≡ ok (
            from_rows
              (map (mark auth_id s) (
                feed desc item_key k
                  (pos (suc (suc m)))
                  (joined_users mine other user_id s.users s.subscriptions)))
              (pos (suc m))
              (λ r. from_timestamp_id fm (pos r.subscribed_at) r.id))
  unfolding page_of_items find_items
  items_page p m k u l h = rw (u, h, next_size p m l, annotate_lem auth_id _ s, l) refl

  read_key :
      (ts id : ℕ)
      → Lawful fm
      → fm.is_instant (pos ts) ≡ true
      → list_key fm (some (from_timestamp_id fm (pos ts) id)) ≡ ok (some (pos ts, id))
  unfolding list_key
  read_key ts id v h = rw (timestamp_id fm v (pos ts) id h) refl

  -- The pages of a list, one after the other, are the rows of its join in their order, with their marks.
  pub walk_joined :
      (p : CursorParams) (fuel : ℕ)
      → Lawful fm
      → user_exists user_id s ≡ true
      → Distinct desc item_key (joined_users mine other user_id s.users s.subscriptions)
      → All
          (λ r. fm.is_instant (pos r.subscribed_at) ≡ true)
          (joined_users mine other user_id s.users s.subscriptions)
      → length (joined_users mine other user_id s.users s.subscriptions) ≤ fuel
      → walk
          (λ c. answered (page_of_items fm mine other user_id (some auth_id) (from_cursor p c) s))
          (suc fuel)
          none
        ≡ some (
            map
              (mark auth_id s)
              (order_by desc item_key (joined_users mine other user_id s.users s.subscriptions)))
  unfolding answered list_key mark
  walk_joined p fuel v u d instants enough =
      let rows = joined_users mine other user_id s.users s.subscriptions in
      let (m, l) = positive (limit_of p) (limit_within p).0 in
      let page : Option Text → Option (CursorPage SubscriberItem) =
        λ c. answered (page_of_items fm mine other user_id (some auth_id) (from_cursor p c) s) in
      let at = λ (c : Option Text) (k : Option Key) (h : list_key fm c ≡ ok k).
        ap answered (items_page (from_cursor p c) m k u (limit_from p c ∙ l) h) in
      follow desc item_key (mark auth_id s) (λ r. from_timestamp_id fm (pos r.subscribed_at) r.id)
        (λ r. fm.is_instant (pos r.subscribed_at) ≡ true) rows m page (at none none refl)
        (λ c h. at _ (some (item_key c)) (read_key c.subscribed_at c.id v h)) d instants fuel enough
