-- ===== src/Subscribers/Listing.antt =====
-- The lists of apps/api/src/modules/subscribers: those who follow a user and those whom a user
-- follows, page by page, with a mark on each whom the viewer follows.
use meno.Prelude.{
  ℕ, Bool, false, not, ◌&&◌, Option, none, some, List, [], ◌∷◌, map, ◌==◌, if◌then◌else◌, is_some,
}
use meno.Table.{select, find, exists, contains}
use meno.Prelude.Int.{pos}
use meno.Prelude.Texts.{Text}
use meno.Prelude.Results.{Result, ok, err, ◌>>=◌}
use meno.Pagination.{Formats, CursorError}
use meno.Pagination.Cursor.{from_timestamp_id, to_timestamp_id}
use meno.Pagination.Page.{
  CursorParams, limit_of, limit_plus_one, CursorPage, from_rows, desc, Key, feed,
}
use meno.Subscribers.{User, Subscription, Store, subscriber_not_found, cursor_error, Reply}

pub record SubscriberItem : Type 0 where
  pub id : ℕ
  pub full_name : Text
  pub bio : Option Text
  pub avatar_url : Option Text
  pub is_following : Bool
  pub subscribed_at : ℕ

unfoldable pub user_exists : ℕ → Store → Bool
user_exists u s = exists (λ r. r.id == u && not (is_some r.deleted_at)) s.users

abbrev pub item_of : Subscription → User → SubscriberItem
item_of r u = record {
  id = u.id;
  full_name = u.full_name;
  bio = u.bio;
  avatar_url = u.avatar_url;
  is_following = false;
  subscribed_at = r.created_at;
}

-- The join of the rows with the users on their other side who are not deleted, where `mine` is the
-- column of the user whose list it is.
unfoldable pub joined_users :
    (mine other : Subscription → ℕ) → ℕ → List User → List Subscription → List SubscriberItem
joined_users mine other id users [] = []
joined_users mine other id users (r ∷ rows) =
    let rest = joined_users mine other id users rows in
    if mine r == id
    then elim (find (λ u. u.id == other r && not (is_some u.deleted_at)) users) [
      | none ↦ rest
      | some u ↦ item_of r u ∷ rest
    ]
    else rest

-- `batch_is_subscribed`
unfoldable pub batch_is_subscribed : ℕ → List ℕ → Store → List ℕ
unfolding select contains
batch_is_subscribed viewer [] s = []
batch_is_subscribed viewer (i ∷ ids) s =
    map (λ r. r.subscription_id)
      (select (λ r. r.subscriber_id == viewer && contains r.subscription_id (i ∷ ids))
        s.subscriptions)

-- The mark on every row.
unfoldable pub annotate : Option ℕ → List SubscriberItem → Store → List SubscriberItem
unfolding batch_is_subscribed contains
annotate none rows s = rows
annotate (some viewer) rows s =
    let followed = batch_is_subscribed viewer (map (λ r. r.id) rows) s in
    map {B = SubscriberItem}
      (λ (r : SubscriberItem). record r { is_following = contains r.id followed }) rows

abbrev pub item_key : SubscriberItem → Key
item_key r = (pos r.subscribed_at, r.id)

module _ (fm : Formats) where
  key_reply : Result CursorError Key → Reply (Option Key)
  key_reply (ok k) = ok (some k)
  key_reply (err e) = err (cursor_error e)

  unfoldable pub list_key : Option Text → Reply (Option Key)
  unfolding key_reply to_timestamp_id
  list_key none = ok none
  list_key (some c) = key_reply (to_timestamp_id fm c)

  module _ (mine other : Subscription → ℕ) where
    unfoldable pub find_items : ℕ → Option ℕ → CursorParams → Store → Reply (List SubscriberItem)
    unfolding list_key joined_users annotate limit_plus_one feed
    find_items id viewer p s = list_key p.cursor >>= (λ k. ok (
        annotate viewer
          (feed desc item_key k (limit_plus_one p)
            (joined_users mine other id s.users s.subscriptions))
          s))

    unfoldable pub page_of_items :
        ℕ → Option ℕ → CursorParams → Store → Reply (CursorPage SubscriberItem)
    unfolding user_exists find_items limit_of from_rows from_timestamp_id
    page_of_items id viewer p s =
        if user_exists id s
        then find_items id viewer p s >>= (λ rows.
          ok (from_rows rows (limit_of p) (λ r. from_timestamp_id fm (pos r.subscribed_at) r.id)))
        else err subscriber_not_found

  unfoldable pub get_user_subscribers :
      ℕ → ℕ → CursorParams → Store → Reply (CursorPage SubscriberItem)
  unfolding page_of_items
  get_user_subscribers auth_id user_id p s =
      page_of_items (λ r. r.subscription_id) (λ r. r.subscriber_id) user_id (some auth_id) p s

  unfoldable pub get_user_subscriptions :
      ℕ → ℕ → CursorParams → Store → Reply (CursorPage SubscriberItem)
  unfolding page_of_items
  get_user_subscriptions auth_id user_id p s =
      page_of_items (λ r. r.subscriber_id) (λ r. r.subscription_id) user_id (some auth_id) p s

  unfoldable pub get_my_subscribers : ℕ → CursorParams → Store → Reply (CursorPage SubscriberItem)
  unfolding get_user_subscribers
  get_my_subscribers auth_id p s = get_user_subscribers auth_id auth_id p s

  unfoldable pub get_my_subscriptions : ℕ → CursorParams → Store → Reply (CursorPage SubscriberItem)
  unfolding get_user_subscriptions
  get_my_subscriptions auth_id p s = get_user_subscriptions auth_id auth_id p s
