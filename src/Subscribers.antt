-- ===== src/Subscribers.antt =====
-- apps/api/src/modules/subscribers: who follows whom (dto.rs, errors.rs, repository.rs and service.rs, with the
-- table of packages/db/migrations/0007). `subscribe` and `unsubscribe` are here, `Listing` has the lists.
-- An instant is a number that grows with time. `notices` are the calls of
-- `NotificationService::notify`, whose failure is only logged.
pub mod Listing
pub mod Following
pub mod Lists
pub mod Joined
pub mod Complete
mod Examples
use meno.Prelude.{
  ℕ, zero, suc, ◌+◌, ◌-◌, ◌*◌, ◌/◌, ◌%◌, ◌^◌, ◌≤◌, ◌<◌, ◌≡◌, refl, sym, ap, ◌∙◌, ◌≢◌, ◌↔◌, ◌⊎◌, inl,
  inr, Bool, true, false, not, ◌&&◌, ◌||◌, Option, none, some, List, [], ◌∷◌, ◌++◌, map, arith, ltb,
  leb, ◌==◌, if◌then◌else◌, ltb→lt, lt→ltb, leb→le, ==_iff, ==_self, tests, Bool-cases,
  Option-cases, is_some, unwrap_or, or_else, length, take, drop, last, replicate, All,
  length-append, take-append-drop, length-take, take_all, All-append, All-map_iff, length-map,
}
use meno.Table.{find, exists, delete}
use meno.Prelude.Texts.{Text}
use meno.Prelude.Results.{Result, ok, err, ◌>>=◌, ok_or}
use meno.Pagination.{CursorError}

pub record User : Type 0 where
  pub id : ℕ
  pub full_name : Text
  pub bio : Option Text
  pub avatar_url : Option Text
  pub deleted_at : Option ℕ

-- A row of `user_subscribers`.
pub record Subscription : Type 0 where
  pub subscriber_id : ℕ
  pub subscription_id : ℕ
  pub created_at : ℕ

-- `notify(owner_id, USER_SUBSCRIBED, Some(actor), None, None)`
pub record Notice : Type 0 where
  pub owner_id : ℕ
  pub actor_id : ℕ

pub record Store : Type 0 where
  pub users : List User
  pub subscriptions : List Subscription
  pub notices : List Notice

pub data SubscribersError : Type 0 where
  cannot_subscribe_to_self subscriber_not_found subscription_not_found database redis internal :
      SubscribersError
  cursor_error : CursorError → SubscribersError

abbrev pub Reply : Type 0 → Type 0
Reply A = Result SubscribersError A

-- A row of one user who follows another.
abbrev pub is_pair : ℕ → ℕ → Subscription → Bool
is_pair a b r = r.subscriber_id == a && r.subscription_id == b

unfoldable pub follows : ℕ → ℕ → Store → Bool
follows a b s = exists (is_pair a b) s.subscriptions

-- `IdentityReader::find_user_by_id`
unfoldable pub find_user_by_id : ℕ → Store → Option User
find_user_by_id u s = find (λ r. r.id == u) s.users

-- `SubscribersRepo::create`: a check of the table, its primary key with `DO NOTHING`, and its
-- references to `users`.
unfoldable pub create : ℕ → ℕ → ℕ → Store → Reply Store
unfolding follows
create now a b s =
    if a == b
    then err database
    else if follows a b s
    then ok s
    else if exists (λ u. u.id == a) s.users && exists (λ u. u.id == b) s.users
    then ok (record s {
      subscriptions =
          record { subscriber_id = a; subscription_id = b; created_at = now } ∷ s.subscriptions;
    })
    else err database

-- `SubscribersRepo::delete`
unfoldable pub remove : ℕ → ℕ → Store → Store
remove a b s = record s { subscriptions = delete (is_pair a b) s.subscriptions }

-- The checks at the head of both operations.
unfoldable pub may_follow : ℕ → ℕ → Store → Reply User
unfolding find_user_by_id
may_follow a b s =
    if a == b
    then err cannot_subscribe_to_self
    else ok_or (find_user_by_id b s) subscriber_not_found

unfoldable pub notified : ℕ → User → Store → Store
notified owner actor s = record s {
  notices = record { owner_id = owner; actor_id = actor.id } ∷ s.notices;
}

unfoldable pub subscribe : ℕ → ℕ → ℕ → Store → Reply Store
unfolding may_follow create notified
subscribe now a b s =
    may_follow a b s >>= (λ user. create now a b s >>= (λ t. ok (notified b user t)))

unfoldable pub unsubscribe : ℕ → ℕ → Store → Reply Store
unfolding may_follow remove
unsubscribe a b s = may_follow a b s >>= (λ user. ok (remove a b s))
