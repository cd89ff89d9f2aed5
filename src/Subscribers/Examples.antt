-- ===== src/Subscribers/Examples.antt =====
-- Runs of requests to follow and of lists.
use meno.Prelude.{ℕ, ◌≡◌, refl, none, some, List, [], ◌∷◌, arith}
use meno.Table.{exists}
use meno.Prelude.Int.{pos}
use meno.Pagination.Page.{CursorParams}
use meno.Pagination.Page.Walk.{walk}
use meno.Pagination.Plain.{plain, plain-Lawful, early}
use meno.Subscribers.{User, Subscription, Store, follows}
use meno.Subscribers.Listing.{
  SubscriberItem, user_exists, get_user_subscribers, get_user_subscriptions,
}
use meno.Subscribers.Following.{
  Request, follow, unfollow, serve, ask_all, known, Sound, serve_refines,
}
use meno.Subscribers.Lists.{answered, from_cursor}
use meno.Subscribers.Complete.{Listing, follows_since, list_complete}

abbrev user : ℕ → User
user u = record { id = u; full_name = u ∷ []; bio = none; avatar_url = none; deleted_at = none }

abbrev start : Store
start = record { users = user 1 ∷ user 2 ∷ user 3 ∷ []; subscriptions = []; notices = [] }

start-Sound : Sound start
unfolding follows exists
start-Sound a b h = absurd (ground arith)

abbrev requests : List Request
requests = follow 10 1 2 ∷ follow 11 2 1 ∷ follow 12 1 1 ∷ follow 13 3 9 ∷ unfollow 1 2 ∷ []

serve_refines_example :
    Sound (serve requests start)
    × ((c d : ℕ)
        → follows c d (serve requests start)
          ≡ ask_all (known start) requests (λ x y. follows x y start) c d)
serve_refines_example = serve_refines requests start start-Sound

abbrev row : ℕ → ℕ → ℕ → Subscription
row a b at = record { subscriber_id = a; subscription_id = b; created_at = at }

abbrev three : Store
three = record {
  users = user 1 ∷ user 2 ∷ user 3 ∷ [];
  subscriptions = row 1 2 20 ∷ row 3 2 30 ∷ row 2 3 30 ∷ [];
  notices = [];
}

abbrev one_by_one : CursorParams
one_by_one = record { cursor = none; limit = some (pos 1) }

list_complete_example :
    ((items : List SubscriberItem) × (walk
          (λ c. answered (get_user_subscribers plain 2 2 (from_cursor one_by_one c) three))
          4
          none
        ≡ some items)
      × Listing 2 three (λ u. follows u 2 three) (λ u t. follows_since t u 2 three) items)
    × ((items : List SubscriberItem) × (walk
            (λ c. answered (get_user_subscriptions plain 2 2 (from_cursor one_by_one c) three))
            4
            none
          ≡ some items)
        × Listing 2 three (λ u. follows 2 u three) (λ u t. follows_since t 2 u three) items)
unfolding plain early user_exists exists
list_complete_example =
    list_complete plain 2 2 three one_by_one 3 plain-Lawful refl (refl, (refl, (refl, tt)))
      (omega arith) (refl, (refl, (refl, tt)))
