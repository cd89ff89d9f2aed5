-- ===== src/Broadcast/Access.antt =====
-- The checks at the head of the operations of apps/api/src/modules/broadcast/service.rs: from the rows that an
-- operation reads to what it goes on with, or to its error, in the order of the code.
use meno.Prelude.{
  ℕ, Bool, true, false, not, Option, none, some, List, ◌==◌, if◌then◌else◌, is_some, length,
}
use meno.Broadcast.{
  ParticipantRole, host, cohost, participant, Broadcast, is_active, BroadcastParticipant, User,
  not_found, user_not_found, not_creator, already_live, not_live, cannot_end, creator_cannot_join,
  already_participant, already_a_participant, not_participant, already_cohost,
  cohost_limit_exceeded, cannot_add_self_as_cohost, cannot_modify_live_broadcast, livekit_access,
  Result, ok, err, LivekitRole, as_cohost, as_participant, livekit_role, Livekit, max_cohosts,
}

-- `map_err(BroadcastError::LiveKitAccess)`
unfoldable pub with_token : {A : Type 0} → Option ℕ → (ℕ → A) → Result A
with_token none f = err livekit_access
with_token (some t) f = ok (f t)

-- `deleted_at` is none in every row that `find_by_id` returns.
unfoldable pub may_delete : ℕ → Option Broadcast → Option User → Result (Option Broadcast)
unfolding is_active
may_delete creator none _ = err not_found
may_delete creator (some r) none = err user_not_found
may_delete creator (some r) (some u) =
    if is_some r.deleted_at
    then ok none
    else if is_active r
    then err cannot_modify_live_broadcast
    else if r.creator_id == creator
    then ok (some r)
    else err not_creator

unfoldable pub may_start : ℕ → Option Broadcast → Option User → Result User
unfolding is_active
may_start user none _ = err not_found
may_start user (some r) none = err user_not_found
may_start user (some r) (some u) =
    if not (r.creator_id == user)
    then err not_creator
    else if is_active r
    then err already_live
    else ok u

unfoldable pub may_end : ℕ → Option Broadcast → Result Broadcast
unfolding is_active
may_end user none = err not_found
may_end user (some r) =
    if not (r.creator_id == user)
    then err cannot_end
    else if is_active r
    then ok r
    else err not_live

abbrev pub role_in : Bool → ParticipantRole
role_in true = cohost
role_in false = participant

abbrev pub livekit_role_in : Bool → LivekitRole
livekit_role_in true = as_cohost
livekit_role_in false = as_participant

unfoldable pub may_join :
    Livekit
    → ℕ
    → ℕ
    → Bool
    → Option BroadcastParticipant
    → Option Broadcast
    → Option User
    → Result (Broadcast × ℕ)
unfolding is_active with_token
may_join lk b user cohosting elsewhere none _ = err not_found
may_join lk b user cohosting elsewhere (some r) none = err user_not_found
may_join lk b user cohosting elsewhere (some r) (some u) =
    if not (is_active r)
    then err not_live
    else if r.creator_id == user
    then err creator_cannot_join
    else elim elsewhere [
      | some p ↦ if p.broadcast_id == b then err already_participant else err already_a_participant
      | none ↦ with_token (lk.mint_token user b (livekit_role_in cohosting)) (λ t. (r, t))
    ]

unfoldable pub may_leave :
    Option BroadcastParticipant
    → Option Broadcast
    → Option User
    → Result (Broadcast × BroadcastParticipant)
may_leave _ none _ = err not_found
may_leave _ (some r) none = err user_not_found
may_leave none (some r) (some u) = err not_participant
may_leave (some p) (some r) (some u) = ok (r, p)

unfoldable pub may_add_cohost :
    Livekit → ℕ → ℕ → ℕ → Bool → List User → Option Broadcast → Option User → Result (User × ℕ)
unfolding is_active with_token
may_add_cohost lk b requester user true _ _ _ = err already_cohost
may_add_cohost lk b requester user false cohosts none _ = err not_found
may_add_cohost lk b requester user false cohosts (some r) none = err user_not_found
may_add_cohost lk b requester user false cohosts (some r) (some u) =
    if length cohosts == max_cohosts
    then err cohost_limit_exceeded
    else if not (is_active r)
    then err not_live
    else if not (r.creator_id == requester)
    then err not_creator
    else if r.creator_id == user
    then err cannot_add_self_as_cohost
    else with_token (lk.mint_token u.id b as_cohost) (λ t. (u, t))

-- Whether there is a cohost to remove.
unfoldable pub may_remove_cohost : ℕ → Bool → Option Broadcast → Option User → Result (Option User)
unfolding is_active
may_remove_cohost requester cohosting none _ = err not_found
may_remove_cohost requester cohosting (some r) none = err user_not_found
may_remove_cohost requester cohosting (some r) (some u) =
    if not (is_active r)
    then err not_live
    else if not (r.creator_id == requester)
    then err not_creator
    else if cohosting
    then ok (some u)
    else ok none

-- The role comes from the tables: the creator is the host, anyone else has the role of his row.
unfoldable pub current_role : ℕ → Broadcast → Option BroadcastParticipant → Result ParticipantRole
current_role user r row = if r.creator_id == user then ok host else elim row [
  | none ↦ err not_participant
  | some p ↦ if is_some p.left_at then err not_participant else ok p.role
]

unfoldable pub fresh_token : Livekit → ℕ → ℕ → Result ParticipantRole → Result ℕ
unfolding livekit_role with_token
fresh_token lk b user (err e) = err e
fresh_token lk b user (ok role) = elim (livekit_role role) [
  | err e ↦ err e
  | ok l ↦ with_token (lk.mint_token_with_attributes user b l (role, b)) (λ t. t)
]

unfoldable pub may_refresh :
    Livekit → ℕ → ℕ → Option BroadcastParticipant → Option Broadcast → Option User → Result ℕ
unfolding is_active current_role fresh_token
may_refresh lk b user row none _ = err not_found
may_refresh lk b user row (some r) none = err user_not_found
may_refresh lk b user row (some r) (some u) =
    if not (is_active r) then err not_live else fresh_token lk b user (current_role user r row)
