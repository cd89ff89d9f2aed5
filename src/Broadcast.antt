-- ===== src/Broadcast.antt =====
-- apps/api/src/modules/broadcast: the rows, errors and replies of the operations on a live broadcast
-- (model.rs, errors.rs, dto.rs). Children: `Repository` has the SQL statements, `Access` the checks
-- that an operation makes first, `Service` the operations.
-- The rows have the columns that these operations read or write, without `updated_at` and
-- `total_participants`, which triggers keep and none of these operations reads. An instant is a number that grows
-- with time. A LiveKit token is a number.
pub mod Cache
pub mod Counts
pub mod Repository
pub mod Access
pub mod Service
pub mod Cohosts
pub mod Sessions
pub mod Rejoin
pub mod Ending
pub mod Requests
pub mod Authority
pub mod CohostLimit
mod Examples
use meno.Prelude.{
  ℕ, zero, suc, ◌+◌, ◌-◌, ◌*◌, ◌/◌, ◌%◌, ◌^◌, ◌≤◌, ◌<◌, ◌≡◌, refl, sym, ap, ◌∙◌, ◌≢◌, ◌↔◌, ◌⊎◌, inl,
  inr, Bool, true, false, not, ◌&&◌, ◌||◌, Option, none, some, List, [], ◌∷◌, ◌++◌, map, arith, ltb,
  leb, ◌==◌, if◌then◌else◌, ltb→lt, lt→ltb, leb→le, ==_iff, ==_self, tests, Bool-cases,
  Option-cases, is_some, unwrap_or, or_else, length, take, drop, last, replicate, All,
  length-append, take-append-drop, length-take, take_all, All-append, All-map_iff, length-map,
}

pub data BroadcastStatus : Type 0 where
  active inactive : BroadcastStatus

pub data ParticipantRole : Type 0 where
  host cohost participant no_role : ParticipantRole

pub data EndReason : Type 0 where
  normal host_disconnected admin_forced quota_exceeded no_reason : EndReason

pub record Broadcast : Type 0 where
  pub id : ℕ
  pub title : List ℕ
  pub image_url : Option (List ℕ)
  pub status : BroadcastStatus
  pub creator_id : ℕ
  pub broadcast_token : Option ℕ
  pub start_time : Option ℕ
  pub end_time : Option ℕ
  pub recording_enabled : Bool
  pub end_reason : EndReason
  pub deleted_at : Option ℕ

unfoldable pub is_active : Broadcast → Bool
is_active r = elim r.status [ active ↦ true | inactive ↦ false ]

-- `can_be_scheduled`
unfoldable pub can_be_scheduled : ℕ → Broadcast → Bool
can_be_scheduled now r = elim r.start_time [ none ↦ false | some t ↦ ltb now t ]

pub record BroadcastParticipant : Type 0 where
  pub broadcast_id : ℕ
  pub participant_id : ℕ
  pub role : ParticipantRole
  pub joined_at : ℕ
  pub left_at : Option ℕ
  pub last_listen_position_seconds : ℕ
  pub last_listened_at : Option ℕ

pub record BroadcastCohost : Type 0 where
  pub broadcast_id : ℕ
  pub cohost_id : ℕ
  pub invited_by : ℕ
  pub invited_at : ℕ
  pub removed_at : Option ℕ

pub record User : Type 0 where
  pub id : ℕ
  pub full_name : List ℕ
  pub deleted_at : Option ℕ

pub record Store : Type 0 where
  pub broadcasts : List Broadcast
  pub participants : List BroadcastParticipant
  pub cohosts : List BroadcastCohost
  pub users : List User

-- `BroadcastError`, the cases that these operations return. `livekit` is a failed call of LiveKit.
pub data BroadcastError : Type 0 where
  not_found user_not_found not_creator already_live not_live cannot_end : BroadcastError
  creator_cannot_join already_participant already_a_participant not_participant : BroadcastError
  already_cohost cohost_limit_exceeded cannot_add_self_as_cohost : BroadcastError
  cannot_modify_live_broadcast livekit_access livekit database : BroadcastError

pub data Result (A : Type 0) : Type 0 where
  ok : A → Result A
  err : BroadcastError → Result A

pub data LivekitRole : Type 0 where
  as_host as_cohost as_participant : LivekitRole

-- `LivekitRole::try_from`
unfoldable pub livekit_role : ParticipantRole → Result LivekitRole
livekit_role host = ok as_host
livekit_role cohost = ok as_cohost
livekit_role participant = ok as_participant
livekit_role no_role = err not_participant

-- What the LiveKit service answers while one request runs: whether it made a room for a broadcast, and the
-- token it signs for a user, a broadcast and a role, without and with the attributes, which are a role and a
-- broadcast.
pub record Livekit : Type 0 where
  pub create_room : ℕ → Bool
  pub mint_token : ℕ → ℕ → LivekitRole → Option ℕ
  pub mint_token_with_attributes : ℕ → ℕ → LivekitRole → ParticipantRole × ℕ → Option ℕ

pub data WsEvent : Type 0 where
  new_broadcast broadcast_deleted ended_broadcast home_invalidated : WsEvent
  participant_joined participant_left live_count_changed removed_cohost : WsEvent
  cohost_invitation cohost_demotion : ℕ → WsEvent

-- The calls of LiveKit, the cache, the job queue and the websocket hub that change something there,
-- with the identifiers they are about. `subtract_live_count` is the bare `DECR` of `remove_cohost`.
pub data Call : Type 0 where
  create_room delete_room init_room destroy_room invalidate_broadcast_cache : ℕ → Call
  invalidate_list_caches : Call
  remove_from_livekit revoke_publishing join_room leave_room : ℕ → ℕ → Call
  push_started_fanout set_live_count increment_live_count decrement_live_count subtract_live_count :
      ℕ → Call
  delete_live_count delete_host_grace delete_started_at : ℕ → Call
  set_started_at : ℕ → ℕ → Call
  publish_to_room publish_to_user publish_to_subscribers : ℕ → WsEvent → Call
  broadcast_all : WsEvent → Call

-- The committed tables, and the calls made so far. The calls of a spawned task stand where it is
-- spawned.
pub record World : Type 0 where
  pub tables : Store
  pub calls : List Call

-- An answer and the world after it: an error may come after a commit.
abbrev pub Reply : Type 0 → Type 0
Reply A = Result A × World

-- `BroadcastSessionResponse`, without what comes from the cache, the subscriptions and the bookmarks.
pub record BroadcastSession : Type 0 where
  pub broadcast : Broadcast
  pub creator : User
  pub cohosts : List User
  pub role : ParticipantRole
  pub total_count : ℕ
  pub token : ℕ

-- `EndBroadcastResponse`, without `recording_ready`, which comes from the cache.
pub record EndBroadcastResponse : Type 0 where
  pub broadcast_id : ℕ
  pub broadcast_title : List ℕ
  pub broadcast_image_url : Option (List ℕ)
  pub creator_id : ℕ
  pub ended_reason : EndReason
  pub ended_at : ℕ
  pub duration_secs : ℕ
  pub total_participants : ℕ
  pub recording_enabled : Bool

pub record LeaveBroadcastResponse : Type 0 where
  pub broadcast_id : ℕ
  pub user_id : ℕ
  pub left_at : ℕ

pub record CohostSessionResponse : Type 0 where
  pub user : User
  pub token : ℕ

abbrev pub max_cohosts : ℕ
max_cohosts = 3
