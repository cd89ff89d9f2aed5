-- ===== src/Broadcast/Repository.antt =====
-- The statements of apps/api/src/modules/broadcast/repository.rs on broadcasts, participants and cohosts.
use meno.Prelude.{
  ℕ, Bool, not, ◌&&◌, Option, none, some, List, [], ◌∷◌, map, ◌==◌, if◌then◌else◌, is_some, length,
}
use meno.Table.{select, find, exists, update, delete}
use meno.Broadcast.{
  active, inactive, ParticipantRole, EndReason, Broadcast, is_active, BroadcastParticipant,
  BroadcastCohost, User, Store,
}

abbrev pub is_broadcast : ℕ → Broadcast → Bool
is_broadcast b r = r.id == b

-- The primary key of broadcast_participants.
abbrev pub is_participation : ℕ → ℕ → BroadcastParticipant → Bool
is_participation b u r = r.broadcast_id == b && r.participant_id == u

-- The primary key of broadcast_cohosts.
abbrev pub is_cohosting : ℕ → ℕ → BroadcastCohost → Bool
is_cohosting b u r = r.broadcast_id == b && r.cohost_id == u

abbrev pub present : BroadcastParticipant → Bool
present r = not (is_some r.left_at)

unfoldable pub find_by_id : ℕ → Store → Option Broadcast
find_by_id b s = find (λ r. is_broadcast b r && not (is_some r.deleted_at)) s.broadcasts

unfoldable pub find_user_summary : ℕ → List User → Option User
find_user_summary u users = find (λ r. r.id == u && not (is_some r.deleted_at)) users

unfoldable pub is_cohost : ℕ → ℕ → Store → Bool
is_cohost b u s = exists (is_cohosting b u) s.cohosts

unfoldable pub find_participant : ℕ → ℕ → Store → Option BroadcastParticipant
find_participant b u s = find (is_participation b u) s.participants

-- `LIMIT 1`: of several rows, the first.
unfoldable pub find_active_participant : ℕ → Store → Option BroadcastParticipant
find_active_participant u s = find (λ r. r.participant_id == u && present r) s.participants

abbrev pub present_in : ℕ → BroadcastParticipant → Bool
present_in b r = r.broadcast_id == b && present r

unfoldable pub get_participant_ids : ℕ → Store → List ℕ
get_participant_ids b s = map (λ r. r.participant_id) (select (present_in b) s.participants)

unfoldable pub get_total_participants : ℕ → Store → ℕ
get_total_participants b s = length (select (λ r. r.broadcast_id == b) s.participants)

unfoldable pub is_active_host : ℕ → Store → Bool
unfolding is_active
is_active_host u s =
    exists (λ r. r.creator_id == u && (is_active r && not (is_some r.deleted_at))) s.broadcasts

-- The cohosts of a broadcast, joined with the users that are not deleted.
unfoldable pub cohost_users : ℕ → List User → List BroadcastCohost → List User
unfolding find_user_summary
cohost_users b users [] = []
cohost_users b users (c ∷ cs) =
    let rest = cohost_users b users cs in
    if c.broadcast_id == b && not (is_some c.removed_at)
    then elim (find_user_summary c.cohost_id users) [ none ↦ rest | some u ↦ u ∷ rest ]
    else rest

unfoldable pub get_cohosts : ℕ → Store → List User
unfolding cohost_users
get_cohosts b s = cohost_users b s.users s.cohosts

unfoldable pub delete_broadcast : ℕ → ℕ → Store → Store
delete_broadcast now b s = record s {
  broadcasts =
      update (λ r. is_broadcast b r && not (is_some r.deleted_at))
        (λ r. record r { deleted_at = some now }) s.broadcasts;
}

abbrev pub activated : ℕ → ℕ → Broadcast → Broadcast
activated now token r = record r {
  status = active;
  broadcast_token = some token;
  start_time = some now;
}

unfoldable pub set_active : ℕ → ℕ → ℕ → Store → Store
set_active now b token s = record s {
  broadcasts = update (is_broadcast b) (activated now token) s.broadcasts;
}

abbrev pub deactivated : ℕ → EndReason → Broadcast → Broadcast
deactivated now why r = record r { status = inactive; end_time = some now; end_reason = why }

unfoldable pub set_inactive : ℕ → ℕ → EndReason → Store → Store
set_inactive now b why s = record s {
  broadcasts = update (is_broadcast b) (deactivated now why) s.broadcasts;
}

abbrev pub new_participant : ℕ → ℕ → ParticipantRole → ℕ → BroadcastParticipant
new_participant b u role at = record {
  broadcast_id = b;
  participant_id = u;
  role = role;
  joined_at = at;
  left_at = none;
  last_listen_position_seconds = 0;
  last_listened_at = none;
}

-- A conflict updates the role and the time of joining, and no other column.
abbrev pub rejoined : ParticipantRole → ℕ → BroadcastParticipant → BroadcastParticipant
rejoined role at r = record r { role = role; joined_at = at }

unfoldable pub upsert_participant : ℕ → ℕ → ParticipantRole → ℕ → Store → Store
upsert_participant b u role at s =
    if exists (is_participation b u) s.participants
    then record s { participants = update (is_participation b u) (rejoined role at) s.participants }
    else record s { participants = new_participant b u role at ∷ s.participants }

unfoldable pub remove_participant : ℕ → ℕ → Store → Store
remove_participant b u s = record s { participants = delete (is_participation b u) s.participants }

unfoldable pub clear_participants : ℕ → ℕ → Store → Store
clear_participants now b s = record s {
  participants = update (present_in b) (λ r. record r { left_at = some now }) s.participants;
}

-- `add_cohosts` of one user.
unfoldable pub add_cohosts : ℕ → ℕ → ℕ → ℕ → Store → Store
add_cohosts now b u inviter s = if exists (is_cohosting b u) s.cohosts then s else record s {
  cohosts =
      record {
        broadcast_id = b;
        cohost_id = u;
        invited_by = inviter;
        invited_at = now;
        removed_at = none;
      }
      ∷ s.cohosts;
}

unfoldable pub remove_cohost : ℕ → ℕ → Store → Store
remove_cohost b u s = record s { cohosts = delete (is_cohosting b u) s.cohosts }
