-- ===== src/Broadcast/Service.antt =====
-- The operations of apps/api/src/modules/broadcast/service.rs on a live broadcast: checks, the
-- transaction, then the calls of other services. `lk` is the LiveKit service, `now` the instant of the
-- call.
use meno.Prelude.{
  ℕ, ◌-◌, Bool, true, false, not, ◌||◌, Option, none, some, List, [], ◌∷◌, ◌++◌, if◌then◌else◌,
  is_some, unwrap_or, length,
}
use meno.Broadcast.{
  ParticipantRole, host, normal, Broadcast, can_be_scheduled, BroadcastParticipant, User, Store,
  user_not_found, database, livekit, livekit_access, Result, ok, err, as_host, Livekit,
  new_broadcast, broadcast_deleted, ended_broadcast, home_invalidated, participant_joined,
  participant_left, live_count_changed, Call, create_room, delete_room, init_room, destroy_room,
  invalidate_broadcast_cache, invalidate_list_caches, join_room, leave_room, push_started_fanout,
  set_live_count, increment_live_count, decrement_live_count, delete_live_count, delete_host_grace,
  delete_started_at, set_started_at, publish_to_room, publish_to_subscribers, broadcast_all, World,
  Reply, BroadcastSession, EndBroadcastResponse, LeaveBroadcastResponse, is_active,
}
use meno.Broadcast.Repository.{
  find_by_id, find_user_summary, is_cohost, find_participant, find_active_participant,
  get_participant_ids, get_total_participants, get_cohosts, delete_broadcast, set_active,
  set_inactive, upsert_participant, remove_participant, clear_participants,
}
use meno.Broadcast.Access.{may_delete, may_start, may_end, role_in, may_join, may_leave}

-- A commit, and calls that follow it.
abbrev pub commit : Store → List Call → World → World
commit s calls w = record { tables = s; calls = w.calls ++ calls }

cancelled : ℕ → Broadcast → List Call
unfolding can_be_scheduled
cancelled now r =
    if can_be_scheduled now r
    then publish_to_subscribers r.creator_id broadcast_deleted ∷ []
    else []

unfoldable pub erase : ℕ → ℕ → World → Result (Option Broadcast) → Reply Unit
unfolding delete_broadcast cancelled
erase now b w (err e) = (err e, w)
erase now b w (ok none) = (ok tt, w)
erase now b w (ok (some r)) = (
  ok tt,
  commit (delete_broadcast now b w.tables)
      (delete_live_count b ∷ delete_host_grace b ∷ delete_started_at b ∷ cancelled now r) w,
)

unfoldable pub delete : ℕ → ℕ → ℕ → World → Reply Unit
unfolding may_delete find_by_id find_user_summary erase
delete now b creator w =
    erase now b w
      (may_delete creator (find_by_id b w.tables) (find_user_summary creator w.tables.users))

-- The answer, from the row that `set_active` returns.
unfoldable pub started : User → ℕ → Store → Option Broadcast → Result BroadcastSession
unfolding get_cohosts
started u token s none = err database
started u token s (some r) = ok (record {
  broadcast = r;
  creator = u;
  cohosts = get_cohosts r.id s;
  role = host;
  total_count = 1;
  token = token;
})

-- What follows the checks, by the answers of LiveKit: whether the room was made, and the token of
-- the host. A room stays when no token could be signed.
unfoldable pub go_live : ℕ → ℕ → World → User → Bool → Option ℕ → Reply BroadcastSession
unfolding find_by_id set_active upsert_participant started
go_live now b w u false _ = (err livekit, w)
go_live now b w u true none = (err livekit_access, commit w.tables (create_room b ∷ []) w)
go_live now b w u true (some token) =
    let s = upsert_participant b u.id host now (set_active now b token w.tables) in
    (
      started u token s (find_by_id b s),
      commit s
          (create_room b
            ∷ invalidate_list_caches
            ∷ invalidate_broadcast_cache b
            ∷ init_room b
            ∷ push_started_fanout b
            ∷ set_started_at b now
            ∷ set_live_count b
            ∷ publish_to_subscribers u.id new_broadcast
            ∷ broadcast_all home_invalidated
            ∷ [])
          w,
    )

unfoldable pub begin : Livekit → ℕ → ℕ → World → Result User → Reply BroadcastSession
unfolding go_live
begin lk now b w (err e) = (err e, w)
begin lk now b w (ok u) = go_live now b w u (lk.create_room b) (lk.mint_token u.id b as_host)

unfoldable pub start : Livekit → ℕ → ℕ → ℕ → World → Reply BroadcastSession
unfolding may_start find_by_id find_user_summary begin
start lk now b user w =
    begin lk now b w
      (may_start user (find_by_id b w.tables) (find_user_summary user w.tables.users))

-- `whole_seconds` of the time since the start; instants are in seconds.
abbrev pub duration : ℕ → Broadcast → ℕ
duration now r = elim r.start_time [ none ↦ 0 | some t ↦ now - t ]

unfoldable pub close : ℕ → ℕ → World → Result Broadcast → Reply EndBroadcastResponse
unfolding get_participant_ids clear_participants set_inactive
close now b w (err e) = (err e, w)
close now b w (ok r) = (
  ok (record {
    broadcast_id = b;
    broadcast_title = r.title;
    broadcast_image_url = r.image_url;
    creator_id = r.creator_id;
    ended_reason = normal;
    ended_at = now;
    duration_secs = duration now r;
    total_participants = length (get_participant_ids b w.tables);
    recording_enabled = r.recording_enabled;
  }),
  commit (set_inactive now b normal (clear_participants now b w.tables))
      (invalidate_list_caches
        ∷ invalidate_broadcast_cache b
        ∷ delete_room b
        ∷ delete_live_count b
        ∷ delete_host_grace b
        ∷ publish_to_room b ended_broadcast
        ∷ destroy_room b
        ∷ [])
      w,
)

unfoldable pub end : ℕ → ℕ → ℕ → World → Reply EndBroadcastResponse
unfolding may_end find_by_id close
end now b user w = close now b w (may_end user (find_by_id b w.tables))

-- The answer to a join reads the creator after the commit, and can be an error then.
unfoldable pub joined :
    ℕ → ParticipantRole → Broadcast → ℕ → Store → Option User → Result BroadcastSession
unfolding get_cohosts get_total_participants
joined b role r token s none = err user_not_found
joined b role r token s (some creator) = ok (record {
  broadcast = r;
  creator = creator;
  cohosts = get_cohosts b s;
  role = role;
  total_count = get_total_participants b s;
  token = token;
})

unfoldable pub enter : ℕ → ℕ → ℕ → Bool → World → Result (Broadcast × ℕ) → Reply BroadcastSession
unfolding find_user_summary upsert_participant joined
enter now b user cohosting w (err e) = (err e, w)
enter now b user cohosting w (ok (r, token)) =
    let s = upsert_participant b user (role_in cohosting) now w.tables in
    (
      joined b (role_in cohosting) r token s (find_user_summary r.creator_id s.users),
      commit s
          (invalidate_list_caches
            ∷ invalidate_broadcast_cache b
            ∷ join_room user b
            ∷ increment_live_count b
            ∷ publish_to_room b participant_joined
            ∷ publish_to_room b live_count_changed
            ∷ [])
          w,
    )

unfoldable pub join : Livekit → ℕ → ℕ → ℕ → World → Reply BroadcastSession
unfolding may_join find_by_id find_user_summary is_cohost find_active_participant enter
join lk now b user w =
    let cohosting = is_cohost b user w.tables in
    enter now b user cohosting w (
      may_join lk b user cohosting (find_active_participant user w.tables) (find_by_id b w.tables)
        (find_user_summary user w.tables.users))

abbrev pub has_left : Broadcast → BroadcastParticipant → Bool
unfolding is_active
has_left r p = not (is_active r) || is_some p.left_at

unfoldable pub depart :
    ℕ → ℕ → ℕ → World → Result (Broadcast × BroadcastParticipant) → Reply LeaveBroadcastResponse
unfolding remove_participant has_left
depart now b user w (err e) = (err e, w)
depart now b user w (ok (r, p)) =
    if has_left r p
    then (ok (record { broadcast_id = b; user_id = user; left_at = unwrap_or p.left_at now }), w)
    else (
      ok (record { broadcast_id = b; user_id = user; left_at = now }),
      commit (remove_participant b user w.tables)
          (invalidate_list_caches
            ∷ invalidate_broadcast_cache b
            ∷ leave_room user b
            ∷ decrement_live_count b
            ∷ publish_to_room b participant_left
            ∷ [])
          w,
    )

unfoldable pub leave : ℕ → ℕ → ℕ → World → Reply LeaveBroadcastResponse
unfolding may_leave find_by_id find_user_summary find_participant depart
leave now b user w = depart now b user w (
    may_leave (find_participant b user w.tables) (find_by_id b w.tables)
      (find_user_summary user w.tables.users))
