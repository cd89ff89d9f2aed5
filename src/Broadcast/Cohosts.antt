-- ===== src/Broadcast/Cohosts.antt =====
-- `add_cohost`, `remove_cohost` and `refresh_token` of apps/api/src/modules/broadcast/service.rs.
use meno.Prelude.{ℕ, Bool, true, false, Option, none, some, [], ◌∷◌}
use meno.Broadcast.{
  cohost, participant, User, livekit_access, Result, ok, err, as_participant, Livekit,
  live_count_changed, removed_cohost, cohost_invitation, cohost_demotion, remove_from_livekit,
  revoke_publishing, subtract_live_count, publish_to_room, publish_to_user, World, Reply,
  CohostSessionResponse,
}
use meno.Broadcast.Repository.{
  find_by_id, find_user_summary, is_cohost, find_participant, get_cohosts, upsert_participant,
  remove_participant, add_cohosts, remove_cohost,
}
use meno.Broadcast.Access.{may_add_cohost, may_remove_cohost, may_refresh}
use meno.Broadcast.Service.{commit}

unfoldable pub invite : ℕ → ℕ → ℕ → ℕ → World → Result (User × ℕ) → Reply CohostSessionResponse
unfolding add_cohosts upsert_participant
invite now b requester user w (err e) = (err e, w)
invite now b requester user w (ok (u, token)) = (
  ok (record { user = u; token = token }),
  commit (upsert_participant b user cohost now (add_cohosts now b user requester w.tables))
      (publish_to_user user (cohost_invitation token) ∷ []) w,
)

unfoldable pub add_cohost : Livekit → ℕ → ℕ → ℕ → ℕ → World → Reply CohostSessionResponse
unfolding may_add_cohost is_cohost get_cohosts find_by_id find_user_summary invite
add_cohost lk now b requester user w = invite now b requester user w (
    may_add_cohost lk b requester user (is_cohost b user w.tables) (get_cohosts b w.tables)
      (find_by_id b w.tables) (find_user_summary user w.tables.users))

-- The former cohost stays as a participant: the token is made after the commit, and its failure is
-- an error that leaves the new role in place.
unfoldable pub demoted : ℕ → ℕ → World → Option ℕ → Reply Unit
demoted b user w none = (err livekit_access, commit w.tables (revoke_publishing b user ∷ []) w)
demoted b user w (some token) = (
  ok tt,
  commit w.tables
      (revoke_publishing b user
        ∷ publish_to_user user (cohost_demotion token)
        ∷ publish_to_room b removed_cohost
        ∷ [])
      w,
)

unfoldable pub demote : ℕ → ℕ → ℕ → World → World
unfolding remove_cohost upsert_participant
demote now b user w =
    commit (upsert_participant b user participant now (remove_cohost b user w.tables)) [] w

unfoldable pub dismiss : Livekit → ℕ → ℕ → ℕ → Bool → World → Result (Option User) → Reply Unit
unfolding remove_cohost remove_participant demoted demote
dismiss lk now b user out w (err e) = (err e, w)
dismiss lk now b user out w (ok none) = (ok tt, w)
dismiss lk now b user true w (ok (some u)) = (
  ok tt,
  commit (remove_participant b user (remove_cohost b user w.tables))
      (remove_from_livekit b user
        ∷ subtract_live_count b
        ∷ publish_to_room b live_count_changed
        ∷ publish_to_room b removed_cohost
        ∷ [])
      w,
)
dismiss lk now b user false w (ok (some u)) =
    demoted b user (demote now b user w) (lk.mint_token u.id b as_participant)

unfoldable pub remove_cohost_of : Livekit → ℕ → ℕ → ℕ → ℕ → Bool → World → Reply Unit
unfolding may_remove_cohost find_by_id find_user_summary is_cohost dismiss
remove_cohost_of lk now b user requester remove_from_room w =
    dismiss lk now b user remove_from_room w (
      may_remove_cohost requester (is_cohost b user w.tables) (find_by_id b w.tables)
        (find_user_summary user w.tables.users))

-- `refresh_token` changes nothing: the token of its answer alone, which also has the instant six hours on.
unfoldable pub refresh_token : Livekit → ℕ → ℕ → World → Result ℕ
unfolding may_refresh find_participant find_by_id find_user_summary
refresh_token lk b user w =
    may_refresh lk b user (find_participant b user w.tables) (find_by_id b w.tables)
      (find_user_summary user w.tables.users)
