-- ===== src/Broadcast/Rejoin.antt =====
-- Joining a broadcast again after it has ended once.
use meno.Prelude.{
  ℕ, ◌≡◌, refl, ap, ◌∙◌, Bool, true, ◌&&◌, Option, none, some, List, arith, ◌==◌, is_some,
}
use meno.Table.{update}
use meno.Table.Laws.{find-exists, find-update, find-update-none, map-select-update, find_passes}
use meno.Broadcast.{
  ParticipantRole, Broadcast, is_active, BroadcastParticipant, User, Store, not_participant, ok,
  err, Livekit, World, BroadcastSession,
}
use meno.Broadcast.Repository.{
  present, present_in, is_participation, find_by_id, is_cohost, find_participant,
  find_active_participant, get_participant_ids, rejoined, upsert_participant,
}
use meno.Broadcast.Access.{role_in, current_role, fresh_token, may_refresh}
use meno.Broadcast.Service.{join}
use meno.Broadcast.Cohosts.{refresh_token}
use meno.Broadcast.Sessions.{Admitted, may_join-Admitted, enter_cases}

module _ (b user now : ℕ) (role : ParticipantRole) (s : Store) (p : BroadcastParticipant) where
  abbrev back : List BroadcastParticipant
  back = update (is_participation b user) (rejoined role now) s.participants

  upsert_again :
      find_participant b user s ≡ some p
      → upsert_participant b user role now s ≡ record s { participants = back }
  unfolding upsert_participant find_participant
  upsert_again h = rw (find-exists (is_participation b user) s.participants) (rw h refl)

  row_again :
      find_participant b user s ≡ some p
      → (q : BroadcastParticipant) × (find_participant b user (record s { participants = back })
          ≡ some q)
        × (q.left_at ≡ p.left_at)
  unfolding find_participant
  row_again h =
      let hit = find_passes (is_participation b user) s.participants p h in
      (
        rejoined role now p,
        rw
            (find-update (is_participation b user) (rejoined role now) (is_participation b user)
              s.participants (λ r. refl) p h)
            (rw hit refl),
        refl,
      )

refused :
    (lk : Livekit) (b user : ℕ) (c : Bool) (o : Option BroadcastParticipant) (m : Option Broadcast)
    (who : Option User) (r : Broadcast) (t : ℕ) (p : BroadcastParticipant)
    → Admitted lk b user c o m who r t
    → is_some p.left_at ≡ true
    → may_refresh lk b user (some p) m who ≡ err not_participant
unfolding may_refresh is_active current_role fresh_token
refused lk b user c o m none r t p a h = absurd (let k = a.known in ground arith)
refused lk b user c o m (some u) r t p a h = rw a.live_row (rw a.live (rw a.guest (rw h refl)))

-- A user whose row in the broadcast says that he has left it, as the end of a broadcast writes into every
-- row, can join when the broadcast is live again. The join succeeds, but the row still says that he
-- has left: he is no active participant of any broadcast, the participants of this one are those it had, and
-- he cannot refresh his token.
pub rejoin_absent :
    (lk : Livekit) (now b user : ℕ) (w w' : World) (session : BroadcastSession)
    (p : BroadcastParticipant)
    → find_participant b user w.tables ≡ some p
    → is_some p.left_at ≡ true
    → join lk now b user w ≡ (ok session, w')
    → (find_active_participant user w'.tables ≡ none)
      × (get_participant_ids b w'.tables ≡ get_participant_ids b w.tables)
      × (refresh_token lk b user w' ≡ err not_participant)
unfolding join refresh_token find_by_id find_active_participant get_participant_ids
rejoin_absent lk now b user w w' session p h left e =
    let c = is_cohost b user w.tables in
    let (r, passed, role, t) = enter_cases now b user c w w' _ session e in
    let a = may_join-Admitted lk b user c _ _ _ r session.token passed in
    let stored = t ∙ upsert_again b user now (role_in c) w.tables p h in
    let (q, row, same) = row_again b user now (role_in c) w.tables p h in
    (
      rw stored (
          find-update-none (is_participation b user) (rejoined (role_in c) now)
            (λ r. r.participant_id == user && present r) w.tables.participants (λ r. refl) a.free),
      rw stored (
          map-select-update (is_participation b user) (rejoined (role_in c) now) (present_in b)
            (λ r. r.participant_id) w.tables.participants (λ r. refl) (λ r. refl)),
      rw stored (rw row (refused lk b user c _ _ _ r session.token q a (ap is_some same ∙ left))),
    )
