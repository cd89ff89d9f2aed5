-- ===== src/Broadcast/Sessions.antt =====
-- What a user who has joined a broadcast can do with it.
use meno.Prelude.{
  ℕ, ◌≡◌, refl, sym, ap, ◌∙◌, Bool, true, false, Option, none, some, ◌∷◌, arith, ◌==◌, is_some,
}
use meno.Table.{find, delete}
use meno.Table.Laws.{find-exists, delete-none}
use meno.Broadcast.{
  ParticipantRole, Broadcast, is_active, BroadcastParticipant, User, Store, Result, ok, err,
  LivekitRole, livekit_role, Livekit, World, BroadcastSession, Reply,
}
use meno.Broadcast.Repository.{
  is_participation, find_by_id, is_cohost, find_participant, find_active_participant,
  new_participant, upsert_participant, remove_participant,
}
use meno.Broadcast.Access.{
  with_token, role_in, livekit_role_in, may_join, may_leave, current_role, fresh_token, may_refresh,
}
use meno.Broadcast.Service.{joined, enter, join, depart, leave}
use meno.Broadcast.Cohosts.{refresh_token}

-- What the checks of `join` have found when they pass.
pub record Admitted (lk : Livekit) (b user : ℕ) (cohosting : Bool)
    (elsewhere : Option BroadcastParticipant) (row : Option Broadcast) (who : Option User)
    (r : Broadcast) (token : ℕ) : Type 0 where
  pub live_row : row ≡ some r
  pub known : is_some who ≡ true
  pub live : is_active r ≡ true
  pub guest : (r.creator_id == user) ≡ false
  pub free : elsewhere ≡ none
  pub signed : lk.mint_token user b (livekit_role_in cohosting) ≡ some token

pub may_join-Admitted :
    (lk : Livekit) (b user : ℕ) (c : Bool) (o : Option BroadcastParticipant) (m : Option Broadcast)
    (n : Option User) (r : Broadcast) (t : ℕ)
    → may_join lk b user c o m n ≡ ok (r, t)
    → Admitted lk b user c o m n r t
unfolding may_join is_active with_token
may_join-Admitted lk b user c o none n r t h = ground arith
may_join-Admitted lk b user c o (some r') none r t h = ground arith
may_join-Admitted lk b user c o (some r') (some u) r t h = record {
  live_row = ground arith;
  known = refl;
  live = ground arith;
  guest = ground arith;
  free = ground arith;
  signed = ground arith;
}

joined_session :
    (b : ℕ) (role : ParticipantRole) (r : Broadcast) (t : ℕ) (s : Store) (o : Option User)
    (session : BroadcastSession)
    → joined b role r t s o ≡ ok session
    → (session.role ≡ role) × (session.token ≡ t)
unfolding joined
joined_session b role r t s none session h = ground arith
joined_session b role r t s (some u) session h = ground arith

pub enter_cases :
    (now b user : ℕ) (c : Bool) (w w' : World) (x : Result (Broadcast × ℕ))
    (session : BroadcastSession)
    → enter now b user c w x ≡ (ok session, w')
    → (r : Broadcast) × (x ≡ ok (r, session.token))
      × (session.role ≡ role_in c)
      × (w'.tables ≡ upsert_participant b user (role_in c) now w.tables)
unfolding enter
enter_cases now b user c w w' (err e) session h =
    ground (arith, ap (λ (p : Reply BroadcastSession). p.0) h)
enter_cases now b user c w w' (ok (r, t)) session h =
    let (role, token) =
      joined_session b (role_in c) r t (upsert_participant b user (role_in c) now w.tables) _
        session (ap (λ p. p.0) h) in
    (r, ap (λ t. ok (r, t)) (sym token), role, ap (λ p. p.1.tables) (sym h))

signed_for :
    (lk : Livekit) (b user : ℕ) (role : ParticipantRole) (l : LivekitRole)
    → livekit_role role ≡ ok l
    → fresh_token lk b user (ok role)
      ≡ with_token (lk.mint_token_with_attributes user b l (role, b)) (λ t. t)
unfolding fresh_token
signed_for lk b user role l e = rw (e, fresh_token) refl

refreshed :
    (lk lk' : Livekit) (b user now : ℕ) (c : Bool) (o : Option BroadcastParticipant)
    (m : Option Broadcast) (who : Option User) (r : Broadcast) (t : ℕ) (l : LivekitRole)
    → Admitted lk b user c o m who r t
    → livekit_role (role_in c) ≡ ok l
    → may_refresh lk' b user (some (new_participant b user (role_in c) now)) m who
      ≡ with_token (lk'.mint_token_with_attributes user b l (role_in c, b)) (λ t. t)
unfolding may_refresh is_active current_role
refreshed lk lk' b user now c o m none r t l a e = absurd (let h = a.known in ground arith)
refreshed lk lk' b user now true o m (some u) r t l a e =
    rw a.live_row (rw a.live (rw a.guest (signed_for lk' b user (role_in true) l e)))
refreshed lk lk' b user now false o m (some u) r t l a e =
    rw a.live_row (rw a.live (rw a.guest (signed_for lk' b user (role_in false) l e)))

module _ (b user now : ℕ) (role : ParticipantRole) (s : Store) where
  upsert_fresh :
      find_participant b user s ≡ none
      → upsert_participant b user role now s
        ≡ record s { participants = new_participant b user role now ∷ s.participants }
  unfolding upsert_participant find_participant
  upsert_fresh h = rw (find-exists (is_participation b user) s.participants) (rw h refl)

  entered :
      find_participant b user
        (record s { participants = new_participant b user role now ∷ s.participants })
      ≡ some (new_participant b user role now)
  unfolding find_participant find
  entered = ground arith

  entered_active :
      find_active_participant user
        (record s { participants = new_participant b user role now ∷ s.participants })
      ≡ some (new_participant b user role now)
  unfolding find_active_participant find
  entered_active = ground arith

  removed :
      find_participant b user s ≡ none
      → remove_participant b user
          (record s { participants = new_participant b user role now ∷ s.participants })
        ≡ s
  unfolding remove_participant find_participant delete
  removed h = rw (delete-none (is_participation b user) s.participants h) (ground arith)

departed :
    (lk : Livekit) (now later b user : ℕ) (c : Bool) (o : Option BroadcastParticipant)
    (m : Option Broadcast) (who : Option User) (r : Broadcast) (t : ℕ) (w : World)
    → Admitted lk b user c o m who r t
    → (depart later b user w
        (may_leave (some (new_participant b user (role_in c) now)) m who)).1.tables
      ≡ remove_participant b user w.tables
unfolding depart may_leave is_active
departed lk now later b user c o m none r t w a = absurd (let h = a.known in ground arith)
departed lk now later b user c o m (some u) r t w a = rw a.live_row (let h = a.live in ground arith)

-- A user who joins a broadcast in which he has no row is a participant of it, with the role of the
-- session; when he asks for a fresh token, whatever LiveKit answers by then, he gets the one that it signs
-- for the role of the session and the broadcast; and when he leaves, at any time before another change of the tables,
-- they are as they were before he joined.
pub join_lasts :
    (lk lk' : Livekit) (now later b user : ℕ) (w w' : World) (session : BroadcastSession)
    → find_participant b user w.tables ≡ none
    → join lk now b user w ≡ (ok session, w')
    → (find_active_participant user w'.tables ≡ some (new_participant b user session.role now))
      × ((l : LivekitRole)
          → livekit_role session.role ≡ ok l
          → refresh_token lk' b user w'
            ≡ with_token (lk'.mint_token_with_attributes user b l (session.role, b)) (λ t. t))
      × ((leave later b user w').1.tables ≡ w.tables)
unfolding join refresh_token leave find_by_id
join_lasts lk lk' now later b user w w' session h e =
    let c = is_cohost b user w.tables in
    let (r, passed, role, t) = enter_cases now b user c w w' _ session e in
    let a = may_join-Admitted lk b user c _ _ _ r session.token passed in
    let s = record w.tables {
      participants = new_participant b user (role_in c) now ∷ w.tables.participants;
    } in
    let stored : w'.tables ≡ s = t ∙ upsert_fresh b user now (role_in c) w.tables h in
    let row : find_participant b user s ≡ some (new_participant b user (role_in c) now) =
      entered b user now (role_in c) w.tables in
    (
      rw stored (rw role (entered_active b user now (role_in c) w.tables)),
      λ l k. rw stored (
          rw role
            (rw row (refreshed lk lk' b user now c _ _ _ r session.token l a (rw role at k)))),
      rw stored (
          rw row (
            departed lk now later b user c _ _ _ r session.token
              (record { tables = s; calls = w'.calls }) a
            ∙ removed b user now (role_in c) w.tables h)),
    )
