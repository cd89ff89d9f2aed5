-- ===== src/Broadcast/Ending.antt =====
-- What `end` leaves behind.
use meno.Prelude.{
  ℕ, ◌≡◌, refl, sym, ap, true, false, not, ◌&&◌, Option, none, some, [], map, arith, ◌==◌, is_some,
  length,
}
use meno.Table.Laws.{find-update, find_passes, select-update, select-update_gone}
use meno.Broadcast.{
  normal, Broadcast, is_active, BroadcastParticipant, Store, not_live, Result, ok, err, World,
  EndBroadcastResponse, Reply,
}
use meno.Broadcast.Repository.{
  is_broadcast, present_in, find_by_id, get_participant_ids, deactivated, set_inactive,
  clear_participants,
}
use meno.Broadcast.Access.{may_end}
use meno.Broadcast.Service.{close, end}

-- What the checks of `end` have found when they pass.
record Ended (user : ℕ) (row : Option Broadcast) (r : Broadcast) : Type 0 where
  live_row : row ≡ some r
  own : (r.creator_id == user) ≡ true
  live : is_active r ≡ true

may_end-Ended :
    (user : ℕ) (row : Option Broadcast) (r : Broadcast) → may_end user row ≡ ok r → Ended user row r
unfolding may_end is_active
may_end-Ended user none r h = ground arith
may_end-Ended user (some x) r h = record {
  live_row = ground arith;
  own = ground arith;
  live = ground arith;
}

close_cases :
    (now b : ℕ) (w w' : World) (x : Result Broadcast) (answer : EndBroadcastResponse)
    → close now b w x ≡ (ok answer, w')
    → (r : Broadcast) × (x ≡ ok r)
      × (answer.total_participants ≡ length (get_participant_ids b w.tables))
      × (w'.tables ≡ set_inactive now b normal (clear_participants now b w.tables))
unfolding close
close_cases now b w w' (err e) answer h =
    ground (arith, ap (λ (p : Reply EndBroadcastResponse). p.0) h)
close_cases now b w w' (ok r) answer h = (
  r,
  refl,
  ground (arith, ap (λ (p : Reply EndBroadcastResponse). p.0) h),
  ap (λ p. p.1.tables) (sym h),
)

module _ (now b : ℕ) (s : Store) where
  abbrev ended : Store
  ended = set_inactive now b normal (clear_participants now b s)

  nobody_left : get_participant_ids b ended ≡ []
  unfolding get_participant_ids set_inactive clear_participants
  nobody_left = ap (map (λ (r : BroadcastParticipant). r.participant_id)) (
      select-update_gone (present_in b) (λ r. record r { left_at = some now }) s.participants
        (λ r h. ground arith))

  others_stay : (c : ℕ) → (c == b) ≡ false → get_participant_ids c ended ≡ get_participant_ids c s
  unfolding get_participant_ids set_inactive clear_participants
  others_stay c h = ap (map (λ (r : BroadcastParticipant). r.participant_id)) (
      select-update (present_in b) (λ r. record r { left_at = some now }) (present_in c)
        s.participants (λ r k. (ground arith, ground arith)))

  row_after :
      (r : Broadcast)
      → find_by_id b s ≡ some r
      → find_by_id b ended ≡ some (deactivated now normal r)
  unfolding find_by_id set_inactive clear_participants
  row_after r h =
      let p = λ (r : Broadcast). is_broadcast b r && not (is_some r.deleted_at) in
      let hit : is_broadcast b r ≡ true =
        let q : p r ≡ true = find_passes p s.broadcasts r h in ground arith in
      rw (find-update (is_broadcast b) (deactivated now normal) p s.broadcasts (λ r. refl) r h)
        (rw hit refl)

end_again :
    (later b user now : ℕ) (row : Option Broadcast) (r : Broadcast) (w : World)
    → Ended user row r
    → close later b w (may_end user (some (deactivated now normal r))) ≡ (err not_live, w)
unfolding close may_end is_active
end_again later b user now row r w h = rw h.own refl

-- An `end` that succeeds answers with the number of active participants, and after it the broadcast
-- has none; the active participants of every other broadcast are those they were; and the same
-- user's next `end` is refused, since the broadcast is not live, and changes nothing.
pub end_closes :
    (now later b user : ℕ) (w w' : World) (answer : EndBroadcastResponse)
    → end now b user w ≡ (ok answer, w')
    → (answer.total_participants ≡ length (get_participant_ids b w.tables))
      × (get_participant_ids b w'.tables ≡ [])
      × ((c : ℕ)
          → (c == b) ≡ false
          → get_participant_ids c w'.tables ≡ get_participant_ids c w.tables)
      × (end later b user w' ≡ (err not_live, w'))
unfolding end
end_closes now later b user w w' answer e =
    let (r, passed, count, stored) = close_cases now b w w' _ answer e in
    let found = may_end-Ended user _ r passed in
    let after : find_by_id b w'.tables ≡ some (deactivated now normal r) =
      rw stored (row_after now b w.tables r found.live_row) in
    (
      count,
      rw stored (nobody_left now b w.tables),
      (λ c h. rw stored (others_stay now b w.tables c h)),
      rw after (end_again later b user now _ r w' found),
    )
