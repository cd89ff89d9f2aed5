-- ===== src/Broadcast/CohostLimit.antt =====
-- `MAX_COHOSTS`: no broadcast gets a fourth cohost while it is live.
use meno.Prelude.{
  ℕ, suc, ◌≤◌, ◌≡◌, refl, ap, inl, inr, Bool, true, false, Option, none, some, List, [], ◌∷◌, arith,
  ◌==◌, Bool-cases, Option-cases, length,
}
use mathlib.Core.Path.{subst}
use meno.Table
use meno.Table.{exists}
use meno.Broadcast.{
  Broadcast, User, BroadcastCohost, BroadcastParticipant, ParticipantRole, host, cohost,
  participant, as_participant, Store, Result, ok, err, Livekit, World, max_cohosts,
}
use meno.Broadcast.Repository.{
  is_cohosting, find_by_id, find_user_summary, is_cohost, cohost_users, get_cohosts,
  delete_broadcast, set_active, set_inactive, upsert_participant, remove_participant,
  clear_participants, add_cohosts, remove_cohost,
}
use meno.Broadcast.Access.{role_in, may_add_cohost}
use meno.Broadcast.Service.{
  erase, delete, begin, start, go_live, close, end, enter, join, depart, leave,
}
use meno.Broadcast.Cohosts.{invite, add_cohost, demote, demoted, dismiss, remove_cohost_of}
use meno.Broadcast.Requests.{
  Request, deletes, starts, ends, joins, leaves, adds_cohost, removes_cohost, step, run,
}

abbrev pub Within : Store → Type 0
Within s = (b : ℕ) → length (get_cohosts b s) ≤ max_cohosts

-- The users and the cohosts of the tables.
abbrev roster : Store → List User × List BroadcastCohost
roster s = (s.users, s.cohosts)

same_roster : (s t : Store) → roster t ≡ roster s → Within s → Within t
unfolding get_cohosts
same_roster s t h v b = rw (ap (λ r. r.0) h) (rw (ap (λ r. r.1) h) (v b))

upsert-roster :
    (b u : ℕ) (role : ParticipantRole) (at : ℕ) (s : Store)
    → roster (upsert_participant b u role at s) ≡ roster s
unfolding upsert_participant
upsert-roster b u role at s = ground arith

fewer :
    (b c u : ℕ) (users : List User) (cs : List BroadcastCohost)
    → length (cohost_users b users (meno.Table.delete (is_cohosting c u) cs))
      ≤ length (cohost_users b users cs)
unfolding cohost_users meno.Table.delete
fewer b c u users [] = ground arith
fewer b c u users (x ∷ cs) = elim (Option-cases (find_user_summary x.cohost_id users)) [
  | inl h ↦ ground (arith, fewer b c u users cs)
  | inr (_, h) ↦ ground (arith, fewer b c u users cs)
]

one_more :
    (c : ℕ) (users : List User) (x : BroadcastCohost) (cs : List BroadcastCohost)
    → (length (cohost_users c users (x ∷ cs)) ≤ suc (length (cohost_users c users cs)))
      × ((x.broadcast_id == c) ≡ false → cohost_users c users (x ∷ cs) ≡ cohost_users c users cs)
unfolding cohost_users
one_more c users x cs = (ground arith, λ h. rw h refl)

add_one :
    (b now u inviter c : ℕ) (s : Store)
    → (length (get_cohosts c (add_cohosts now b u inviter s)) ≤ suc (length (get_cohosts c s)))
      × ((b == c) ≡ false
          → length (get_cohosts c (add_cohosts now b u inviter s)) ≤ length (get_cohosts c s))
unfolding get_cohosts add_cohosts
add_one b now u inviter c s = elim (Bool-cases (exists (is_cohosting b u) s.cohosts)) [
  | inl h ↦ (rw h (omega arith), λ k. rw h (omega arith))
  | inr h ↦
      let more =
        one_more c s.users
          (record {
            broadcast_id = b;
            cohost_id = u;
            invited_by = inviter;
            invited_at = now;
            removed_at = none;
          })
          s.cohosts in
      (rw h more.0, λ k. rw h (rw (more.1 k) (omega arith)))
]

below :
    (lk : Livekit) (b requester u : ℕ) (already : Bool) (cohosts : List User) (o : Option Broadcast)
    (n : Option User) (x : User × ℕ)
    → may_add_cohost lk b requester u already cohosts o n ≡ ok x
    → (length cohosts == max_cohosts) ≡ false
unfolding may_add_cohost
below lk b requester u true cohosts o n x h = ground arith
below lk b requester u false cohosts none n x h = ground arith
below lk b requester u false cohosts (some r) none x h = ground arith
below lk b requester u false cohosts (some r) (some v) x h = ground arith

below_limit : (n m : ℕ) → n ≤ suc m → m ≤ max_cohosts → (m == max_cohosts) ≡ false → n ≤ max_cohosts
below_limit n m a b h = ground arith

-- The operations that make no cohost keep the limit.
module _ (now b u : ℕ) (w : World) (v : Within w.tables) where
  close-Within : (x : Result Broadcast) → Within (close now b w x).1.tables
  unfolding close set_inactive clear_participants
  close-Within (err e) = v
  close-Within (ok r) = same_roster w.tables _ refl v

  enter-Within : (c : Bool) (x : Result (Broadcast × ℕ)) → Within (enter now b u c w x).1.tables
  unfolding enter
  enter-Within c (err e) = v
  enter-Within c (ok (r, t)) =
      same_roster w.tables (upsert_participant b u (role_in c) now w.tables)
        (upsert-roster b u _ now w.tables) v

  depart-Within :
      (x : Result (Broadcast × BroadcastParticipant)) → Within (depart now b u w x).1.tables
  unfolding depart remove_participant
  depart-Within (err e) = v
  depart-Within (ok (r, p)) = same_roster w.tables _ (ground arith) v

  erase-Within : (x : Result (Option Broadcast)) → Within (erase now b w x).1.tables
  unfolding erase delete_broadcast
  erase-Within (err e) = v
  erase-Within (ok none) = v
  erase-Within (ok (some r)) = same_roster w.tables _ refl v

  go_live-Within :
      (x : User) (made : Bool) (t : Option ℕ) → Within (go_live now b w x made t).1.tables
  unfolding go_live set_active
  go_live-Within x false t = v
  go_live-Within x true none = v
  go_live-Within x true (some t) =
      let s = set_active now b t w.tables in
      same_roster w.tables (upsert_participant b x.id host now s) (upsert-roster b x.id host now s)
        v

  begin-Within : (lk : Livekit) (x : Result User) → Within (begin lk now b w x).1.tables
  unfolding begin
  begin-Within lk (err e) = v
  begin-Within lk (ok x) = go_live-Within x _ _

  removed-Within : Within (remove_cohost b u w.tables)
  unfolding remove_cohost get_cohosts
  removed-Within c = omega (arith, v c, fewer c b u w.tables.users w.tables.cohosts)

  kept : Within (demote now b u w).tables
  unfolding demote
  kept =
      let s = remove_cohost b u w.tables in
      same_roster s (upsert_participant b u participant now s) (upsert-roster b u participant now s)
        removed-Within

  added-Within :
      (by : ℕ)
      → (length (get_cohosts b w.tables) == max_cohosts) ≡ false
      → Within (add_cohosts now b u by w.tables)
  added-Within by h c = elim (Bool-cases (b == c)) [
    | inl e ↦
        let same : b ≡ c = ground arith in
        let room = subst (λ b. (length (get_cohosts b w.tables) == max_cohosts) ≡ false) same h in
        below_limit _ _ (add_one b now u by c w.tables).0 (v c) room
    | inr e ↦ omega (arith, (add_one b now u by c w.tables).1 e, v c)
  ]

  demoted-Within : (t : Option ℕ) → Within (demoted b u (demote now b u w) t).1.tables
  unfolding demoted demote
  demoted-Within none = kept
  demoted-Within (some t) = kept

  dismiss-Within :
      (lk : Livekit) (out : Bool) (x : Result (Option User))
      → Within (dismiss lk now b u out w x).1.tables
  unfolding dismiss remove_participant
  dismiss-Within lk out (err e) = v
  dismiss-Within lk out (ok none) = v
  dismiss-Within lk true (ok (some x)) =
      same_roster (remove_cohost b u w.tables) _ refl removed-Within
  dismiss-Within lk false (ok (some x)) = demoted-Within (lk.mint_token x.id b as_participant)

  invite-Within :
      (by : ℕ) (x : Result (User × ℕ))
      → ((a : User × ℕ) → x ≡ ok a → (length (get_cohosts b w.tables) == max_cohosts) ≡ false)
      → Within (invite now b by u w x).1.tables
  unfolding invite
  invite-Within by (err e) h = v
  invite-Within by (ok a) h =
      let s = add_cohosts now b u by w.tables in
      same_roster s (upsert_participant b u cohost now s) (upsert-roster b u cohost now s)
        (added-Within by (h a refl))

step-Within :
    (lk : Livekit) (now : ℕ) (q : Request) (w : World)
    → Within w.tables
    → Within (step lk now q w).tables
unfolding step delete start end join leave add_cohost remove_cohost_of
step-Within lk now (deletes b u) w v = erase-Within now b u w v _
step-Within lk now (starts b u) w v = begin-Within now b u w v lk _
step-Within lk now (ends b u) w v = close-Within now b u w v _
step-Within lk now (joins b u) w v = enter-Within now b u w v _ _
step-Within lk now (leaves b u) w v = depart-Within now b u w v _
step-Within lk now (adds_cohost b u c) w v = invite-Within now b c w v u _ (
    below lk b u c (is_cohost b c w.tables) (get_cohosts b w.tables) (find_by_id b w.tables)
      (find_user_summary c w.tables.users))
step-Within lk now (removes_cohost b u c out) w v = dismiss-Within now b c w v lk out _

-- The limit holds after any requests, in any order, if it held before them: no broadcast has more
-- than three cohosts among the users that are not deleted.
pub run-Within :
    (lk : Livekit) (qs : List (ℕ × Request)) (w : World)
    → Within w.tables
    → Within (run lk qs w).tables
unfolding run
run-Within lk [] w v = v
run-Within lk ((now, q) ∷ qs) w v = run-Within lk qs (step lk now q w) (step-Within lk now q w v)
