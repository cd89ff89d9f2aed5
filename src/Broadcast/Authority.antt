-- ===== src/Broadcast/Authority.antt =====
-- Who may change a broadcast.
use meno.Prelude.{
  ℕ, ◌≡◌, refl, Bool, true, false, not, ◌&&◌, Option, none, some, List, arith, ◌==◌, is_some,
}
use meno.Table.Laws.{find_passes}
use meno.Broadcast.{Broadcast, is_active, User, Result, BroadcastError, ok, err, Livekit, World}
use meno.Broadcast.Repository.{is_broadcast, find_by_id, find_user_summary, is_cohost, get_cohosts}
use meno.Broadcast.Access.{may_delete, may_start, may_end, may_add_cohost, may_remove_cohost}
use meno.Broadcast.Service.{erase, delete, begin, start, close, end}
use meno.Broadcast.Cohosts.{invite, add_cohost, dismiss, remove_cohost_of}
use meno.Broadcast.Requests.{
  Request, deletes, starts, ends, joins, leaves, adds_cohost, removes_cohost, target, requester,
  for_creator, step,
}

-- Whether an operation has not passed its checks.
abbrev is_err : {A : Type 0} → Result A → Bool
is_err (ok _) = false
is_err (err _) = true

module _ (user : ℕ) (r : Broadcast) (h : (r.creator_id == user) ≡ false) where
  delete_refused :
      is_some r.deleted_at ≡ false → (o : Option User) → is_err (may_delete user (some r) o) ≡ true
  unfolding may_delete is_active
  delete_refused d none = refl
  delete_refused d (some u) = ground arith

  start_refused : (o : Option User) → is_err (may_start user (some r) o) ≡ true
  unfolding may_start is_active
  start_refused none = refl
  start_refused (some u) = ground arith

  end_refused : is_err (may_end user (some r)) ≡ true
  unfolding may_end
  end_refused = ground arith

  add_refused :
      (lk : Livekit) (b c : ℕ) (already : Bool) (cohosts : List User) (o : Option User)
      → is_err (may_add_cohost lk b user c already cohosts (some r) o) ≡ true
  unfolding may_add_cohost is_active
  add_refused lk b c true cohosts o = refl
  add_refused lk b c false cohosts none = refl
  add_refused lk b c false cohosts (some u) = ground arith

  remove_refused :
      (cohosting : Bool) (o : Option User)
      → is_err (may_remove_cohost user cohosting (some r) o) ≡ true
  unfolding may_remove_cohost is_active
  remove_refused c none = refl
  remove_refused c (some u) = ground arith

the_error : {A : Type 0} → (x : Result A) → is_err x ≡ true → (e : BroadcastError) × (x ≡ err e)
the_error (ok a) h = ground arith
the_error (err e) h = (e, refl)

listed :
    (b : ℕ) (w : World) (r : Broadcast)
    → find_by_id b w.tables ≡ some r
    → is_some r.deleted_at ≡ false
unfolding find_by_id
listed b w r h =
    let p = λ (r : Broadcast). is_broadcast b r && not (is_some r.deleted_at) in
    let q : p r ≡ true = find_passes p w.tables.broadcasts r h in ground arith

-- To start, end or delete a broadcast, or to add or remove a cohost, is for its creator alone: the
-- request of any other user changes no table and makes no call of another service.
pub creator_only :
    (lk : Livekit) (now : ℕ) (q : Request) (w : World) (r : Broadcast)
    → find_by_id (target q) w.tables ≡ some r
    → for_creator q ≡ true
    → (r.creator_id == requester q) ≡ false
    → step lk now q w ≡ w
unfolding step delete erase start begin end close add_cohost invite remove_cohost_of dismiss
creator_only lk now (deletes b u) w r h k n =
    rw (h, step)
      (rw
        (the_error _ (delete_refused u r n (listed b w r h) (find_user_summary u w.tables.users))).1
        refl)
creator_only lk now (starts b u) w r h k n =
    rw (h, step)
      (rw (the_error _ (start_refused u r n (find_user_summary u w.tables.users))).1 refl)
creator_only lk now (ends b u) w r h k n =
    rw (h, step) (rw (the_error _ (end_refused u r n)).1 refl)
creator_only lk now (joins b u) w r h k n = ground arith
creator_only lk now (leaves b u) w r h k n = ground arith
creator_only lk now (adds_cohost b u c) w r h k n =
    rw (h, step)
      (rw
        (the_error _ (
          add_refused u r n lk b c (is_cohost b c w.tables) (get_cohosts b w.tables)
            (find_user_summary c w.tables.users))).1
        refl)
creator_only lk now (removes_cohost b u c out) w r h k n =
    rw (h, step)
      (rw
        (the_error _
          (remove_refused u r n (is_cohost b c w.tables) (find_user_summary c w.tables.users))).1
        refl)
