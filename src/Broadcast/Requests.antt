-- ===== src/Broadcast/Requests.antt =====
-- Sequences of requests to the operations on live broadcasts.
use meno.Prelude.{ℕ, Bool, true, false, List, [], ◌∷◌}
use meno.Broadcast.{Livekit, World}
use meno.Broadcast.Service.{delete, start, end, join, leave}
use meno.Broadcast.Cohosts.{add_cohost, remove_cohost_of}

-- Each with the broadcast and the user who asks; then the cohost, and whether he leaves the room.
pub data Request : Type 0 where
  deletes starts ends joins leaves : ℕ → ℕ → Request
  adds_cohost : ℕ → ℕ → ℕ → Request
  removes_cohost : ℕ → ℕ → ℕ → Bool → Request

abbrev pub target : Request → ℕ
target (deletes b u) = b
target (starts b u) = b
target (ends b u) = b
target (joins b u) = b
target (leaves b u) = b
target (adds_cohost b u c) = b
target (removes_cohost b u c out) = b

abbrev pub requester : Request → ℕ
requester (deletes b u) = u
requester (starts b u) = u
requester (ends b u) = u
requester (joins b u) = u
requester (leaves b u) = u
requester (adds_cohost b u c) = u
requester (removes_cohost b u c out) = u

abbrev pub for_creator : Request → Bool
for_creator (joins b u) = false
for_creator (leaves b u) = false
for_creator _ = true

unfoldable pub step : Livekit → ℕ → Request → World → World
unfolding delete start end join leave add_cohost remove_cohost_of
step lk now (deletes b u) w = (delete now b u w).1
step lk now (starts b u) w = (start lk now b u w).1
step lk now (ends b u) w = (end now b u w).1
step lk now (joins b u) w = (join lk now b u w).1
step lk now (leaves b u) w = (leave now b u w).1
step lk now (adds_cohost b u c) w = (add_cohost lk now b u c w).1
step lk now (removes_cohost b u c out) w = (remove_cohost_of lk now b c u out w).1

-- Requests one after the other, each with its instant.
unfoldable pub run : Livekit → List (ℕ × Request) → World → World
unfolding step
run lk [] w = w
run lk ((now, q) ∷ qs) w = run lk qs (step lk now q w)
