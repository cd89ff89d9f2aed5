-- ===== src/Broadcast/Examples.antt =====
-- Concrete broadcasts, and the theorems about them at these.
use meno.Prelude.{ℕ, ◌+◌, ◌≡◌, refl, true, false, none, some, List, [], ◌∷◌, arith, ◌==◌, length}
use meno.Table.{find, exists}
use meno.Broadcast.{
  active, host, participant, normal, Broadcast, BroadcastParticipant, User, not_participant,
  not_live, ok, err, Livekit, LivekitRole, livekit_role, World, Reply, BroadcastSession,
  EndBroadcastResponse,
}
use meno.Broadcast.Repository.{
  find_by_id, find_participant, find_active_participant, get_participant_ids, get_cohosts,
  new_participant,
}
use meno.Broadcast.Access.{with_token}
use meno.Broadcast.Service.{end, join, leave}
use meno.Broadcast.Cohosts.{refresh_token}
use meno.Broadcast.Sessions.{join_lasts}
use meno.Broadcast.Rejoin.{rejoin_absent}
use meno.Broadcast.Ending.{end_closes}
use meno.Broadcast.Requests.{ends, adds_cohost, removes_cohost, Request, step, run}
use meno.Broadcast.Authority.{creator_only}
use meno.Broadcast.CohostLimit.{Within, run-Within}
use meno.Broadcast.Cache.{Redis, get_live_count}
use meno.Broadcast.Counts.{Step, starts, joins, leaves, ends, kept, tally, run_counts}
use meno.Broadcast.Counts

abbrev server : Livekit
server = record {
  create_room = λ b. true;
  mint_token = λ u b l. some (u + 100);
  mint_token_with_attributes = λ u b l a. some (u + 200);
}

-- What LiveKit answers later.
abbrev server_later : Livekit
server_later = record server { mint_token_with_attributes = λ u b l a. some (u + 300) }

abbrev user : ℕ → User
user u = record { id = u; full_name = u ∷ []; deleted_at = none }

abbrev stream : Broadcast
stream = record {
  id = 5;
  title = 7 ∷ [];
  image_url = none;
  status = active;
  creator_id = 1;
  broadcast_token = some 101;
  start_time = some 2;
  end_time = none;
  recording_enabled = false;
  end_reason = normal;
  deleted_at = none;
}

-- User 3 took part when the broadcast was live before.
abbrev left_row : BroadcastParticipant
left_row = record (new_participant 5 3 participant 1) { left_at = some 1 }

abbrev world : World
world = record {
  tables = record {
    broadcasts = stream ∷ [];
    participants = left_row ∷ new_participant 5 1 host 2 ∷ [];
    cohosts = [];
    users = user 1 ∷ user 2 ∷ user 3 ∷ [];
  };
  calls = [];
}

abbrev no_session : BroadcastSession
no_session = record {
  broadcast = stream;
  creator = user 0;
  cohosts = [];
  role = host;
  total_count = 0;
  token = 0;
}

abbrev session_of : Reply BroadcastSession → BroadcastSession
session_of (ok s, w) = s
session_of (err e, w) = no_session

abbrev session_2 : BroadcastSession
session_2 = session_of (join server 10 5 2 world)

abbrev world_2 : World
world_2 = (join server 10 5 2 world).1

join_2 : join server 10 5 2 world ≡ (ok session_2, world_2)
unfolding join find exists
join_2 = refl

join_lasts_example :
    (find_active_participant 2 world_2.tables ≡ some (new_participant 5 2 session_2.role 10))
    × ((l : LivekitRole)
        → livekit_role session_2.role ≡ ok l
        → refresh_token server_later 5 2 world_2
          ≡ with_token (server_later.mint_token_with_attributes 2 5 l (session_2.role, 5)) (λ t. t))
    × ((leave 20 5 2 world_2).1.tables ≡ world.tables)
unfolding find_participant find
join_lasts_example = join_lasts server server_later 10 20 5 2 world world_2 session_2 refl join_2

abbrev session_3 : BroadcastSession
session_3 = session_of (join server 10 5 3 world)

abbrev world_3 : World
world_3 = (join server 10 5 3 world).1

join_3 : join server 10 5 3 world ≡ (ok session_3, world_3)
unfolding join find exists
join_3 = refl

rejoin_absent_example :
    (find_active_participant 3 world_3.tables ≡ none)
    × (get_participant_ids 5 world_3.tables ≡ get_participant_ids 5 world.tables)
    × (refresh_token server 5 3 world_3 ≡ err not_participant)
unfolding find_participant find
rejoin_absent_example =
    rejoin_absent server 10 5 3 world world_3 session_3 left_row refl refl join_3

abbrev no_answer : EndBroadcastResponse
no_answer = record {
  broadcast_id = 0;
  broadcast_title = [];
  broadcast_image_url = none;
  creator_id = 0;
  ended_reason = normal;
  ended_at = 0;
  duration_secs = 0;
  total_participants = 0;
  recording_enabled = false;
}

abbrev answer_of : Reply EndBroadcastResponse → EndBroadcastResponse
answer_of (ok a, w) = a
answer_of (err e, w) = no_answer

abbrev answer : EndBroadcastResponse
answer = answer_of (end 30 5 1 world)

abbrev over : World
over = (end 30 5 1 world).1

end_1 : end 30 5 1 world ≡ (ok answer, over)
unfolding end find
end_1 = refl

end_closes_example :
    (answer.total_participants ≡ length (get_participant_ids 5 world.tables))
    × (get_participant_ids 5 over.tables ≡ [])
    × ((c : ℕ)
        → (c == 5) ≡ false
        → get_participant_ids c over.tables ≡ get_participant_ids c world.tables)
    × (end 40 5 1 over ≡ (err not_live, over))
end_closes_example = end_closes 30 40 5 1 world over answer end_1

creator_only_example : step server 10 (ends 5 2) world ≡ world
unfolding find_by_id find
creator_only_example = creator_only server 10 (ends 5 2) world stream refl refl refl

no_cohosts : Within world.tables
unfolding get_cohosts
no_cohosts b = omega arith

abbrev evening : List (ℕ × Request)
evening =
    (10, adds_cohost 5 1 2)
    ∷ (11, adds_cohost 5 1 3)
    ∷ (12, removes_cohost 5 1 2 false)
    ∷ (13, ends 5 1)
    ∷ []

run-Within_example : Within (run server evening world).tables
run-Within_example = run-Within server evening world no_cohosts

abbrev visits : List Step
visits = starts 5 ∷ joins 5 ∷ starts 6 ∷ leaves 5 ∷ leaves 5 ∷ joins 5 ∷ ends 6 ∷ []

abbrev nobody : Redis
nobody = record { live_count = []; host_grace = []; started_at = [] }

run_counts_example :
    get_live_count 5 (meno.Broadcast.Counts.run visits nobody) ≡ kept (tally 5 visits 0)
unfolding get_live_count kept
run_counts_example = run_counts 5 0 visits nobody (omega arith) refl
