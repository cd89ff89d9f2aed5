-- ===== src/Chat/Examples.antt =====
-- A request to edit a message, run.
use meno.Prelude.{ℕ, ◌≡◌, refl, false, none, some, [], ◌∷◌}
use meno.Broadcast.{Broadcast, BroadcastParticipant, User, active, normal, participant}
use meno.Chat.{ChatMessage, Store, edited_message}
use meno.Chat.Authors.{Request, edits, of_others, sender, served, only_sender}

abbrev stream : Broadcast
stream = record {
  id = 5;
  title = [];
  image_url = none;
  status = active;
  creator_id = 1;
  broadcast_token = none;
  start_time = some 2;
  end_time = none;
  recording_enabled = false;
  end_reason = normal;
  deleted_at = none;
}

abbrev user : ℕ → User
user u = record { id = u; full_name = u ∷ []; deleted_at = none }

abbrev seat : ℕ → BroadcastParticipant
seat u = record {
  broadcast_id = 5;
  participant_id = u;
  role = participant;
  joined_at = 3;
  left_at = none;
  last_listen_position_seconds = 0;
  last_listened_at = none;
}

abbrev message : ℕ → ℕ → ChatMessage
message id u = record {
  id = id;
  sender_id = u;
  broadcast_id = 5;
  content = id ∷ [];
  created_at = 10;
  updated_at = none;
  deleted_at = none;
}

abbrev room : Store
room = record {
  broadcasts = stream ∷ [];
  participants = seat 2 ∷ seat 3 ∷ [];
  users = user 1 ∷ user 2 ∷ user 3 ∷ [];
  messages = message 8 2 ∷ message 7 3 ∷ [];
  reactions = [];
  published = [];
}

abbrev correction : Request
correction = edits (record { broadcast_id = 5; message_id = 8; sender_id = 2; content = 9 ∷ [] })

only_sender_example : of_others 2 (served 20 9 correction room) ≡ of_others 2 room
unfolding sender
only_sender_example = only_sender 20 9 correction room

abbrev corrected : ChatMessage
corrected = record (message 8 2) { content = 9 ∷ []; updated_at = some 20 }

edited_run : served 20 9 correction room ≡ record room {
  messages = corrected ∷ message 7 3 ∷ [];
  published = (5, edited_message corrected) ∷ [];
}
unfolding served
edited_run = refl
