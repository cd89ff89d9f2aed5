-- ===== src/Ws/Examples.antt =====
-- Runs of the hub.
use meno.Prelude.{
  ℕ, ◌-◌, ◌≡◌, refl, true, false, ◌&&◌, Option, none, some, List, [], ◌∷◌, arith, leb, ◌==◌,
  if◌then◌else◌, length, drop,
}
use meno.Prelude.Maps.{get, has}
use meno.Ws.{WsPayload, heartbeat, notification, ended_broadcast}
use meno.Ws.Events.{event_of, event_name, event_names}
use meno.Ws.Hub.{
  Hub, new_hub, join_room, leave_room, drain_message_buffer, room_envelope, is_online, send_to_room,
}
use meno.Ws.Hub.Tidy.{Step, registers, joins, delivers, Tidy, run, run-Tidy}
use meno.Ws.Hub.Buffer.{send_each, replay}
use meno.Ws.Hub.Rooms.{in_room, join-leave}
use meno.Ws.Socket.{timed_out, other_frame, new_loop, run_read_loop, close_socket}
use meno.Ws.Socket.Quiet.{quiet, timeouts, quiet_client, received, second_connection}
use meno.Ws.Socket.Grace.{Grace}

event_names_example :
    (event_of (event_name heartbeat) ≡ some heartbeat)
    × (event_of (49 ∷ []) ≡ some heartbeat → event_name heartbeat ≡ 49 ∷ [])
event_names_example = event_names heartbeat (49 ∷ [])

abbrev payload : ℕ → WsPayload
payload n = record { event = notification; data_text = n ∷ [] }

abbrev ended : WsPayload
ended = record { event = ended_broadcast; data_text = [] }

abbrev steps : List Step
steps = registers 1 ∷ registers 1 ∷ joins 1 7 ∷ delivers (room_envelope 7 ended) ∷ []

new_hub-Tidy : Tidy new_hub
new_hub-Tidy = (tt, (tt, (tt, refl)))

run-Tidy_example : Tidy (run steps new_hub)
run-Tidy_example = run-Tidy steps new_hub new_hub-Tidy

replay_example :
    (drain_message_buffer 5 (send_each 5 (payload 1 ∷ payload 2 ∷ []) new_hub)).0
    ≡ drop (length (payload 1 ∷ payload 2 ∷ []) - 51) (payload 1 ∷ payload 2 ∷ [])
unfolding get
replay_example = replay 5 (payload 1 ∷ payload 2 ∷ []) new_hub refl refl

abbrev hub : Hub
hub = record {
  clients = (1, 10 ∷ 11 ∷ []) ∷ [];
  rooms = (7, 1 ∷ []) ∷ [];
  conn_seq = 12;
  buffers = [];
  members = (7, 1 ∷ []) ∷ [];
  channels = [];
  sent = [];
}

join-leave_example :
    (in_room 7 1 (join_room 2 7 hub) ≡ (if (7 == 7) && (2 == 1) then true else in_room 7 1 hub))
    × (in_room 7 1 (leave_room 2 7 hub) ≡ (if (7 == 7) && (2 == 1) then false else in_room 7 1 hub))
join-leave_example = join-leave 2 7 hub 7 1

second_connection_example :
    let closed = close_socket 1 10 (some 7) hub in
    (is_online 1 closed ≡ true)
    × (in_room 7 1 closed ≡ false)
    × (received 11 (send_to_room 7 ended closed) ≡ received 11 closed)
unfolding get has
second_connection_example = second_connection 1 7 10 11 ended hub refl refl (λ v k. ground arith)

quiet_client_example :
    (run_read_loop 2 (timed_out ∷ other_frame ∷ timed_out ∷ []) new_loop).0
    ≡ (if leb 2 (timeouts (timed_out ∷ other_frame ∷ timed_out ∷ [])) then some true else none)
unfolding quiet
quiet_client_example =
    quiet_client 2 (timed_out ∷ other_frame ∷ timed_out ∷ []) (omega arith)
      (refl, (refl, (refl, tt)))

abbrev hosts : ℕ → Option ℕ
hosts u = if u == 1 then some 7 else none

abbrev no_grace : Grace
no_grace = record { disconnect_count = []; host_grace = []; grace_started = []; signals = [] }

abbrev lost_twice : List (ℕ × ℕ)
lost_twice = (50, 60) ∷ (70, 200) ∷ []
