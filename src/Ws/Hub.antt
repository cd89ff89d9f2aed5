-- ===== src/Ws/Hub.antt =====
-- `WsService` of apps/api/src/shared/services/ws/mod.rs with the rooms of `WsPubSubBridge` in pubsub.rs, on
-- one instance. A connection is its `conn_id`. `sent` has what is sent to connections, the latest first: a channel
-- whose receiver is gone is written to all the same. `members` and `buffers` are the sets and lists in redis,
-- which answers every command and keeps what it has: nothing expires. `channels` are the rooms subscribed to by name;
-- the instance also receives every room by a pattern.
pub mod Tidy
pub mod Buffer
pub mod Rooms
use meno.Prelude.{
  ℕ, zero, suc, ◌+◌, ◌-◌, ◌*◌, ◌/◌, ◌%◌, ◌^◌, ◌≤◌, ◌<◌, ◌≡◌, refl, sym, ap, ◌∙◌, ◌≢◌, ◌↔◌, ◌⊎◌, inl,
  inr, Bool, true, false, not, ◌&&◌, ◌||◌, Option, none, some, List, [], ◌∷◌, ◌++◌, map, arith, ltb,
  leb, ◌==◌, if◌then◌else◌, ltb→lt, lt→ltb, leb→le, ==_iff, ==_self, tests, Bool-cases,
  Option-cases, is_some, unwrap_or, or_else, length, take, drop, last, replicate, All,
  length-append, take-append-drop, length-take, take_all, All-append, All-map_iff, length-map,
}
use meno.Prelude.Maps.{Map, get, put, erase, has, insert, without, is_empty}
use meno.Ws.{WsEvent, WsPayload, ends_room}

pub record Hub : Type 0 where
  pub clients : Map (List ℕ)
  pub rooms : Map (List ℕ)
  pub conn_seq : ℕ
  pub buffers : Map (List WsPayload)
  pub members : Map (List ℕ)
  pub channels : List ℕ
  pub sent : List (ℕ × WsPayload)

abbrev pub max_ws_connections_per_user : ℕ
max_ws_connections_per_user = 5

abbrev pub message_buffer_size : ℕ
message_buffer_size = 50

-- `WsService::new`
abbrev pub new_hub : Hub
new_hub = record {
  clients = [];
  rooms = [];
  conn_seq = 0;
  buffers = [];
  members = [];
  channels = [];
  sent = [];
}

unfoldable pub register : ℕ → Hub → Option ℕ × Hub
unfolding get put
register u h =
    let conns = unwrap_or (get u h.clients) [] in
    if leb max_ws_connections_per_user (length conns)
    then (none, record h { clients = put u conns h.clients })
    else (
      some h.conn_seq,
      record h {
        clients = put u (conns ++ h.conn_seq ∷ []) h.clients;
        conn_seq = (h.conn_seq + 1) % 2 ^ 64;
      },
    )

unfoldable pub unregister : ℕ → ℕ → Hub → Hub
unfolding get put erase without is_empty
unregister u conn h = elim (get u h.clients) [
  | none ↦ h
  | some conns ↦
      let rest = without conn conns in
      if is_empty rest
      then record h { clients = erase u h.clients }
      else record h { clients = put u rest h.clients }
]

-- `add_local_room_member`
unfoldable pub add_local_room_member : ℕ → ℕ → Hub → Bool × Hub
unfolding get put insert is_empty
add_local_room_member b u h =
    let room = unwrap_or (get b h.rooms) [] in
    (is_empty room, record h { rooms = put b (insert u room) h.rooms })

-- `remove_local_room_member`
unfoldable pub remove_local_room_member : ℕ → ℕ → Hub → Bool × Hub
unfolding get put erase without is_empty
remove_local_room_member b u h = elim (get b h.rooms) [
  | none ↦ (false, h)
  | some room ↦
      let rest = without u room in
      if is_empty rest
      then (true, record h { rooms = erase b h.rooms })
      else (false, record h { rooms = put b rest h.rooms })
]

-- `clear_local_room`
unfoldable pub clear_local_room : ℕ → Hub → List ℕ × Hub
unfolding get erase
clear_local_room b h = (unwrap_or (get b h.rooms) [], record h { rooms = erase b h.rooms })

unfoldable pub subscribe_channel : ℕ → Hub → Hub
unfolding insert
subscribe_channel b h = record h { channels = insert b h.channels }

unfoldable pub unsubscribe_channel : ℕ → Hub → Hub
unfolding without
unsubscribe_channel b h = record h { channels = without b h.channels }

-- `WsPubSubBridge::join_room`
unfoldable pub bridge_join : ℕ → ℕ → Hub → Hub
unfolding get put insert add_local_room_member subscribe_channel
bridge_join u b h =
    let h1 = record h { members = put b (insert u (unwrap_or (get b h.members) [])) h.members } in
    let (first, h2) = add_local_room_member b u h1 in if first then subscribe_channel b h2 else h2

-- `WsPubSubBridge::leave_room`
unfoldable pub bridge_leave : ℕ → ℕ → Hub → Hub
unfolding get put erase without is_empty remove_local_room_member unsubscribe_channel
bridge_leave u b h =
    let rest = without u (unwrap_or (get b h.members) []) in
    let h1 = record h {
      members = if is_empty rest then erase b h.members else put b rest h.members;
    } in
    let (emptied, h2) = remove_local_room_member b u h1 in
    if emptied then unsubscribe_channel b h2 else h2

-- `WsService::join_room`
unfoldable pub join_room : ℕ → ℕ → Hub → Hub
unfolding get put insert bridge_join
join_room u b h =
    bridge_join u b (record h { rooms = put b (insert u (unwrap_or (get b h.rooms) [])) h.rooms })

-- `WsService::leave_room`: its own removal from the room, then that of the bridge.
unfoldable pub leave_room : ℕ → ℕ → Hub → Hub
unfolding remove_local_room_member bridge_leave
leave_room u b h = bridge_leave u b (remove_local_room_member b u h).1

unfoldable pub insert_all : List ℕ → List ℕ → List ℕ
unfolding insert
insert_all [] xs = xs
insert_all (u ∷ us) xs = insert_all us (insert u xs)

-- `init_room`
unfoldable pub init_room : ℕ → List ℕ → Hub → Hub
unfolding get put insert_all
init_room b [] h = h
init_room b (u ∷ us) h = record h {
  members = put b (insert_all (u ∷ us) (unwrap_or (get b h.members) [])) h.members;
}

-- `destroy_room`
unfoldable pub destroy_room : ℕ → Hub → Hub
unfolding erase
destroy_room b h = record h { members = erase b h.members }

-- `teardown_local_room`
unfoldable pub teardown_local_room : ℕ → Hub → Hub
unfolding clear_local_room unsubscribe_channel is_empty
teardown_local_room b h =
    let (gone, h1) = clear_local_room b h in if is_empty gone then h1 else unsubscribe_channel b h1

unfoldable pub deliver : WsPayload → List ℕ → Hub → Hub
deliver p [] h = h
deliver p (c ∷ cs) h = deliver p cs (record h { sent = (c, p) ∷ h.sent })

unfoldable pub buffer_message : ℕ → WsPayload → Hub → Hub
unfolding get put
buffer_message u p h = record h {
  buffers = put u (take (message_buffer_size + 1) (p ∷ unwrap_or (get u h.buffers) [])) h.buffers;
}

unfoldable pub reversed : {A : Type 0} → List A → List A
reversed [] = []
reversed (x ∷ xs) = reversed xs ++ x ∷ []

unfoldable pub drain_message_buffer : ℕ → Hub → List WsPayload × Hub
unfolding get erase reversed
drain_message_buffer u h =
    (reversed (unwrap_or (get u h.buffers) []), record h { buffers = erase u h.buffers })

unfoldable pub send_to_user : ℕ → WsPayload → Hub → Hub
unfolding get deliver buffer_message
send_to_user u p h = elim (get u h.clients) [
  | none ↦ buffer_message u p h
  | some conns ↦ deliver p conns h
]

unfoldable pub send_to_users : List ℕ → WsPayload → Hub → Hub
unfolding send_to_user
send_to_users [] p h = h
send_to_users (u ∷ us) p h = send_to_users us p (send_to_user u p h)

-- The loop of `send_to_room` over the members that are connected.
unfoldable pub send_to_members : List ℕ → WsPayload → Hub → Hub
unfolding get deliver
send_to_members [] p h = h
send_to_members (u ∷ us) p h =
    send_to_members us p (elim (get u h.clients) [ none ↦ h | some conns ↦ deliver p conns h ])

unfoldable pub send_to_room : ℕ → WsPayload → Hub → Hub
unfolding get send_to_members
send_to_room b p h = elim (get b h.rooms) [ none ↦ h | some room ↦ send_to_members room p h ]

-- The loop of `broadcast_all`.
unfoldable pub send_to_all : WsPayload → Map (List ℕ) → Hub → Hub
unfolding deliver
send_to_all p [] h = h
send_to_all p ((u, conns) ∷ m) h = send_to_all p m (deliver p conns h)

unfoldable pub broadcast_all : WsPayload → Hub → Hub
unfolding send_to_all
broadcast_all p h = send_to_all p h.clients h

unfoldable pub is_online : ℕ → Hub → Bool
unfolding get
is_online u h = is_some (get u h.clients)

unfoldable pub connection_count : ℕ → Hub → ℕ
unfolding get
connection_count u h = elim (get u h.clients) [ none ↦ 0 | some conns ↦ length conns ]

-- `WsPubSubEnvelope`
pub data Envelope : Type 0 where
  room_envelope user_envelope : ℕ → WsPayload → Envelope
  broadcast_envelope : WsPayload → Envelope

unfoldable pub deliver_locally : Envelope → Hub → Hub
unfolding send_to_room send_to_user broadcast_all teardown_local_room ends_room
deliver_locally (room_envelope b p) h =
    let h1 = send_to_room b p h in if ends_room p.event then teardown_local_room b h1 else h1
deliver_locally (user_envelope u p) h = send_to_user u p h
deliver_locally (broadcast_envelope p) h = broadcast_all p h
