-- ===== src/Ws/Hub/Tidy.antt =====
-- What holds of the hub after any sequence of operations.
use meno.Prelude.{
  ℕ, ◌≤◌, ◌≡◌, ap, inl, inr, false, some, List, [], ◌∷◌, ◌++◌, arith, leb, if◌then◌else◌, leb→le,
  Bool-cases, Option-cases, unwrap_or, length, take, length-append, length-take,
}
use meno.Prelude.Maps.{
  Map, get, put, erase, insert, without, is_empty, Values, Values-erase, Values-put, Values-get,
  is_empty-length, insert_kept, length-without,
}
use meno.Ws.{WsPayload, ends_room}
use meno.Ws.Hub.{
  Hub, register, unregister, add_local_room_member, remove_local_room_member, clear_local_room,
  unsubscribe_channel, bridge_join, bridge_leave, join_room, leave_room, init_room, destroy_room,
  teardown_local_room, deliver, buffer_message, drain_message_buffer, send_to_user, send_to_members,
  send_to_room, send_to_all, broadcast_all, Envelope, room_envelope, user_envelope,
  broadcast_envelope, deliver_locally,
}

pub data Step : Type 0 where
  registers : ℕ → Step
  unregisters joins leaves : ℕ → ℕ → Step
  inits : ℕ → List ℕ → Step
  destroys drains : ℕ → Step
  delivers : Envelope → Step

unfoldable pub perform : Step → Hub → Hub
unfolding register unregister join_room leave_room init_room destroy_room drain_message_buffer
    deliver_locally
perform (registers u) h = (register u h).1
perform (unregisters u conn) h = unregister u conn h
perform (joins u b) h = join_room u b h
perform (leaves u b) h = leave_room u b h
perform (inits b us) h = init_room b us h
perform (destroys b) h = destroy_room b h
perform (drains u) h = (drain_message_buffer u h).1
perform (delivers e) h = deliver_locally e h

unfoldable pub run : List Step → Hub → Hub
unfolding perform
run [] h = h
run (s ∷ ss) h = run ss (perform s h)

abbrev pub Conns : List ℕ → Type 0
Conns cs = (1 ≤ length cs) × (length cs ≤ 5)

abbrev pub Occupied : List ℕ → Type 0
Occupied us = is_empty us ≡ false

abbrev pub Short : List WsPayload → Type 0
Short ps = length ps ≤ 51

-- A user who is in the map has one to five connections, no room is empty, no buffer is longer than 51
-- messages, and no room is subscribed to by name.
abbrev pub Tidy : Hub → Type 0
Tidy h =
    Values Conns h.clients
    × (Values Occupied h.rooms × (Values Short h.buffers × (h.channels ≡ [])))

entry_Conns : (u : ℕ) (m : Map (List ℕ)) → Values Conns m → length (unwrap_or (get u m) []) ≤ 5
entry_Conns u m v = elim (Option-cases (get u m)) [
  | inl e ↦ rw e (omega arith)
  | inr (cs, e) ↦ rw e (Values-get Conns u cs m e v).1
]

register-Tidy : (u : ℕ) (h : Hub) → Tidy h → Tidy (register u h).1
unfolding register
register-Tidy u h t =
    let conns = unwrap_or (get u h.clients) [] in
    elim (Bool-cases (leb 5 (length conns))) [
      | inl e ↦ rw e (
        Values-put Conns u conns h.clients
            ((let k = leb→le 5 (length conns) e in omega arith), entry_Conns u h.clients t.0) t.0,
        t.1,
      )
      | inr e ↦ rw e (
        Values-put Conns u (conns ++ h.conn_seq ∷ []) h.clients
            (let n = length-append conns (h.conn_seq ∷ []) in (omega arith, ground arith)) t.0,
        t.1,
      )
    ]

unregister-Tidy : (u conn : ℕ) (h : Hub) → Tidy h → Tidy (unregister u conn h)
unfolding unregister
unregister-Tidy u conn h t = elim (Option-cases (get u h.clients)) [
  | inl e ↦ rw (e, unregister) t
  | inr (cs, e) ↦
      rw (e, unregister)
        (elim (Bool-cases (is_empty (without conn cs))) [
          | inl k ↦ rw k (Values-erase Conns u h.clients t.0, t.1)
          | inr k ↦ rw k (
            Values-put Conns u (without conn cs) h.clients
                (
                  is_empty-length (without conn cs) k,
                  (let n = length-without conn cs in
                      let m = Values-get Conns u cs h.clients e t.0 in omega arith),
                )
                t.0,
            t.1,
          )
        ])
]

unsubscribe-Tidy : (b : ℕ) (h : Hub) → Tidy h → Tidy (unsubscribe_channel b h)
unfolding unsubscribe_channel without
unsubscribe-Tidy b h t = (t.0, (t.1.0, (t.1.1.0, ap (without b) t.1.1.1)))

remove_local-Tidy : (b u : ℕ) (h : Hub) → Tidy h → Tidy (remove_local_room_member b u h).1
unfolding remove_local_room_member
remove_local-Tidy b u h t = elim (Option-cases (get b h.rooms)) [
  | inl e ↦ rw (e, remove_local_room_member) t
  | inr (us, e) ↦
      rw (e, remove_local_room_member)
        (elim (Bool-cases (is_empty (without u us))) [
          | inl k ↦ rw k (t.0, (Values-erase Occupied b h.rooms t.1.0, t.1.1))
          | inr k ↦ rw k (t.0, (Values-put Occupied b (without u us) h.rooms k t.1.0, t.1.1))
        ])
]

bridge_leave-Tidy : (u b : ℕ) (h : Hub) → Tidy h → Tidy (bridge_leave u b h)
unfolding bridge_leave
bridge_leave-Tidy u b h t =
    let rest = without u (unwrap_or (get b h.members) []) in
    let h1 : Hub = record h {
      members = if is_empty rest then erase b h.members else put b rest h.members;
    } in
    let t2 = remove_local-Tidy b u h1 t in
    elim (Bool-cases (remove_local_room_member b u h1).0) [
      | inl e ↦ rw e (unsubscribe-Tidy b (remove_local_room_member b u h1).1 t2)
      | inr e ↦ rw e t2
    ]

found_there : {V : Type 0} (k : ℕ) (v : V) (m : Map V) → get k (put k v m) ≡ some v
unfolding get put
found_there k v m = ground arith

-- The hub has put the user into the room before the bridge asks whether the room was empty.
join_room-Tidy : (u b : ℕ) (h : Hub) → Tidy h → Tidy (join_room u b h)
unfolding join_room bridge_join add_local_room_member
join_room-Tidy u b h t =
    let room = insert u (unwrap_or (get b h.rooms) []) in
    let kept = insert_kept u (unwrap_or (get b h.rooms) []) in
    let there = found_there b room h.rooms in
    rw there (
      rw kept (
        t.0,
        (
          Values-put Occupied b (insert u room) (put b room h.rooms) (insert_kept u room)
              (Values-put Occupied b room h.rooms kept t.1.0),
          t.1.1,
        ),
      ))

teardown-Tidy : (b : ℕ) (h : Hub) → Tidy h → Tidy (teardown_local_room b h)
unfolding teardown_local_room clear_local_room
teardown-Tidy b h t =
    let gone = unwrap_or (get b h.rooms) [] in
    let h1 : Hub = record h { rooms = erase b h.rooms } in
    let t1 : Tidy h1 = (t.0, (Values-erase Occupied b h.rooms t.1.0, t.1.1)) in
    elim (Bool-cases (is_empty gone)) [ inl e ↦ rw e t1 | inr e ↦ rw e (unsubscribe-Tidy b h1 t1) ]

init_room-Tidy : (b : ℕ) (us : List ℕ) (h : Hub) → Tidy h → Tidy (init_room b us h)
unfolding init_room
init_room-Tidy b [] h t = t
init_room-Tidy b (u ∷ us) h t = t

deliver-Tidy : (p : WsPayload) (cs : List ℕ) (h : Hub) → Tidy h → Tidy (deliver p cs h)
unfolding deliver
deliver-Tidy p [] h t = t
deliver-Tidy p (c ∷ cs) h t = deliver-Tidy p cs (record h { sent = (c, p) ∷ h.sent }) t

buffer-Tidy : (u : ℕ) (p : WsPayload) (h : Hub) → Tidy h → Tidy (buffer_message u p h)
unfolding buffer_message
buffer-Tidy u p h t =
    let all = p ∷ unwrap_or (get u h.buffers) [] in
    (
      t.0,
      (
        t.1.0,
        (
          Values-put Short u (take 51 all) h.buffers (omega (arith, length-take 51 all)) t.1.1.0,
          t.1.1.1,
        ),
      ),
    )

send_to_user-Tidy : (u : ℕ) (p : WsPayload) (h : Hub) → Tidy h → Tidy (send_to_user u p h)
unfolding send_to_user
send_to_user-Tidy u p h t = elim (Option-cases (get u h.clients)) [
  | inl e ↦ rw (e, send_to_user) (buffer-Tidy u p h t)
  | inr (cs, e) ↦ rw (e, send_to_user) (deliver-Tidy p cs h t)
]

send_to_members-Tidy :
    (us : List ℕ) (p : WsPayload) (h : Hub) → Tidy h → Tidy (send_to_members us p h)
unfolding send_to_members
send_to_members-Tidy [] p h t = t
send_to_members-Tidy (u ∷ us) p h t = elim (Option-cases (get u h.clients)) [
  | inl e ↦ rw (e, send_to_members) (send_to_members-Tidy us p h t)
  | inr (cs, e) ↦
      rw (e, send_to_members) (send_to_members-Tidy us p (deliver p cs h) (deliver-Tidy p cs h t))
]

send_to_room-Tidy : (b : ℕ) (p : WsPayload) (h : Hub) → Tidy h → Tidy (send_to_room b p h)
unfolding send_to_room
send_to_room-Tidy b p h t = elim (Option-cases (get b h.rooms)) [
  | inl e ↦ rw (e, send_to_room) t
  | inr (us, e) ↦ rw (e, send_to_room) (send_to_members-Tidy us p h t)
]

to_all-Tidy : (p : WsPayload) (m : Map (List ℕ)) (h : Hub) → Tidy h → Tidy (send_to_all p m h)
unfolding send_to_all
to_all-Tidy p [] h t = t
to_all-Tidy p ((u, cs) ∷ m) h t = to_all-Tidy p m (deliver p cs h) (deliver-Tidy p cs h t)

delivered-Tidy : (e : Envelope) (h : Hub) → Tidy h → Tidy (deliver_locally e h)
unfolding deliver_locally broadcast_all
delivered-Tidy (room_envelope b p) h t =
    let t1 = send_to_room-Tidy b p h t in
    elim (Bool-cases (ends_room p.event)) [
      | inl e ↦ rw e (teardown-Tidy b (send_to_room b p h) t1)
      | inr e ↦ rw e t1
    ]
delivered-Tidy (user_envelope u p) h t = send_to_user-Tidy u p h t
delivered-Tidy (broadcast_envelope p) h t = to_all-Tidy p h.clients h t

step-Tidy : (s : Step) (h : Hub) → Tidy h → Tidy (perform s h)
unfolding perform leave_room destroy_room drain_message_buffer
step-Tidy (registers u) h t = register-Tidy u h t
step-Tidy (unregisters u conn) h t = unregister-Tidy u conn h t
step-Tidy (joins u b) h t = join_room-Tidy u b h t
step-Tidy (leaves u b) h t =
    bridge_leave-Tidy u b (remove_local_room_member b u h).1 (remove_local-Tidy b u h t)
step-Tidy (inits b us) h t = init_room-Tidy b us h t
step-Tidy (destroys b) h t = t
step-Tidy (drains u) h t = (t.0, (t.1.0, (Values-erase Short u h.buffers t.1.1.0, t.1.1.1)))
step-Tidy (delivers e) h t = delivered-Tidy e h t

-- Whatever connects, disconnects, joins, leaves and is delivered, in any order, from a hub on in which
-- it holds, as in a new one: a user in the map of clients has one to five connections, no room is kept without a
-- member, no buffer has more than 51 messages, and no room is ever subscribed to by its name, so that
-- its messages come by the pattern alone.
pub run-Tidy : (ss : List Step) (h : Hub) → Tidy h → Tidy (run ss h)
unfolding run
run-Tidy [] h t = t
run-Tidy (s ∷ ss) h t = run-Tidy ss (perform s h) (step-Tidy s h t)
