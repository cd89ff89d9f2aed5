-- ===== src/Ws/Socket/Quiet.antt =====
-- When the read loop gives a connection up, and what closing one does to another of the same user.
use meno.Prelude.{
  ℕ, suc, ◌+◌, ◌≤◌, ◌<◌, ◌≡◌, refl, ap, ◌∙◌, inl, inr, Bool, true, false, Option, Option-cases,
  none, some, List, [], ◌∷◌, arith, leb, ◌==◌, if◌then◌else◌, ==_self, Bool-cases, is_some,
  unwrap_or, All,
}
use meno.Prelude.Maps.{Map, get, without, is_empty, get-put, get-erase, has}
use meno.Table.{select}
use meno.Ws.{WsPayload}
use meno.Ws.Hub.{Hub, unregister, leave_room, is_online, deliver, send_to_members, send_to_room}
use meno.Ws.Hub.Rooms.{in_room, join-leave, leave_clients, unregister_rooms}
use meno.Ws.Socket.{
  Frame, text_frame, ping_frame, close_frame, stream_end, error_frame, timed_out, other_frame, Loop,
  one_missed, read_frame, run_read_loop, new_loop, close_socket,
}

-- Frames of a client that only answers pings, and their timeouts.
unfoldable pub quiet : Frame → Bool
quiet (text_frame t) = false
quiet ping_frame = false
quiet close_frame = false
quiet stream_end = false
quiet error_frame = false
quiet timed_out = true
quiet other_frame = true

unfoldable pub timeouts : List Frame → ℕ
timeouts [] = 0
timeouts (timed_out ∷ fs) = suc (timeouts fs)
timeouts (f ∷ fs) = timeouts fs

from_count :
    (max : ℕ) (fs : List Frame) (s : Loop)
    → All (λ f. quiet f ≡ true) fs
    → s.missed_count < max
    → (run_read_loop max fs s).0
      ≡ (if leb max (s.missed_count + timeouts fs) then some true else none)
unfolding run_read_loop read_frame quiet timeouts
from_count max [] s h k = ground arith
from_count max (timed_out ∷ fs) s h k = elim (Bool-cases (leb max (s.missed_count + 1))) [
  | inl e ↦
      let late : leb max (s.missed_count + suc (timeouts fs)) ≡ true = ground arith in
      rw (e, run_read_loop) (rw late refl)
  | inr e ↦
      let sum : (s.missed_count + 1) + timeouts fs ≡ s.missed_count + suc (timeouts fs) =
        omega arith in
      rw (e, run_read_loop)
        (from_count max fs (one_missed s) h.1 (ground arith)
          ∙ ap (λ n. if leb max n then some true else none) sum)
]
from_count max (other_frame ∷ fs) s h k = from_count max fs s h.1 k
from_count max (text_frame t ∷ fs) s h k = absurd (let q = h.0 in ground arith)
from_count max (ping_frame ∷ fs) s h k = absurd (let q = h.0 in ground arith)
from_count max (close_frame ∷ fs) s h k = absurd (let q = h.0 in ground arith)
from_count max (stream_end ∷ fs) s h k = absurd (let q = h.0 in ground arith)
from_count max (error_frame ∷ fs) s h k = absurd (let q = h.0 in ground arith)

-- A client that sends nothing by itself, whether it answers the pings or not, is given up after as
-- many timeouts as a client may miss pings, and not before: an answer to a ping does not set the count
-- back. At least one ping may be missed.
pub quiet_client :
    (max : ℕ) (fs : List Frame)
    → 1 ≤ max
    → All (λ f. quiet f ≡ true) fs
    → (run_read_loop max fs new_loop).0 ≡ (if leb max (timeouts fs) then some true else none)
quiet_client max fs one h =
    from_count max fs new_loop h (omega arith)
    ∙ ap (λ n. if leb max n then some true else none)
        (let zero_left : 0 + timeouts fs ≡ timeouts fs = omega arith in zero_left)

remains : (conn other : ℕ) → (other == conn) ≡ false → without conn (conn ∷ other ∷ []) ≡ other ∷ []
unfolding without
remains conn other d = rw (==_self conn, d) refl

still_online :
    (u conn other : ℕ) (h : Hub)
    → get u h.clients ≡ some (conn ∷ other ∷ [])
    → (other == conn) ≡ false
    → is_online u (unregister u conn h) ≡ true
unfolding unregister is_online is_empty
still_online u conn other h e d =
    rw (e, unregister)
      (rw (remains conn other d)
        (ap is_some (get-put u u (other ∷ []) h.clients) ∙ rw (==_self u) refl))

room_kept : (b u v conn : ℕ) (h : Hub) → in_room b v (unregister u conn h) ≡ in_room b v h
unfolding in_room
room_kept b u v conn h =
    ap (λ (m : Map (List ℕ)). has v (unwrap_or (get b m) [])) (unregister_rooms u conn h)

abbrev pub conns_of : ℕ → Hub → List ℕ
conns_of u h = unwrap_or (get u h.clients) []

-- What a connection has been sent, the latest first.
unfoldable pub received : ℕ → Hub → List (ℕ × WsPayload)
unfolding select
received conn h = select (λ e. e.0 == conn) h.sent

deliver_clients : (p : WsPayload) (cs : List ℕ) (h : Hub) → (deliver p cs h).clients ≡ h.clients
unfolding deliver
deliver_clients p [] h = refl
deliver_clients p (c ∷ cs) h = deliver_clients p cs (record h { sent = (c, p) ∷ h.sent })

deliver_others :
    (conn : ℕ) (p : WsPayload) (cs : List ℕ) (h : Hub)
    → has conn cs ≡ false
    → received conn (deliver p cs h) ≡ received conn h
unfolding deliver received has select
deliver_others conn p [] h k = refl
deliver_others conn p (c ∷ cs) h k =
    deliver_others conn p cs (record h { sent = (c, p) ∷ h.sent }) (ground arith)
    ∙ (let other : (c == conn) ≡ false = ground arith in rw other refl)

members_others :
    (conn : ℕ) (p : WsPayload) (us : List ℕ) (h : Hub)
    → All (λ v. has conn (conns_of v h) ≡ false) us
    → received conn (send_to_members us p h) ≡ received conn h
unfolding send_to_members
members_others conn p [] h k = refl
members_others conn p (u ∷ us) h k = elim (Option-cases (get u h.clients)) [
  | inl e ↦ rw (e, send_to_members) (members_others conn p us h k.1)
  | inr (cs, e) ↦
      let same = deliver_clients p cs h in
      let apart : has conn cs ≡ false = rw e at k.0 in
      rw (e, send_to_members)
        (members_others conn p us (deliver p cs h) (rw same k.1) ∙ deliver_others conn p cs h apart)
]

absent :
    (P : ℕ → Type 0) (u : ℕ) (us : List ℕ)
    → has u us ≡ false
    → ((v : ℕ) → (v == u) ≡ false → P v)
    → All P us
unfolding has
absent P u [] h k = tt
absent P u (v ∷ us) h k = (k v (ground arith), absent P u us (ground arith) k)

room_others :
    (b u conn : ℕ) (p : WsPayload) (h : Hub)
    → in_room b u h ≡ false
    → ((v : ℕ) → (v == u) ≡ false → has conn (conns_of v h) ≡ false)
    → received conn (send_to_room b p h) ≡ received conn h
unfolding send_to_room in_room
room_others b u conn p h out own = elim (Option-cases (get b h.rooms)) [
  | inl e ↦ rw (e, send_to_room) refl
  | inr (room, e) ↦
      let left : has u room ≡ false = rw e at out in
      rw (e, send_to_room)
        (members_others conn p room h
          (absent (λ v. has conn (conns_of v h) ≡ false) u room left own))
]

clients_kept :
    (u v conn : ℕ) (h : Hub)
    → (v == u) ≡ false
    → get v (unregister u conn h).clients ≡ get v h.clients
unfolding unregister
clients_kept u v conn h d =
    let apart : (u == v) ≡ false = ground arith in
    elim (Option-cases (get u h.clients)) [
      | inl e ↦ rw (e, unregister) refl
      | inr (cs, e) ↦
          rw (e, unregister)
            (elim (Bool-cases (is_empty (without conn cs))) [
              | inl k ↦ rw k (get-erase u v h.clients ∙ rw apart refl)
              | inr k ↦ rw k (get-put u v (without conn cs) h.clients ∙ rw apart refl)
            ])
    ]

-- A user with two connections, of which the second is no one else's, has one of them closed that was in a room. The
-- user is still online and no longer in the room, and a message that is then sent to the room does
-- not reach the second connection.
pub second_connection :
    (u b conn other : ℕ) (p : WsPayload) (h : Hub)
    → get u h.clients ≡ some (conn ∷ other ∷ [])
    → (other == conn) ≡ false
    → ((v : ℕ) → (v == u) ≡ false → has other (unwrap_or (get v h.clients) []) ≡ false)
    → let closed = close_socket u conn (some b) h in
      (is_online u closed ≡ true)
      × (in_room b u closed ≡ false)
      × (received other (send_to_room b p closed) ≡ received other closed)
unfolding close_socket
second_connection u b conn other p h e d own =
    let h1 = leave_room u b h in
    let h2 = unregister u conn h1 in
    let there : get u h1.clients ≡ some (conn ∷ other ∷ []) =
      ap (get u) (leave_clients u b h) ∙ e in
    let out : in_room b u h2 ≡ false =
      room_kept b u u conn h1 ∙ (join-leave u b h b u).1 ∙ rw (==_self b, ==_self u) refl in
    let apart = λ (v : ℕ) (k : (v == u) ≡ false).
      ap (λ (o : Option (List ℕ)). has other (unwrap_or o []))
        (clients_kept u v conn h1 k ∙ ap (get v) (leave_clients u b h))
      ∙ own v k in
    (still_online u conn other h1 there d, out, room_others b u other p h2 out apart)
