-- ===== src/Ws/Socket.antt =====
-- One connection: apps/api/src/shared/services/ws/handlers.rs, and the configurations of model.rs. A timeout
-- of the read loop is a frame of its own; `other_frame` is a pong or binary data. What happens to the host's
-- broadcast is written to redis: `Grace`. The host's broadcast is what the database answers: `hosted`.
pub mod Quiet
pub mod Grace
use meno.Prelude.{
  ℕ, zero, suc, ◌+◌, ◌-◌, ◌*◌, ◌/◌, ◌%◌, ◌^◌, ◌≤◌, ◌<◌, ◌≡◌, refl, sym, ap, ◌∙◌, ◌≢◌, ◌↔◌, ◌⊎◌, inl,
  inr, Bool, true, false, not, ◌&&◌, ◌||◌, Option, none, some, List, [], ◌∷◌, ◌++◌, map, arith, ltb,
  leb, ◌==◌, if◌then◌else◌, ltb→lt, lt→ltb, leb→le, ==_iff, ==_self, tests, Bool-cases,
  Option-cases, is_some, unwrap_or, or_else, length, take, drop, last, replicate, All,
  length-append, take-append-drop, length-take, take_all, All-append, All-map_iff, length-map,
}
use meno.Prelude.Maps.{Map, get, put, erase}
use meno.Prelude.Texts.{Text}
use meno.Ws.{WsPayload}
use meno.Ws.Hub.{Hub, register, unregister, join_room, leave_room, drain_message_buffer}

pub record HeartbeatConfig : Type 0 where
  pub ping_interval_secs : ℕ
  pub host_pong_timeout_secs : ℕ
  pub listener_pong_timeout_secs : ℕ
  pub max_missed_pings : ℕ

abbrev pub default_heartbeat : HeartbeatConfig
default_heartbeat = record {
  ping_interval_secs = 25;
  host_pong_timeout_secs = 60;
  listener_pong_timeout_secs = 20;
  max_missed_pings = 2;
}

pub data Frame : Type 0 where
  text_frame : Text → Frame
  ping_frame close_frame stream_end error_frame timed_out other_frame : Frame

-- The counter of the loop, the one that the task of pings reads, a u32, and the texts handled so far.
pub record Loop : Type 0 where
  pub missed_count : ℕ
  pub missed_pongs : ℕ
  pub handled : List Text

abbrev pub alive : Loop → Loop
alive s = record s { missed_count = 0; missed_pongs = 0 }

abbrev pub one_missed : Loop → Loop
one_missed s = record s {
  missed_count = s.missed_count + 1;
  missed_pongs = (s.missed_pongs + 1) % 2 ^ 32;
}

-- One round: the answer of the loop if it ends, whether the connection was lost.
unfoldable pub read_frame : ℕ → Frame → Loop → Option Bool × Loop
read_frame max (text_frame t) s = (none, record (alive s) { handled = t ∷ s.handled })
read_frame max ping_frame s = (none, alive s)
read_frame max close_frame s = (some false, s)
read_frame max stream_end s = (some false, s)
read_frame max error_frame s = (some true, s)
read_frame max timed_out s =
    let t = one_missed s in (if leb max t.missed_count then some true else none, t)
read_frame max other_frame s = (none, s)

-- The rounds until the loop ends; `none` when it still waits after the frames given.
unfoldable pub run_read_loop : ℕ → List Frame → Loop → Option Bool × Loop
unfolding read_frame
run_read_loop max [] s = (none, s)
run_read_loop max (f ∷ fs) s =
    let (done, t) = read_frame max f s in
    let rest = run_read_loop max fs t in elim done [ none ↦ rest | some lost ↦ (some lost, t) ]

abbrev pub new_loop : Loop
new_loop = record { missed_count = 0; missed_pongs = 0; handled = [] }

-- The start of `handle_socket`, without `handle_reconnect`, which is in `Grace`: the connection with the messages to replay, or nothing at the limit. `room` is the
-- broadcast that the user hosts or takes part in.
unfoldable pub open_socket : ℕ → Option ℕ → Hub → Option (ℕ × List WsPayload) × Hub
unfolding register join_room drain_message_buffer
open_socket u room h =
    let (answer, h1) = register u h in
    elim answer [
      | none ↦ (none, h1)
      | some conn ↦
          let (messages, h2) =
            drain_message_buffer u (elim room [ none ↦ h1 | some b ↦ join_room u b h1 ]) in
          (some (conn, messages), h2)
    ]

-- The cleanup of `handle_socket`.
unfoldable pub close_socket : ℕ → ℕ → Option ℕ → Hub → Hub
unfolding leave_room unregister
close_socket u conn room h = unregister u conn (elim room [ none ↦ h | some b ↦ leave_room u b h ])

-- `check_reconnect_rate`: whether the attempt is let through, with the counters. redis forgets a counter a minute
-- after its first attempt: `forget`.
unfoldable pub check_reconnect_rate : ℕ → Map ℕ → Bool × Map ℕ
unfolding get put
check_reconnect_rate u m = let count = unwrap_or (get u m) 0 + 1 in (leb count 10, put u count m)
