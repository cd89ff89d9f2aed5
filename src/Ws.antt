-- ===== src/Ws.antt =====
-- apps/api/src/shared/services/ws: the websocket hub. Here are the events and payloads of model.rs and
-- dto.rs. Children: `Events` has the names of events, `Hub` the connections, rooms and buffers of mod.rs with the
-- bridge of pubsub.rs, `Socket` the loop on one connection of handlers.rs.
pub mod Events
pub mod Hub
pub mod Socket
mod Examples
use meno.Prelude.{
  ℕ, zero, suc, ◌+◌, ◌-◌, ◌*◌, ◌/◌, ◌%◌, ◌^◌, ◌≤◌, ◌<◌, ◌≡◌, refl, sym, ap, ◌∙◌, ◌≢◌, ◌↔◌, ◌⊎◌, inl,
  inr, Bool, true, false, not, ◌&&◌, ◌||◌, Option, none, some, List, [], ◌∷◌, ◌++◌, map, arith, ltb,
  leb, ◌==◌, if◌then◌else◌, ltb→lt, lt→ltb, leb→le, ==_iff, ==_self, tests, Bool-cases,
  Option-cases, is_some, unwrap_or, or_else, length, take, drop, last, replicate, All,
  length-append, take-append-drop, length-take, take_all, All-append, All-map_iff, length-map,
}
use meno.Prelude.Texts.{Text}

pub data WsEvent : Type 0 where
  heartbeat new_broadcast ended_broadcast scheduled_broadcast : WsEvent
  broadcast_deleted broadcast_error host_disconnected host_reconnected : WsEvent
  participant_joined participant_left participant_kicked number_of_live_participants : WsEvent
  cohost_invitation cohost_accepted cohost_declined cohost_demotion : WsEvent
  new_cohost removed_cohost recording_ready recording_published : WsEvent
  notification home_invalidated new_message edited_message : WsEvent
  deleted_message new_reaction send_message edit_message : WsEvent
  delete_message send_reaction : WsEvent

-- The event, and its data as JSON text.
pub record WsPayload : Type 0 where
  pub event : WsEvent
  pub data_text : Text

-- `ended` in `deliver_locally`
unfoldable pub ends_room : WsEvent → Bool
ends_room heartbeat = false
ends_room new_broadcast = false
ends_room ended_broadcast = true
ends_room scheduled_broadcast = false
ends_room broadcast_deleted = true
ends_room broadcast_error = false
ends_room host_disconnected = false
ends_room host_reconnected = false
ends_room participant_joined = false
ends_room participant_left = false
ends_room participant_kicked = false
ends_room number_of_live_participants = false
ends_room cohost_invitation = false
ends_room cohost_accepted = false
ends_room cohost_declined = false
ends_room cohost_demotion = false
ends_room new_cohost = false
ends_room removed_cohost = false
ends_room recording_ready = false
ends_room recording_published = false
ends_room notification = false
ends_room home_invalidated = false
ends_room new_message = false
ends_room edited_message = false
ends_room deleted_message = false
ends_room new_reaction = false
ends_room send_message = false
ends_room edit_message = false
ends_room delete_message = false
ends_room send_reaction = false
