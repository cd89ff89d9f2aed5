-- ===== src/Chat.antt =====
-- apps/api/src/modules/chat: the messages and reactions of a live broadcast (model.rs, dto.rs, errors.rs,
-- repository.rs, and the operations of service.rs that change something). The broadcasts and
-- participants are those of `Broadcast`. The tables stand with what is published to the rooms, the
-- latest first. A trigger sets `updated_at` at every update of a message. An instant is in seconds, `id` is the UUID drawn for a new row, and one id names one
-- message. The lists of messages that redis keeps, which are dropped in a spawned task, are left out.
pub mod Authors
mod Examples
use meno.Prelude.{
  ℕ, zero, suc, ◌+◌, ◌-◌, ◌*◌, ◌/◌, ◌%◌, ◌^◌, ◌≤◌, ◌<◌, ◌≡◌, refl, sym, ap, ◌∙◌, ◌≢◌, ◌↔◌, ◌⊎◌, inl,
  inr, Bool, true, false, not, ◌&&◌, ◌||◌, Option, none, some, List, [], ◌∷◌, ◌++◌, map, arith, ltb,
  leb, ◌==◌, if◌then◌else◌, ltb→lt, lt→ltb, leb→le, ==_iff, ==_self, tests, Bool-cases,
  Option-cases, is_some, unwrap_or, or_else, length, take, drop, last, replicate, All,
  length-append, take-append-drop, length-take, take_all, All-append, All-map_iff, length-map,
}
use meno.Table.{find, exists, update}
use meno.Prelude.Texts.{Text}
use meno.Prelude.Results.{Result, ok, err, ◌>>=◌, ok_or}
use meno.Broadcast.{Broadcast, BroadcastParticipant, User, is_active}

pub record ChatMessage : Type 0 where
  pub id : ℕ
  pub sender_id : ℕ
  pub broadcast_id : ℕ
  pub content : Text
  pub created_at : ℕ
  pub updated_at : Option ℕ
  pub deleted_at : Option ℕ

pub record ChatReaction : Type 0 where
  pub id : ℕ
  pub sender_id : ℕ
  pub broadcast_id : ℕ
  pub content : Text
  pub created_at : ℕ

pub data ChatEvent : Type 0 where
  new_message edited_message : ChatMessage → ChatEvent
  deleted_message : ℕ → ChatEvent
  new_reaction : ChatReaction → ChatEvent

pub record Store : Type 0 where
  pub broadcasts : List Broadcast
  pub participants : List BroadcastParticipant
  pub users : List User
  pub messages : List ChatMessage
  pub reactions : List ChatReaction
  pub published : List (ℕ × ChatEvent)

pub data ChatError : Type 0 where
  edit_window_expired not_found broadcast_not_found broadcast_not_live not_participant : ChatError
  not_sender cannot_send_message_to_self user_not_found cursor cache database redis : ChatError
  internal validation : ChatError

pub record SendRequest : Type 0 where
  pub broadcast_id : ℕ
  pub sender_id : ℕ
  pub content : Text

pub record EditMessageRequest : Type 0 where
  pub broadcast_id : ℕ
  pub message_id : ℕ
  pub sender_id : ℕ
  pub content : Text

pub record DeleteMessageRequest : Type 0 where
  pub broadcast_id : ℕ
  pub message_id : ℕ
  pub sender_id : ℕ

abbrev pub Reply : Type 0 → Type 0
Reply A = Result ChatError A

unfoldable pub is_active_broadcast : ℕ → Store → Bool
unfolding is_active
is_active_broadcast b s =
    exists
      (λ r. r.id == b && (is_active r && (not (is_some r.end_time) && not (is_some r.deleted_at))))
      s.broadcasts

unfoldable pub is_broadcast_participant : ℕ → ℕ → Store → Bool
is_broadcast_participant b u s =
    exists (λ r. r.broadcast_id == b && (r.participant_id == u && not (is_some r.left_at)))
      s.participants

-- The references of a new row: `broadcasts (id)` and `users (id)`.
unfoldable pub references : ℕ → ℕ → Store → Bool
references b u s = exists (λ r. r.id == b) s.broadcasts && exists (λ r. r.id == u) s.users

abbrev pub is_own : ℕ → ℕ → ChatMessage → Bool
is_own id u r = r.id == id && (r.sender_id == u && not (is_some r.deleted_at))

unfoldable pub find_message_by_id : ℕ → Store → Option ChatMessage
find_message_by_id id s = find (λ r. r.id == id && not (is_some r.deleted_at)) s.messages

unfoldable pub publish_to_room : ℕ → ChatEvent → Store → Store
publish_to_room b e s = record s { published = (b, e) ∷ s.published }

abbrev pub chat_message_edit_window_seconds : ℕ
chat_message_edit_window_seconds = 900

-- `ChatMessageRow::can_be_edited`
unfoldable pub can_be_edited : ℕ → ChatMessage → Bool
can_be_edited now r =
    if ltb now r.created_at
    then false
    else leb (now - r.created_at) chat_message_edit_window_seconds

-- The checks of `send_message` and `send_reaction`.
unfoldable pub may_send : SendRequest → Store → Reply Unit
unfolding is_active_broadcast is_broadcast_participant
may_send q s =
    if not (is_active_broadcast q.broadcast_id s)
    then err broadcast_not_live
    else if not (is_broadcast_participant q.broadcast_id q.sender_id s)
    then err not_participant
    else ok tt

unfoldable pub send_message : ℕ → ℕ → SendRequest → Store → Reply Store
unfolding may_send references publish_to_room
send_message now id q s = may_send q s >>= (λ u.
    if references q.broadcast_id q.sender_id s
    then (let m : ChatMessage = record {
      id = id;
      sender_id = q.sender_id;
      broadcast_id = q.broadcast_id;
      content = q.content;
      created_at = now;
      updated_at = none;
      deleted_at = none;
    } in
        ok
          (publish_to_room q.broadcast_id (new_message m) (record s { messages = m ∷ s.messages })))
    else err database)

unfoldable pub send_reaction : ℕ → ℕ → SendRequest → Store → Reply Store
unfolding may_send references publish_to_room
send_reaction now id q s = may_send q s >>= (λ u.
    if references q.broadcast_id q.sender_id s
    then (let r : ChatReaction = record {
      id = id;
      sender_id = q.sender_id;
      broadcast_id = q.broadcast_id;
      content = q.content;
      created_at = now;
    } in
        ok (
          publish_to_room q.broadcast_id (new_reaction r)
            (record s { reactions = r ∷ s.reactions })))
    else err database)

unfoldable pub may_edit : ℕ → EditMessageRequest → Store → Reply ChatMessage
unfolding find_message_by_id is_active_broadcast can_be_edited
may_edit now q s = ok_or (find_message_by_id q.message_id s) not_found >>= (λ m.
    if not (is_active_broadcast q.broadcast_id s)
    then err broadcast_not_live
    else if not (q.sender_id == m.sender_id)
    then err not_sender
    else if not (can_be_edited now m)
    then err edit_window_expired
    else ok m)

abbrev pub edited : ℕ → Text → ChatMessage → ChatMessage
edited now content r = record r { content = content; updated_at = some now }

unfoldable pub edit_message : ℕ → EditMessageRequest → Store → Reply Store
unfolding may_edit find update publish_to_room
edit_message now q s = may_edit now q s >>= (λ m.
    ok_or (find (is_own q.message_id q.sender_id) s.messages) not_found >>= (λ row. ok (
      publish_to_room q.broadcast_id (edited_message (edited now q.content row)) (record s {
        messages = update (is_own q.message_id q.sender_id) (edited now q.content) s.messages;
      }))))

abbrev pub deleted : ℕ → ChatMessage → ChatMessage
deleted now r = record r { deleted_at = some now; updated_at = some now }

unfoldable pub delete_message : ℕ → DeleteMessageRequest → Store → Reply Store
unfolding exists update publish_to_room
delete_message now q s =
    if exists (is_own q.message_id q.sender_id) s.messages
    then ok (
        publish_to_room q.broadcast_id (deleted_message q.message_id) (record s {
          messages = update (is_own q.message_id q.sender_id) (deleted now) s.messages;
        }))
    else err not_sender
