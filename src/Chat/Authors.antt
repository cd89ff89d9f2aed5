-- ===== src/Chat/Authors.antt =====
-- Who can change which messages of the chat.
use meno.Prelude.{ℕ, ◌≡◌, refl, Bool, true, false, not, List, arith, ◌==◌, if◌then◌else◌, ==_self}
use meno.Prelude.Results.{ok, err, ◌>>=◌, ok_or}
use meno.Table.{select, find, exists, update}
use meno.Table.Laws.{select-update}
use meno.Chat.{
  ChatMessage, Store, Reply, SendRequest, EditMessageRequest, DeleteMessageRequest, is_own, edited,
  deleted, may_send, may_edit, references, send_message, send_reaction, edit_message,
  delete_message, publish_to_room, ChatError, not_found, not_sender, database,
}

pub data Request : Type 0 where
  sends reacts : SendRequest → Request
  edits : EditMessageRequest → Request
  deletes : DeleteMessageRequest → Request

-- Who a request says that it comes from.
unfoldable pub sender : Request → ℕ
sender (sends q) = q.sender_id
sender (reacts q) = q.sender_id
sender (edits q) = q.sender_id
sender (deletes q) = q.sender_id

-- A request that is refused changes nothing.
unfoldable pub kept : Store → Reply Store → Store
kept s (ok t) = t
kept s (err e) = s

unfoldable pub served : ℕ → ℕ → Request → Store → Store
unfolding kept send_message send_reaction edit_message delete_message
served now id (sends q) s = kept s (send_message now id q s)
served now id (reacts q) s = kept s (send_reaction now id q s)
served now id (edits q) s = kept s (edit_message now q s)
served now id (deletes q) s = kept s (delete_message now q s)

unfoldable pub of_others : ℕ → Store → List ChatMessage
unfolding select
of_others u s = select (λ r. not (r.sender_id == u)) s.messages

not_own : (id u : ℕ) (r : ChatMessage) → is_own id u r ≡ true → not (r.sender_id == u) ≡ false
not_own id u r h = ground (arith, h)

module _ (id u : ℕ) (f : ChatMessage → ChatMessage)
    (same : (r : ChatMessage) → (f r).sender_id ≡ r.sender_id) where
  own_only :
      (rows : List ChatMessage)
      → select (λ r. not (r.sender_id == u)) (update (is_own id u) f rows)
        ≡ select (λ r. not (r.sender_id == u)) rows
  own_only rows =
      select-update (is_own id u) f (λ r. not (r.sender_id == u)) rows
        (λ r h. (not_own id u r h, rw (same r) (not_own id u r h)))

-- What a chain of checks keeps.
bind_kept :
    {A : Type 0} (u : ℕ) (s : Store) (r : Reply A) (k : A → Reply Store)
    → ((x : A) → of_others u (kept s (k x)) ≡ of_others u s)
    → of_others u (kept s (r >>= k)) ≡ of_others u s
unfolding kept
bind_kept u s (ok x) k h = h x
bind_kept u s (err e) k h = refl

test_kept :
    (u : ℕ) (s t : Store) (e : ChatError) (b : Bool)
    → of_others u t ≡ of_others u s
    → of_others u (kept s (if b then ok t else err e)) ≡ of_others u s
unfolding kept
test_kept u s t e true h = h
test_kept u s t e false h = refl

sends_kept :
    (now id : ℕ) (q : SendRequest) (s : Store)
    → of_others q.sender_id (kept s (send_message now id q s)) ≡ of_others q.sender_id s
unfolding of_others select send_message publish_to_room
sends_kept now id q s = bind_kept q.sender_id s (may_send q s) _ (λ x.
    test_kept q.sender_id s _ database (references q.broadcast_id q.sender_id s)
      (rw (==_self q.sender_id) refl))

reacts_kept :
    (now id : ℕ) (q : SendRequest) (s : Store)
    → of_others q.sender_id (kept s (send_reaction now id q s)) ≡ of_others q.sender_id s
unfolding of_others select send_reaction publish_to_room
reacts_kept now id q s =
    bind_kept q.sender_id s (may_send q s) _
      (λ x. test_kept q.sender_id s _ database (references q.broadcast_id q.sender_id s) refl)

edits_kept :
    (now : ℕ) (q : EditMessageRequest) (s : Store)
    → of_others q.sender_id (kept s (edit_message now q s)) ≡ of_others q.sender_id s
unfolding kept of_others edit_message publish_to_room
edits_kept now q s = bind_kept q.sender_id s (may_edit now q s) _ (λ m.
    bind_kept q.sender_id s (ok_or (find (is_own q.message_id q.sender_id) s.messages) not_found) _
      (λ row. own_only q.message_id q.sender_id (edited now q.content) (λ r. refl) s.messages))

deletes_kept :
    (now : ℕ) (q : DeleteMessageRequest) (s : Store)
    → of_others q.sender_id (kept s (delete_message now q s)) ≡ of_others q.sender_id s
unfolding of_others delete_message publish_to_room
deletes_kept now q s =
    test_kept q.sender_id s _ not_sender (exists (is_own q.message_id q.sender_id) s.messages)
      (own_only q.message_id q.sender_id (deleted now) (λ r. refl) s.messages)

-- A request to send, to react, to edit or to delete changes no message but those of the user that it says it comes
-- from, whether it succeeds or not: the messages of others stay as they are and in their order.
pub only_sender :
    (now id : ℕ) (q : Request) (s : Store)
    → of_others (sender q) (served now id q s) ≡ of_others (sender q) s
unfolding sender served
only_sender now id (sends q) s = sends_kept now id q s
only_sender now id (reacts q) s = reacts_kept now id q s
only_sender now id (edits q) s = edits_kept now q s
only_sender now id (deletes q) s = deletes_kept now q s
