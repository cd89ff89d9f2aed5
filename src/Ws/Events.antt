-- ===== src/Ws/Events.antt =====
-- The names of events: `FromStr` and `Display` of apps/api/src/shared/services/ws/model.rs. Texts are lists of
-- characters; the name stands in the comment on its line.
use meno.Prelude.{
  ◌≡◌, refl, sym, ap, ◌∙◌, inl, inr, Bool, true, false, ◌&&◌, Option, none, some, List, [], ◌∷◌,
  arith, ◌==◌, if◌then◌else◌, Bool-cases, All,
}
use meno.Prelude.Texts.{Text}
use meno.Ws.{
  WsEvent, heartbeat, new_broadcast, ended_broadcast, scheduled_broadcast, broadcast_deleted,
  broadcast_error, host_disconnected, host_reconnected, participant_joined, participant_left,
  participant_kicked, number_of_live_participants, cohost_invitation, cohost_accepted,
  cohost_declined, cohost_demotion, new_cohost, removed_cohost, recording_ready,
  recording_published, notification, home_invalidated, new_message, edited_message, deleted_message,
  new_reaction, send_message, edit_message, delete_message, send_reaction,
}

unfoldable pub same_text : Text → Text → Bool
same_text [] [] = true
same_text [] (d ∷ ds) = false
same_text (c ∷ cs) [] = false
same_text (c ∷ cs) (d ∷ ds) = (c == d) && same_text cs ds

-- The arms of `from_str`, in their order.
abbrev pub arms : List (Text × WsEvent)
arms =
    (104 ∷ 101 ∷ 97 ∷ 114 ∷ 116 ∷ 98 ∷ 101 ∷ 97 ∷ 116 ∷ [], heartbeat)
    ∷ (110 ∷ 101 ∷ 119 ∷ 66 ∷ 114 ∷ 111 ∷ 97 ∷ 100 ∷ 99 ∷ 97 ∷ 115 ∷ 116 ∷ [], new_broadcast)
    ∷ (
      101 ∷ 110 ∷ 100 ∷ 101 ∷ 100 ∷ 66 ∷ 114 ∷ 111 ∷ 97 ∷ 100 ∷ 99 ∷ 97 ∷ 115 ∷ 116 ∷ [],
      ended_broadcast,
    )
    ∷ (
      115 ∷ 99 ∷ 104 ∷ 101 ∷ 100 ∷ 117 ∷ 108 ∷ 101 ∷ 100 ∷ 66 ∷ 114 ∷ 111 ∷ 97 ∷ 100 ∷ 99 ∷ 97 ∷ 115
          ∷ 116 ∷ [],
      scheduled_broadcast,
    )
    ∷ (
      98 ∷ 114 ∷ 111 ∷ 97 ∷ 100 ∷ 99 ∷ 97 ∷ 115 ∷ 116 ∷ 68 ∷ 101 ∷ 108 ∷ 101 ∷ 116 ∷ 101 ∷ 100 ∷ [],
      broadcast_deleted,
    )
    ∷ (
      98 ∷ 114 ∷ 111 ∷ 97 ∷ 100 ∷ 99 ∷ 97 ∷ 115 ∷ 116 ∷ 69 ∷ 114 ∷ 114 ∷ 111 ∷ 114 ∷ [],
      broadcast_error,
    )
    ∷ (
      104 ∷ 111 ∷ 115 ∷ 116 ∷ 68 ∷ 105 ∷ 115 ∷ 99 ∷ 111 ∷ 110 ∷ 110 ∷ 101 ∷ 99 ∷ 116 ∷ 101 ∷ 100
          ∷ [],
      host_disconnected,
    )
    ∷ (
      104 ∷ 111 ∷ 115 ∷ 116 ∷ 82 ∷ 101 ∷ 99 ∷ 111 ∷ 110 ∷ 110 ∷ 101 ∷ 99 ∷ 116 ∷ 101 ∷ 100 ∷ [],
      host_reconnected,
    )
    ∷ (
      112 ∷ 97 ∷ 114 ∷ 116 ∷ 105 ∷ 99 ∷ 105 ∷ 112 ∷ 97 ∷ 110 ∷ 116 ∷ 74 ∷ 111 ∷ 105 ∷ 110 ∷ 101
          ∷ 100 ∷ [],
      participant_joined,
    )
    ∷ (
      112 ∷ 97 ∷ 114 ∷ 116 ∷ 105 ∷ 99 ∷ 105 ∷ 112 ∷ 97 ∷ 110 ∷ 116 ∷ 76 ∷ 101 ∷ 102 ∷ 116 ∷ [],
      participant_left,
    )
    ∷ (
      112 ∷ 97 ∷ 114 ∷ 116 ∷ 105 ∷ 99 ∷ 105 ∷ 112 ∷ 97 ∷ 110 ∷ 116 ∷ 75 ∷ 105 ∷ 99 ∷ 107 ∷ 101 ∷ 100
          ∷ [],
      participant_kicked,
    )
    ∷ (
      110 ∷ 117 ∷ 109 ∷ 98 ∷ 101 ∷ 114 ∷ 79 ∷ 102 ∷ 76 ∷ 105 ∷ 118 ∷ 101 ∷ 80 ∷ 97 ∷ 114 ∷ 116 ∷ 105
          ∷ 99 ∷ 105 ∷ 112 ∷ 97 ∷ 110 ∷ 116 ∷ 115 ∷ [],
      number_of_live_participants,
    )
    ∷ (
      99 ∷ 111 ∷ 104 ∷ 111 ∷ 115 ∷ 116 ∷ 73 ∷ 110 ∷ 118 ∷ 105 ∷ 116 ∷ 97 ∷ 116 ∷ 105 ∷ 111 ∷ 110
          ∷ [],
      cohost_invitation,
    )
    ∷ (
      99 ∷ 111 ∷ 104 ∷ 111 ∷ 115 ∷ 116 ∷ 65 ∷ 99 ∷ 99 ∷ 101 ∷ 112 ∷ 116 ∷ 101 ∷ 100 ∷ [],
      cohost_accepted,
    )
    ∷ (
      99 ∷ 111 ∷ 104 ∷ 111 ∷ 115 ∷ 116 ∷ 68 ∷ 101 ∷ 99 ∷ 108 ∷ 105 ∷ 110 ∷ 101 ∷ 100 ∷ [],
      cohost_declined,
    )
    ∷ (110 ∷ 101 ∷ 119 ∷ 67 ∷ 111 ∷ 104 ∷ 111 ∷ 115 ∷ 116 ∷ [], new_cohost)
    ∷ (
      114 ∷ 101 ∷ 109 ∷ 111 ∷ 118 ∷ 101 ∷ 100 ∷ 67 ∷ 111 ∷ 104 ∷ 111 ∷ 115 ∷ 116 ∷ [],
      removed_cohost,
    )
    ∷ (
      99 ∷ 111 ∷ 104 ∷ 111 ∷ 115 ∷ 116 ∷ 68 ∷ 101 ∷ 109 ∷ 111 ∷ 116 ∷ 105 ∷ 111 ∷ 110 ∷ [],
      cohost_demotion,
    )
    ∷ (
      114 ∷ 101 ∷ 99 ∷ 111 ∷ 114 ∷ 100 ∷ 105 ∷ 110 ∷ 103 ∷ 82 ∷ 101 ∷ 97 ∷ 100 ∷ 121 ∷ [],
      recording_ready,
    )
    ∷ (
      114 ∷ 101 ∷ 99 ∷ 111 ∷ 114 ∷ 100 ∷ 105 ∷ 110 ∷ 103 ∷ 80 ∷ 117 ∷ 98 ∷ 108 ∷ 105 ∷ 115 ∷ 104
          ∷ 101 ∷ 100 ∷ [],
      recording_published,
    )
    ∷ (110 ∷ 111 ∷ 116 ∷ 105 ∷ 102 ∷ 105 ∷ 99 ∷ 97 ∷ 116 ∷ 105 ∷ 111 ∷ 110 ∷ [], notification)
    ∷ (
      104 ∷ 111 ∷ 109 ∷ 101 ∷ 73 ∷ 110 ∷ 118 ∷ 97 ∷ 108 ∷ 105 ∷ 100 ∷ 97 ∷ 116 ∷ 101 ∷ 100 ∷ [],
      home_invalidated,
    )
    ∷ (110 ∷ 101 ∷ 119 ∷ 77 ∷ 101 ∷ 115 ∷ 115 ∷ 97 ∷ 103 ∷ 101 ∷ [], new_message)
    ∷ (
      101 ∷ 100 ∷ 105 ∷ 116 ∷ 101 ∷ 100 ∷ 77 ∷ 101 ∷ 115 ∷ 115 ∷ 97 ∷ 103 ∷ 101 ∷ [],
      edited_message,
    )
    ∷ (
      100 ∷ 101 ∷ 108 ∷ 101 ∷ 116 ∷ 101 ∷ 100 ∷ 77 ∷ 101 ∷ 115 ∷ 115 ∷ 97 ∷ 103 ∷ 101 ∷ [],
      deleted_message,
    )
    ∷ (110 ∷ 101 ∷ 119 ∷ 82 ∷ 101 ∷ 97 ∷ 99 ∷ 116 ∷ 105 ∷ 111 ∷ 110 ∷ [], new_reaction)
    ∷ (115 ∷ 101 ∷ 110 ∷ 100 ∷ 77 ∷ 101 ∷ 115 ∷ 115 ∷ 97 ∷ 103 ∷ 101 ∷ [], send_message)
    ∷ (101 ∷ 100 ∷ 105 ∷ 116 ∷ 77 ∷ 101 ∷ 115 ∷ 115 ∷ 97 ∷ 103 ∷ 101 ∷ [], edit_message)
    ∷ (
      100 ∷ 101 ∷ 108 ∷ 101 ∷ 116 ∷ 101 ∷ 77 ∷ 101 ∷ 115 ∷ 115 ∷ 97 ∷ 103 ∷ 101 ∷ [],
      delete_message,
    )
    ∷ (115 ∷ 101 ∷ 110 ∷ 100 ∷ 82 ∷ 101 ∷ 97 ∷ 99 ∷ 116 ∷ 105 ∷ 111 ∷ 110 ∷ [], send_reaction)
    ∷ []

unfoldable pub first_arm : Text → List (Text × WsEvent) → Option WsEvent
unfolding same_text
first_arm s [] = none
first_arm s ((name, event) ∷ rest) = if same_text s name then some event else first_arm s rest

unfoldable pub event_of : Text → Option WsEvent
unfolding first_arm
event_of s = first_arm s arms

unfoldable pub event_name : WsEvent → Text
event_name heartbeat = 104 ∷ 101 ∷ 97 ∷ 114 ∷ 116 ∷ 98 ∷ 101 ∷ 97 ∷ 116 ∷ []
event_name new_broadcast = 110 ∷ 101 ∷ 119 ∷ 66 ∷ 114 ∷ 111 ∷ 97 ∷ 100 ∷ 99 ∷ 97 ∷ 115 ∷ 116 ∷ []
event_name ended_broadcast =
    101 ∷ 110 ∷ 100 ∷ 101 ∷ 100 ∷ 66 ∷ 114 ∷ 111 ∷ 97 ∷ 100 ∷ 99 ∷ 97 ∷ 115 ∷ 116 ∷ []
event_name scheduled_broadcast =
    115 ∷ 99 ∷ 104 ∷ 101 ∷ 100 ∷ 117 ∷ 108 ∷ 101 ∷ 100 ∷ 66 ∷ 114 ∷ 111 ∷ 97 ∷ 100 ∷ 99 ∷ 97 ∷ 115
    ∷ 116 ∷ []
event_name broadcast_deleted =
    98 ∷ 114 ∷ 111 ∷ 97 ∷ 100 ∷ 99 ∷ 97 ∷ 115 ∷ 116 ∷ 68 ∷ 101 ∷ 108 ∷ 101 ∷ 116 ∷ 101 ∷ 100 ∷ []
event_name broadcast_error =
    98 ∷ 114 ∷ 111 ∷ 97 ∷ 100 ∷ 99 ∷ 97 ∷ 115 ∷ 116 ∷ 69 ∷ 114 ∷ 114 ∷ 111 ∷ 114 ∷ []
event_name host_disconnected =
    104 ∷ 111 ∷ 115 ∷ 116 ∷ 68 ∷ 105 ∷ 115 ∷ 99 ∷ 111 ∷ 110 ∷ 110 ∷ 101 ∷ 99 ∷ 116 ∷ 101 ∷ 100 ∷ []
event_name host_reconnected =
    104 ∷ 111 ∷ 115 ∷ 116 ∷ 82 ∷ 101 ∷ 99 ∷ 111 ∷ 110 ∷ 110 ∷ 101 ∷ 99 ∷ 116 ∷ 101 ∷ 100 ∷ []
event_name participant_joined =
    112 ∷ 97 ∷ 114 ∷ 116 ∷ 105 ∷ 99 ∷ 105 ∷ 112 ∷ 97 ∷ 110 ∷ 116 ∷ 74 ∷ 111 ∷ 105 ∷ 110 ∷ 101 ∷ 100
    ∷ []
event_name participant_left =
    112 ∷ 97 ∷ 114 ∷ 116 ∷ 105 ∷ 99 ∷ 105 ∷ 112 ∷ 97 ∷ 110 ∷ 116 ∷ 76 ∷ 101 ∷ 102 ∷ 116 ∷ []
event_name participant_kicked =
    112 ∷ 97 ∷ 114 ∷ 116 ∷ 105 ∷ 99 ∷ 105 ∷ 112 ∷ 97 ∷ 110 ∷ 116 ∷ 75 ∷ 105 ∷ 99 ∷ 107 ∷ 101 ∷ 100
    ∷ []
event_name number_of_live_participants =
    110 ∷ 117 ∷ 109 ∷ 98 ∷ 101 ∷ 114 ∷ 79 ∷ 102 ∷ 76 ∷ 105 ∷ 118 ∷ 101 ∷ 80 ∷ 97 ∷ 114 ∷ 116 ∷ 105
    ∷ 99 ∷ 105 ∷ 112 ∷ 97 ∷ 110 ∷ 116 ∷ 115 ∷ []
event_name cohost_invitation =
    99 ∷ 111 ∷ 104 ∷ 111 ∷ 115 ∷ 116 ∷ 73 ∷ 110 ∷ 118 ∷ 105 ∷ 116 ∷ 97 ∷ 116 ∷ 105 ∷ 111 ∷ 110 ∷ []
event_name cohost_accepted =
    99 ∷ 111 ∷ 104 ∷ 111 ∷ 115 ∷ 116 ∷ 65 ∷ 99 ∷ 99 ∷ 101 ∷ 112 ∷ 116 ∷ 101 ∷ 100 ∷ []
event_name cohost_declined =
    99 ∷ 111 ∷ 104 ∷ 111 ∷ 115 ∷ 116 ∷ 68 ∷ 101 ∷ 99 ∷ 108 ∷ 105 ∷ 110 ∷ 101 ∷ 100 ∷ []
event_name cohost_demotion =
    99 ∷ 111 ∷ 104 ∷ 111 ∷ 115 ∷ 116 ∷ 68 ∷ 101 ∷ 109 ∷ 111 ∷ 116 ∷ 105 ∷ 111 ∷ 110 ∷ []
event_name new_cohost = 110 ∷ 101 ∷ 119 ∷ 67 ∷ 111 ∷ 104 ∷ 111 ∷ 115 ∷ 116 ∷ []
event_name removed_cohost =
    114 ∷ 101 ∷ 109 ∷ 111 ∷ 118 ∷ 101 ∷ 100 ∷ 67 ∷ 111 ∷ 104 ∷ 111 ∷ 115 ∷ 116 ∷ []
event_name recording_ready =
    114 ∷ 101 ∷ 99 ∷ 111 ∷ 114 ∷ 100 ∷ 105 ∷ 110 ∷ 103 ∷ 82 ∷ 101 ∷ 97 ∷ 100 ∷ 121 ∷ []
event_name recording_published =
    114 ∷ 101 ∷ 99 ∷ 111 ∷ 114 ∷ 100 ∷ 105 ∷ 110 ∷ 103 ∷ 80 ∷ 117 ∷ 98 ∷ 108 ∷ 105 ∷ 115 ∷ 104 ∷ 101
    ∷ 100 ∷ []
event_name notification = 110 ∷ 111 ∷ 116 ∷ 105 ∷ 102 ∷ 105 ∷ 99 ∷ 97 ∷ 116 ∷ 105 ∷ 111 ∷ 110 ∷ []
event_name home_invalidated =
    104 ∷ 111 ∷ 109 ∷ 101 ∷ 73 ∷ 110 ∷ 118 ∷ 97 ∷ 108 ∷ 105 ∷ 100 ∷ 97 ∷ 116 ∷ 101 ∷ 100 ∷ []
event_name new_message = 110 ∷ 101 ∷ 119 ∷ 77 ∷ 101 ∷ 115 ∷ 115 ∷ 97 ∷ 103 ∷ 101 ∷ []
event_name edited_message =
    101 ∷ 100 ∷ 105 ∷ 116 ∷ 101 ∷ 100 ∷ 77 ∷ 101 ∷ 115 ∷ 115 ∷ 97 ∷ 103 ∷ 101 ∷ []
event_name deleted_message =
    100 ∷ 101 ∷ 108 ∷ 101 ∷ 116 ∷ 101 ∷ 100 ∷ 77 ∷ 101 ∷ 115 ∷ 115 ∷ 97 ∷ 103 ∷ 101 ∷ []
event_name new_reaction = 110 ∷ 101 ∷ 119 ∷ 82 ∷ 101 ∷ 97 ∷ 99 ∷ 116 ∷ 105 ∷ 111 ∷ 110 ∷ []
event_name send_message = 115 ∷ 101 ∷ 110 ∷ 100 ∷ 77 ∷ 101 ∷ 115 ∷ 115 ∷ 97 ∷ 103 ∷ 101 ∷ []
event_name edit_message = 101 ∷ 100 ∷ 105 ∷ 116 ∷ 77 ∷ 101 ∷ 115 ∷ 115 ∷ 97 ∷ 103 ∷ 101 ∷ []
event_name delete_message =
    100 ∷ 101 ∷ 108 ∷ 101 ∷ 116 ∷ 101 ∷ 77 ∷ 101 ∷ 115 ∷ 115 ∷ 97 ∷ 103 ∷ 101 ∷ []
event_name send_reaction = 115 ∷ 101 ∷ 110 ∷ 100 ∷ 82 ∷ 101 ∷ 97 ∷ 99 ∷ 116 ∷ 105 ∷ 111 ∷ 110 ∷ []

same_text_lem : (s t : Text) → same_text s t ≡ true → s ≡ t
unfolding same_text
same_text_lem [] [] h = refl
same_text_lem [] (d ∷ ds) h = absurd (ground arith)
same_text_lem (c ∷ cs) [] h = absurd (ground arith)
same_text_lem (c ∷ cs) (d ∷ ds) h =
    let head : c ≡ d = ground arith in
    let tail : cs ≡ ds = same_text_lem cs ds (ground arith) in rw (head, tail) refl

-- Every event is read back from its name.
read_back : (e : WsEvent) → event_of (event_name e) ≡ some e
unfolding event_of event_name
read_back heartbeat = refl
read_back new_broadcast = refl
read_back ended_broadcast = refl
read_back scheduled_broadcast = refl
read_back broadcast_deleted = refl
read_back broadcast_error = refl
read_back host_disconnected = refl
read_back host_reconnected = refl
read_back participant_joined = refl
read_back participant_left = refl
read_back participant_kicked = refl
read_back number_of_live_participants = refl
read_back cohost_invitation = refl
read_back cohost_accepted = refl
read_back cohost_declined = refl
read_back cohost_demotion = refl
read_back new_cohost = refl
read_back removed_cohost = refl
read_back recording_ready = refl
read_back recording_published = refl
read_back notification = refl
read_back home_invalidated = refl
read_back new_message = refl
read_back edited_message = refl
read_back deleted_message = refl
read_back new_reaction = refl
read_back send_message = refl
read_back edit_message = refl
read_back delete_message = refl
read_back send_reaction = refl

-- An arm that is taken gives an event with that name.
named :
    (s : Text) (rest : List (Text × WsEvent)) (e : WsEvent)
    → All (λ p. event_name p.1 ≡ p.0) rest
    → first_arm s rest ≡ some e
    → event_name e ≡ s
unfolding first_arm
named s [] e h k = absurd (ground arith)
named s ((name, event) ∷ rest) e h k = elim (Bool-cases (same_text s name)) [
  | inl m ↦
      let one : event ≡ e = ground arith in
      ap event_name (sym one) ∙ h.0 ∙ sym (same_text_lem s name m)
  | inr m ↦ named s rest e h.1 (ground arith)
]

-- An event is read back from the name that it is written as, and a text that is read as an event is the name of
-- that event: so two events never have one name, and a text that is no name is refused.
pub event_names :
    (e : WsEvent) (s : Text)
    → (event_of (event_name e) ≡ some e) × (event_of s ≡ some e → event_name e ≡ s)
unfolding event_of event_name
event_names e s = (
  read_back e,
  named s arms e (
      (
        refl,
        (
          refl,
          (
            refl,
            (
              refl,
              (
                refl,
                (
                  refl,
                  (
                    refl,
                    (
                      refl,
                      (
                        refl,
                        (
                          refl,
                          (
                            refl,
                            (
                              refl,
                              (
                                refl,
                                (
                                  refl,
                                  (
                                    refl,
                                    (
                                      refl,
                                      (
                                        refl,
                                        (
                                          refl,
                                          (
                                            refl,
                                            (
                                              refl,
                                              (
                                                refl,
                                                (
                                                  refl,
                                                  (
                                                    refl,
                                                    (
                                                      refl,
                                                      (
                                                        refl,
                                                        (refl, (refl, (refl, (refl, (refl, tt))))),
                                                      ),
                                                    ),
                                                  ),
                                                ),
                                              ),
                                            ),
                                          ),
                                        ),
                                      ),
                                    ),
                                  ),
                                ),
                              ),
                            ),
                          ),
                        ),
                      ),
                    ),
                  ),
                ),
              ),
            ),
          ),
        ),
      )),
)
