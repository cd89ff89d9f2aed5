-- ===== src/Ws/Hub/Rooms.antt =====
-- Who is in which room of this instance.
use meno.Prelude.{
  ℕ, ◌≡◌, refl, sym, ap, ◌∙◌, inl, inr, Bool, true, false, ◌&&◌, none, List, [], ◌∷◌, arith, ◌==◌,
  if◌then◌else◌, Bool-cases, Option-cases, unwrap_or,
}
use meno.Prelude.Maps.{
  Map, get, put, erase, has, insert, without, is_empty, get-put, get-erase, has-insert, has-without,
}
use meno.Ws.Hub.{
  Hub, unregister, add_local_room_member, remove_local_room_member, subscribe_channel,
  unsubscribe_channel, bridge_join, bridge_leave, join_room, leave_room,
}

unfoldable pub in_room : ℕ → ℕ → Hub → Bool
unfolding get has
in_room b u h = has u (unwrap_or (get b h.rooms) [])

room_of :
    (b c : ℕ) (room : List ℕ) (m : Map (List ℕ))
    → unwrap_or (get c (put b room m)) [] ≡ (if b == c then room else unwrap_or (get c m) [])
room_of b c room m = rw (get-put b c room m) (ground arith)

room_gone :
    (b c : ℕ) (m : Map (List ℕ))
    → unwrap_or (get c (erase b m)) [] ≡ (if b == c then [] else unwrap_or (get c m) [])
room_gone b c m = rw (get-erase b c m) (ground arith)

none_of : (u : ℕ) (xs : List ℕ) → is_empty xs ≡ true → has u xs ≡ false
unfolding has is_empty
none_of u [] h = refl
none_of u (x ∷ xs) h = absurd (ground arith)

same_key : (b c : ℕ) → (b == c) ≡ true → b ≡ c
same_key b c h = ground arith

-- The entry of one room after a change.
changed :
    (b c u v : ℕ) (room : List ℕ) (m : Map (List ℕ)) (answer : Bool)
    → has v room ≡ (if u == v then answer else has v (unwrap_or (get b m) []))
    → has v (if b == c then room else unwrap_or (get c m) [])
      ≡ (if b == c && u == v then answer else has v (unwrap_or (get c m) []))
changed b c u v room m answer h = elim (Bool-cases (b == c)) [
  | inl e ↦ let same = same_key b c e in rw e (h ∙ rw same refl)
  | inr e ↦ rw e refl
]

put_in :
    (b c u v : ℕ) (m : Map (List ℕ))
    → has v (unwrap_or (get c (put b (insert u (unwrap_or (get b m) [])) m)) [])
      ≡ (if b == c && u == v then true else has v (unwrap_or (get c m) []))
put_in b c u v m =
    let room = insert u (unwrap_or (get b m) []) in
    ap (has v) (room_of b c room m)
    ∙ changed b c u v room m true (has-insert u v (unwrap_or (get b m) []))

join_rooms :
    (u b : ℕ) (h : Hub)
    → let rooms = put b (insert u (unwrap_or (get b h.rooms) [])) h.rooms in
      (join_room u b h).rooms ≡ put b (insert u (unwrap_or (get b rooms) [])) rooms
unfolding join_room bridge_join add_local_room_member subscribe_channel
join_rooms u b h =
    let rooms = put b (insert u (unwrap_or (get b h.rooms) [])) h.rooms in
    elim (Bool-cases (is_empty (unwrap_or (get b rooms) []))) [
      | inl e ↦ rw e refl
      | inr e ↦ rw e refl
    ]

joined :
    (u b : ℕ) (h : Hub) (c v : ℕ)
    → in_room c v (join_room u b h) ≡ (if b == c && u == v then true else in_room c v h)
unfolding in_room
joined u b h c v =
    let rooms = put b (insert u (unwrap_or (get b h.rooms) [])) h.rooms in
    ap (λ (m : Map (List ℕ)). has v (unwrap_or (get c m) [])) (join_rooms u b h)
    ∙ put_in b c u v rooms
    ∙ rw (put_in b c u v h.rooms) (ground arith)

missing_room :
    (b c u v : ℕ) (m : Map (List ℕ))
    → get b m ≡ none
    → has v (unwrap_or (get c m) [])
      ≡ (if b == c && u == v then false else has v (unwrap_or (get c m) []))
unfolding has
missing_room b c u v m h = elim (Bool-cases (b == c)) [
  | inl e ↦ let same = same_key b c e in rw e (rw (sym same) (rw h (ground arith)))
  | inr e ↦ rw e refl
]

removed :
    (b u : ℕ) (h : Hub) (c v : ℕ)
    → in_room c v (remove_local_room_member b u h).1
      ≡ (if b == c && u == v then false else in_room c v h)
unfolding in_room remove_local_room_member
removed b u h c v = elim (Option-cases (get b h.rooms)) [
  | inl e ↦ rw (e, remove_local_room_member) (missing_room b c u v h.rooms e)
  | inr (us, e) ↦
      let left : has v (without u us)
          ≡ (if u == v then false else has v (unwrap_or (get b h.rooms) [])) =
        rw e (has-without u v us) in
      rw (e, remove_local_room_member)
        (elim (Bool-cases (is_empty (without u us))) [
          | inl k ↦ rw k (
              ap (has v) (room_gone b c h.rooms)
              ∙ changed b c u v [] h.rooms false (sym (none_of v (without u us) k) ∙ left))
          | inr k ↦ rw k (
              ap (has v) (room_of b c (without u us) h.rooms)
              ∙ changed b c u v (without u us) h.rooms false left)
        ])
]

bridge_rooms :
    (u b : ℕ) (h : Hub) (c v : ℕ)
    → in_room c v (bridge_leave u b h) ≡ (if b == c && u == v then false else in_room c v h)
unfolding in_room bridge_leave unsubscribe_channel
bridge_rooms u b h c v =
    let rest = without u (unwrap_or (get b h.members) []) in
    let h1 : Hub = record h {
      members = if is_empty rest then erase b h.members else put b rest h.members;
    } in
    elim (Bool-cases (remove_local_room_member b u h1).0) [
      | inl e ↦ rw e (removed b u h1 c v)
      | inr e ↦ rw e (removed b u h1 c v)
    ]

left_room :
    (u b : ℕ) (h : Hub) (c v : ℕ)
    → in_room c v (leave_room u b h) ≡ (if b == c && u == v then false else in_room c v h)
unfolding leave_room
left_room u b h c v =
    bridge_rooms u b (remove_local_room_member b u h).1 c v ∙ rw (removed b u h c v) (ground arith)

removed_clients : (b u : ℕ) (h : Hub) → (remove_local_room_member b u h).1.clients ≡ h.clients
unfolding remove_local_room_member
removed_clients b u h = elim (Option-cases (get b h.rooms)) [
  | inl e ↦ rw (e, remove_local_room_member) refl
  | inr (us, e) ↦
      rw (e, remove_local_room_member)
        (elim (Bool-cases (is_empty (without u us))) [ inl k ↦ rw k refl | inr k ↦ rw k refl ])
]

bridge_clients : (u b : ℕ) (h : Hub) → (bridge_leave u b h).clients ≡ h.clients
unfolding bridge_leave unsubscribe_channel
bridge_clients u b h =
    let rest = without u (unwrap_or (get b h.members) []) in
    let h1 : Hub = record h {
      members = if is_empty rest then erase b h.members else put b rest h.members;
    } in
    elim (Bool-cases (remove_local_room_member b u h1).0) [
      | inl e ↦ rw e (removed_clients b u h1)
      | inr e ↦ rw e (removed_clients b u h1)
    ]

pub leave_clients : (u b : ℕ) (h : Hub) → (leave_room u b h).clients ≡ h.clients
unfolding leave_room
leave_clients u b h = bridge_clients u b (remove_local_room_member b u h).1 ∙ removed_clients b u h

pub unregister_rooms : (u conn : ℕ) (h : Hub) → (unregister u conn h).rooms ≡ h.rooms
unfolding unregister
unregister_rooms u conn h = elim (Option-cases (get u h.clients)) [
  | inl e ↦ rw (e, unregister) refl
  | inr (cs, e) ↦
      rw (e, unregister)
        (elim (Bool-cases (is_empty (without conn cs))) [ inl k ↦ rw k refl | inr k ↦ rw k refl ])
]

-- To join puts one user into one room and to leave takes one user out of one room: who else is in which room
-- does not change, whether the rooms were there before or not.
pub join-leave :
    (u b : ℕ) (h : Hub) (c v : ℕ)
    → (in_room c v (join_room u b h) ≡ (if b == c && u == v then true else in_room c v h))
      × (in_room c v (leave_room u b h) ≡ (if b == c && u == v then false else in_room c v h))
join-leave u b h c v = (joined u b h c v, left_room u b h c v)
