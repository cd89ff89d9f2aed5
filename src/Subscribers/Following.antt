-- ===== src/Subscribers/Following.antt =====
-- What requests to follow and unfollow do to the relation of who follows whom.
use meno.Prelude.{
  ℕ, ◌≡◌, refl, sym, ap, ◌∙◌, inl, inr, Bool, true, false, not, ◌&&◌, none, some, List, [], ◌∷◌,
  arith, ◌==◌, if◌then◌else◌, Bool-cases, Option-cases,
}
use meno.Table.{exists, delete}
use mathlib.Core.Path.{subst}
use std.Path.{fun_ext}
use meno.Table.Laws.{find-exists}
use meno.Prelude.Results.{ok, err}
use meno.Subscribers.{
  User, Subscription, Store, Reply, is_pair, follows, find_user_by_id, create, remove, may_follow,
  notified, subscribe, unsubscribe,
}

pub data Request : Type 0 where
  follow : ℕ → ℕ → ℕ → Request
  unfollow : ℕ → ℕ → Request

unfoldable pub answer : Request → Store → Reply Store
unfolding subscribe unsubscribe
answer (follow now a b) s = subscribe now a b s
answer (unfollow a b) s = unsubscribe a b s

-- Requests one after the other; one that is refused changes nothing.
unfoldable pub serve : List Request → Store → Store
unfolding answer
serve [] s = s
serve (r ∷ rs) s = serve rs (elim (answer r s) [ ok t ↦ t | err e ↦ s ])

-- The relation as a set of pairs. A request adds a pair or takes it away when the two users differ
-- and are known; to unfollow, the user who asks may be unknown.
abbrev pub Relation : Type 0
Relation = ℕ → ℕ → Bool

abbrev pub known : Store → ℕ → Bool
known s u = exists (λ r. r.id == u) s.users

abbrev pub pair_is : ℕ → ℕ → ℕ → ℕ → Bool
pair_is a b c d = c == a && d == b

unfoldable pub ask : (ℕ → Bool) → Request → Relation → Relation
ask k (follow now a b) f c d =
    if pair_is a b c d && (not (a == b) && (k a && k b)) then true else f c d
ask k (unfollow a b) f c d = if pair_is a b c d && (not (a == b) && k b) then false else f c d

unfoldable pub ask_all : (ℕ → Bool) → List Request → Relation → Relation
ask_all k [] f = f
ask_all k (r ∷ rs) f = ask_all k rs (ask k r f)

-- Each pair once, and nobody follows themselves: the primary key and the check of the table; and both are users.
abbrev pub Sound : Store → Type 0
Sound s =
    (a b : ℕ)
    → follows a b s ≡ true
    → (known s a ≡ true) × ((known s b ≡ true) × ((a == b) ≡ false))

exists-delete :
    (a b c d : ℕ) (rows : List Subscription)
    → exists (is_pair c d) (delete (is_pair a b) rows)
      ≡ (if pair_is a b c d then false else exists (is_pair c d) rows)
unfolding exists delete
exists-delete a b c d [] = ground arith
exists-delete a b c d (r ∷ rows) = ground (arith, exists-delete a b c d rows)

found : (s : Store) (b : ℕ) (u : User) → find_user_by_id b s ≡ some u → known s b ≡ true
unfolding find_user_by_id
found s b u h = find-exists (λ r. r.id == b) s.users ∙ rw h refl

missing : (s : Store) (b : ℕ) → find_user_by_id b s ≡ none → known s b ≡ false
unfolding find_user_by_id
missing s b h = find-exists (λ r. r.id == b) s.users ∙ rw h refl

-- The tables after a request.
abbrev pub after : Request → Store → Store
unfolding answer
after r s = elim (answer r s) [ ok t ↦ t | err e ↦ s ]

follows-remove :
    (a b c d : ℕ) (s : Store)
    → follows c d (remove a b s) ≡ (if pair_is a b c d then false else follows c d s)
unfolding follows remove
follows-remove a b c d s = exists-delete a b c d s.subscriptions

-- A request goes one of these ways.
data Way (a b : ℕ) (s : Store) : Type 0 where
  itself : (a == b) ≡ true → Way a b s
  nobody : (a == b) ≡ false → find_user_by_id b s ≡ none → Way a b s
  again :
      (u : User)
      → (a == b) ≡ false
      → find_user_by_id b s ≡ some u
      → follows a b s ≡ true
      → Way a b s
  fresh :
      (u : User)
      → (a == b) ≡ false
      → find_user_by_id b s ≡ some u
      → follows a b s ≡ false
      → known s a ≡ true
      → Way a b s
  stranger :
      (u : User)
      → (a == b) ≡ false
      → find_user_by_id b s ≡ some u
      → follows a b s ≡ false
      → known s a ≡ false
      → Way a b s

way : (a b : ℕ) (s : Store) → Way a b s
way a b s = elim (Bool-cases (a == b)) [
  | inl e ↦ itself e
  | inr e ↦ elim (Option-cases (find_user_by_id b s)) [
    | inl n ↦ nobody e n
    | inr (u, f) ↦ elim (Bool-cases (follows a b s)) [
      | inl h ↦ again u e f h
      | inr h ↦ elim (Bool-cases (known s a)) [
        | inl k ↦ fresh u e f h k
        | inr k ↦ stranger u e f h k
      ]
    ]
  ]
]

inserted : ℕ → ℕ → ℕ → User → Store → Store
inserted now a b u s = notified b u (record s {
  subscriptions =
      record { subscriber_id = a; subscription_id = b; created_at = now } ∷ s.subscriptions;
})

follow_way : (now a b : ℕ) (s : Store) → Way a b s → Store
follow_way now a b s (itself e) = s
follow_way now a b s (nobody e n) = s
follow_way now a b s (again u e f h) = notified b u s
follow_way now a b s (fresh u e f h k) = inserted now a b u s
follow_way now a b s (stranger u e f h k) = s

followed :
    (now a b : ℕ) (s : Store) (w : Way a b s) → after (follow now a b) s ≡ follow_way now a b s w
unfolding after answer subscribe create may_follow follow_way inserted
followed now a b s (itself e) = rw (e, after) refl
followed now a b s (nobody e n) = rw (e, after) (rw (n, after) refl)
followed now a b s (again u e f h) = rw (e, after) (rw (f, after) (rw (h, after) refl))
followed now a b s (fresh u e f h k) =
    let kb = found s b u f in
    rw (e, after) (rw (f, after) (rw (h, after) (rw (k, after) (rw (kb, after) refl))))
followed now a b s (stranger u e f h k) =
    rw (e, after) (rw (f, after) (rw (h, after) (rw (k, after) refl)))

unfollow_way : (a b : ℕ) (s : Store) → Way a b s → Store
unfollow_way a b s (itself e) = s
unfollow_way a b s (nobody e n) = s
unfollow_way a b s (again u e f h) = remove a b s
unfollow_way a b s (fresh u e f h k) = remove a b s
unfollow_way a b s (stranger u e f h k) = remove a b s

unfollowed : (a b : ℕ) (s : Store) (w : Way a b s) → after (unfollow a b) s ≡ unfollow_way a b s w
unfolding after answer unsubscribe may_follow unfollow_way
unfollowed a b s (itself e) = rw (e, after) refl
unfollowed a b s (nobody e n) = rw (e, after) (rw (n, after) refl)
unfollowed a b s (again u e f h) = rw (e, after) (rw (f, after) refl)
unfollowed a b s (fresh u e f h k) = rw (e, after) (rw (f, after) refl)
unfollowed a b s (stranger u e f h k) = rw (e, after) (rw (f, after) refl)

follow_users : (now a b : ℕ) (s : Store) (w : Way a b s) → (follow_way now a b s w).users ≡ s.users
unfolding follow_way inserted notified
follow_users now a b s (itself e) = refl
follow_users now a b s (nobody e n) = refl
follow_users now a b s (again u e f h) = refl
follow_users now a b s (fresh u e f h k) = refl
follow_users now a b s (stranger u e f h k) = refl

unfollow_users : (a b : ℕ) (s : Store) (w : Way a b s) → (unfollow_way a b s w).users ≡ s.users
unfolding unfollow_way remove
unfollow_users a b s (itself e) = refl
unfollow_users a b s (nobody e n) = refl
unfollow_users a b s (again u e f h) = refl
unfollow_users a b s (fresh u e f h k) = refl
unfollow_users a b s (stranger u e f h k) = refl

step_users : (r : Request) (s : Store) → (after r s).users ≡ s.users
step_users (follow now a b) s =
    let w = way a b s in
    ap (λ (t : Store). t.users) (followed now a b s w) ∙ follow_users now a b s w
step_users (unfollow a b) s =
    let w = way a b s in ap (λ (t : Store). t.users) (unfollowed a b s w) ∙ unfollow_users a b s w

same_rows : (c d b : ℕ) (u : User) (s : Store) → follows c d (notified b u s) ≡ follows c d s
unfolding follows notified
same_rows c d b u s = refl

follows-inserted :
    (now a b : ℕ) (u : User) (c d : ℕ) (s : Store)
    → follows c d (inserted now a b u s) ≡ (if pair_is a b c d && true then true else follows c d s)
unfolding follows inserted notified exists
follows-inserted now a b u c d s = ground arith

one_pair : (a b c d : ℕ) (s : Store) → pair_is a b c d ≡ true → follows c d s ≡ follows a b s
one_pair a b c d s p =
    let left : c ≡ a = ground arith in let right : d ≡ b = ground arith in rw (left, right) refl

-- What a way does to one pair.
follow_pair :
    (now a b : ℕ) (s : Store) (w : Way a b s)
    → Sound s
    → (c d : ℕ)
    → follows c d (follow_way now a b s w)
      ≡ ask (known s) (follow now a b) (λ x y. follows x y s) c d
unfolding follow_way ask
follow_pair now a b s (itself e) v c d = rw e (ground arith)
follow_pair now a b s (nobody e n) v c d = let k = missing s b n in ground arith
follow_pair now a b s (again u e f h) v c d =
    let k = v a b h in
    elim (Bool-cases (pair_is a b c d)) [
      | inl p ↦ rw p (rw (k.0, k.1.0, e) (same_rows c d b u s ∙ one_pair a b c d s p ∙ h))
      | inr p ↦ rw p (same_rows c d b u s)
    ]
follow_pair now a b s (fresh u e f h k) v c d =
    let kb = found s b u f in rw (k, kb, e) (follows-inserted now a b u c d s)
follow_pair now a b s (stranger u e f h k) v c d = ground arith

unfollow_pair :
    (a b : ℕ) (s : Store) (w : Way a b s) (c d : ℕ)
    → follows c d (unfollow_way a b s w) ≡ ask (known s) (unfollow a b) (λ x y. follows x y s) c d
unfolding unfollow_way ask
unfollow_pair a b s (itself e) c d = rw e (ground arith)
unfollow_pair a b s (nobody e n) c d = let k = missing s b n in ground arith
unfollow_pair a b s (again u e f h) c d =
    let k = found s b u f in rw (e, k) (follows-remove a b c d s ∙ ground arith)
unfollow_pair a b s (fresh u e f h k) c d =
    let kb = found s b u f in rw (e, kb) (follows-remove a b c d s ∙ ground arith)
unfollow_pair a b s (stranger u e f h k) c d =
    let kb = found s b u f in rw (e, kb) (follows-remove a b c d s ∙ ground arith)

step_lem :
    (r : Request) (s : Store)
    → Sound s
    → (c d : ℕ) → follows c d (after r s) ≡ ask (known s) r (λ x y. follows x y s) c d
step_lem (follow now a b) s v c d =
    let w = way a b s in ap (follows c d) (followed now a b s w) ∙ follow_pair now a b s w v c d
step_lem (unfollow a b) s v c d =
    let w = way a b s in ap (follows c d) (unfollowed a b s w) ∙ unfollow_pair a b s w c d

step_known : (r : Request) (s : Store) → known (after r s) ≡ known s
step_known r s =
    ap {B = ℕ → Bool} (λ (us : List User) (u : ℕ). exists (λ x. x.id == u) us) (step_users r s)

asked_Sound :
    (r : Request) (s : Store)
    → Sound s
    → (c d : ℕ) → ask (known s) r (λ x y. follows x y s) c d ≡ true
    → (known s c ≡ true) × ((known s d ≡ true) × ((c == d) ≡ false))
unfolding ask
asked_Sound (follow now a b) s v c d h =
    elim (Bool-cases (pair_is a b c d && (not (a == b) && (known s a && known s b)))) [
      | inl p ↦
          let left : c ≡ a = ground arith in
          let right : d ≡ b = ground arith in
          rw (left, right) (ground arith, (ground arith, ground arith))
      | inr p ↦ v c d (rw p at h)
    ]
asked_Sound (unfollow a b) s v c d h =
    elim (Bool-cases (pair_is a b c d && (not (a == b) && known s b))) [
      | inl p ↦ absurd (ground arith)
      | inr p ↦ v c d (rw p at h)
    ]

step_Sound : (r : Request) (s : Store) → Sound s → Sound (after r s)
step_Sound r s v c d h =
    subst (λ (k : ℕ → Bool). (k c ≡ true) × ((k d ≡ true) × ((c == d) ≡ false)))
      (sym (step_known r s)) (asked_Sound r s v c d (sym (step_lem r s v c d) ∙ h))

step_relation :
    (r : Request) (s : Store)
    → Sound s
    → (λ x y. follows x y (after r s)) ≡ ask (known s) r (λ x y. follows x y s)
step_relation r s v = fun_ext (λ c. fun_ext (λ d. step_lem r s v c d))

-- Served in turn, requests to follow and to unfollow make of the table what they make of a set of
-- pairs: to follow adds the pair of two different users who are known, to unfollow takes it away, and
-- no other pair changes. The table is again one in which nobody follows themselves and both sides are users. It
-- was such a table before.
pub serve_refines :
    (rs : List Request) (s : Store)
    → Sound s
    → Sound (serve rs s)
      × ((c d : ℕ) → follows c d (serve rs s) ≡ ask_all (known s) rs (λ x y. follows x y s) c d)
unfolding serve ask_all
serve_refines [] s v = (v, λ c d. refl)
serve_refines (r ∷ rs) s v =
    let (v', e) = serve_refines rs (after r s) (step_Sound r s v) in
    (
      v',
      λ c d.
          e c d
          ∙ ap (λ (k : ℕ → Bool). ask_all k rs (λ x y. follows x y (after r s)) c d)
              (step_known r s)
          ∙ ap (λ (f : Relation). ask_all (known s) rs f c d) (step_relation r s v),
    )
