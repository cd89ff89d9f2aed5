-- ===== src/Broadcast/Counts.antt =====
-- The number that redis keeps of those who listen to a broadcast, against a counter.
use meno.Prelude.{
  ℕ, zero, suc, ◌+◌, ◌-◌, ◌^◌, ◌≤◌, ◌<◌, ◌≡◌, refl, ◌∙◌, inl, inr, true, false, Option, none, some,
  List, [], ◌∷◌, arith, ◌==◌, if◌then◌else◌, ==_self, Bool-cases, unwrap_or, length,
}
use meno.Prelude.Int.{ℤ, pos, negsuc, ◌+ℤ◌}
use meno.Prelude.Maps.{Map, get, put, erase, get-put, get-erase}
use meno.Broadcast.Cache.{
  Redis, add_or, is_i64, is_zero, larger, set_live_count, get_live_count, increment_live_count,
  decrement_live_count, delete_live_count,
}

pub data Step : Type 0 where
  starts joins leaves ends : ℕ → Step

unfoldable pub moved : Step → Redis → Redis
unfolding set_live_count increment_live_count decrement_live_count delete_live_count
moved (starts b) r = set_live_count b r
moved (joins b) r = (increment_live_count b r).1
moved (leaves b) r = (decrement_live_count b r).1
moved (ends b) r = delete_live_count b r

unfoldable pub run : List Step → Redis → Redis
unfolding moved
run [] r = r
run (x ∷ xs) r = run xs (moved x r)

-- The counter of broadcast `b`: 1 from its start, one more and one less, no less than 0, and 0 at its end.
unfoldable pub counted : ℕ → Step → ℕ → ℕ
counted b (starts c) n = if c == b then 1 else n
counted b (joins c) n = if c == b then suc n else n
counted b (leaves c) n = if c == b then n - 1 else n
counted b (ends c) n = if c == b then 0 else n

unfoldable pub tally : ℕ → List Step → ℕ → ℕ
unfolding counted
tally b [] n = n
tally b (x ∷ xs) n = tally b xs (counted b x n)

-- A counter at 0 has no key.
unfoldable pub kept : ℕ → Option ℤ
kept zero = none
kept (suc n) = some (pos (suc n))

kept_or : (n : ℕ) → unwrap_or (kept n) (pos 0) ≡ pos n
unfolding kept
kept_or zero = refl
kept_or (suc n) = refl

up : (n : ℕ) → pos n +ℤ pos 1 ≡ pos (suc n)
unfolding ◌+ℤ◌
up n = ground arith

down : (n : ℕ) → pos (suc n) +ℤ negsuc 0 ≡ pos n
unfolding ◌+ℤ◌
down n = ground arith

in_bounds : (n : ℕ) → n < 2 ^ 63 → is_i64 (pos n) ≡ true
unfolding is_i64
in_bounds n h = ground arith

joined :
    (b n : ℕ) (r : Redis)
    → n + 1 < 2 ^ 63
    → get_live_count b r ≡ kept n
    → increment_live_count b r
      ≡ (pos (suc n), record r { live_count = put b (pos (suc n)) r.live_count })
unfolding increment_live_count add_or get_live_count
joined b n r h k = rw k (rw (kept_or n) (rw (up n) (rw (in_bounds (suc n) (omega arith)) refl)))

left :
    (b n : ℕ) (r : Redis)
    → n < 2 ^ 63
    → get_live_count b r ≡ some (pos (suc n))
    → add_or (pos 0) (negsuc 0) b r ≡ (pos n, record r { live_count = put b (pos n) r.live_count })
unfolding add_or get_live_count
left b n r h k = rw k (rw (down n) (rw (in_bounds n h) refl))

count_put : (b c : ℕ) (v : ℤ) (m : Map ℤ) → (c == b) ≡ false → get b (put c v m) ≡ get b m
count_put b c v m e = get-put c b v m ∙ rw e refl

count_erase : (b c : ℕ) (m : Map ℤ) → (c == b) ≡ false → get b (erase c m) ≡ get b m
count_erase b c m e = get-erase c b m ∙ rw e refl

-- The count of another broadcast stays.
other_add :
    (b c : ℕ) (f v : ℤ) (r : Redis)
    → (c == b) ≡ false
    → get b (add_or f v c r).1.live_count ≡ get b r.live_count
unfolding add_or
other_add b c f v r e =
    let sum : ℤ = unwrap_or (get c r.live_count) (pos 0) +ℤ v in
    elim (Bool-cases (is_i64 sum)) [
      | inl h ↦ rw h (count_put b c sum r.live_count e)
      | inr h ↦ rw h refl
    ]

other_left :
    (b c : ℕ) (r : Redis)
    → (c == b) ≡ false
    → get b (decrement_live_count c r).1.live_count ≡ get b r.live_count
unfolding decrement_live_count delete_live_count
other_left b c r e =
    let done : ℤ × Redis = add_or (pos 0) (negsuc 0) c r in
    elim (Bool-cases (is_zero (larger done.0 (pos 0)))) [
      | inl h ↦ rw h (count_erase b c done.1.live_count e ∙ other_add b c (pos 0) (negsuc 0) r e)
      | inr h ↦ rw h (other_add b c (pos 0) (negsuc 0) r e)
    ]

other_joined :
    (b c : ℕ) (r : Redis)
    → (c == b) ≡ false
    → get b (increment_live_count c r).1.live_count ≡ get b r.live_count
unfolding increment_live_count
other_joined b c r e = other_add b c (pos 1) (pos 1) r e

own_joined :
    (b n : ℕ) (r : Redis)
    → n + 1 < 2 ^ 63
    → get_live_count b r ≡ kept n
    → get_live_count b (increment_live_count b r).1 ≡ kept (suc n)
unfolding get_live_count kept
own_joined b n r h k = rw (joined b n r h k) (get-put b b _ r.live_count ∙ rw (==_self b) refl)

less : pos 0 +ℤ negsuc 0 ≡ negsuc 0
unfolding ◌+ℤ◌
less = refl

below :
    (b : ℕ) (r : Redis)
    → get_live_count b r ≡ none
    → add_or (pos 0) (negsuc 0) b r
      ≡ (negsuc 0, record r { live_count = put b (negsuc 0) r.live_count })
unfolding add_or get_live_count
below b r k = rw k (rw less refl)

at_least : (n : ℕ) → larger (pos n) (pos 0) ≡ pos n
unfolding larger
at_least zero = refl
at_least (suc n) = ground arith

not_zero : (n : ℕ) → is_zero (pos (suc n)) ≡ false
unfolding is_zero
not_zero n = ground arith

gone : (b : ℕ) (m : Map ℤ) → get b (erase b m) ≡ none
gone b m = get-erase b b m ∙ rw (==_self b) refl

there : (b : ℕ) (v : ℤ) (m : Map ℤ) → get b (put b v m) ≡ some v
there b v m = get-put b b v m ∙ rw (==_self b) refl

after_left :
    (b : ℕ) (v : ℤ) (r t : Redis)
    → add_or (pos 0) (negsuc 0) b r ≡ (v, t)
    → (is_zero (larger v (pos 0)) ≡ true → get b (decrement_live_count b r).1.live_count ≡ none)
      × (is_zero (larger v (pos 0)) ≡ false
          → get b (decrement_live_count b r).1.live_count ≡ get b t.live_count)
unfolding decrement_live_count delete_live_count
after_left b v r t h = rw h ((λ z. rw z (gone b t.live_count)), (λ z. rw z refl))

no_more : is_zero (pos 0) ≡ true
unfolding is_zero
no_more = refl

cleared : is_zero (larger (negsuc 0) (pos 0)) ≡ true
unfolding larger is_zero
cleared = refl

own_left :
    (b n : ℕ) (r : Redis)
    → n < 2 ^ 63
    → get_live_count b r ≡ kept n
    → get_live_count b (decrement_live_count b r).1 ≡ kept (n - 1)
unfolding get_live_count kept
own_left b zero r h k = (after_left b (negsuc 0) r _ (below b r k)).0 cleared
own_left b (suc zero) r h k =
    (after_left b (pos 0) r _ (left b zero r (omega arith) k)).0 (rw (at_least 0) no_more)
own_left b (suc (suc n)) r h k =
    let one_less : suc (suc n) - 1 ≡ suc n = omega arith in
    rw one_less (
      (after_left b (pos (suc n)) r _ (left b (suc n) r (omega arith) k)).1
        (rw (at_least (suc n)) (not_zero n))
      ∙ there b (pos (suc n)) r.live_count)

step_counted :
    (b n : ℕ) (x : Step) (r : Redis)
    → n + 1 < 2 ^ 63
    → get_live_count b r ≡ kept n
    → get_live_count b (moved x r) ≡ kept (counted b x n)
unfolding moved counted get_live_count set_live_count delete_live_count kept
step_counted b n (starts c) r h k = elim (Bool-cases (c == b)) [
  | inl e ↦ rw e refl
  | inr e ↦ rw e (count_erase b c r.live_count e ∙ k)
]
step_counted b n (joins c) r h k = elim (Bool-cases (c == b)) [
  | inl e ↦ let same : c ≡ b = ground arith in rw e (rw same (own_joined b n r h k))
  | inr e ↦ rw e (other_joined b c r e ∙ k)
]
step_counted b n (leaves c) r h k = elim (Bool-cases (c == b)) [
  | inl e ↦ let same : c ≡ b = ground arith in rw e (rw same (own_left b n r (omega arith) k))
  | inr e ↦ rw e (other_left b c r e ∙ k)
]
step_counted b n (ends c) r h k = elim (Bool-cases (c == b)) [
  | inl e ↦ let same : c ≡ b = ground arith in rw e (rw same (gone b r.live_count))
  | inr e ↦ rw e (count_erase b c r.live_count e ∙ k)
]

counted_le : (b n : ℕ) (x : Step) → counted b x n ≤ suc n
unfolding counted
counted_le b n (starts c) = ground arith
counted_le b n (joins c) = ground arith
counted_le b n (leaves c) = ground arith
counted_le b n (ends c) = ground arith

-- After any starts, joins, leaves and ends of any broadcasts, fewer than 2 ^ 63 with the count before, the count
-- that redis keeps of a broadcast is what a counter of its own would be, and a count of 0 is no key.
pub run_counts :
    (b n : ℕ) (xs : List Step) (r : Redis)
    → n + length xs < 2 ^ 63
    → get_live_count b r ≡ kept n
    → get_live_count b (run xs r) ≡ kept (tally b xs n)
unfolding run tally
run_counts b n [] r h k = k
run_counts b n (x ∷ xs) r h k =
    let le : counted b x n ≤ suc n = counted_le b n x in
    let fits : n + suc (length xs) < 2 ^ 63 = h in
    run_counts b (counted b x n) xs (moved x r) (omega arith) (step_counted b n x r (omega arith) k)
