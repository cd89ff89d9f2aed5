-- ===== src/Prelude/Texts.antt =====
-- Text as a list of characters, and what the standard library does with it: `split`, `strip_prefix`, and
-- integers written in decimal.
use meno.Prelude.{
  ℕ, zero, suc, ◌+◌, ◌-◌, ◌*◌, ◌/◌, ◌%◌, ◌≤◌, ◌<◌, ◌≡◌, refl, ap, ◌∙◌, ◌≢◌, inl, inr, Bool, true,
  false, ◌&&◌, Option, none, some, List, [], ◌∷◌, ◌++◌, arith, ltb, leb, ◌==◌, if◌then◌else◌,
  ltb→lt, ==_self, Bool-cases, All, All-append,
}
use meno.Prelude.Int.{ℤ, pos, negsuc, leb_ℤ, ◌≤ℤ◌}

abbrev pub Text : Type 0
Text = List ℕ

-- `splitn(2, c)` where it gives two parts.
unfoldable pub split_once : ℕ → Text → Option (Text × Text)
split_once c [] = none
split_once c (x ∷ xs) =
    let rest = split_once c xs in
    if x == c then some ([], xs) else elim rest [ none ↦ none | some p ↦ some (x ∷ p.0, p.1) ]

unfoldable pub strip_prefix : Text → Text → Option Text
strip_prefix [] s = some s
strip_prefix (p ∷ ps) [] = none
strip_prefix (p ∷ ps) (x ∷ xs) = let rest = strip_prefix ps xs in if x == p then rest else none

abbrev pub Free : ℕ → Text → Type 0
Free c s = All (λ x. (x == c) ≡ false) s

pub split_once-append : (c : ℕ) (a b : Text) → Free c a → split_once c (a ++ c ∷ b) ≡ some (a, b)
unfolding split_once
split_once-append c [] b h = ground arith
split_once-append c (x ∷ a) b h = rw h.0 (rw (split_once-append c a b h.1) refl)

pub strip_prefix-append : (p s : Text) → strip_prefix p (p ++ s) ≡ some s
unfolding strip_prefix
strip_prefix-append [] s = refl
strip_prefix-append (c ∷ p) s = rw (==_self c) (strip_prefix-append p s)

abbrev pub is_digit : ℕ → Bool
is_digit c = leb b'0' c && leb c b'9'

-- The digits of `n`, on fuel above `n`.
digits : ℕ → ℕ → Text
digits zero n = []
digits (suc fuel) n =
    let rest = digits fuel (n / 10) in
    if ltb n 10 then (b'0' + n) ∷ [] else rest ++ (b'0' + n % 10) ∷ []

unfoldable pub show_ℕ : ℕ → Text
unfolding digits
show_ℕ n = digits (suc n) n

unfoldable pub show_ℤ : ℤ → Text
unfolding show_ℕ
show_ℤ (pos n) = show_ℕ n
show_ℤ (negsuc n) = b'-' ∷ show_ℕ (suc n)

read_digits : ℕ → Text → Option ℕ
read_digits acc [] = some acc
read_digits acc (c ∷ cs) =
    let rest = read_digits (acc * 10 + (c - b'0')) cs in if is_digit c then rest else none

-- One digit at least.
read_ℕ : Text → Option ℕ
unfolding read_digits
read_ℕ [] = none
read_ℕ (c ∷ cs) = read_digits 0 (c ∷ cs)

abbrev negated : ℕ → ℤ
negated zero = pos 0
negated (suc n) = negsuc n

signed : Text → Option ℤ
unfolding read_ℕ
signed [] = none
signed (c ∷ cs) =
    if c == b'-'
    then elim (read_ℕ cs) [ none ↦ none | some n ↦ some (negated n) ]
    else if c == b'+'
    then elim (read_ℕ cs) [ none ↦ none | some n ↦ some (pos n) ]
    else elim (read_ℕ (c ∷ cs)) [ none ↦ none | some n ↦ some (pos n) ]

abbrev within : ℤ → ℤ → ℤ → Option ℤ
within lo hi n = if leb_ℤ lo n && leb_ℤ n hi then some n else none

-- `parse::<i64>()` and `parse::<i128>()`: a sign, digits, and the bounds of the type.
unfoldable pub parse_ℤ : ℤ → ℤ → Text → Option ℤ
unfolding signed
parse_ℤ lo hi s = elim (signed s) [ none ↦ none | some n ↦ within lo hi n ]

only_digits : (fuel n : ℕ) → All (λ c. is_digit c ≡ true) (digits fuel n)
unfolding digits
only_digits zero n = tt
only_digits (suc fuel) n = elim (Bool-cases (ltb n 10)) [
  | inl h ↦ rw h (ground arith, tt)
  | inr h ↦ rw h (
      All-append (λ c. is_digit c ≡ true) (digits fuel (n / 10)) _ (only_digits fuel (n / 10))
        (ground arith, tt))
]

some_digit : (fuel n : ℕ) → (c : ℕ) × (cs : Text) × (digits (suc fuel) n ≡ c ∷ cs)
unfolding digits
some_digit zero n = elim (Bool-cases (ltb n 10)) [
  | inl h ↦ (b'0' + n, [], rw h refl)
  | inr h ↦ (b'0' + n % 10, [], rw h refl)
]
some_digit (suc fuel) n = elim (Bool-cases (ltb n 10)) [
  | inl h ↦ (b'0' + n, [], rw h refl)
  | inr h ↦
      let (c, cs, e) = some_digit fuel (n / 10) in (c, cs ++ (b'0' + n % 10) ∷ [], rw h (rw e refl))
]

read-append :
    (acc : ℕ) (xs : Text) (d n : ℕ)
    → read_digits acc xs ≡ some n
    → d < 10
    → read_digits acc (xs ++ (b'0' + d) ∷ []) ≡ some (n * 10 + d)
unfolding read_digits
read-append acc [] d n h k = ground arith
read-append acc (x ∷ xs) d n h k = ground (arith, read-append (acc * 10 + (x - b'0')) xs d n)

one_digit : (n : ℕ) → n < 10 → read_digits 0 ((b'0' + n) ∷ []) ≡ some n
unfolding read_digits
one_digit n h = ground arith

tenth : (fuel n : ℕ) → n < suc fuel → 10 ≤ n → n / 10 < fuel
tenth fuel n h k = omega arith

read-digits : (fuel n : ℕ) → n < fuel → read_digits 0 (digits fuel n) ≡ some n
unfolding digits
read-digits zero n h = absurd (omega arith)
read-digits (suc fuel) n h = elim (Bool-cases (ltb n 10)) [
  | inl k ↦ rw k (one_digit n (ltb→lt n 10 k))
  | inr k ↦ rw k (
      read-append 0 (digits fuel (n / 10)) (n % 10) (n / 10)
        (read-digits fuel (n / 10) (tenth fuel n h (ground arith))) (omega arith)
      ∙ ap (λ (m : ℕ). some m) (omega arith))
]

read-show : (n : ℕ) → read_ℕ (show_ℕ n) ≡ some n
unfolding read_ℕ show_ℕ
read-show n =
    let (c, cs, e) = some_digit n n in
    let r = read-digits (suc n) n (omega arith) in rw e (rw e at r)

signed-plain :
    (s : Text) (n : ℕ)
    → All (λ c. is_digit c ≡ true) s
    → read_ℕ s ≡ some n
    → signed s ≡ some (pos n)
unfolding signed
signed-plain [] n a h = absurd (unfold read_ℕ in ground (arith, h))
signed-plain (c ∷ cs) n a h = let d = a.0 in rw h (ground arith)

signed-show : (z : ℤ) → signed (show_ℤ z) ≡ some z
unfolding show_ℤ
signed-show (pos n) =
    signed-plain (show_ℕ n) n (unfold show_ℕ in only_digits (suc n) n) (read-show n)
signed-show (negsuc n) = unfold signed in rw (read-show (suc n)) refl

-- An integer of the type is read back from its decimal text.
pub parse-show : (lo hi z : ℤ) → lo ≤ℤ z → z ≤ℤ hi → parse_ℤ lo hi (show_ℤ z) ≡ some z
unfolding parse_ℤ
parse-show lo hi z h k = rw (signed-show z, parse_ℤ) (ground arith)

digits_clear : (c : ℕ) (s : Text) → is_digit c ≡ false → All (λ c. is_digit c ≡ true) s → Free c s
digits_clear c [] h a = tt
digits_clear c (x ∷ s) h a = (let d = a.0 in ground arith, digits_clear c s h a.1)

-- The text of an integer has digits and a minus sign alone.
pub show_ℤ-Free : (c : ℕ) (z : ℤ) → is_digit c ≡ false → c ≢ b'-' → Free c (show_ℤ z)
unfolding show_ℤ show_ℕ
show_ℤ-Free c (pos n) h k = digits_clear c (digits (suc n) n) h (only_digits (suc n) n)
show_ℤ-Free c (negsuc n) h k = (
  ground arith,
  digits_clear c (digits (suc (suc n)) (suc n)) h (only_digits (suc (suc n)) (suc n)),
)
