-- ===== src/Pagination/Plain.antt =====
-- A concrete `Formats`: cursors in plain text, a UUID and an f32 as that many zeros, and the first seconds after the
-- epoch as the instants.
use meno.Prelude.{
  ℕ, zero, suc, ◌≡◌, refl, inl, inr, Bool, true, false, Option, none, some, [], ◌∷◌, ◌++◌, arith,
  ltb, ◌==◌, if◌then◌else◌, Bool-cases,
}
use meno.Prelude.Int.{ℤ, pos, negsuc, ◌≤ℤ◌}
use meno.Prelude.Texts.{Text, Free}
use meno.Pagination.{Formats, i128_min, i128_max}
use meno.Pagination.Cursor.{bar}
use meno.Pagination.Cursor.RoundTrip.{Lawful}

unfoldable pub zeros : ℕ → Text
zeros zero = []
zeros (suc n) = 48 ∷ zeros n

unfoldable pub count_zeros : Text → Option ℕ
count_zeros [] = some 0
count_zeros (c ∷ cs) =
    let rest = count_zeros cs in
    if c == 48 then elim rest [ none ↦ none | some n ↦ some (suc n) ] else none

unfoldable pub early : ℤ → Bool
early (pos n) = ltb n 5000000000
early (negsuc n) = false

unfoldable pub plain : Formats
unfolding zeros count_zeros early
plain = record {
  encode = λ s. s;
  decode = λ s. some s;
  show_uuid = zeros;
  parse_uuid = count_zeros;
  is_instant = early;
  show_f32 = zeros;
  parse_f32 = count_zeros;
}

pub count-zeros : (n : ℕ) → count_zeros (zeros n) ≡ some n
unfolding count_zeros zeros
count-zeros zero = refl
count-zeros (suc n) = rw (count-zeros n) refl

zeros-Free : (n : ℕ) → Free bar (zeros n)
unfolding zeros
zeros-Free zero = tt
zeros-Free (suc n) = (refl, zeros-Free n)

refuse_bar : (a b : Text) → count_zeros (a ++ bar ∷ b) ≡ none
unfolding count_zeros
refuse_bar [] b = refl
refuse_bar (c ∷ a) b =
    rw (refuse_bar a b) (elim (Bool-cases (c == 48)) [ inl e ↦ rw e refl | inr e ↦ rw e refl ])

early_in_range : (n : ℤ) → early n ≡ true → (i128_min ≤ℤ n) × (n ≤ℤ i128_max)
unfolding early
early_in_range (pos n) h = (ground arith, ground arith)
early_in_range (negsuc n) h = absurd (ground arith)

pub plain-Lawful : Lawful plain
unfolding plain
plain-Lawful = record {
  decodes = λ s. refl;
  uuids = count-zeros;
  instants = early_in_range;
  f32_Free = zeros-Free;
  uuid_Free = refuse_bar;
}
