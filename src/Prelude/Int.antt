-- ===== src/Prelude/Int.antt =====
-- The signed integers of Rust (i64, i128) over the native numbers, under the library's names.
use Prim.Native.Nat.{ℕ, suc, ◌+◌, ◌-◌, ◌≤◌}
use mathlib.Core.Path.{◌≡◌}
use mathlib.Core.Bool.{Bool}
use native.Mathlib.Omega.{arith}
use meno.Prelude.Tests.{leb, if◌then◌else◌}

-- `negsuc n` is -(n + 1).
pub data ℤ : Type 0 where
  pos : ℕ → ℤ
  negsuc : ℕ → ℤ

abbrev pub pos_part : ℤ → ℕ
pos_part (pos n) = n
pos_part (negsuc n) = 0

abbrev pub neg_part : ℤ → ℕ
neg_part (pos n) = 0
neg_part (negsuc n) = suc n

infix 50 ◌≤ℤ◌
abbrev pub ◌≤ℤ◌ : ℤ → ℤ → Type 0
a ≤ℤ b = pos_part a + neg_part b ≤ pos_part b + neg_part a

abbrev pub leb_ℤ : ℤ → ℤ → Bool
leb_ℤ a b = leb (pos_part a + neg_part b) (pos_part b + neg_part a)

-- a - b, as an integer.
abbrev pub sub_ℕ : ℕ → ℕ → ℤ
sub_ℕ a b = if leb b a then pos (a - b) else negsuc (b - a - 1)

infixl 65 ◌+ℤ◌
unfoldable pub ◌+ℤ◌ : ℤ → ℤ → ℤ
a +ℤ b = sub_ℕ (pos_part a + pos_part b) (neg_part a + neg_part b)

-- `clamp`
unfoldable pub clamp : ℤ → ℤ → ℤ → ℤ
clamp lo hi a = if leb_ℤ a lo then lo else if leb_ℤ hi a then hi else a

pub clamp_lem :
    (lo hi a : ℤ)
    → lo ≤ℤ hi
    → (lo ≤ℤ clamp lo hi a) × (clamp lo hi a ≤ℤ hi) × (lo ≤ℤ a → a ≤ℤ hi → clamp lo hi a ≡ a)
unfolding clamp
clamp_lem lo hi a h = (ground arith, ground arith, λ p q. ground arith)
