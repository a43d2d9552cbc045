-- ===== src/Base/Int.antt =====
-- The integers that `int` and `long` values stand for, over the native numbers, with the Boolean
-- tests of the source.
use Prim.Native.Nat.{ℕ, suc, ◌+◌, ◌-◌, ◌*◌, ◌≤◌, ◌<◌}
use mathlib.Core.Path.{◌≡◌}
use mathlib.Core.Logic.{◌↔◌}
use mathlib.Core.Bool.{Bool, true}
use native.Mathlib.Omega.{arith}
use cabinet.Base.Tests.{ltb, leb, ◌==◌, if◌then◌else◌}

-- `negsuc n` is -(n + 1).
pub data ℤ : Type 0 where
  pos : ℕ → ℤ
  negsuc : ℕ → ℤ

abbrev pub pos_part : ℤ → ℕ
pos_part (pos n) = n
pos_part (negsuc n) = 0

abbrev pub neg_part : ℤ → ℕ
neg_part (pos n) = 0
neg_part (negsuc n) = suc n

-- a - b, as an integer.
abbrev pub sub_ℕ : ℕ → ℕ → ℤ
sub_ℕ a b = if leb b a then pos (a - b) else negsuc (b - a - 1)

infixl 65 ◌+ℤ◌ ◌-ℤ◌
infix 50 ◌≤ℤ◌ ◌<ℤ◌ ◌==ℤ◌
unfoldable pub ◌+ℤ◌ : ℤ → ℤ → ℤ
a +ℤ b = sub_ℕ (pos_part a + pos_part b) (neg_part a + neg_part b)

unfoldable pub ◌-ℤ◌ : ℤ → ℤ → ℤ
a -ℤ b = sub_ℕ (pos_part a + neg_part b) (neg_part a + pos_part b)

abbrev pub ◌≤ℤ◌ : ℤ → ℤ → Type 0
a ≤ℤ b = pos_part a + neg_part b ≤ pos_part b + neg_part a

abbrev pub ◌<ℤ◌ : ℤ → ℤ → Type 0
a <ℤ b = pos_part a + neg_part b < pos_part b + neg_part a

abbrev pub ltbℤ : ℤ → ℤ → Bool
ltbℤ a b = ltb (pos_part a + neg_part b) (pos_part b + neg_part a)

abbrev pub lebℤ : ℤ → ℤ → Bool
lebℤ a b = leb (pos_part a + neg_part b) (pos_part b + neg_part a)

abbrev pub ◌==ℤ◌ : ℤ → ℤ → Bool
a ==ℤ b = pos_part a + neg_part b == pos_part b + neg_part a

abbrev pub minus_one : ℤ
minus_one = negsuc 0

pub +ℤ_parts :
    (a b : ℤ)
    → pos_part (a +ℤ b) + neg_part a + neg_part b ≡ neg_part (a +ℤ b) + pos_part a + pos_part b
unfolding ◌+ℤ◌
+ℤ_parts a b = ground arith

pub -ℤ_parts :
    (a b : ℤ)
    → pos_part (a -ℤ b) + neg_part a + pos_part b ≡ neg_part (a -ℤ b) + pos_part a + neg_part b
unfolding ◌-ℤ◌
-ℤ_parts a b = ground arith

pub eq_of_parts : (a b : ℤ) → pos_part a + neg_part b ≡ pos_part b + neg_part a → a ≡ b
eq_of_parts a b h = ground arith

pub ==ℤ_iff : (a b : ℤ) → ((a ==ℤ b) ≡ true) ↔ (a ≡ b)
==ℤ_iff a b = ground (arith, eq_of_parts a b)

pub ==ℤ_refl : (a : ℤ) → (a ==ℤ a) ≡ true
==ℤ_refl a = (==ℤ_iff a a).1 (λ i. a)

pub ruleset int_laws = (arith, +ℤ_parts, -ℤ_parts, eq_of_parts)

-- `n * a`
unfoldable pub scale : ℕ → ℤ → ℤ
scale n a = sub_ℕ (n * pos_part a) (n * neg_part a)
