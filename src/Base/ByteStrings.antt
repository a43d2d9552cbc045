-- ===== src/Base/ByteStrings.antt =====
-- Byte strings: `std::string` holds the bytes it was given.
use Prim.Native.Nat.{ℕ}
use Prim.Native.Char.{code}
use Prim.Native.String.{String}
use mathlib.Core.Path.{◌≡◌, refl}
use mathlib.Core.Bool.{Bool, true, false, ◌&&◌}
use mathlib.Core.List.{List, [], ◌∷◌}
use native.Mathlib.Omega.{arith}
use cabinet.Base.Tests.{◌==◌}

abbrev pub Bytes : Type 0
Bytes = List ℕ

-- The bytes of an ASCII literal.
abbrev pub codes : String → Bytes
codes String.[] = []
codes (String.◌∷◌ c s) = code c ∷ codes s

-- `operator==` of strings
unfoldable pub same_bytes : Bytes → Bytes → Bool
same_bytes [] [] = true
same_bytes (x ∷ xs) (y ∷ ys) = (x == y) && same_bytes xs ys
same_bytes _ _ = false

pub same_bytes_refl : (s : Bytes) → same_bytes s s ≡ true
unfolding same_bytes
same_bytes_refl [] = refl
same_bytes_refl (x ∷ xs) = ground (arith, same_bytes_refl xs)

pub eq_of_same_bytes : (s t : Bytes) → same_bytes s t ≡ true → s ≡ t
unfolding same_bytes
eq_of_same_bytes [] [] h = refl
eq_of_same_bytes [] (y ∷ ys) h = ground arith
eq_of_same_bytes (x ∷ xs) [] h = ground arith
eq_of_same_bytes (x ∷ xs) (y ∷ ys) h = ground (arith, eq_of_same_bytes xs ys)
