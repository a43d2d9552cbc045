-- ===== src/Base/Lists.antt =====
-- Lists measured and indexed by native numbers, under the library's names.
use Prim.Native.Nat.{ℕ, zero, suc, ◌+◌, ◌≤◌}
use mathlib.Core.Path.{◌≡◌, refl, ap}
use mathlib.Core.List.{List, [], ◌∷◌, ◌++◌}
use mathlib.Core.Option.{Option, none, some}
use native.Mathlib.Omega.{arith}

module _ {ℓ} {A : Type ℓ} where
  abbrev pub length : List A → ℕ
  length [] = 0
  length (x ∷ xs) = suc (length xs)

  abbrev pub get_elem? : List A → ℕ → Option A
  get_elem? [] i = none
  get_elem? (x ∷ xs) zero = some x
  get_elem? (x ∷ xs) (suc i) = get_elem? xs i

  abbrev pub take : ℕ → List A → List A
  take zero xs = []
  take (suc n) [] = []
  take (suc n) (x ∷ xs) = x ∷ take n xs

  abbrev pub drop : ℕ → List A → List A
  drop zero xs = xs
  drop (suc n) [] = []
  drop (suc n) (x ∷ xs) = drop n xs

  pub length-append : (xs ys : List A) → length (xs ++ ys) ≡ length xs + length ys
  length-append [] ys = omega arith
  length-append (x ∷ xs) ys = omega (arith, length-append xs ys)

  pub length-drop-le : (n : ℕ) (xs : List A) → length (drop n xs) ≤ length xs
  length-drop-le zero xs = omega arith
  length-drop-le (suc n) [] = omega arith
  length-drop-le (suc n) (x ∷ xs) = omega (arith, length-drop-le n xs)

  pub take-append : (xs ys : List A) → take (length xs) (xs ++ ys) ≡ xs
  take-append [] ys = refl
  take-append (x ∷ xs) ys = ap (◌∷◌ x) (take-append xs ys)

  pub drop-append : (xs ys : List A) → drop (length xs) (xs ++ ys) ≡ ys
  drop-append [] ys = refl
  drop-append (x ∷ xs) ys = drop-append xs ys

  pub get_elem?-append :
      (xs : List A) (y : A) (ys : List A) → get_elem? (xs ++ y ∷ ys) (length xs) ≡ some y
  get_elem?-append [] y ys = refl
  get_elem?-append (x ∷ xs) y ys = get_elem?-append xs y ys

  -- A predicate of every item; it computes to a tuple.
  abbrev pub All {κ} : (A → Type κ) → List A → Type κ
  All P [] = Unit
  All P (x ∷ xs) = P x × All P xs

  pub All-append {κ} : (P : A → Type κ) (xs ys : List A) → All P xs → All P ys → All P (xs ++ ys)
  All-append P [] ys hx hy = hy
  All-append P (x ∷ xs) ys hx hy = (hx.0, All-append P xs ys hx.1 hy)
