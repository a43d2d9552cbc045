-- ===== src/Base/Maps.antt =====
-- `std::map<int, V>` and `std::map<long, V>`: an association list with one entry for each key, in
-- the order of the keys.
use mathlib.Core.Path.{◌≡◌, refl}
use mathlib.Core.Option.{Option, none, some}
use mathlib.Core.List.{List, [], ◌∷◌}
use native.Mathlib.Omega.{arith}
use cabinet.Base.Tests.{if◌then◌else◌}
use cabinet.Base.Int.{ℤ, ◌==ℤ◌, ltbℤ, ==ℤ_iff}

abbrev pub IntMap {ℓ} : Type ℓ → Type ℓ
IntMap V = List (ℤ × V)

module _ {ℓ} {V : Type ℓ} where
  -- `find`
  unfoldable pub lookup : ℤ → IntMap V → Option V
  lookup k [] = none
  lookup k ((j, v) ∷ m) = if j ==ℤ k then some v else lookup k m

  -- `m[k] = v`; a new key goes before the first that is above it, since iteration is by key.
  unfoldable pub insert : ℤ → V → IntMap V → IntMap V
  insert k v [] = (k, v) ∷ []
  insert k v ((j, w) ∷ m) =
      let rest = insert k v m in
      if j ==ℤ k then (k, v) ∷ m else if ltbℤ k j then (k, v) ∷ (j, w) ∷ m else (j, w) ∷ rest

  -- `m[k]` where it is read; `d` is the value that C++ puts at a missing key
  abbrev pub value_or : V → Option V → V
  value_or d none = d
  value_or d (some v) = v

  unfoldable pub at : IntMap V → ℤ → V → V
  at m k d = value_or d (lookup k m)

  pub lookup-insert :
      (k j : ℤ) (v : V) (m : IntMap V)
      → lookup j (insert k v m) ≡ (if k ==ℤ j then some v else lookup j m)
  unfolding lookup insert
  lookup-insert k j v [] = refl
  lookup-insert k j v ((i, w) ∷ m) =
      ground (arith, ==ℤ_iff k j, ==ℤ_iff i k, ==ℤ_iff i j, lookup-insert k j v m)

  -- `erase`
  unfoldable pub erase : ℤ → IntMap V → IntMap V
  erase k [] = []
  erase k ((j, v) ∷ m) = let rest = erase k m in if j ==ℤ k then rest else (j, v) ∷ rest

  pub lookup-erase :
      (k j : ℤ) (m : IntMap V) → lookup j (erase k m) ≡ (if k ==ℤ j then none else lookup j m)
  unfolding lookup erase
  lookup-erase k j [] = ground arith
  lookup-erase k j ((i, w) ∷ m) =
      ground (arith, ==ℤ_iff k j, ==ℤ_iff i k, ==ℤ_iff i j, lookup-erase k j m)
