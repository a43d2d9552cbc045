-- ===== src/Base/Tests.antt =====
-- Boolean tests on the native numbers, and the conditional.
use Prim.Native.Nat.{ℕ, ◌≤◌, ◌<◌, compare, Ordering}
use mathlib.Core.Path.{◌≡◌, refl}
use mathlib.Core.Logic.{◌↔◌, ◌⊎◌, inl, inr}
use mathlib.Core.Bool.{Bool, true, false}
use mathlib.Core.Option.{Option, none, some}
use native.Mathlib.Omega.{arith}

-- These compute to `compare`, which `ground` and `grind` read with no lemma listed.
abbrev pub ltb : ℕ → ℕ → Bool
ltb a b = elim (compare a b) [ Ordering.lt ↦ true | _ ↦ false ]

abbrev pub leb : ℕ → ℕ → Bool
leb a b = elim (compare a b) [ Ordering.gt ↦ false | _ ↦ true ]

infix 50 ◌==◌
abbrev pub ◌==◌ : ℕ → ℕ → Bool
a == b = elim (compare a b) [ Ordering.eq ↦ true | _ ↦ false ]

infix 1 if◌then◌else◌
abbrev pub if◌then◌else◌ {ℓ} : {A : Type ℓ} → Bool → A → A → A
if true then x else y = x
if false then x else y = y

-- `omega` reads a test through such lemmas.
pub ltb→lt : (a b : ℕ) → ltb a b ≡ true → a < b
ltb→lt a b h = ground arith

pub lt→ltb : (a b : ℕ) → a < b → ltb a b ≡ true
lt→ltb a b h = ground arith

pub leb→le : (a b : ℕ) → leb a b ≡ true → a ≤ b
leb→le a b h = ground arith

pub ==_iff : (a b : ℕ) → ((a == b) ≡ true) ↔ (a ≡ b)
==_iff a b = ground arith

pub ruleset tests = (arith, ltb→lt, lt→ltb, leb→le)

-- To split on a computed value and keep the equation.
pub Bool-cases : (b : Bool) → (b ≡ true) ⊎ (b ≡ false)
Bool-cases true = inl refl
Bool-cases false = inr refl

pub Option-cases {ℓ} : {A : Type ℓ} (o : Option A) → (o ≡ none) ⊎ ((a : A) × (o ≡ some a))
Option-cases none = inl refl
Option-cases (some a) = inr (a, refl)

-- A conditional whose test is known; `rw` by the test would reach into the branches too.
pub if_true {ℓ} : {A : Type ℓ} (b : Bool) (x y : A) → b ≡ true → (if b then x else y) ≡ x
if_true true x y h = refl
if_true false x y h = cc

pub if_false {ℓ} : {A : Type ℓ} (b : Bool) (x y : A) → b ≡ false → (if b then x else y) ≡ y
if_false true x y h = cc
if_false false x y h = refl

pub map-if {ℓ κ} :
    {A : Type ℓ} {B : Type κ} (f : A → B) (b : Bool) (x y : A)
    → f (if b then x else y) ≡ (if b then f x else f y)
map-if f true x y = refl
map-if f false x y = refl
