-- ===== src/PersistenceFile/Contiguous.antt =====
-- Logs whose entries are numbered one after the other.
use cabinet.Base.{
  +ℤ_parts, ==ℤ_iff, Bool-cases, List, Option, [], ap, arith, false, inl, inr, neg_part, pos,
  pos_part, refl, some, suc, sym, true, ℕ, ℤ, ◌++◌, ◌+ℤ◌, ◌==ℤ◌, ◌∙◌, ◌∷◌, ◌≡◌, ◌≤ℤ◌, ◌⊎◌,
}
use cabinet.Entry.{Entry}
use cabinet.PersistenceFile.Abstract.{before, find, last_from}

-- The indices are `n`, `n + 1` and so on.
abbrev pub IsContiguous : ℕ → List Entry → Type 0
IsContiguous n [] = Unit
IsContiguous n (e ∷ es) = (e.index ≡ pos n) × IsContiguous (suc n) es

last_from-bound :
    (n : ℕ) (e y : Entry) (es : List Entry)
    → IsContiguous n (y ∷ es)
    → pos n ≤ℤ (last_from e (y ∷ es)).index
unfolding last_from
last_from-bound n e y [] h = rw h.0 (omega arith)
last_from-bound n e y (z ∷ es) h =
    let later : pos (suc n) ≤ℤ (last_from y (z ∷ es)).index = last_from-bound (suc n) y z es h.1 in
    omega arith

find-bound :
    (i : ℤ) (n : ℕ) (es : List Entry) {x : Entry}
    → IsContiguous n es
    → find i es ≡ some x
    → pos n ≤ℤ i
unfolding find
find-bound i n [] h f = cc
find-bound i n (z ∷ es) h f = elim (Bool-cases (z.index ==ℤ i)) [
  | inl here ↦ rw (← (==ℤ_iff z.index i).0 here, h.0) (omega arith)
  | inr later ↦
      let bound : pos (suc n) ≤ℤ i = find-bound i (suc n) es h.1 (rw later at f) in omega arith
]

-- Where the log holds `x` at index `i`: `x` is the last entry, or there is one at the next index.
abbrev pub Next : ℤ → List Entry → Entry → Entry → Type 0
Next i es x last =
    (last ≡ x)
    ⊎ ((y : Entry) × (find (i +ℤ pos 1) es ≡ some y)
        × (before (i +ℤ pos 1) es ≡ before i es ++ x ∷ [])
        × ((last.index ==ℤ i) ≡ false))

above : (n i : ℤ) → n ≤ℤ i → (n ==ℤ (i +ℤ pos 1)) ≡ false
above n i h = elim (Bool-cases (n ==ℤ (i +ℤ pos 1))) [
  | inl same ↦ absurd (
      let e : n ≡ i +ℤ pos 1 = (==ℤ_iff n (i +ℤ pos 1)).0 same in
      omega (arith, +ℤ_parts i (pos 1), ap pos_part e, ap neg_part e))
  | inr other ↦ other
]

pub next_index : (n : ℕ) → pos n +ℤ pos 1 ≡ pos (suc n)
unfolding ◌+ℤ◌
next_index n = ground arith

module _ (i : ℤ) (z : Entry) (es : List Entry) where
  pub find-here : (z.index ==ℤ i) ≡ true → find i (z ∷ es) ≡ some z
  find-here h = unfold find in rw h

  pub find-skip : (z.index ==ℤ i) ≡ false → find i (z ∷ es) ≡ find i es
  find-skip h = unfold find in rw h

  before-here : (z.index ==ℤ i) ≡ true → before i (z ∷ es) ≡ []
  before-here h = unfold before in rw h

  before-skip : (z.index ==ℤ i) ≡ false → before i (z ∷ es) ≡ z ∷ before i es
  before-skip h = unfold before in rw h

pub last_from-cons : (e z : Entry) (es : List Entry) → last_from e (z ∷ es) ≡ last_from z es
last_from-cons e z es = unfold last_from in refl

last_from-nil : (e : Entry) → last_from e [] ≡ e
last_from-nil e = unfold last_from in refl

same_entry : {a b : Entry} → ◌≡◌ {A = Option Entry} (some a) (some b) → a ≡ b
same_entry h = cc

skip-Next :
    (i : ℤ) (z : Entry) (es : List Entry) (e : Entry) {x : Entry}
    → (z.index ==ℤ i) ≡ false
    → (z.index ==ℤ (i +ℤ pos 1)) ≡ false
    → Next i es x (last_from z es)
    → Next i (z ∷ es) x (last_from e (z ∷ es))
skip-Next i z es e later skip (inl last) = inl (last_from-cons e z es ∙ last)
skip-Next i z es e later skip (inr (y, found, kept, more)) = inr (
  y,
  find-skip _ z es skip ∙ found,
  rw (before-skip _ z es skip, before-skip _ z es later, kept),
  rw last_from-cons more,
)

find-Next_here :
    (n : ℕ) (z : Entry) (es : List Entry) (e : Entry)
    → IsContiguous n (z ∷ es)
    → Next (pos n) (z ∷ es) z (last_from e (z ∷ es))
find-Next_here n z [] e h = inl (last_from-cons e z [] ∙ last_from-nil z)
find-Next_here n z (y ∷ ys) e h =
    let z_here : (z.index ==ℤ pos n) ≡ true = (==ℤ_iff z.index (pos n)).1 h.0 in
    let z_skip : (z.index ==ℤ (pos n +ℤ pos 1)) ≡ false =
      rw h.0 (above (pos n) (pos n) (omega arith)) in
    let y_here : (y.index ==ℤ (pos n +ℤ pos 1)) ≡ true =
      (==ℤ_iff y.index _).1 (h.1.0 ∙ sym (next_index n)) in
    let bound : pos (suc n) ≤ℤ (last_from z (y ∷ ys)).index = last_from-bound (suc n) z y ys h.1 in
    inr (
      y,
      find-skip _ z (y ∷ ys) z_skip ∙ find-here _ y ys y_here,
      before-skip _ z (y ∷ ys) z_skip
          ∙ ap (◌∷◌ z) (before-here _ y ys y_here)
          ∙ ap (λ (l : List Entry). l ++ z ∷ []) (sym (before-here (pos n) z (y ∷ ys) z_here)),
      rw last_from-cons (ground arith),
    )

-- In a log that is numbered one after the other, the entry that is found is the last one, or the one
-- at the next index is there too, and what stands before that ends with the entry found.
pub find-Next :
    (i : ℤ) (n : ℕ) (es : List Entry) (e : Entry) {x : Entry}
    → IsContiguous n es
    → find i es ≡ some x
    → Next i es x (last_from e es)
find-Next i n [] e h f = absurd (unfold find in cc f)
find-Next i n (z ∷ es) e h f = elim (Bool-cases (z.index ==ℤ i)) [
  | inl here ↦
      let at_n : i ≡ pos n = sym ((==ℤ_iff z.index i).0 here) ∙ h.0 in
      let found : z ≡ _ = same_entry (sym (find-here i z es here) ∙ f) in
      rw (at_n, ← found) (find-Next_here n z es e h)
  | inr later ↦
      let f' = sym (find-skip i z es later) ∙ f in
      let z_skip : (z.index ==ℤ (i +ℤ pos 1)) ≡ false = rw h.0 (
        above (pos n) i
          (let b : pos (suc n) ≤ℤ i = find-bound i (suc n) es h.1 f' in omega arith)) in
      skip-Next i z es e later z_skip (find-Next i (suc n) es z h.1 f')
]
