-- ===== src/Number/RoundTrip.antt =====
-- `stoi` and `stol` read back what `to_string` printed.
use cabinet.Base.{
  All, All-append, Bool-cases, Bytes, [], ap, append_assoc, arith, false, inl, inr, ltb, negsuc,
  pos, refl, some, suc, true, zero, ℕ, ℤ, ◌%◌, ◌++◌, ◌+◌, ◌/◌, ◌<◌, ◌==◌, ◌∙◌, ◌∷◌, ◌≡◌,
}
use cabinet.Number.{
  as_neg, as_pos, digits, in_range, is_digit, read_digits, read_signed, read_unsigned, skip_space,
  sto, to_string,
}

-- The text goes on with something that is not a digit.
abbrev pub Ends : Bytes → Type 0
Ends [] = Unit {0}
Ends (c ∷ _) = is_digit c ≡ false

-- Digits that were printed are read onto the number before them.
read_digits-digits :
    (f n : ℕ) (rest : Bytes) → n < f → read_digits 0 (digits f n ++ rest) ≡ read_digits n rest
unfolding digits read_digits
read_digits-digits zero n rest h = elim h [ ]
read_digits-digits (suc f) n rest h = elim (Bool-cases (ltb n 10)) [
  | inl small ↦ ground arith
  | inr large ↦
      rw large (rw append_assoc (read_digits-digits f (n / 10) _ (ground arith) ∙ ground arith))
]

-- What is read up to the end of the digits.
read_digits-Ends : (a : ℕ) (rest : Bytes) → Ends rest → read_digits a rest ≡ a
unfolding read_digits
read_digits-Ends a [] h = refl
read_digits-Ends a (c ∷ cs) h = rw h

abbrev pub IsDigits : Bytes → Type 0
IsDigits = All (λ c. is_digit c ≡ true)

pub digits-IsDigits : (f n : ℕ) → IsDigits (digits f n)
unfolding digits
digits-IsDigits zero n = tt
digits-IsDigits (suc f) n = elim (Bool-cases (ltb n 10)) [
  | inl small ↦ rw small (ground arith, tt)
  | inr large ↦
      rw large (All-append _ (digits f (n / 10)) _ (digits-IsDigits f (n / 10)) (ground arith, tt))
]

digits-cons : (f n : ℕ) → n < f → (c : ℕ) × (cs : Bytes) × (digits f n ≡ c ∷ cs)
unfolding digits
digits-cons zero n h = elim h [ ]
digits-cons (suc f) n h = elim (Bool-cases (ltb n 10)) [
  | inl small ↦ (b'0' + n, [], rw small)
  | inr large ↦
      let (c, cs, e) = digits-cons f (n / 10) (ground arith) in
      (c, cs ++ (b'0' + n % 10) ∷ [], rw (large, e))
]

skip_space-digit : (c : ℕ) (cs : Bytes) → is_digit c ≡ true → skip_space (c ∷ cs) ≡ c ∷ cs
unfolding skip_space
skip_space-digit c cs h = ground arith

read_unsigned-digit :
    (c : ℕ) (cs : Bytes)
    → is_digit c ≡ true
    → read_unsigned (c ∷ cs) ≡ some (read_digits 0 (c ∷ cs))
unfolding read_unsigned
read_unsigned-digit c cs h = rw h

read_signed-digit :
    (c : ℕ) (cs : Bytes)
    → is_digit c ≡ true
    → read_signed (c ∷ cs) ≡ as_pos (read_unsigned (c ∷ cs))
read_signed-digit c cs h = unfold read_signed in ground arith

-- A printed number in front of `rest` is read back.
read_unsigned-digits :
    (f n : ℕ) (rest : Bytes) → n < f → Ends rest → read_unsigned (digits f n ++ rest) ≡ some n
read_unsigned-digits f n rest h e =
    let (c, cs, q) = digits-cons f n h in
    let d : IsDigits (c ∷ cs) = rw q at (digits-IsDigits f n) in
    let r : read_digits 0 (c ∷ (cs ++ rest)) ≡ n =
      rw q at (read_digits-digits f n rest h ∙ read_digits-Ends n rest e) in
    rw q (read_unsigned-digit c (cs ++ rest) (d.0) ∙ ap some r)

-- A printed number is read as signed one, past no white space.
read_signed-digits :
    (f n : ℕ) (rest : Bytes)
    → n < f
    → Ends rest
    → read_signed (skip_space (digits f n ++ rest)) ≡ some (pos n)
read_signed-digits f n rest h e =
    let (c, cs, q) = digits-cons f n h in
    let d : is_digit c ≡ true = (rw q at (digits-IsDigits f n)).0 in
    let r : read_unsigned (c ∷ (cs ++ rest)) ≡ some n =
      rw q at (read_unsigned-digits f n rest h e) in
    rw q (rw (skip_space-digit c (cs ++ rest) d, read_signed-digit c (cs ++ rest) d, r))

read_signed-minus : (s : Bytes) → read_signed (skip_space (b'-' ∷ s)) ≡ as_neg (read_unsigned s)
read_signed-minus s = unfold read_signed skip_space in refl

-- The text that `to_string` prints for `n`, with anything behind it that is no digit, is read by
-- `stoi` (at `half` 2 ^ 31) and `stol` (at 2 ^ 63) as `n`, if `n` is a value of the type.
pub sto-to_string :
    (half : ℕ) (n : ℤ) (rest : Bytes)
    → in_range half n ≡ true
    → Ends rest
    → sto half (to_string n ++ rest) ≡ some n
sto-to_string half (pos n) rest h e =
    unfold sto to_string in rw (read_signed-digits (suc n) n rest (omega arith) e) (rw h)
sto-to_string half (negsuc n) rest h e =
    unfold sto to_string in
    rw (read_signed-minus, read_unsigned-digits (suc (suc n)) (suc n) rest (omega arith) e) (rw h)

-- No byte of a printed number is the byte `c`, unless it is a digit or a minus sign.
abbrev pub Lacks : ℕ → Bytes → Type 0
Lacks c = All (λ b. (b == c) ≡ false)

digits-Lacks : (c : ℕ) (s : Bytes) → is_digit c ≡ false → IsDigits s → Lacks c s
digits-Lacks c [] h d = tt
digits-Lacks c (b ∷ s) h d = (ground arith, digits-Lacks c s h d.1)

pub to_string-Lacks :
    (c : ℕ) (n : ℤ) → is_digit c ≡ false → (b'-' == c) ≡ false → Lacks c (to_string n)
unfolding to_string
to_string-Lacks c (pos n) h m = digits-Lacks c _ h (digits-IsDigits (suc n) n)
to_string-Lacks c (negsuc n) h m = (m, digits-Lacks c _ h (digits-IsDigits (suc (suc n)) (suc n)))
