-- ===== src/Number.antt =====
-- The decimal numbers of the wire and of the persistence file: what the source uses of
-- `std::to_string`, `std::stoi` and `std::stol`.
pub mod RoundTrip
use cabinet.Base.{
  Bool, Bytes, Option, [], if◌then◌else◌, leb, ltb, neg_part, negsuc, none, pos, pos_part, some,
  suc, zero, ℕ, ℤ, ◌%◌, ◌&&◌, ◌*◌, ◌++◌, ◌+◌, ◌-◌, ◌/◌, ◌==◌, ◌^◌, ◌||◌, ◌∷◌,
}

abbrev pub is_digit : ℕ → Bool
is_digit c = leb b'0' c && leb c b'9'

-- `isspace` in the C locale
abbrev pub is_space : ℕ → Bool
is_space c = c == 32 || (leb 9 c && leb c 13)

-- The decimal digits of `n`; fuel above `n` is enough.
unfoldable pub digits : ℕ → ℕ → Bytes
digits zero n = []
digits (suc f) n =
    let more = digits f (n / 10) ++ (b'0' + n % 10) ∷ [] in
    if ltb n 10 then (b'0' + n) ∷ [] else more

-- `std::to_string`
unfoldable pub to_string : ℤ → Bytes
unfolding digits
to_string (pos n) = digits (suc n) n
to_string (negsuc n) = b'-' ∷ digits (suc (suc n)) (suc n)

-- The digits at the head of a text, read onto the number `a`.
unfoldable pub read_digits : ℕ → Bytes → ℕ
read_digits a [] = a
read_digits a (c ∷ cs) =
    let more = read_digits (a * 10 + (c - b'0')) cs in if is_digit c then more else a

unfoldable pub skip_space : Bytes → Bytes
skip_space [] = []
skip_space (c ∷ cs) = let rest = skip_space cs in if is_space c then rest else c ∷ cs

-- No digit where one is needed is `std::invalid_argument`.
unfoldable pub read_unsigned : Bytes → Option ℕ
unfolding read_digits
read_unsigned [] = none
read_unsigned (c ∷ cs) = if is_digit c then some (read_digits 0 (c ∷ cs)) else none

abbrev pub negate : ℕ → ℤ
negate zero = pos zero
negate (suc n) = negsuc n

abbrev pub as_pos : Option ℕ → Option ℤ
as_pos none = none
as_pos (some n) = some (pos n)

abbrev pub as_neg : Option ℕ → Option ℤ
as_neg none = none
as_neg (some n) = some (negate n)

unfoldable pub read_signed : Bytes → Option ℤ
unfolding read_unsigned
read_signed [] = none
read_signed (c ∷ cs) =
    if c == b'-'
    then as_neg (read_unsigned cs)
    else if c == b'+'
    then as_pos (read_unsigned cs)
    else as_pos (read_unsigned (c ∷ cs))

-- A value outside the type is `std::out_of_range`; `half` is 2 ^ 31 or 2 ^ 63.
abbrev pub in_range : ℕ → ℤ → Bool
in_range half n = ltb (pos_part n) half && leb (neg_part n) half

abbrev pub check_range : ℕ → Option ℤ → Option ℤ
check_range half none = none
check_range half (some n) = if in_range half n then some n else none

abbrev pub int_half : ℕ
int_half = 2 ^ 31

abbrev pub long_half : ℕ
long_half = 2 ^ 63

-- `std::stoi` and `std::stol`; `none` is an exception.
unfoldable pub sto : ℕ → Bytes → Option ℤ
unfolding read_signed skip_space
sto half s = check_range half (read_signed (skip_space s))

abbrev pub stoi : Bytes → Option ℤ
stoi = sto int_half

abbrev pub stol : Bytes → Option ℤ
stol = sto long_half
