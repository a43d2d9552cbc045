-- ===== src/ProtocolStream/Frame.antt =====
-- What the output operations write, as text, and how its line feeds are found.
use cabinet.Base.{
  Bytes, List, [], ap, arith, drop, length, pos, refl, ret, some, suc, take, true, ℕ, ℤ, ◌++◌, ◌∷◌,
  ◌≡◌,
}
use cabinet.Number.{in_range, int_half, to_string}
use cabinet.Number.RoundTrip.{Lacks, sto-to_string}
use cabinet.ProtocolStream.{byte_at, find_newline, head_number, is_available, newline}

-- The text of one part.
unfoldable pub part_text : Bytes → Bytes
part_text part = b'$' ∷ (to_string (pos (length part)) ++ newline ∷ (part ++ newline ∷ []))

unfoldable pub parts_text : List Bytes → Bytes
unfolding part_text
parts_text [] = []
parts_text (part ∷ parts) = part_text part ++ parts_text parts

unfoldable pub head_text : ℤ → Bytes
head_text argc = b'*' ∷ (to_string argc ++ newline ∷ [])

-- A message with a command type.
unfoldable pub frame : ℕ → List Bytes → Bytes
unfolding head_text parts_text
frame type parts = head_text (pos (length parts)) ++ (b'#' ∷ type ∷ newline ∷ parts_text parts)

pub take-line :
    (d : Bytes) (x : ℕ) (rest : Bytes) → take (suc (length d)) (d ++ x ∷ rest) ≡ d ++ x ∷ []
take-line [] x rest = refl
take-line (c ∷ d) x rest = ap (◌∷◌ c) (take-line d x rest)

pub drop-line : (d : Bytes) (x : ℕ) (rest : Bytes) → drop (suc (length d)) (d ++ x ∷ rest) ≡ rest
drop-line [] x rest = refl
drop-line (c ∷ d) x rest = drop-line d x rest

pub find_newline-Lacks :
    (d rest : Bytes) → Lacks newline d → find_newline (d ++ newline ∷ rest) ≡ some (length d)
unfolding find_newline
find_newline-Lacks [] rest h = refl
find_newline-Lacks (c ∷ d) rest h = rw (h.0, find_newline-Lacks d rest h.1)

-- A line feed anywhere makes the buffer available.
pub available-newline : (d rest : Bytes) → is_available (find_newline (d ++ newline ∷ rest)) ≡ true
unfolding find_newline
available-newline [] rest = refl
available-newline (c ∷ d) rest = ground (arith, available-newline d rest)

pub byte_at-append : (d : Bytes) (x : ℕ) (rest : Bytes) → byte_at (d ++ x ∷ rest) (length d) ≡ ret x
unfolding byte_at
byte_at-append [] x rest = refl
byte_at-append (c ∷ d) x rest = byte_at-append d x rest

-- The number of a line `c` digits LF.
pub head_number-line :
    (c : ℕ) (n : ℤ) (rest : Bytes)
    → in_range int_half n ≡ true
    → head_number (suc (length (to_string n))) (c ∷ (to_string n ++ newline ∷ rest)) ≡ some n
head_number-line c n rest h = rw take-line (sto-to_string int_half n (newline ∷ []) h refl)
