-- ===== src/Entry.antt =====
-- src/Entry.h and src/Entry.cpp: one log entry, and how it is written to and read from a file.
pub mod RoundTrip
use cabinet.Base.{
  Bool, Bytes, Option, [], false, if◌then◌else◌, none, pos, some, true, ℕ, ℤ, ◌++◌, ◌==◌, ◌∷◌,
}
use cabinet.Number.{stoi, to_string}

-- `Entry::delimiter`, '\r'
abbrev pub delimiter : ℕ
delimiter = 13

pub record Entry : Type 0 where
  pub index : ℤ
  pub term : ℤ
  pub content : Bytes

-- `Entry()`
abbrev pub empty_entry : Entry
empty_entry = record { index = pos 0; term = pos 0; content = [] }

-- An `ifstream`: what is left to read, and `good()`.
pub record InStream : Type 0 where
  pub left : Bytes
  pub good : Bool

abbrev push_front : ℕ → Bytes × Bytes × Bool → Bytes × Bytes × Bool
push_front c (line, rest, found) = (c ∷ line, rest, found)

-- `getline(in, line, Entry::delimiter)`: the line, what is left, and whether the delimiter was met.
unfoldable pub split_line : Bytes → Bytes × Bytes × Bool
split_line [] = ([], [], false)
split_line (c ∷ cs) =
    let longer = push_front c (split_line cs) in if c == delimiter then ([], cs, true) else longer

abbrev set_both : Option ℤ → Option ℤ → Bytes → Entry → Entry
set_both none term content e = e
set_both (some i) none content e = record e { index = i }
set_both (some i) (some t) content e = record { index = i; term = t; content = content }

-- The `try` block of `operator>>`: an exception of the second `stoi` leaves the index set.
unfoldable pub set_fields : Bytes → Bytes → Bytes → Entry → Entry
set_fields index term content e = set_both (stoi index) (stoi term) content e

unfoldable pub read_content : Bytes → Bytes → Bytes × Bytes × Bool → Entry → Entry × InStream
read_content index term (content, left, found) e =
    (set_fields index term content e, record { left = left; good = found })

unfoldable pub read_term : Bytes → Bytes × Bytes × Bool → Entry → Entry × InStream
read_term index (term, left, found) e =
    if found
    then read_content index term (split_line left) e
    else (e, record { left = left; good = false })

unfoldable pub read_index : Bytes × Bytes × Bool → Entry → Entry × InStream
read_index (index, left, found) e =
    if found then read_term index (split_line left) e else (e, record { left = left; good = false })

-- `operator>>(ifstream &, Entry &)`; a stream that is not good reads nothing.
unfoldable pub read_entry : InStream → Entry → Entry × InStream
read_entry s e = if s.good then read_index (split_line s.left) e else (e, s)

-- `operator<<(ofstream &, const Entry &)`
unfoldable pub write_entry : Entry → Bytes
write_entry e =
    to_string e.index ++ delimiter ∷ (to_string e.term ++ delimiter ∷ (e.content ++ delimiter ∷ []))
