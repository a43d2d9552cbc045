-- ===== src/Entry/RoundTrip.antt =====
-- An entry that was written is read back, whatever stands behind it in the file.
use cabinet.Base.{Bytes, [], append-nil, append_assoc, false, refl, some, true, ℤ, ◌++◌, ◌∷◌, ◌≡◌}
use cabinet.Entry.{
  Entry, delimiter, read_content, read_entry, read_index, read_term, set_fields, split_line,
  write_entry,
}
use cabinet.Number.{in_range, int_half, stoi, to_string}
use cabinet.Number.RoundTrip.{Lacks, sto-to_string, to_string-Lacks}

-- The entries whose text `operator>>` reads back: `stoi` takes index and term, and the content
-- holds no delimiter.
pub record IsStorable (e : Entry) : Type 0 where
  pub index_fits : in_range int_half e.index ≡ true
  pub term_fits : in_range int_half e.term ≡ true
  pub content_clean : Lacks delimiter e.content

split_line-Lacks :
    (s rest : Bytes) → Lacks delimiter s → split_line (s ++ delimiter ∷ rest) ≡ (s, rest, true)
unfolding split_line
split_line-Lacks [] rest h = refl
split_line-Lacks (c ∷ cs) rest h = rw (h.0, split_line-Lacks cs rest h.1)

split_line-number :
    (n : ℤ) (rest : Bytes)
    → split_line (to_string n ++ delimiter ∷ rest) ≡ (to_string n, rest, true)
split_line-number n rest =
    split_line-Lacks (to_string n) rest (to_string-Lacks delimiter n refl refl)

stoi-to_string : (n : ℤ) → in_range int_half n ≡ true → stoi (to_string n) ≡ some n
stoi-to_string n h = rw append-nil at (sto-to_string int_half n [] h tt)

set_fields_lem :
    (w e : Entry) → IsStorable w → set_fields (to_string w.index) (to_string w.term) w.content e ≡ w
unfolding set_fields
set_fields_lem w e h = rw (stoi-to_string w.index h.index_fits, stoi-to_string w.term h.term_fits)

-- Reading from a good stream whose text begins with the written form of an entry `w` gives `w`,
-- leaves the rest of the text, and leaves the stream good, if index and term of `w` are `int` values
-- and its content has no delimiter.
pub read_entry-write_entry :
    (w e : Entry) (rest : Bytes)
    → IsStorable w
    → read_entry (record { left = write_entry w ++ rest; good = true }) e
      ≡ (w, record { left = rest; good = true })
unfolding read_entry read_index read_term read_content write_entry
read_entry-write_entry w e rest h =
    rw (append_assoc, append_assoc, append_assoc)
      (rw split_line-number (
        rw split_line-number
          (rw (split_line-Lacks w.content rest h.content_clean, set_fields_lem w e h))))

-- At the end of the file a read fails and leaves the entry as it was.
pub read_entry-end :
    (e : Entry)
    → read_entry (record { left = []; good = true }) e ≡ (e, record { left = []; good = false })
unfolding read_entry read_index split_line
read_entry-end e = refl
