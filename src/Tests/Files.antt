-- ===== src/Tests/Files.antt =====
-- The log file on a log of two entries.
use cabinet.Base.{[], codes, negsuc, ok, pos, refl, some, true, ◌++◌, ◌∷◌, ◌≡◌}
use cabinet.Entry.{empty_entry, read_entry, write_entry}
use cabinet.Entry.RoundTrip.{read_entry-write_entry}
use cabinet.Number.{int_half, sto, to_string}
use cabinet.Number.RoundTrip.{sto-to_string}
use cabinet.PersistenceFile.{append_to_pf, delete_entry_after, find_entry, find_last_entry}
use cabinet.PersistenceFile.Abstract.{Holds, before, find, last_from}
use cabinet.PersistenceFile.Refinement.{
  append_to_pf-Holds, delete_entry_after-Holds, find_entries-Holds, found_last, found_or,
}
use cabinet.Tests.Samples.{
  entry_three, entry_three-IsStorable, entry_two, sample_file, sample_file-Holds, two_entries,
}

append_to_pf-Holds_example :
    ((append_to_pf entry_three sample_file).0 ≡ ok)
    × Holds (append_to_pf entry_three sample_file).1 (two_entries ++ entry_three ∷ [])
append_to_pf-Holds_example = append_to_pf-Holds sample_file-Holds entry_three entry_three-IsStorable

find_entries-Holds_example :
    (find_entry (pos 2) sample_file empty_entry
      ≡ found_or (find (pos 2) two_entries) (last_from empty_entry two_entries))
    × (find_last_entry sample_file empty_entry ≡ found_last two_entries empty_entry)
find_entries-Holds_example = find_entries-Holds sample_file-Holds (pos 2) empty_entry

find_two : find (pos 2) two_entries ≡ some entry_two
unfolding find
find_two = refl

delete_entry_after-Holds_example :
    (delete_entry_after (pos 2) sample_file).0 ≡ ok
    × Holds (delete_entry_after (pos 2) sample_file).1 (before (pos 2) two_entries)
delete_entry_after-Holds_example = delete_entry_after-Holds sample_file-Holds (pos 2) find_two

read_entry-write_entry_example :
    read_entry (record { left = write_entry entry_three ++ codes "more"; good = true }) empty_entry
    ≡ (entry_three, record { left = codes "more"; good = true })
read_entry-write_entry_example =
    read_entry-write_entry entry_three empty_entry (codes "more") entry_three-IsStorable

sto-to_string_example : sto int_half (to_string (negsuc 41) ++ codes ";") ≡ some (negsuc 41)
sto-to_string_example = sto-to_string int_half (negsuc 41) (codes ";") refl refl
