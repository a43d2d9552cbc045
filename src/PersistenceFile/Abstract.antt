-- ===== src/PersistenceFile/Abstract.antt =====
-- The log that a persistence file stands for: a list of entries, and its operations.
use cabinet.Base.{
  All, Bytes, List, Option, [], append_assoc, if◌then◌else◌, none, refl, some, true, ℤ, ◌++◌, ◌==ℤ◌,
  ◌∷◌, ◌≡◌,
}
use cabinet.Entry.{Entry, write_entry}
use cabinet.Entry.RoundTrip.{IsStorable}
use cabinet.PersistenceFile.{PersistenceFile}

-- The text of a list of entries.
unfoldable pub write_entries : List Entry → Bytes
write_entries [] = []
write_entries (e ∷ es) = write_entry e ++ write_entries es

-- The first entry with this index.
unfoldable pub find : ℤ → List Entry → Option Entry
find i [] = none
find i (e ∷ es) = if e.index ==ℤ i then some e else find i es

-- The last entry, or `e` if there is none.
unfoldable pub last_from : Entry → List Entry → Entry
last_from e [] = e
last_from e (x ∷ xs) = last_from x xs

-- The entries before the first with this index.
unfoldable pub before : ℤ → List Entry → List Entry
before i [] = []
before i (e ∷ es) = if e.index ==ℤ i then [] else e ∷ before i es

-- The file works and holds exactly the entries `es`.
pub record Holds (pf : PersistenceFile) (es : List Entry) : Type 0 where
  pub text : pf.file ≡ write_entries es
  pub storable : All IsStorable es
  pub can_read : pf.readable ≡ true
  pub can_write : pf.writable ≡ true

pub write_entries-append :
    (xs ys : List Entry) → write_entries (xs ++ ys) ≡ write_entries xs ++ write_entries ys
unfolding write_entries
write_entries-append [] ys = refl
write_entries-append (x ∷ xs) ys = rw (write_entries-append xs ys, append_assoc)
