-- ===== src/PersistenceFile.antt =====
-- src/PersistenceFile.h and src/PersistenceFile.cpp: the log file of a cluster node or a server.
-- Every operation on the cluster's file first reopens `pFIn` (`resetFileStream`), so the place where
-- an earlier one stopped reading is no part of the state.
pub mod Loop
pub mod Abstract
pub mod Refinement
pub mod Contiguous
use cabinet.Base.{
  Bool, Bytes, Code, [], err, false, if◌then◌else◌, length, ok, suc, true, zero, ℕ, ℤ, ◌++◌, ◌==ℤ◌,
}
use cabinet.Entry.{Entry, InStream, empty_entry, read_entry, write_entry}

pub record PersistenceFile : Type 0 where
  pub file : Bytes
  -- whether `pFIn.open` and `pFOut.open` succeed, as the file system decides
  pub readable : Bool
  pub writable : Bool

-- `resetFileStream`, with its result
unfoldable pub reset_file_stream : PersistenceFile → Code × InStream
reset_file_stream pf =
    if pf.readable
    then (ok, record { left = pf.file; good = true })
    else (err, record { left = []; good = false })

-- `getNextPFEntry`, with its result
unfoldable pub get_next_pf_entry : InStream → Entry → Code × Entry × InStream
get_next_pf_entry s e = let (e', s') = read_entry s e in (if s'.good then ok else err, e', s')

-- What the body of a reading loop does with an entry: leave the loop, or read on.
pub data Visit {ℓ} (A : Type ℓ) : Type ℓ where
  break : A → Visit A
  continue : A → Visit A

abbrev pub after_visit {ℓ} : {A : Type ℓ} → Visit A → Entry → (A → Entry × A) → Entry × A
after_visit (break a) e go_on = (e, a)
after_visit (continue a) e go_on = go_on a

-- The rest of a round, after `getNextPFEntry`.
abbrev pub after_next {ℓ} :
    {A : Type ℓ}
    → Code × Entry × InStream
    → (Entry → A → Visit A)
    → A
    → (InStream → Entry → A → Entry × A)
    → Entry × A
after_next (ok, e, s) visit a go_on = after_visit (visit e a) e (go_on s e)
after_next (err, e, s) visit a go_on = (e, a)

-- `while (getNextPFEntry(entry) != CABINET_ERR) { ... }` over a value that the body changes.
-- The result is the entry variable and the value after the loop.
unfoldable pub read_while {ℓ} :
    {A : Type ℓ} → ℕ → (Entry → A → Visit A) → InStream → Entry → A → Entry × A
read_while zero visit s e a = (e, a)
read_while (suc fuel) visit s e a =
    after_next (get_next_pf_entry s e) visit a (read_while fuel visit)

-- More rounds than the file has bytes: each round but the last reads three delimiters.
abbrev pub rounds : InStream → ℕ
rounds s = suc (length s.left)

abbrev pub stop_at : ℤ → Entry → Bool → Visit Bool
stop_at index e found = if e.index ==ℤ index then break true else continue false

-- `findEntry`: the code, and the entry that the reference argument then holds
unfoldable pub find_entry : ℤ → PersistenceFile → Entry → Code × Entry
unfolding read_while reset_file_stream
find_entry index pf e =
    let s = (reset_file_stream pf).1 in
    let (e', found) = read_while (rounds s) (stop_at index) s e false in
    (if found then ok else err, e')

abbrev pub read_on : Entry → Unit {0} → Visit (Unit {0})
read_on e u = continue u

-- The part of `findLastEntry` after its first read, and the part after the reset.
unfoldable pub last_after_read : Code × Entry × InStream → Code × Entry
unfolding read_while
last_after_read (ok, e, s) = (ok, (read_while (rounds s) read_on s e tt).0)
last_after_read (err, e, s) = (err, e)

unfoldable pub last_after_reset : Code × InStream → Entry → Code × Entry
unfolding last_after_read
last_after_reset (ok, s) e = last_after_read (get_next_pf_entry s e)
last_after_reset (err, s) e = (err, e)

-- `findLastEntry`
unfoldable pub find_last_entry : PersistenceFile → Entry → Code × Entry
unfolding last_after_reset reset_file_stream
find_last_entry pf e = last_after_reset (reset_file_stream pf) e

abbrev pub copy_until : ℤ → Entry → Bytes → Visit Bytes
copy_until index e tmp = if e.index ==ℤ index then break tmp else continue (tmp ++ write_entry e)

-- The part of `deleteEntryAfter` after its loop: the temporary file takes the place of the file if
-- the loop ended at the index. Opening it to write is the last thing that can fail.
unfoldable pub replace_by : ℤ → PersistenceFile → Entry × Bytes → Code × PersistenceFile
replace_by index pf (e, tmp) =
    if e.index ==ℤ index
    then (if pf.writable then ok else err, record pf { file = tmp })
    else (err, pf)

unfoldable pub delete_after_reset : ℤ → PersistenceFile → Code × InStream → Code × PersistenceFile
unfolding replace_by read_while
delete_after_reset index pf (ok, s) =
    replace_by index pf (read_while (rounds s) (copy_until index) s empty_entry [])
delete_after_reset index pf (err, s) = (ok, pf)

-- `deleteEntryAfter`: the entries before the first with this index go to the temporary file.
unfoldable pub delete_entry_after : ℤ → PersistenceFile → Code × PersistenceFile
unfolding delete_after_reset reset_file_stream
delete_entry_after index pf = delete_after_reset index pf (reset_file_stream pf)

-- `deleteAllEntry`
unfoldable pub delete_all_entry : PersistenceFile → PersistenceFile
delete_all_entry pf = record pf { file = [] }

-- `appendToPF`
unfoldable pub append_to_pf : Entry → PersistenceFile → Code × PersistenceFile
append_to_pf e pf =
    if pf.writable then (ok, record pf { file = pf.file ++ write_entry e }) else (err, pf)
