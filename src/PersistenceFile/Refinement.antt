-- ===== src/PersistenceFile/Refinement.antt =====
-- The operations of the persistence file do to the text of a log what their names say of the log.
use cabinet.Base.{
  All, All-append, Bool, Bool-cases, Bytes, Code, List, Option, [], ap, append-nil, append_assoc,
  arith, err, false, if◌then◌else◌, inl, inr, length, none, ok, refl, some, suc, true, ℤ, ◌++◌,
  ◌==ℤ◌, ◌∙◌, ◌∷◌, ◌≡◌,
}
use cabinet.Entry.{Entry, InStream, empty_entry, write_entry}
use cabinet.Entry.RoundTrip.{IsStorable}
use cabinet.PersistenceFile.{
  PersistenceFile, Visit, append_to_pf, copy_until, delete_after_reset, delete_all_entry,
  delete_entry_after, find_entry, find_last_entry, last_after_read, last_after_reset, read_on,
  read_while, replace_by, reset_file_stream, rounds, stop_at,
}
use cabinet.PersistenceFile.Abstract.{
  Holds, before, find, last_from, write_entries, write_entries-append,
}
use cabinet.PersistenceFile.Loop.{next-end, next-write_entry, read_while-walk, walk}

-- What `findEntry` returns: where the index is not there, the last entry that was read is left in
-- the reference argument.
abbrev pub found_or : Option Entry → Entry → Code × Entry
found_or none e = (err, e)
found_or (some x) e = (ok, x)

-- What `findLastEntry` returns.
abbrev pub found_last : List Entry → Entry → Code × Entry
found_last [] e = (err, e)
found_last (x ∷ xs) e = (ok, last_from x xs)

abbrev code_of : Entry × Bool → Code × Entry
code_of (e, found) = (if found then ok else err, e)

walk-stop_at :
    (i : ℤ) (es : List Entry) (e : Entry)
    → code_of (walk (stop_at i) es e false) ≡ found_or (find i es) (last_from e es)
unfolding walk find last_from
walk-stop_at i [] e = refl
walk-stop_at i (x ∷ es) e = elim (Bool-cases (x.index ==ℤ i)) [
  | inl here ↦ rw here
  | inr later ↦ rw later (walk-stop_at i es x)
]

walk-read_on : (es : List Entry) (e : Entry) → (walk read_on es e tt).0 ≡ last_from e es
unfolding walk last_from
walk-read_on [] e = refl
walk-read_on (x ∷ es) e = walk-read_on es x

-- The loop of `deleteEntryAfter` stops on the index exactly if the log has it (or, in a log of no
-- entry, if it is 0), and has then copied what stands before.
walk-copy_until :
    (i : ℤ) (es : List Entry) (e : Entry) (tmp : Bytes) {x : Entry}
    → find i es ≡ some x
    → walk (copy_until i) es e tmp ≡ (x, tmp ++ write_entries (before i es))
unfolding walk find before write_entries
walk-copy_until i [] e tmp h = cc
walk-copy_until i (y ∷ es) e tmp h = elim (Bool-cases (y.index ==ℤ i)) [
  | inl here ↦ rw (here, append-nil) (ground arith)
  | inr later ↦
      rw later (walk-copy_until i es y (tmp ++ write_entry y) (rw later at h) ∙ rw append_assoc)
]

find-index : (i : ℤ) (es : List Entry) {x : Entry} → find i es ≡ some x → (x.index ==ℤ i) ≡ true
unfolding find
find-index i [] h = cc
find-index i (y ∷ es) h = elim (Bool-cases (y.index ==ℤ i)) [
  | inl here ↦ ground arith
  | inr later ↦ find-index i es (rw later at h)
]

pub All-before : (i : ℤ) (es : List Entry) → All IsStorable es → All IsStorable (before i es)
unfolding before
All-before i [] h = tt
All-before i (y ∷ es) h = elim (Bool-cases (y.index ==ℤ i)) [
  | inl here ↦ rw here tt
  | inr later ↦ rw later (h.0, All-before i es h.1)
]

last_of_stream :
    (es : List Entry) (e : Entry)
    → All IsStorable es
    → last_after_reset (ok, record { left = write_entries es; good = true }) e ≡ found_last es e
unfolding last_after_reset write_entries
last_of_stream [] e h = ap last_after_read (next-end e)
last_of_stream (x ∷ xs) e h =
    ap last_after_read (next-write_entry x e (write_entries xs) h.0)
    ∙ ap (λ (r : Entry × Unit {0}). (let c : Code × Entry = (ok, r.0) in c))
        (read_while-walk (suc (length (write_entries xs))) read_on xs x tt h.1 (omega arith))
    ∙ ap (λ (y : Entry). (let c : Code × Entry = (ok, y) in c)) (walk-read_on xs x)

find_last_entry_lem :
    (pf : PersistenceFile) (e : Entry)
    → find_last_entry pf e ≡ last_after_reset (reset_file_stream pf) e
find_last_entry_lem pf e = unfold find_last_entry in refl

delete_entry_after_lem :
    (i : ℤ) (pf : PersistenceFile)
    → delete_entry_after i pf ≡ delete_after_reset i pf (reset_file_stream pf)
delete_entry_after_lem i pf = unfold delete_entry_after in refl

delete_after_reset_lem :
    (i : ℤ) (pf : PersistenceFile) (s : InStream)
    → delete_after_reset i pf (ok, s)
      ≡ replace_by i pf (read_while (rounds s) (copy_until i) s empty_entry [])
delete_after_reset_lem i pf s = unfold delete_after_reset in refl

module _ {pf : PersistenceFile} {es : List Entry} (h : Holds pf es) where
  abbrev pub stream : InStream
  stream = record { left = write_entries es; good = true }

  pub reset-Holds : reset_file_stream pf ≡ (ok, stream)
  unfolding reset_file_stream
  reset-Holds = rw (h.can_read, h.text)

  pub loop-Holds {ℓ} :
      {A : Type ℓ} (visit : Entry → A → Visit A) (e : Entry) (a : A)
      → read_while (rounds stream) visit stream e a ≡ walk visit es e a
  loop-Holds visit e a = read_while-walk (rounds stream) visit es e a h.storable (omega arith)

  -- `findEntry` on a file that holds `es` finds the first entry with the index, if there is one, and
  -- returns an error otherwise.
  pub find_entry-Holds :
      (i : ℤ) (e : Entry) → find_entry i pf e ≡ found_or (find i es) (last_from e es)
  unfolding find_entry
  find_entry-Holds i e =
      ap (λ (r : Code × InStream). code_of (read_while (rounds r.1) (stop_at i) r.1 e false))
        reset-Holds
      ∙ ap code_of (loop-Holds (stop_at i) e false)
      ∙ walk-stop_at i es e

  -- On a file that holds `es`, `appendToPF` of an entry whose index and term are `int` values and whose
  -- content has no delimiter succeeds, and the file then holds `es` and this entry behind them.
  pub append_to_pf-Holds :
      (e : Entry)
      → IsStorable e
      → ((append_to_pf e pf).0 ≡ ok) × Holds (append_to_pf e pf).1 (es ++ e ∷ [])
  unfolding append_to_pf
  append_to_pf-Holds e s = rw h.can_write (
    refl,
    record {
      text = rw (h.text, write_entries-append es (e ∷ [])) (unfold write_entries in rw append-nil);
      storable = All-append IsStorable es (e ∷ []) h.storable (s, tt);
      can_read = h.can_read;
      can_write = refl;
    },
  )

  -- `deleteAllEntry` leaves no entry.
  pub delete_all_entry-Holds : Holds (delete_all_entry pf) []
  unfolding delete_all_entry
  delete_all_entry-Holds = record {
    text = unfold write_entries in refl;
    storable = tt;
    can_read = h.can_read;
    can_write = h.can_write;
  }

  -- `findLastEntry` on a file that holds `es` returns the last entry, or an error for an empty log.
  pub find_last_entry-Holds : (e : Entry) → find_last_entry pf e ≡ found_last es e
  find_last_entry-Holds e =
      find_last_entry_lem pf e
      ∙ ap (λ r. last_after_reset r e) reset-Holds
      ∙ last_of_stream es e h.storable

  -- On a file that holds `es`, `deleteEntryAfter` at an index that `es` has succeeds, and the file then
  -- holds the entries before the first with that index, and no other.
  pub delete_entry_after-Holds :
      (i : ℤ) {x : Entry}
      → find i es ≡ some x
      → (delete_entry_after i pf).0 ≡ ok × Holds (delete_entry_after i pf).1 (before i es)
  delete_entry_after-Holds i {x} found = rw delete_text (
      unfold replace_by in
      rw (find-index i es found) (
        rw h.can_write (
          refl,
          record {
            text = refl;
            storable = All-before i es h.storable;
            can_read = h.can_read;
            can_write = refl;
          },
        )))
    where
      delete_text : delete_entry_after i pf ≡ replace_by i pf (x, write_entries (before i es))
      delete_text =
          delete_entry_after_lem i pf
          ∙ ap (delete_after_reset i pf) reset-Holds
          ∙ delete_after_reset_lem i pf stream
          ∙ ap (replace_by i pf)
              (loop-Holds (copy_until i) empty_entry [] ∙ walk-copy_until i es empty_entry [] found)

  -- On a file that holds `es`, `findEntry` finds the first entry with the index, if there is one, and
  -- returns an error otherwise; `findLastEntry` returns the last entry, or an error for an empty log.
  pub find_entries-Holds :
      (i : ℤ) (e : Entry)
      → (find_entry i pf e ≡ found_or (find i es) (last_from e es))
        × (find_last_entry pf e ≡ found_last es e)
  find_entries-Holds i e = (find_entry-Holds i e, find_last_entry-Holds e)
