-- ===== src/PersistenceFile/Loop.antt =====
-- The reading loop over the text of a list of entries visits exactly these entries, and the fuel is
-- enough.
use mathlib.Core.Path.{fun_ext}
use cabinet.Base.{
  All, Bytes, List, [], ap, arith, err, false, length, length-append, ok, suc, true, zero, ℕ, ◌++◌,
  ◌<◌, ◌∙◌, ◌∷◌, ◌≡◌,
}
use cabinet.Entry.{Entry, delimiter, write_entry}
use cabinet.Entry.RoundTrip.{IsStorable, read_entry-end, read_entry-write_entry}
use cabinet.Number.{to_string}
use cabinet.PersistenceFile.{Visit, after_next, after_visit, get_next_pf_entry, read_while}
use cabinet.PersistenceFile.Abstract.{write_entries}

-- The loop, on the entries.
unfoldable pub walk {ℓ} : {A : Type ℓ} → (Entry → A → Visit A) → List Entry → Entry → A → Entry × A
walk visit [] e a = (e, a)
walk visit (x ∷ xs) e a = after_visit (visit x a) x (walk visit xs x)

pub next-write_entry :
    (w e : Entry) (rest : Bytes)
    → IsStorable w
    → get_next_pf_entry (record { left = write_entry w ++ rest; good = true }) e
      ≡ (ok, w, record { left = rest; good = true })
next-write_entry w e rest h = unfold get_next_pf_entry in rw (read_entry-write_entry w e rest h)

pub next-end :
    (e : Entry)
    → get_next_pf_entry (record { left = []; good = true }) e
      ≡ (err, e, record { left = []; good = false })
next-end e = unfold get_next_pf_entry in rw read_entry-end

write_entry-pos : (e : Entry) → 0 < length (write_entry e)
unfolding write_entry
write_entry-pos e = omega (
  arith,
  length-append (to_string e.index)
      (delimiter ∷ (to_string e.term ++ delimiter ∷ (e.content ++ delimiter ∷ []))),
)

room :
    (x : Entry) (xs : List Entry) (fuel : ℕ)
    → length (write_entries (x ∷ xs)) < suc fuel
    → length (write_entries xs) < fuel
unfolding write_entries
room x xs fuel h =
    omega (arith, write_entry-pos x, length-append (write_entry x) (write_entries xs))

-- With fuel above the length of the text the loop over the written entries is `walk`.
pub read_while-walk {ℓ} :
    {A : Type ℓ} (fuel : ℕ) (visit : Entry → A → Visit A) (es : List Entry) (e : Entry) (a : A)
    → All IsStorable es
    → length (write_entries es) < fuel
    → read_while fuel visit (record { left = write_entries es; good = true }) e a
      ≡ walk visit es e a
unfolding read_while walk write_entries
read_while-walk zero visit es e a h lt = elim lt [ ]
read_while-walk (suc fuel) visit [] e a h lt =
    ap (λ n. after_next n visit a (read_while fuel visit)) (next-end e)
read_while-walk (suc fuel) visit (x ∷ xs) e a h lt =
    ap (λ n. after_next n visit a (read_while fuel visit))
      (next-write_entry x e (write_entries xs) h.0)
    ∙ ap (after_visit (visit x a) x)
        (fun_ext λ b. read_while-walk fuel visit xs x b h.1 (room x xs fuel lt))
