-- ===== src/AppendEntry/LogMatching.antt =====
-- What the check of the entry before leaves of the log.

use mathlib.Core.Path.{subst}
use cabinet.AppendEntry.{
  PrevCheck, accept, after_delete, check_empty, check_found, check_prev, cut_behind, fatal, reject,
  reject_log,
}
use cabinet.Base.{
  ==ℤ_iff, Bool, Bool-cases, Code, List, Option, [], ap, append-nil, arith, err, false, if_false,
  if_true, if◌then◌else◌, inl, inr, none, not, ok, pos, refl, some, sym, true, ℤ, ◌++◌, ◌+ℤ◌, ◌==ℤ◌,
  ◌||◌, ◌∙◌, ◌∷◌, ◌≡◌, ◌⊎◌,
}
use cabinet.Entry.{Entry, empty_entry}
use cabinet.PersistenceFile.{
  PersistenceFile, delete_all_entry, delete_entry_after, find_entry, find_last_entry,
}
use cabinet.PersistenceFile.Abstract.{Holds, before, find, last_from}
use cabinet.PersistenceFile.Contiguous.{IsContiguous, find-Next, last_from-cons}
use cabinet.PersistenceFile.Refinement.{
  delete_all_entry-Holds, delete_entry_after-Holds, find_entry-Holds, find_last_entry-Holds,
  found_last, found_or,
}

-- The log ends with the entry that the leader named: index `i` and term `t`; at index 0 it is empty.
abbrev pub EndsWith : ℤ → ℤ → List Entry → Type 0
EndsWith i t es =
    ((i ≡ pos 0) × (es ≡ []))
    ⊎ (((last_from empty_entry es).index ≡ i) × ((last_from empty_entry es).term ≡ t))

-- The file holds a beginning of the log `es`.
pub record HoldsPrefix (pf : PersistenceFile) (es kept : List Entry) : Type 0 where
  pub holds : Holds pf kept
  pub behind : List Entry
  pub splits : es ≡ kept ++ behind

-- What each end of the check promises of a node whose file holds `es`.
abbrev pub CheckSpec : ℤ → ℤ → List Entry → PrevCheck → Type 0
CheckSpec i t es (reject pf) = (kept : List Entry) × HoldsPrefix pf es kept
CheckSpec i t es fatal = ⊥
CheckSpec i t es (accept pf) = (kept : List Entry) × HoldsPrefix pf es kept × EndsWith i t kept

before-prefix : (i : ℤ) (es : List Entry) → (behind : List Entry) × (es ≡ before i es ++ behind)
unfolding before
before-prefix i [] = ([], refl)
before-prefix i (z ∷ es) = elim (Bool-cases (z.index ==ℤ i)) [
  | inl here ↦ (z ∷ es, rw here)
  | inr later ↦ let (behind, e) = before-prefix i es in (behind, rw later (ap (◌∷◌ z) e))
]

last_from-concat : (e : Entry) (xs : List Entry) (x : Entry) → last_from e (xs ++ x ∷ []) ≡ x
unfolding last_from
last_from-concat e [] x = refl
last_from-concat e (y ∷ ys) x = last_from-concat y ys x

find-index : (i : ℤ) (es : List Entry) {x : Entry} → find i es ≡ some x → x.index ≡ i
unfolding find
find-index i [] f = cc
find-index i (z ∷ es) f = elim (Bool-cases (z.index ==ℤ i)) [
  | inl here ↦ ground (arith, ==ℤ_iff z.index i)
  | inr later ↦ find-index i es (rw later at f)
]

module _ (i t : ℤ) (es : List Entry) where
  if_false_spec :
      (b : Bool) (u v : PrevCheck)
      → b ≡ false
      → CheckSpec i t es v
      → CheckSpec i t es (if b then u else v)
  if_false_spec b u v q s = subst (CheckSpec i t es) (sym (if_false b u v q)) s

  if_true_spec :
      (b : Bool) (u v : PrevCheck)
      → b ≡ true
      → CheckSpec i t es u
      → CheckSpec i t es (if b then u else v)
  if_true_spec b u v q s = subst (CheckSpec i t es) (sym (if_true b u v q)) s

  after_delete_spec :
      (d : Code × PersistenceFile)
      → d.0 ≡ ok
      → CheckSpec i t es (accept d.1)
      → CheckSpec i t es (after_delete d)
  after_delete_spec (ok, pf') q s = s
  after_delete_spec (err, pf') q s = cc

found_last-find :
    (i : ℤ) (es : List Entry) (e : Entry) {x : Entry}
    → find i es ≡ some x
    → found_last es e ≡ (ok, last_from e es)
found_last-find i [] e f = absurd (unfold find in cc f)
found_last-find i (y ∷ ys) e f =
    ap (λ (z : Entry). (let r : Code × Entry = (ok, z) in r)) (sym (last_from-cons e y ys))

module _ {pf : PersistenceFile} {es : List Entry} (h : Holds pf es) where
  whole : HoldsPrefix pf es es
  whole = record { holds = h; behind = []; splits = sym (append-nil es) }

  none_kept : HoldsPrefix (delete_all_entry pf) es []
  none_kept = record { holds = delete_all_entry-Holds h; behind = es; splits = refl }

  before_kept :
      (i : ℤ) {x : Entry}
      → find i es ≡ some x
      → HoldsPrefix (delete_entry_after i pf).1 es (before i es)
  before_kept i f = record {
    holds = (delete_entry_after-Holds h i f).1;
    behind = (before-prefix i es).0;
    splits = (before-prefix i es).1;
  }

  -- the entry before is the last one, or what stands behind it goes
  cut_behind-CheckSpec :
      (i t : ℤ) {x : Entry}
      → IsContiguous 1 es
      → find i es ≡ some x
      → (x.term ==ℤ t) ≡ true
      → CheckSpec i t es (cut_behind i t pf (ok, last_from empty_entry es))
  cut_behind-CheckSpec i t {x} c f same = elim (find-Next i 1 es empty_entry c f) [
    | inl at_end ↦ rw at_end (
        if_false_spec i t es (not (x.index ==ℤ i) || not (x.term ==ℤ t)) _ (accept pf)
          (rw ((==ℤ_iff x.index i).1 (find-index i es f), same))
          (es, whole, inr (rw at_end (find-index i es f, (==ℤ_iff x.term t).0 same))))
    | inr (z, found, kept, further) ↦
        if_true_spec i t es
          (not ((last_from empty_entry es).index ==ℤ i)
            || not ((last_from empty_entry es).term ==ℤ t))
          _ _ (rw further)
          (after_delete_spec i t es (delete_entry_after (i +ℤ pos 1) pf)
            (delete_entry_after-Holds h (i +ℤ pos 1) found).0
            (
              before (i +ℤ pos 1) es,
              before_kept (i +ℤ pos 1) found,
              inr (rw (kept, last_from-concat) (find-index i es f, (==ℤ_iff x.term t).0 same)),
            ))
  ]

  check_found-CheckSpec :
      (i t : ℤ)
      → IsContiguous 1 es
      → (o : Option Entry) → find i es ≡ o
      → (e : Entry) → CheckSpec i t es (check_found i t pf (found_or o e))
  check_found-CheckSpec i t c none f e = (es, whole)
  check_found-CheckSpec i t c (some x) f e = elim (Bool-cases (x.term ==ℤ t)) [
    | inl same ↦ if_false_spec i t es (not (x.term ==ℤ t)) _ _ (rw same) (
        subst (λ (r : Code × Entry). CheckSpec i t es (cut_behind i t pf r))
          (sym (find_last_entry-Holds h empty_entry ∙ found_last-find i es empty_entry f))
          (cut_behind-CheckSpec i t c f same))
    | inr other ↦
        if_true_spec i t es (not (x.term ==ℤ t)) _ _ (rw other) (before i es, before_kept i f)
  ]

reject_log-CheckSpec :
    (t : ℤ) {pf : PersistenceFile} (es : List Entry) (h : Holds pf es)
    → CheckSpec (pos 0) t es (reject_log pf (found_last es empty_entry).0)
reject_log-CheckSpec t [] h = ([], whole h, inl (refl, refl))
reject_log-CheckSpec t (x ∷ xs) h = ([], none_kept h)

check_empty_lem :
    (pf : PersistenceFile) → check_empty pf ≡ reject_log pf (find_last_entry pf empty_entry).0
check_empty_lem pf = unfold check_empty in refl

check_prev_lem :
    (i t : ℤ) (pf : PersistenceFile)
    → check_prev i t pf
      ≡ (if i ==ℤ pos 0 then check_empty pf else check_found i t pf (find_entry i pf empty_entry))
check_prev_lem i t pf = unfold check_prev in refl

-- On a node whose file holds `es`, numbered from 1 on, the check of the leader's entry before never
-- ends the process. Whether it rejects or accepts, the file then holds a beginning of `es`; and if it
-- accepts, that ends with an entry of the index and the term that the leader named, or is empty
-- where the leader named index 0.
pub check_prev-CheckSpec :
    (i t : ℤ) {pf : PersistenceFile} (es : List Entry)
    → Holds pf es
    → IsContiguous 1 es
    → CheckSpec i t es (check_prev i t pf)
check_prev-CheckSpec i t {pf} es h c = elim (Bool-cases (i ==ℤ pos 0)) [
  | inl zero_index ↦
      subst (CheckSpec i t es)
        (sym (check_prev_lem i t pf ∙ if_true (i ==ℤ pos 0) _ _ zero_index ∙ check_empty_lem pf))
        (rw ((==ℤ_iff i (pos 0)).0 zero_index) (
          subst (λ (r : Code × Entry). CheckSpec (pos 0) t es (reject_log pf r.0))
            (sym (find_last_entry-Holds h empty_entry)) (reject_log-CheckSpec t es h)))
  | inr later ↦
      subst (CheckSpec i t es) (sym (check_prev_lem i t pf ∙ if_false (i ==ℤ pos 0) _ _ later)) (
        subst (λ (r : Code × Entry). CheckSpec i t es (check_found i t pf r))
          (sym (find_entry-Holds h i empty_entry))
          (check_found-CheckSpec h i t c (find i es) refl (last_from empty_entry es)))
]
