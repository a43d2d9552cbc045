-- ===== src/ReplyAppendEntry/Progress.antt =====
-- What a leader learns from an answer.
use cabinet.Base.{
  ==ℤ_refl, Bool-cases, Code, ap, arith, at, codes, false, if_true, if◌then◌else◌, inl, inr, insert,
  ltbℤ, ok, pos, refl, same_bytes, some, true, ℤ, ◌&&◌, ◌+ℤ◌, ◌-ℤ◌, ◌==ℤ◌, ◌∙◌, ◌≡◌,
}
use cabinet.Cluster.{Cluster}
use cabinet.ReplyAppendEntry.{advance_sibling, handle_append_result, step_back}
use cabinet.Siblings.{
  Siblings, decrease_sibling_next_index, get_empty_append_entry, get_sibling_next_index,
  increase_sibling_next_index, is_known, set_already_append_entry, set_match_index,
}
use cabinet.Siblings.Commit.{CommitSpec, check_if_entry_could_commit-CommitSpec}
use cabinet.Siblings.Invariant.{at-insert}

abbrev next_of : ℤ → Siblings → ℤ
next_of id s = at s.next_index_map id (pos 0)

abbrev match_of : ℤ → Siblings → ℤ
match_of id s = at s.match_index_map id (pos 0)

-- The sibling holds one entry more: the one that stood next, which then counts as matched and is
-- committed if a majority has it.
abbrev pub HasAdvanced : ℤ → Cluster → Cluster → Type 0
HasAdvanced id c c' =
    (next_of id c'.siblings ≡ next_of id c.siblings +ℤ pos 1)
    × (match_of id c'.siblings ≡ next_of id c.siblings)
    × CommitSpec (next_of id c.siblings) c.commit_index c'.commit_index c'.siblings

-- Everything but the next indices of the siblings, and which of them have still to answer, is the same.
abbrev pub IsOtherwise : Cluster → Cluster → Type 0
IsOtherwise c c' =
    record c' {
      siblings = record c'.siblings {
        next_index_map = c.siblings.next_index_map;
        already_append_entry = c.siblings.already_append_entry;
      };
    }
    ≡ c

-- An entry earlier is to be tried on the sibling `id`, down to the first. A sibling `other` keeps its
-- next index and whether it has still to answer, unless it is this one.
abbrev pub HasSteppedBack : ℤ → ℤ → Cluster → Cluster → Type 0
HasSteppedBack id other c c' =
    (next_of other c'.siblings ≡ (
      if (id ==ℤ other) && ltbℤ (pos 1) (next_of id c.siblings)
      then next_of id c.siblings -ℤ pos 1
      else next_of other c.siblings))
    × (at c'.siblings.already_append_entry other false
        ≡ (if id ==ℤ other then false else at c.siblings.already_append_entry other false))
    × IsOtherwise c c'

abbrev awaits_none : ℤ → Cluster → Cluster
awaits_none id c = record c {
  siblings = record c.siblings {
    already_append_entry = insert id false c.siblings.already_append_entry;
  };
}

module _ (id : ℤ) (c : Cluster) (known : is_known c.siblings id ≡ true) where
  next_lem : get_sibling_next_index id c.siblings ≡ next_of id c.siblings
  next_lem = unfold get_sibling_next_index in if_true (is_known c.siblings id) _ _ known

  abbrev stepped : ℤ → Siblings
  stepped n = record c.siblings { next_index_map = insert id n c.siblings.next_index_map }

  increased :
      increase_sibling_next_index id c.siblings ≡ (ok, stepped (next_of id c.siblings +ℤ pos 1))
  increased = unfold increase_sibling_next_index in if_true (is_known c.siblings id) _ _ known

  decreased :
      decrease_sibling_next_index id c.siblings ≡ (ok, stepped (next_of id c.siblings -ℤ pos 1))
  decreased = unfold decrease_sibling_next_index in if_true (is_known c.siblings id) _ _ known

  abbrev matched : Siblings
  matched = record (stepped (next_of id c.siblings +ℤ pos 1)) {
    match_index_map = insert id (next_of id c.siblings) c.siblings.match_index_map;
  }

  matched_lem :
      set_match_index id (next_of id c.siblings) (stepped (next_of id c.siblings +ℤ pos 1))
      ≡ matched
  matched_lem = unfold set_match_index in if_true (is_known c.siblings id) _ _ known

  advance_sibling-HasAdvanced : HasAdvanced id c (advance_sibling id c)
  advance_sibling-HasAdvanced =
      rw (next_lem, increased, matched_lem)
        (
          at-insert c.siblings.next_index_map (pos 0) id id _
              ∙ if_true (id ==ℤ id) _ _ (==ℤ_refl id),
          at-insert c.siblings.match_index_map (pos 0) id id _
              ∙ if_true (id ==ℤ id) _ _ (==ℤ_refl id),
          check_if_entry_could_commit-CommitSpec (next_of id c.siblings) c.commit_index matched,
        )

  marked : (set_already_append_entry id false c.siblings).1 ≡ (awaits_none id c).siblings
  marked = ap (λ (r : Code × Siblings). r.1) marked_result
    where
      marked_result :
          set_already_append_entry id false c.siblings ≡ (ok, (awaits_none id c).siblings)
      marked_result = unfold set_already_append_entry in if_true (is_known c.siblings id) _ _ known

  not_empty_lem :
      at c.siblings.empty_append_entry id false ≡ false
      → get_empty_append_entry id (awaits_none id c).siblings ≡ some false
  not_empty_lem full =
      unfold get_empty_append_entry in (if_true (is_known c.siblings id) _ _ known ∙ ap some full)

module _ (id other : ℤ) (c : Cluster) (known : is_known c.siblings id ≡ true) where
  abbrev awaiting : Cluster
  awaiting = awaits_none id c

  step_back-HasSteppedBack : HasSteppedBack id other c (step_back id awaiting)
  step_back-HasSteppedBack =
      let answered = at-insert c.siblings.already_append_entry false id other false in
      rw (next_lem id awaiting known, decreased id awaiting known)
        (elim (Bool-cases (ltbℤ (pos 1) (next_of id c.siblings))) [
          | inl more ↦ rw more (
            at-insert c.siblings.next_index_map (pos 0) id other (next_of id c.siblings -ℤ pos 1)
                ∙ ground arith,
            answered,
            refl,
          )
          | inr first ↦ rw first (ground arith, answered, refl)
        ])

-- A leader that takes the answer of a known sibling to a message that carried an entry returns
-- `CABINET_OK`. After "false", the index that the sibling gets next is one lower, down to 1, and it has
-- not to answer any more; both stay as they were for every other sibling, and so does all else of the
-- node. After "true" the index is one higher, the sibling matches the log up to the index that it had
-- been sent, and the commit index is what the check of that index makes of it.
pub handle_append_result-Progress :
    (id other : ℤ) (c : Cluster)
    → is_known c.siblings id ≡ true
    → at c.siblings.empty_append_entry id false ≡ false
    → (let refused = handle_append_result id (codes "false") c in
        let taken = handle_append_result id (codes "true") c in
        ((refused.0 ≡ ok) × HasSteppedBack id other c refused.1)
        × ((taken.0 ≡ ok) × HasAdvanced id c taken.1))
unfolding handle_append_result same_bytes
handle_append_result-Progress id other c known full =
    rw (marked id c known, not_empty_lem id c known full)
      (
        (refl, step_back-HasSteppedBack id other c known),
        (refl, advance_sibling-HasAdvanced id (awaits_none id c) known),
      )
