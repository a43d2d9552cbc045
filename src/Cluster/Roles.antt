-- ===== src/Cluster/Roles.antt =====
-- What a node knows and has sent when it changes its role.

use mathlib.Core.Path.{subst}
use cabinet.Base.{
  Bool-cases, Code, IntMap, List, [], ap, arith, at, false, if_true, inl, inr, insert, not, pos,
  refl, ret, true, ℤ, ◌&&◌, ◌++◌, ◌+ℤ◌, ◌==ℤ◌, ◌∙◌, ◌∷◌, ◌≡◌, ◌⊎◌,
}
use cabinet.Client.{Sent}
use cabinet.Cluster.{
  Cluster, as_candidate, is_candidate, leader, request_votes, send_request_vote, to_candidate,
  to_lead,
}
use cabinet.Entry.{Entry, empty_entry}
use cabinet.PersistenceFile.{find_last_entry}
use cabinet.PersistenceFile.Abstract.{Holds, last_from}
use cabinet.PersistenceFile.Refinement.{find_last_entry-Holds}
use cabinet.Siblings.{
  Siblings, insert_all, need_append_entry, set_already_append_entry_batch, set_match_index_batch,
  set_next_index_batch,
}
use cabinet.Siblings.Invariant.{IsSound, at-insert}

module _ (s : Siblings) (sound : IsSound s) where
  request_votes-IsSound :
      (c : Cluster) (ids : List ℤ)
      → is_candidate c.role ≡ true
      → (sent : List Sent) × (request_votes c (need_append_entry s ids) ≡ ret sent)
  unfolding request_votes need_append_entry
  request_votes-IsSound c [] role = ([], refl)
  request_votes-IsSound c (id ∷ ids) role =
      let (rest, sent) = request_votes-IsSound c ids role in
      elim (Bool-cases (at s.connect_status id false && not (at s.already_append_entry id false))) [
        | inr skipped ↦ (rest, rw skipped sent)
        | inl asked ↦
            let (client, has) = sound id (ground arith) in
            (send_request_vote c client ++ rest, rw (asked, has, role, sent) refl)
      ]

-- On a node whose connected siblings have connections, `toCandidate` follows no null pointer: it
-- returns, and the node is a candidate of the next term that has voted for itself.
pub to_candidate-returns :
    (now : ℤ) (c : Cluster)
    → IsSound c.siblings
    → (sent : List Sent) × (to_candidate now c ≡ ret (as_candidate now c, sent))
unfolding to_candidate
to_candidate-returns now c sound =
    let (sent, e) =
      request_votes-IsSound c.siblings sound (as_candidate now c) c.siblings.cluster_id_vector
        refl in
    (sent, rw e refl)

-- `id` is one of these numbers.
abbrev pub IsOneOf : ℤ → List ℤ → Type 0
IsOneOf id [] = ⊥
IsOneOf id (j ∷ ids) = ((j ==ℤ id) ≡ true) ⊎ IsOneOf id ids

module _ {ℓ} {V : Type ℓ} (v default : V) where
  at-insert_all-held :
      (ids : List ℤ) (id : ℤ) (m : IntMap V)
      → at m id default ≡ v
      → at (insert_all v ids m) id default ≡ v
  unfolding insert_all
  at-insert_all-held [] id m h = h
  at-insert_all-held (j ∷ ids) id m h =
      at-insert_all-held ids id (insert j v m) (at-insert m default j id v ∙ ground (arith, h))

  at-insert_all :
      (ids : List ℤ) (id : ℤ) (m : IntMap V)
      → IsOneOf id ids
      → at (insert_all v ids m) id default ≡ v
  unfolding insert_all
  at-insert_all [] id m h = absurd h
  at-insert_all (j ∷ ids) id m (inl same) =
      at-insert_all-held ids id (insert j v m)
        (at-insert m default j id v ∙ if_true (j ==ℤ id) _ _ same)
  at-insert_all (j ∷ ids) id m (inr later) = at-insert_all ids id (insert j v m) later

-- What a new leader of a log that ends at `last` assumes of a sibling: it still needs everything
-- behind that, matches nothing, and waits for no answer.
abbrev pub IsFresh : ℤ → Siblings → ℤ → Type 0
IsFresh last s id =
    (at s.next_index_map id (pos 0) ≡ last +ℤ pos 1)
    × (at s.match_index_map id (pos 0) ≡ pos 0)
    × (at s.already_append_entry id false ≡ false)

module _ (c : Cluster) (x : Entry) (xs : List Entry) (h : Holds c.pf (x ∷ xs)) where
  to_lead_last : (find_last_entry c.pf empty_entry).1 ≡ last_from x xs
  to_lead_last = ap (λ (r : Code × Entry). r.1) (find_last_entry-Holds h empty_entry)

  to_lead-IsFresh :
      (id : ℤ)
      → IsOneOf id c.siblings.cluster_id_vector
      → IsFresh (find_last_entry c.pf empty_entry).1.index (to_lead c).siblings id
  unfolding to_lead set_next_index_batch set_match_index_batch set_already_append_entry_batch
  to_lead-IsFresh id one =
      let ids = c.siblings.cluster_id_vector in
      let last = (find_last_entry c.pf empty_entry).1.index in
      (
        at-insert_all (last +ℤ pos 1) (pos 0) ids id c.siblings.next_index_map one,
        at-insert_all (pos 0) (pos 0) ids id c.siblings.match_index_map one,
        at-insert_all false false ids id c.siblings.already_append_entry one,
      )

  -- A node whose log is not empty and that becomes the leader stays in its term, takes the index of
  -- its last entry for the number of the last entry and for the commit index, whatever the commit
  -- index was, and expects of each of its siblings that it needs the entries behind that one.
  pub to_lead-Leads :
      (id : ℤ)
      → IsOneOf id c.siblings.cluster_id_vector
      → ((to_lead c).role ≡ leader)
        × ((to_lead c).current_term ≡ c.current_term)
        × ((to_lead c).last_entry_index ≡ (last_from x xs).index)
        × ((to_lead c).commit_index ≡ (last_from x xs).index)
        × IsFresh (last_from x xs).index (to_lead c).siblings id
  to_lead-Leads id one =
      let last : (find_last_entry c.pf empty_entry).1.index ≡ (last_from x xs).index =
        ap (λ (e : Entry). e.index) to_lead_last in
      (
        unfold to_lead in refl,
        unfold to_lead in refl,
        unfold to_lead in last,
        unfold to_lead in last,
        subst (λ (n : ℤ). IsFresh n (to_lead c).siblings id) last (to_lead-IsFresh id one),
      )
