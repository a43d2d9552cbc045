-- ===== src/RequestVote/Voting.antt =====
-- What a vote means: one for each term as long as the role stands, and only for a candidate whose
-- log is at least as recent.
use cabinet.Base.{
  ==ℤ_iff, Code, List, arith, eq_of_parts, false, if◌then◌else◌, ltbℤ, map-if, minus_one, ℤ, ◌<ℤ◌,
  ◌≡◌, ◌≤ℤ◌, ◌⊎◌,
}
use cabinet.Client.{Client, Sent}
use cabinet.Cluster.{Cluster, to_follow}
use cabinet.Entry.{Entry, empty_entry}
use cabinet.PersistenceFile.{find_last_entry}
use cabinet.RequestVote.{VoteRequest, adopt_term, handle_vote_request, refuses_vote}

-- The log of the candidate is at least as recent as one that ends with `last`, in the order of Raft.
abbrev pub IsUpToDate : VoteRequest → Entry → Type 0
IsUpToDate r last =
    (last.term <ℤ r.last_log_term)
    ⊎ ((last.term ≡ r.last_log_term) × (last.index ≤ℤ r.last_log_index))

up_to_date :
    (r : VoteRequest) (last : Entry)
    → ltbℤ r.last_log_term last.term ≡ false
    → ltbℤ r.last_log_index last.index ≡ false
    → IsUpToDate r last
up_to_date r last h k = grind (arith, eq_of_parts)

-- The promise of a vote request to the node `c` with the last entry `last`; `c'` is the node after it.
pub record VoteSpec (r : VoteRequest) (c c' : Cluster) (last : Entry) : Type 0 where
  pub term_grows : c.current_term ≤ℤ c'.current_term
  pub term_adopted : r.term ≤ℤ c'.current_term
  pub vote_kept :
      (c.voted_for ≡ minus_one)
      ⊎ ((c.current_term <ℤ c'.current_term) ⊎ (c'.voted_for ≡ c.voted_for))
  pub vote_cast :
      (c'.voted_for ≡ minus_one)
      ⊎ (((c'.voted_for ≡ c.voted_for) × (c'.current_term ≡ c.current_term))
          ⊎ ((c'.voted_for ≡ r.candidate_id) × (c'.current_term ≡ r.term) × IsUpToDate r last))

-- The node after the request.
abbrev pub vote_after : ℤ → VoteRequest → Entry → Cluster → Cluster
vote_after now r last c =
    let c' = adopt_term now r.term c in
    if refuses_vote r c' last then c' else record c' { voted_for = r.candidate_id }

pub handle_vote_request-after :
    (now : ℤ) (r : VoteRequest) (client : Client) (c : Cluster)
    → (handle_vote_request now r client c).1
      ≡ vote_after now r (find_last_entry c.pf empty_entry).1 c
unfolding handle_vote_request
handle_vote_request-after now r client c =
    map-if (λ (d : Code × Cluster × List Sent). d.1)
      (refuses_vote r (adopt_term now r.term c) (find_last_entry c.pf empty_entry).1) _ _

module _ (now : ℤ) (r : VoteRequest) (last : Entry) (c : Cluster) where
  term_grows_after : c.current_term ≤ℤ (vote_after now r last c).current_term
  unfolding to_follow
  term_grows_after = ground arith

  term_adopted_after : r.term ≤ℤ (vote_after now r last c).current_term
  unfolding to_follow
  term_adopted_after = ground arith

  vote_kept_after :
      (c.voted_for ≡ minus_one)
      ⊎ ((c.current_term <ℤ (vote_after now r last c).current_term)
          ⊎ ((vote_after now r last c).voted_for ≡ c.voted_for))
  unfolding to_follow
  vote_kept_after = ground (arith, ==ℤ_iff c.voted_for minus_one)

  vote_cast_after :
      ((vote_after now r last c).voted_for ≡ minus_one)
      ⊎ ((((vote_after now r last c).voted_for ≡ c.voted_for)
            × ((vote_after now r last c).current_term ≡ c.current_term))
          ⊎ (((vote_after now r last c).voted_for ≡ r.candidate_id)
              × ((vote_after now r last c).current_term ≡ r.term)
              × IsUpToDate r last))
  unfolding to_follow
  vote_cast_after =
      ground
        (arith, ==ℤ_iff c.voted_for minus_one, up_to_date r last, eq_of_parts c.current_term r.term)

-- What a vote request does to the node `c`, where `last` is the last entry of its file, or the empty
-- entry for an empty log. The term never falls, and is at least the candidate's afterwards. A vote
-- that was given stays the same unless the term grows. Afterwards the node has no vote, or has the
-- vote and the term that it had, or its vote is for this candidate, the term is the candidate's, and
-- the candidate's log is at least as recent as the node's in Raft's order: its last term is higher,
-- or equal with an index that is not lower.
pub handle_vote_request-VoteSpec :
    (now : ℤ) (r : VoteRequest) (client : Client) (c : Cluster)
    → VoteSpec r c (handle_vote_request now r client c).1 (find_last_entry c.pf empty_entry).1
handle_vote_request-VoteSpec now r client c = rw handle_vote_request-after (
    let last = (find_last_entry c.pf empty_entry).1 in
    record {
      term_grows = term_grows_after now r last c;
      term_adopted = term_adopted_after now r last c;
      vote_kept = vote_kept_after now r last c;
      vote_cast = vote_cast_after now r last c;
    })
