-- ===== src/RequestVote/Twice.antt =====
-- `toFollow` and `toLead` take the vote of the current term back, so a node can vote twice in a term.
use cabinet.AppendEntry.{follow_leader}
use cabinet.Base.{==ℤ_iff, arith, minus_one, refl, sym, ℤ, ◌≡◌, ◌≤ℤ◌}
use cabinet.Client.{Client}
use cabinet.Cluster.{Cluster, as_candidate, candidate, to_follow, to_lead}
use cabinet.Entry.{Entry, empty_entry}
use cabinet.PersistenceFile.{find_last_entry}
use cabinet.RequestVote.{VoteRequest, handle_vote_request}
use cabinet.RequestVote.Voting.{handle_vote_request-after, vote_after}

-- The candidate's log ends no earlier than the node's, by index and by term.
abbrev pub IsAhead : VoteRequest → Cluster → Type 0
IsAhead r c =
    let last = (find_last_entry c.pf empty_entry).1 in
    (last.term ≤ℤ r.last_log_term) × (last.index ≤ℤ r.last_log_index)

-- The node's vote in its present term is for `id`.
abbrev pub HasVoted : ℤ → ℤ → Cluster → Type 0
HasVoted id term c = (c.voted_for ≡ id) × (c.current_term ≡ term)

grants :
    (now : ℤ) (r : VoteRequest) (last : Entry) (c : Cluster)
    → c.voted_for ≡ minus_one
    → c.current_term ≡ r.term
    → last.term ≤ℤ r.last_log_term
    → last.index ≤ℤ r.last_log_index
    → HasVoted r.candidate_id r.term (vote_after now r last c)
unfolding to_follow
grants now r last c free same term index = ground (arith, ==ℤ_iff c.voted_for minus_one)

-- A node that becomes a candidate has voted for itself in its new term. If it then follows a leader
-- of that term, a request for a vote in the same term from a candidate whose log ends no earlier is
-- granted: the node has voted for two candidates in one term.
follow_leader-votes_twice :
    (now : ℤ) (r : VoteRequest) (client : Client) (c : Cluster)
    → r.term ≡ (as_candidate now c).current_term
    → IsAhead r c
    → (let voted = as_candidate now c in
        let following = follow_leader now candidate voted.current_term voted in
        HasVoted c.cluster_id r.term voted
        × HasVoted r.candidate_id r.term (handle_vote_request now r client following).1)
unfolding follow_leader to_follow
follow_leader-votes_twice now r client c same ahead = (
  (refl, sym same),
  rw handle_vote_request-after (
      grants now r (find_last_entry c.pf empty_entry).1
        (follow_leader now candidate (as_candidate now c).current_term (as_candidate now c)) refl
        (sym same) ahead.0 ahead.1),
)

-- A candidate that has voted for itself and becomes the leader of its term grants a request for a
-- vote in that same term to a candidate whose log ends no earlier.
to_lead-votes_twice :
    (now : ℤ) (r : VoteRequest) (client : Client) (c : Cluster)
    → r.term ≡ (as_candidate now c).current_term
    → IsAhead r c
    → (let voted = as_candidate now c in
        HasVoted c.cluster_id r.term voted
        × HasVoted r.candidate_id r.term (handle_vote_request now r client (to_lead voted)).1)
unfolding to_lead
to_lead-votes_twice now r client c same ahead = (
  (refl, sym same),
  rw handle_vote_request-after (
      grants now r (find_last_entry c.pf empty_entry).1 (to_lead (as_candidate now c)) refl
        (sym same) ahead.0 ahead.1),
)

-- A node that becomes a candidate has voted for itself in its new term. Whether it then follows a
-- leader of that term or becomes its leader, a request for a vote in the same term from a candidate
-- whose log ends no earlier is granted: the node has voted for two candidates in one term.
pub candidate-votes_twice :
    (now : ℤ) (r : VoteRequest) (client : Client) (c : Cluster)
    → r.term ≡ (as_candidate now c).current_term
    → IsAhead r c
    → (let voted = as_candidate now c in
        let following = follow_leader now candidate voted.current_term voted in
        HasVoted c.cluster_id r.term voted
        × HasVoted r.candidate_id r.term (handle_vote_request now r client following).1
        × HasVoted r.candidate_id r.term (handle_vote_request now r client (to_lead voted)).1)
candidate-votes_twice now r client c same ahead =
    let follows = follow_leader-votes_twice now r client c same ahead in
    (follows.0, follows.1, (to_lead-votes_twice now r client c same ahead).1)
