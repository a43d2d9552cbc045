-- ===== src/RequestVote.antt =====
-- src/RequestVoteCommand.cpp and src/ReplyRequestVoteCommand.cpp: the vote. (`operator>>` of the
-- first stands in Cluster, beside the loop that calls it.)
pub mod Voting
pub mod Elected
pub mod Twice
use cabinet.Base.{
  Bool, Bytes, Code, List, Outcome, [], codes, if◌then◌else◌, lebℤ, length, ltbℤ, minus_one, not,
  ok, or_exit, pos, ret, same_bytes, ℤ, ◌+ℤ◌, ◌==ℤ◌, ◌==◌, ◌>>=◌, ◌>>◌, ◌||◌, ◌∷◌,
}
use cabinet.Client.{Client, Sent, arg, int_arg, long_arg, reply}
use cabinet.Cluster.{Cluster, is_candidate, to_follow, to_lead}
use cabinet.Entry.{Entry, empty_entry}
use cabinet.Number.{to_string}
use cabinet.PersistenceFile.{find_last_entry}

-- What a command returns, the node after it, and what was sent.
abbrev pub Done : Type 0
Done = Outcome (Code × Cluster × List Sent)

-- The fields that are read off the arguments in the `try` block.
pub record VoteRequest : Type 0 where
  pub term : ℤ
  pub candidate_id : ℤ
  pub last_log_index : ℤ
  pub last_log_term : ℤ

-- The check of `commandArgc() + 1` and the `try` block.
unfoldable pub read_vote_request : List Bytes → Outcome VoteRequest
read_vote_request argv = do
  or_exit (length argv == 9)
  term ← long_arg argv 2
  candidate_id ← int_arg argv 4
  last_index ← long_arg argv 6
  last_term ← long_arg argv 8
  ret (record {
    term = term;
    candidate_id = candidate_id;
    last_log_index = last_index;
    last_log_term = last_term;
  })

abbrev pub reply_vote : Client → ℤ → Bytes → List Sent
reply_vote client term granted =
    reply client (pos 5) b'r' (
      codes "replyrequestvote" ∷ codes "term" ∷ to_string term ∷ codes "voteGranted" ∷ granted ∷ [])

-- `if (term < candidateTerm) toFollow(candidateTerm)`
abbrev pub adopt_term : ℤ → ℤ → Cluster → Cluster
adopt_term now term c = if ltbℤ c.current_term term then to_follow now term c else c

-- The test on which the request is refused.
abbrev pub refuses_vote : VoteRequest → Cluster → Entry → Bool
refuses_vote r c last =
    ltbℤ r.term c.current_term
    || (ltbℤ r.last_log_term last.term
        || (ltbℤ r.last_log_index last.index || not (c.voted_for ==ℤ minus_one)))

-- The rest of `RequestVoteCommand::operator[]`; the last entry is read before the change of role.
unfoldable pub handle_vote_request : ℤ → VoteRequest → Client → Cluster → Code × Cluster × List Sent
unfolding to_follow find_last_entry reply
handle_vote_request now r client c =
    let last = (find_last_entry c.pf empty_entry).1 in
    let c' = adopt_term now r.term c in
    if refuses_vote r c' last
    then (ok, c', reply_vote client c'.current_term (codes "false"))
    else (
      ok,
      record c' { voted_for = r.candidate_id },
      reply_vote client c'.current_term (codes "true"),
    )

-- `RequestVoteCommand::operator[]`
unfoldable pub request_vote : ℤ → Client → Cluster → Done
unfolding read_vote_request handle_vote_request
request_vote now client c = do
  r ← read_vote_request client.argv
  ret (handle_vote_request now r client c)

-- `ReplyRequestVoteCommand::operator[]` of a candidate, on the term and the answer that it reads
unfoldable pub handle_vote_reply : ℤ → ℤ → Bytes → Cluster → Cluster
unfolding to_follow to_lead same_bytes
handle_vote_reply now term granted c =
    if ltbℤ c.current_term term
    then to_follow now term c
    else if not (same_bytes granted (codes "true"))
    then c
    else (let c' : Cluster = record c { receive_votes = c.receive_votes +ℤ pos 1 } in
        if lebℤ c'.win_vote_baseline c'.receive_votes then to_lead c' else c')

-- `ReplyRequestVoteCommand::operator[]`; it does not check the number of arguments.
unfoldable pub reply_request_vote : ℤ → Client → Cluster → Done
unfolding handle_vote_reply
reply_request_vote now client c = if not (is_candidate c.role) then ret (ok, c, []) else (do
  granted ← arg client.argv 4
  term ← long_arg client.argv 2
  ret (ok, handle_vote_reply now term granted c, []))
