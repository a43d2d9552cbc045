-- ===== src/Cluster.antt =====
-- src/Cluster.h and src/Cluster.cpp: a node of the cluster, and its changes of role. The connections
-- to the servers (`children`) are a state of their own that the commands of this model do not reach.
-- `now` is what `Util::getCurrentTimeInMs` returns; one command reads one time.
pub mod Roles
use cabinet.Base.{
  Bool, List, Option, Outcome, [], codes, exit, false, if◌then◌else◌, minus_one, none, pos, ret,
  some, true, undefined, ℤ, ◌++◌, ◌+ℤ◌, ◌>>=◌, ◌∷◌,
}
use cabinet.Client.{Client, Sent, reply}
use cabinet.Entry.{Entry, empty_entry}
use cabinet.Number.{to_string}
use cabinet.Parents.{Parents, clear_dealing_index}
use cabinet.PersistenceFile.{PersistenceFile, find_last_entry}
use cabinet.Siblings.{
  Siblings, get_siblings_need_append_entry, need_append_entry, set_already_append_entry_batch,
  set_match_index_batch, set_next_index_batch,
}

pub data Role : Type 0 where
  leader follower candidate : Role

pub record Cluster : Type 0 where
  pub cluster_id : ℤ
  pub role : Role
  pub current_term : ℤ
  -- -1 if the node has voted for none
  pub voted_for : ℤ
  pub commit_index : ℤ
  pub last_entry_index : ℤ
  pub last_applied : ℤ
  pub siblings : Siblings
  pub parents : Parents
  pub last_unix_time_in_ms : ℤ
  pub election_timeout : ℤ
  pub receive_votes : ℤ
  pub win_vote_baseline : ℤ
  pub pf : PersistenceFile

abbrev pub is_leader : Role → Bool
is_leader leader = true
is_leader _ = false

abbrev pub is_follower : Role → Bool
is_follower follower = true
is_follower _ = false

abbrev pub is_candidate : Role → Bool
is_candidate candidate = true
is_candidate _ = false

-- `toLead`
unfoldable pub to_lead : Cluster → Cluster
unfolding find_last_entry set_next_index_batch set_match_index_batch set_already_append_entry_batch
    clear_dealing_index
to_lead c =
    let last_index = (find_last_entry c.pf empty_entry).1.index in
    record c {
      role = leader;
      voted_for = minus_one;
      last_entry_index = last_index;
      commit_index = last_index;
      siblings =
          set_already_append_entry_batch false
            (set_match_index_batch (pos 0) (set_next_index_batch (last_index +ℤ pos 1) c.siblings));
      parents = clear_dealing_index c.parents;
    }

-- `toFollow`
unfoldable pub to_follow : ℤ → ℤ → Cluster → Cluster
to_follow now new_term c = record c {
  role = follower;
  current_term = new_term;
  last_unix_time_in_ms = now;
  voted_for = minus_one;
}

-- `RequestVoteCommand::operator>>` after its check of the role
unfoldable pub send_request_vote : Cluster → Client → List Sent
unfolding find_last_entry reply
send_request_vote c sibling =
    let last = (find_last_entry c.pf empty_entry).1 in
    reply sibling (pos 9) b'r' (
      codes "requestvote"
      ∷ codes "term"
      ∷ to_string c.current_term
      ∷ codes "candidateId"
      ∷ to_string c.cluster_id
      ∷ codes "lastLogIndex"
      ∷ to_string last.index
      ∷ codes "lastLogTerm"
      ∷ to_string last.term
      ∷ [])

-- The loop of `toCandidate`; a null pointer is undefined behaviour.
unfoldable pub request_votes : Cluster → List (Option Client) → Outcome (List Sent)
unfolding send_request_vote
request_votes c [] = ret []
request_votes c (none ∷ siblings) = undefined
request_votes c (some sibling ∷ siblings) =
    if is_candidate c.role
    then (request_votes c siblings >>= λ sent. ret (send_request_vote c sibling ++ sent))
    else exit

abbrev pub as_candidate : ℤ → Cluster → Cluster
as_candidate now c = record c {
  role = candidate;
  current_term = c.current_term +ℤ pos 1;
  voted_for = c.cluster_id;
  receive_votes = pos 1;
  last_unix_time_in_ms = now;
}

-- `toCandidate`
unfoldable pub to_candidate : ℤ → Cluster → Outcome (Cluster × List Sent)
unfolding request_votes need_append_entry
to_candidate now c =
    let c' = as_candidate now c in
    request_votes c' (get_siblings_need_append_entry c'.siblings) >>= λ sent. ret (c', sent)

-- `setNewEntryIndexAndTerm`
unfoldable pub set_new_entry_index_and_term : Entry → Cluster → Entry × Cluster
set_new_entry_index_and_term e c =
    let index = c.last_entry_index +ℤ pos 1 in
    (record e { index = index; term = c.current_term }, record c { last_entry_index = index })

-- `updateTimeout`
unfoldable pub update_timeout : ℤ → Cluster → Cluster
update_timeout now c = record c { last_unix_time_in_ms = now }
