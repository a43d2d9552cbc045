-- ===== src/Tests/Nodes.antt =====
-- The commands of the nodes on a node of a cluster of three.

use mathlib.Core.Path.{subst}
use cabinet.AppendEntry.{
  AppendRequest, check_prev, follow_leader, handle_append_request, update_commit,
}
use cabinet.AppendEntry.Commit.{CommitIs, Returns, update_commit-CommitIs}
use cabinet.AppendEntry.Follow.{KeepsLog, handle_append_request-KeepsLog}
use cabinet.AppendEntry.LogMatching.{CheckSpec, check_prev-CheckSpec}
use cabinet.Base.{
  Bool-cases, Code, [], arith, at, codes, inl, inr, lookup, minus_one, none, ok, pos, refl, some,
  sym, true, ◌+ℤ◌, ◌==ℤ◌, ◌∷◌, ◌≡◌, ◌≤ℤ◌,
}
use cabinet.Client.{Client}
use cabinet.Cluster.{as_candidate, candidate, follower, leader, to_lead}
use cabinet.Cluster.Roles.{IsFresh, to_lead-Leads}
use cabinet.Entry.{Entry, empty_entry}
use cabinet.EventPoll.Safety.{other}
use cabinet.Parents.{
  clear_dealing_index, delete_parents, get_parents_by_dealing_index, in_queue, set_dealing_index,
}
use cabinet.Parents.Dealing.{set_dealing_index-leads}
use cabinet.PersistenceFile.{find_last_entry}
use cabinet.PersistenceFile.Abstract.{last_from}
use cabinet.PersistenceFile.Contiguous.{IsContiguous}
use cabinet.PersistenceFile.Refinement.{find_last_entry-Holds}
use cabinet.ReplyAppendEntry.{handle_append_result}
use cabinet.ReplyAppendEntry.Progress.{HasAdvanced, HasSteppedBack, handle_append_result-Progress}
use cabinet.Request.{handle_request}
use cabinet.Request.Accept.{Accepts, handle_request-Accepts}
use cabinet.RequestVote.{handle_vote_request}
use cabinet.RequestVote.Elected.{
  IfReturns, IsElected, granted_votes, take_vote_replies, take_vote_replies-IsElected,
}
use cabinet.RequestVote.Twice.{HasVoted, IsAhead, candidate-votes_twice}
use cabinet.RequestVote.Voting.{VoteSpec, handle_vote_request-VoteSpec}
use cabinet.Siblings.{
  add_siblings, check_if_entry_could_commit, confirm_connect_sibling, delete_siblings,
}
use cabinet.Siblings.Commit.{CommitSpec, check_if_entry_could_commit-CommitSpec}
use cabinet.Siblings.Invariant.{AddsClient, IsSound, siblings-IsSound}
use cabinet.Tests.Samples.{
  entry_one, entry_three-IsStorable, entry_two, sample_append, sample_client, sample_file,
  sample_file-Holds, sample_node, sample_parents, sample_siblings, sample_vote, two_entries,
}

abbrev no_client : Client
no_client = sample_client (pos 7) (pos 2) []

abbrev contiguous : IsContiguous 1 two_entries
contiguous = (refl, (refl, tt))

check_prev-CheckSpec_example :
    CheckSpec (pos 2) (pos 1) two_entries (check_prev (pos 2) (pos 1) sample_file)
check_prev-CheckSpec_example =
    check_prev-CheckSpec (pos 2) (pos 1) two_entries sample_file-Holds contiguous

handle_append_request-KeepsLog_example :
    KeepsLog sample_append
      (handle_append_request (pos 5) sample_append no_client (sample_node follower))
handle_append_request-KeepsLog_example =
    handle_append_request-KeepsLog (pos 5) sample_append no_client (sample_node follower)
      (two_entries, sample_file-Holds, contiguous)
      (inr (entry_three-IsStorable, unfold ◌+ℤ◌ in refl))

handle_vote_request-VoteSpec_example :
    VoteSpec sample_vote
      (sample_node follower)
      (handle_vote_request (pos 5) sample_vote no_client (sample_node follower)).1
      (find_last_entry sample_file empty_entry).1
handle_vote_request-VoteSpec_example =
    handle_vote_request-VoteSpec (pos 5) sample_vote no_client (sample_node follower)

check_if_entry_could_commit-CommitSpec_example :
    CommitSpec
      (pos 2)
      (pos 1)
      (check_if_entry_could_commit (pos 2) sample_siblings (pos 1))
      sample_siblings
check_if_entry_could_commit-CommitSpec_example =
    check_if_entry_could_commit-CommitSpec (pos 2) (pos 1) sample_siblings

update_commit-CommitIs_example :
    Returns
      (CommitIs (sample_node follower) (pos 2) (last_from entry_one (entry_two ∷ [])))
      (update_commit no_client (pos 2) (sample_node follower))
update_commit-CommitIs_example =
    update_commit-CommitIs no_client (pos 2) (sample_node follower) entry_one (entry_two ∷ [])
      sample_file-Holds refl

abbrev stale_append : AppendRequest
stale_append = record sample_append { term = pos 1 }

sample-IsAhead : IsAhead sample_vote (sample_node follower)
unfolding last_from
sample-IsAhead =
    subst
      (λ (d : Code × Entry).
        (d.1.term ≤ℤ sample_vote.last_log_term) × (d.1.index ≤ℤ sample_vote.last_log_index))
      (sym (find_last_entry-Holds sample_file-Holds empty_entry)) (omega arith, omega arith)

next_term : sample_vote.term ≡ (as_candidate (pos 5) (sample_node follower)).current_term
next_term = unfold ◌+ℤ◌ in refl

candidate-votes_twice_example :
    (let voted = as_candidate (pos 5) (sample_node follower) in
      let following = follow_leader (pos 5) candidate voted.current_term voted in
      HasVoted (pos 1) (pos 3) voted
      × HasVoted (pos 3) (pos 3) (handle_vote_request (pos 5) sample_vote no_client following).1
      × HasVoted
          (pos 3)
          (pos 3)
          (handle_vote_request (pos 5) sample_vote no_client (to_lead voted)).1)
candidate-votes_twice_example =
    candidate-votes_twice (pos 5) sample_vote no_client (sample_node follower) next_term
      sample-IsAhead

abbrev granting_client : Client
granting_client =
    sample_client (pos 7) (pos 2) (
      codes "replyrequestvote" ∷ codes "term" ∷ codes "3" ∷ codes "voteGranted" ∷ codes "true" ∷ [])

take_vote_replies-IsElected_example :
    IfReturns (IsElected (granted_votes (granting_client ∷ []))) (
      take_vote_replies
        (pos 5)
        (granting_client ∷ [])
        (as_candidate (pos 5) (sample_node follower)))
take_vote_replies-IsElected_example =
    take_vote_replies-IsElected (pos 5) (granting_client ∷ []) (sample_node follower)

abbrev parent_client : Client
parent_client = sample_client (pos 8) minus_one []

waits : in_queue parent_client sample_parents.parents_queue ≡ true
waits = unfold in_queue in refl

set_waits : (set_dealing_index (pos 3) parent_client sample_parents).0 ≡ ok
set_waits = unfold set_dealing_index in_queue in refl

set_dealing_index-leads_example :
    (let p = (set_dealing_index (pos 3) parent_client sample_parents).1 in
      let (found, p') = get_parents_by_dealing_index (pos 3) p in
      (found ≡ some parent_client)
      × ((get_parents_by_dealing_index (pos 3) p').0 ≡ none)
      × ((get_parents_by_dealing_index (pos 3) (clear_dealing_index p)).0 ≡ none)
      × ((delete_parents parent_client p).0 ≡ ok)
      × ((get_parents_by_dealing_index (pos 3) (delete_parents parent_client p).1).0
          ≡ some parent_client))
set_dealing_index-leads_example =
    set_dealing_index-leads (pos 3) parent_client sample_parents set_waits

pub sample-IsSound : IsSound sample_siblings
unfolding at lookup
sample-IsSound id on = elim (Bool-cases (pos 2 ==ℤ id)) [
  | inl same ↦ (sample_client (pos 7) (pos 2) [], rw same refl)
  | inr other ↦ absurd (cc (rw other at on))
]

-- The node 3 gets to know this one.
abbrev third_node : Client
third_node = sample_client (pos 8) (pos 3) []

siblings-IsSound_example :
    IsSound (add_siblings (pos 1) third_node sample_siblings).1
    × AddsClient third_node (add_siblings (pos 1) third_node sample_siblings)
    × IsSound (delete_siblings no_client sample_siblings).1
    × IsSound (confirm_connect_sibling no_client sample_siblings).1
siblings-IsSound_example =
    siblings-IsSound sample_siblings sample-IsSound (pos 1) third_node no_client no_client
      (sample_client (pos 7) (pos 2) [], unfold at lookup in refl)

to_lead-Leads_example :
    ((to_lead (sample_node candidate)).role ≡ leader)
    × ((to_lead (sample_node candidate)).current_term ≡ pos 2)
    × ((to_lead (sample_node candidate)).last_entry_index
        ≡ (last_from entry_one (entry_two ∷ [])).index)
    × ((to_lead (sample_node candidate)).commit_index
        ≡ (last_from entry_one (entry_two ∷ [])).index)
    × IsFresh
        (last_from entry_one (entry_two ∷ [])).index
        (to_lead (sample_node candidate)).siblings
        (pos 3)
to_lead-Leads_example =
    to_lead-Leads (sample_node candidate) entry_one (entry_two ∷ []) sample_file-Holds (pos 3)
      (inr (inl refl))

handle_append_result-Progress_example :
    (let refused = handle_append_result (pos 2) (codes "false") (sample_node leader) in
      let taken = handle_append_result (pos 2) (codes "true") (sample_node leader) in
      ((refused.0 ≡ ok) × HasSteppedBack (pos 2) (pos 3) (sample_node leader) refused.1)
      × ((taken.0 ≡ ok) × HasAdvanced (pos 2) (sample_node leader) taken.1))
handle_append_result-Progress_example =
    handle_append_result-Progress (pos 2) (pos 3) (sample_node leader) (unfold lookup in refl)
      (unfold at lookup in refl)

abbrev new_request : Entry
new_request = record { index = pos 2 +ℤ pos 1; term = pos 2; content = codes "get a" }

handle_request-Accepts_example :
    Accepts two_entries parent_client new_request
      (handle_request leader (pos 5) parent_client (sample_node leader))
handle_request-Accepts_example =
    handle_request-Accepts (pos 5) parent_client (sample_node leader) two_entries sample_file-Holds
      (record {
        index_fits = unfold ◌+ℤ◌ in refl;
        term_fits = refl;
        content_clean = entry_three-IsStorable.content_clean;
      })
      waits
