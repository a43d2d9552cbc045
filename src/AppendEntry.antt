-- ===== src/AppendEntry.antt =====
-- src/AppendEntryCommand.cpp: how a node takes an entry or a heartbeat of its leader.
pub mod Send
pub mod Follow
pub mod LogMatching
pub mod Terms
pub mod Commit
use cabinet.Base.{
  Bool, Bytes, Code, List, Outcome, [], codes, err, exit, if◌then◌else◌, lebℤ, length, ltbℤ, not,
  ok, or_exit, pos, ret, true, ℤ, ◌&&◌, ◌+ℤ◌, ◌==ℤ◌, ◌==◌, ◌>>=◌, ◌>>◌, ◌||◌, ◌∷◌,
}
use cabinet.Client.{Client, Sent, arg, int_arg, long_arg, reply}
use cabinet.Cluster.{Cluster, Role, candidate, follower, leader, to_follow, update_timeout}
use cabinet.Entry.{Entry, empty_entry}
use cabinet.Number.{to_string}
use cabinet.PersistenceFile.{
  PersistenceFile, append_to_pf, delete_all_entry, delete_entry_after, find_entry, find_last_entry,
}
use cabinet.RequestVote.{Done}
use cabinet.Siblings.{set_leader_id}

-- The fields that `operator[]` reads off the arguments.
pub record AppendRequest : Type 0 where
  pub term : ℤ
  pub leader_id : ℤ
  pub prev_log_index : ℤ
  pub prev_log_term : ℤ
  pub entry : Entry
  pub leader_commit : ℤ

-- The check of `commandArgc() + 1` and the `try` block.
unfoldable pub read_append_request : List Bytes → Outcome AppendRequest
read_append_request argv = do
  or_exit (length argv == 17)
  content ← arg argv 14
  term ← long_arg argv 2
  leader_id ← int_arg argv 4
  prev_index ← long_arg argv 6
  prev_term ← long_arg argv 8
  index ← long_arg argv 10
  entry_term ← long_arg argv 12
  commit ← long_arg argv 16
  ret (record {
    term = term;
    leader_id = leader_id;
    prev_log_index = prev_index;
    prev_log_term = prev_term;
    entry = record { index = index; term = entry_term; content = content };
    leader_commit = commit;
  })

abbrev pub reply_append : Client → ℤ → Bytes → List Sent
reply_append client term success =
    reply client (pos 5) b'r'
      (codes "replyappendentry" ∷ codes "term" ∷ to_string term ∷ codes "success" ∷ success ∷ [])

-- The test of the term, by role: `true` where the node then follows, `false` where it rejects.
unfoldable pub accepts_term : Role → ℤ → ℤ → Bool
accepts_term follower term leader_term = true
accepts_term candidate term leader_term = lebℤ term leader_term
accepts_term leader term leader_term = lebℤ term leader_term

-- The node after that test. A follower of a higher term, or of the same, stays as it is.
unfoldable pub follow_leader : ℤ → Role → ℤ → Cluster → Cluster
unfolding to_follow
follow_leader now follower term c = if ltbℤ c.current_term term then to_follow now term c else c
follow_leader now candidate term c = to_follow now term c
follow_leader now leader term c = to_follow now term c

-- How the check of the entry before ends: with a refusal, with `exit(1)`, or with the log as it is
-- to be extended.
pub data PrevCheck : Type 0 where
  reject : PersistenceFile → PrevCheck
  fatal : PrevCheck
  accept : PersistenceFile → PrevCheck

-- `prevLogIndex` is 0: the log has to be empty.
abbrev pub reject_log : PersistenceFile → Code → PrevCheck
reject_log pf ok = reject (delete_all_entry pf)
reject_log pf err = accept pf

unfoldable pub check_empty : PersistenceFile → PrevCheck
unfolding find_last_entry delete_all_entry
check_empty pf = reject_log pf (find_last_entry pf empty_entry).0

-- The entry before is there with its term: what stands behind it is deleted.
abbrev pub after_delete : Code × PersistenceFile → PrevCheck
after_delete (ok, pf) = accept pf
after_delete (err, pf) = reject pf

abbrev pub cut_behind : ℤ → ℤ → PersistenceFile → Code × Entry → PrevCheck
cut_behind prev_index prev_term pf (err, last) = fatal
cut_behind prev_index prev_term pf (ok, last) =
    if not (last.index ==ℤ prev_index) || not (last.term ==ℤ prev_term)
    then after_delete (delete_entry_after (prev_index +ℤ pos 1) pf)
    else accept pf

abbrev pub check_found : ℤ → ℤ → PersistenceFile → Code × Entry → PrevCheck
check_found prev_index prev_term pf (err, prev) = reject pf
check_found prev_index prev_term pf (ok, prev) =
    if not (prev.term ==ℤ prev_term)
    then reject (delete_entry_after prev_index pf).1
    else cut_behind prev_index prev_term pf (find_last_entry pf empty_entry)

-- The check of `prevLogIndex` and `prevLogTerm`.
unfoldable pub check_prev : ℤ → ℤ → PersistenceFile → PrevCheck
unfolding check_empty find_entry find_last_entry delete_entry_after
check_prev prev_index prev_term pf =
    if prev_index ==ℤ pos 0
    then check_empty pf
    else check_found prev_index prev_term pf (find_entry prev_index pf empty_entry)

abbrev pub min_long : ℤ → ℤ → ℤ
min_long a b = if ltbℤ b a then b else a

-- The append and the update of the commit index, and the last reply.
abbrev pub commit_from : Client → ℤ → Cluster → Code × Entry → Done
commit_from client leader_commit c (err, last) = exit
commit_from client leader_commit c (ok, last) =
    let c' : Cluster = record c { commit_index = min_long leader_commit last.index } in
    ret (ok, c', reply_append client c.current_term (codes "true"))

unfoldable pub update_commit : Client → ℤ → Cluster → Done
unfolding find_last_entry reply
update_commit client leader_commit c =
    if leader_commit ==ℤ pos 0
    then ret (ok, c, reply_append client c.current_term (codes "true"))
    else commit_from client leader_commit c (find_last_entry c.pf empty_entry)

abbrev pub after_append : Client → ℤ → Cluster → Code × PersistenceFile → Done
after_append client leader_commit c (err, pf) =
    ret (ok, record c { pf = pf }, reply_append client c.current_term (codes "false"))
after_append client leader_commit c (ok, pf) =
    update_commit client leader_commit (record c { pf = pf })

unfoldable pub append_new : Client → AppendRequest → Cluster → Done
unfolding append_to_pf update_commit
append_new client r c =
    if not (r.entry.index ==ℤ pos 0) && not (r.entry.term ==ℤ pos 0)
    then after_append client r.leader_commit c (append_to_pf r.entry c.pf)
    else update_commit client r.leader_commit c

abbrev pub after_check : Client → AppendRequest → Cluster → PrevCheck → Done
after_check client r c (reject pf) =
    ret (ok, record c { pf = pf }, reply_append client c.current_term (codes "false"))
after_check client r c fatal = exit
after_check client r c (accept pf) = append_new client r (record c { pf = pf })

-- `updateTimeout` and `setLeaderId` once the leader is accepted.
abbrev pub accept_leader : ℤ → ℤ → Cluster → Cluster
accept_leader now leader_id c = record (update_timeout now c) {
  siblings = set_leader_id leader_id c.siblings;
}

unfoldable pub handle_append_request : ℤ → AppendRequest → Client → Cluster → Done
unfolding accepts_term follow_leader update_timeout set_leader_id check_prev append_new reply
handle_append_request now r client c =
    if accepts_term c.role c.current_term r.term
    then (let c' = accept_leader now r.leader_id (follow_leader now c.role r.term c) in
        after_check client r c' (check_prev r.prev_log_index r.prev_log_term c'.pf))
    else ret (ok, c, reply_append client c.current_term (codes "false"))

-- `AppendEntryCommand::operator[]`
unfoldable pub append_entry : ℤ → Client → Cluster → Done
unfolding read_append_request handle_append_request
append_entry now client c = do
  r ← read_append_request client.argv
  handle_append_request now r client c
