-- ===== src/AppendEntry/Send.antt =====
-- `operator>>` of src/AppendEntryCommand.cpp: how a leader sends an entry or a heartbeat.
use cabinet.Base.{
  Bool, Code, List, Outcome, [], codes, err, false, if◌then◌else◌, lebℤ, ltbℤ, ok, or_exit, pos,
  ret, true, ℤ, ◌+ℤ◌, ◌-ℤ◌, ◌>>◌, ◌∷◌,
}
use cabinet.Client.{Client, Sent, reply}
use cabinet.Cluster.{Cluster, is_leader, to_follow}
use cabinet.Entry.{Entry, empty_entry}
use cabinet.Number.{to_string}
use cabinet.PersistenceFile.{find_entry, find_last_entry}
use cabinet.PersistenceFile.Contiguous.{next_index}
use cabinet.Siblings.{get_sibling_next_index, set_already_append_entry, set_empty_append_entry}

-- `operator>>` from the fields that it has gathered
abbrev pub append_entry_message : Cluster → Client → ℤ → ℤ → Entry → List Sent
append_entry_message c sibling prev_index prev_term entry = reply sibling (pos 17) b'r' (
    codes "appendentry"
    ∷ codes "term"
    ∷ to_string c.current_term
    ∷ codes "leaderId"
    ∷ to_string c.cluster_id
    ∷ codes "prevLogIndex"
    ∷ to_string prev_index
    ∷ codes "prevLogTerm"
    ∷ to_string prev_term
    ∷ codes "index"
    ∷ to_string entry.index
    ∷ codes "term"
    ∷ to_string entry.term
    ∷ codes "entryCommand"
    ∷ entry.content
    ∷ codes "leaderCommit"
    ∷ to_string c.commit_index
    ∷ [])

-- `setEmptyAppendEntry`, whose error ends the command.
abbrev pub mark_append_entry : Client → Bool → Cluster → Code × Cluster
mark_append_entry sibling empty c =
    let (code, siblings) = set_empty_append_entry sibling.cluster_id empty c.siblings in
    (code, record c { siblings = siblings })

-- `setAlreadyAppendEntry(clientId, true)`, whose result is only logged, and the message.
abbrev pub send_entry : Client → Cluster → ℤ → ℤ → Entry → Code × Cluster × List Sent
send_entry sibling c prev_index prev_term entry = (
  ok,
  record c { siblings = (set_already_append_entry sibling.cluster_id true c.siblings).1 },
  append_entry_message c sibling prev_index prev_term entry,
)

-- From `if (nextEntryIndex > 1)` on.
unfoldable pub send_after_prev : ℤ → ℤ → Client → Entry → Cluster → Code × Cluster × List Sent
unfolding find_entry set_already_append_entry to_follow reply
send_after_prev now next_index sibling entry c =
    let (found, prev) = find_entry (next_index -ℤ pos 1) c.pf empty_entry in
    if ltbℤ (pos 1) next_index
    then elim found [
      | err ↦ (ok, to_follow now c.current_term c, [])
      | ok ↦ send_entry sibling c prev.index prev.term entry
    ]
    else send_entry sibling c (pos 0) (pos 0) entry

abbrev pub unless_err :
    Code × Cluster → (Cluster → Code × Cluster × List Sent) → Code × Cluster × List Sent
unless_err (err, c) go_on = (err, c, [])
unless_err (ok, c) go_on = go_on c

-- From `//next log not exist yet` on, with what `findEntry` finds at the next index.
abbrev pub send_found : ℤ → ℤ → Client → Cluster → ℤ → Code × Entry → Code × Cluster × List Sent
send_found now next_index sibling c last_index (err, next) =
    if ltbℤ (last_index +ℤ pos 1) next_index
    then (ok, to_follow now c.current_term c, [])
    else unless_err (mark_append_entry sibling true c)
        (send_after_prev now next_index sibling empty_entry)
send_found now next_index sibling c last_index (ok, next) =
    unless_err (mark_append_entry sibling false c) (send_after_prev now next_index sibling next)

-- From `pf->findLastEntry` on.
unfoldable pub send_next_entry : ℤ → ℤ → Client → Cluster → Code × Cluster × List Sent
unfolding find_last_entry find_entry set_empty_append_entry send_after_prev to_follow
send_next_entry now next_index sibling c =
    send_found now next_index sibling c (find_last_entry c.pf empty_entry).1.index
      (find_entry next_index c.pf empty_entry)

-- `AppendEntryCommand::operator>>`
unfoldable pub send_append_entry : ℤ → Client → Cluster → Outcome (Code × Cluster × List Sent)
unfolding get_sibling_next_index send_next_entry
send_append_entry now sibling c = do
  or_exit (is_leader c.role)
  let next_index = get_sibling_next_index sibling.cluster_id c.siblings
  or_exit (lebℤ (pos 1) next_index)
  ret (send_next_entry now next_index sibling c)
