-- ===== src/ReplyAppendEntry.antt =====
-- src/ReplyAppendEntryCommand.cpp: how a leader takes the answer of a sibling.
pub mod Progress
use cabinet.Base.{
  Bool, Bytes, Code, Option, [], codes, err, false, if◌then◌else◌, length, ltbℤ, none, ok, or_exit,
  pos, ret, same_bytes, some, true, ℤ, ◌==◌, ◌>>=◌, ◌>>◌,
}
use cabinet.Client.{Client, arg, long_arg}
use cabinet.Cluster.{Cluster, is_leader, to_follow}
use cabinet.RequestVote.{Done}
use cabinet.Siblings.{
  check_if_entry_could_commit, decrease_sibling_next_index, get_empty_append_entry,
  get_sibling_next_index, increase_sibling_next_index, set_already_append_entry, set_match_index,
}

-- From `if (result == string("true"))` on, where the last message was not empty.
abbrev pub advance_sibling : ℤ → Cluster → Cluster
advance_sibling id c =
    let new_match_index = get_sibling_next_index id c.siblings in
    let siblings =
      set_match_index id new_match_index (increase_sibling_next_index id c.siblings).1 in
    record c {
      siblings = siblings;
      commit_index = check_if_entry_could_commit new_match_index siblings c.commit_index;
    }

abbrev pub advance_unless_empty : ℤ → Cluster → Option Bool → Cluster
advance_unless_empty id c none = c
advance_unless_empty id c (some true) = c
advance_unless_empty id c (some false) = advance_sibling id c

abbrev pub step_back : ℤ → Cluster → Cluster
step_back id c =
    if ltbℤ (pos 1) (get_sibling_next_index id c.siblings)
    then record c { siblings = (decrease_sibling_next_index id c.siblings).1 }
    else c

-- A leader's handling of an answer of its own term or a lower one.
unfoldable pub handle_append_result : ℤ → Bytes → Cluster → Code × Cluster
unfolding get_sibling_next_index increase_sibling_next_index decrease_sibling_next_index
    set_match_index check_if_entry_could_commit get_empty_append_entry set_already_append_entry
    same_bytes
handle_append_result id result c =
    let c' : Cluster = record c { siblings = (set_already_append_entry id false c.siblings).1 } in
    if same_bytes result (codes "false")
    then (ok, step_back id c')
    else if same_bytes result (codes "true")
    then (ok, advance_unless_empty id c' (get_empty_append_entry id c'.siblings))
    else (err, c')

unfoldable pub handle_append_reply : ℤ → ℤ → ℤ → Bytes → Cluster → Code × Cluster
unfolding to_follow handle_append_result
handle_append_reply now id term result c =
    if ltbℤ c.current_term term
    then (ok, to_follow now term c)
    else handle_append_result id result c

-- `ReplyAppendEntryCommand::operator[]`
unfoldable pub reply_append_entry : ℤ → Client → Cluster → Done
unfolding handle_append_reply
reply_append_entry now client c = do
  or_exit (length client.argv == 5)
  if is_leader c.role
      then (do
        result ← arg client.argv 4
        term ← long_arg client.argv 2
        let (code, c') = handle_append_reply now client.cluster_id term result c
        ret (code, c', []))
      else ret (ok, c, [])
