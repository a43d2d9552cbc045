-- ===== src/Request.antt =====
-- src/ClusterDefaultCommand.cpp and the reply part of src/FlushServerCommand.cpp: a request of a
-- cabinet client, from its entry in the log to its answer.
pub mod Accept
use cabinet.Base.{
  Bytes, Code, List, Option, [], codes, err, if◌then◌else◌, length, none, ok, or_exit, pos, ret,
  some, ℤ, ◌==◌, ◌>>=◌, ◌>>◌, ◌∷◌,
}
use cabinet.Client.{Client, Sent, arg, reply_untyped}
use cabinet.Cluster.{
  Cluster, Role, candidate, follower, is_leader, leader, set_new_entry_index_and_term, to_follow,
}
use cabinet.Entry.{Entry, empty_entry}
use cabinet.Number.{to_string}
use cabinet.Parents.{Parents, get_parents_by_dealing_index, set_dealing_index}
use cabinet.PersistenceFile.{PersistenceFile, append_to_pf}
use cabinet.RequestVote.{Done}
use cabinet.Siblings.{get_leader_ip_and_port}

-- The leader's branch, after `setNewEntryIndexAndTerm`.
abbrev pub take_entry : ℤ → Client → Entry → Cluster → Code × PersistenceFile → Done
take_entry now client e c (err, pf) =
    ret (ok, to_follow now c.current_term (record c { pf = pf }), [])
take_entry now client e c (ok, pf) =
    let (code, parents) = set_dealing_index e.index client c.parents in
    ret (code, record c { pf = pf; parents = parents }, [])

abbrev pub redirect_to : Client → Cluster → Option (Bytes × ℤ) → Done
redirect_to client c none =
    ret (ok, c, reply_untyped client (pos 1) (codes "cluster is not available now" ∷ []))
redirect_to client c (some (ip, port)) = ret (
  ok,
  c,
  reply_untyped client (pos 5)
      (codes "redirect" ∷ codes "leaderip" ∷ ip ∷ codes "leaderport" ∷ to_string port ∷ []),
)

-- `Entry newEntry(wholeCommand); setNewEntryIndexAndTerm(newEntry);`
abbrev pub new_entry : Client → Cluster → Entry × Cluster
new_entry client c =
    set_new_entry_index_and_term (record empty_entry { content = client.cur_command_buf }) c

unfoldable pub handle_request : Role → ℤ → Client → Cluster → Done
unfolding set_new_entry_index_and_term append_to_pf to_follow set_dealing_index
    get_leader_ip_and_port reply_untyped
handle_request leader now client c =
    let (e, c') = new_entry client c in take_entry now client e c' (append_to_pf e c'.pf)
handle_request follower now client c = redirect_to client c (get_leader_ip_and_port c.siblings)
handle_request candidate now client c =
    ret (ok, c, reply_untyped client (pos 1) (codes "retry" ∷ []))

-- `ClusterDefaultCommand::operator[]`
abbrev pub cluster_default : ℤ → Client → Cluster → Done
cluster_default now client c = handle_request c.role now client c

-- `parent->fillSendBuf(serverReply)`
abbrev pub pass_on : Cluster → Bytes → Option Client × Parents → Code × Cluster × List Sent
pass_on c answer (none, parents) = (ok, record c { parents = parents }, [])
pass_on c answer (some parent, parents) =
    (ok, record c { parents = parents }, record { receiver = parent.client_id; text = answer } ∷ [])

-- `FlushServerCommand::operator[]`
unfoldable pub flush_server_reply : Client → Cluster → Done
unfolding get_parents_by_dealing_index
flush_server_reply client c = do
  or_exit (length client.argv == 2)
  if is_leader c.role
      then (do
        answer ← arg client.argv 1
        ret (pass_on c answer (get_parents_by_dealing_index c.last_applied c.parents)))
      else ret (ok, c, [])
