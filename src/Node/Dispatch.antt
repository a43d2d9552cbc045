-- ===== src/Node/Dispatch.antt =====
-- The commands of a node and its clients: src/CommandKeeper.cpp (`createClusterCommandMap`),
-- src/ClusterClient.cpp, and `createClient` and `deleteClient` of src/Cluster.cpp.
use cabinet.AppendEntry.{append_entry}
use cabinet.Base.{
  Bool, Bytes, Code, List, Option, Outcome, [], codes, err, exit, if◌then◌else◌, minus_one, none,
  not, ok, pos, ret, same_bytes, some, ℤ, ◌+ℤ◌, ◌==ℤ◌, ◌>>=◌,
}
use cabinet.Children.{delete_children}
use cabinet.Client.{
  Category, Client, Sent, arg, cluster_client, local_pf_client, normal_client, server_client,
}
use cabinet.Cluster.{Cluster}
use cabinet.ClusterNode.{cluster_node, reply_cluster_node}
use cabinet.Node.{Node, with_siblings}
use cabinet.Parents.{Parents, add_parents, delete_parents}
use cabinet.ReplyAppendEntry.{reply_append_entry}
use cabinet.Request.{cluster_default, flush_server_reply}
use cabinet.RequestVote.{Done, reply_request_vote, request_vote}
use cabinet.Siblings.{delete_siblings}

-- The commands that `createClusterCommandMap` makes.
pub data ClusterCommand : Type 0 where
  requestvote replyrequestvote appendentry replyappendentry : ClusterCommand
  clusternode replyclusternode flushserver cluster_nomatch : ClusterCommand

-- `selectCommand` on that map
select_cluster_command : Bytes → ClusterCommand
unfolding same_bytes
select_cluster_command name =
    if same_bytes name (codes "requestvote")
    then requestvote
    else if same_bytes name (codes "replyrequestvote")
    then replyrequestvote
    else if same_bytes name (codes "appendentry")
    then appendentry
    else if same_bytes name (codes "replyappendentry")
    then replyappendentry
    else if same_bytes name (codes "clusternode")
    then clusternode
    else if same_bytes name (codes "replyclusternode")
    then replyclusternode
    else if same_bytes name (codes "flushserver")
    then flushserver
    else cluster_nomatch

-- What a command leaves: its code, the client, the node and what was sent.
abbrev pub Executed : Type 0
Executed = Outcome (Code × Client × Cluster × List Sent)

abbrev pub same_client_after :
    Client → Code × Cluster × List Sent → Code × Client × Cluster × List Sent
same_client_after client (code, c, sent) = (code, client, c, sent)

abbrev pub keep_client : Client → Done → Executed
keep_client client done = done >>= λ after. ret (same_client_after client after)

-- `selectedCommand[this]`
run_cluster_command : ClusterCommand → ℤ → Client → Cluster → Executed
unfolding request_vote reply_request_vote append_entry reply_append_entry cluster_node
    reply_cluster_node flush_server_reply cluster_default
run_cluster_command requestvote now client c = keep_client client (request_vote now client c)
run_cluster_command replyrequestvote now client c =
    keep_client client (reply_request_vote now client c)
run_cluster_command appendentry now client c = keep_client client (append_entry now client c)
run_cluster_command replyappendentry now client c =
    keep_client client (reply_append_entry now client c)
run_cluster_command clusternode now client c = cluster_node client c
run_cluster_command replyclusternode now client c = keep_client client (reply_cluster_node client c)
run_cluster_command flushserver now client c = keep_client client (flush_server_reply client c)
run_cluster_command cluster_nomatch now client c = keep_client client (cluster_default now client c)

-- `getReadyForNextCommand` after a command that succeeds
abbrev pub after_command : Code × Client × Cluster × List Sent → Code × Client × Cluster × List Sent
after_command (err, client, c, sent) = (err, client, c, sent)
after_command (ok, client, c, sent) =
    (ok, record client { argv = []; cur_command_buf = [] }, c, sent)

-- `ClusterClient::executeCommand`
unfoldable execute_cluster_command : ℤ → Client → Cluster → Executed
unfolding select_cluster_command run_cluster_command
execute_cluster_command now client c = do
  name ← arg client.argv 0
  after ← run_cluster_command (select_cluster_command name) now client c
  ret (after_command after)

-- The client of `createNormalClient`
abbrev pub new_client : ℤ → Client
new_client next = record {
  client_id = next;
  cluster_id = minus_one;
  category = normal_client;
  argv = [];
  cur_command_buf = [];
}

-- `createNormalClient` with `addParents`, whose error leaves no client
abbrev pub joined_parents : Node → Code × Parents → Option Client × Node
joined_parents n (err, parents) = (none, record n { client_id_max = n.client_id_max +ℤ pos 1 })
joined_parents n (ok, parents) = (
  some (new_client n.client_id_max),
  record n {
    cluster = (let c : Cluster = record n.cluster { parents = parents } in c);
    client_id_max = n.client_id_max +ℤ pos 1;
  },
)

-- `createClient`: `accepted` says whether `getConnectFd` gives a connection, `listen_fd` is the
-- descriptor that the node listens on. The null pointer is `none`.
unfoldable create_client : Bool → ℤ → ℤ → Node → Outcome (Option Client × Node)
unfolding add_parents
create_client accepted listen_fd fd n =
    if not accepted
    then ret (none, n)
    else if not (fd ==ℤ listen_fd)
    then exit
    else ret (joined_parents n (add_parents (new_client n.client_id_max) n.cluster.parents))

-- `deleteClient`
unfoldable delete_client : Client → Node → Code × Node
unfolding delete_parents delete_siblings delete_children
delete_client client n = delete_as client.category
  where
    delete_as : Category → Code × Node
    delete_as normal_client =
        let (code, parents) = delete_parents client n.cluster.parents in
        (
          code,
          record n { cluster = (let c : Cluster = record n.cluster { parents = parents } in c) },
        )
    delete_as cluster_client =
        let (code, siblings) = delete_siblings client n.cluster.siblings in
        (code, record n { cluster = with_siblings siblings n.cluster })
    delete_as server_client =
        let (code, children) = delete_children client n.children in
        (code, record n { children = children })
    delete_as local_pf_client = (err, n)
