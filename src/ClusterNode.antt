-- ===== src/ClusterNode.antt =====
-- src/ClusterNodeCommand.cpp and src/ReplyClusterNodeCommand.cpp: how two nodes get to know one
-- another. The commands also change the client, which is part of the result.
use cabinet.Base.{
  Code, List, Outcome, [], codes, err, length, ok, or_exit, pos, ret, ℤ, ◌==◌, ◌>>=◌, ◌>>◌, ◌∷◌,
}
use cabinet.Client.{Client, Sent, cluster_client, int_arg, reply}
use cabinet.Cluster.{Cluster}
use cabinet.Number.{to_string}
use cabinet.Parents.{delete_parents}
use cabinet.RequestVote.{Done}
use cabinet.Siblings.{Siblings, add_siblings, confirm_connect_sibling}

-- `ClusterNodeCommand::operator>>`
unfoldable pub send_cluster_node : Cluster → Client → List Sent
unfolding reply
send_cluster_node c client =
    reply client (pos 3) b'r'
      (codes "clusternode" ∷ codes "clusterId" ∷ to_string c.cluster_id ∷ [])

abbrev pub joined : Client → Cluster → Code × Siblings → Code × Client × Cluster × List Sent
joined client c (err, siblings) = (err, client, record c { siblings = siblings }, [])
joined client c (ok, siblings) = (
  ok,
  client,
  record c { siblings = (confirm_connect_sibling client siblings).1 },
  reply client (pos 5) b'r' (
      codes "replyclusternode"
      ∷ codes "clusterId"
      ∷ to_string c.cluster_id
      ∷ codes "success"
      ∷ codes "true"
      ∷ []),
)

-- The part of `operator[]` after the node's number is read.
unfoldable pub handle_cluster_node : ℤ → Client → Cluster → Code × Client × Cluster × List Sent
unfolding delete_parents add_siblings confirm_connect_sibling reply
handle_cluster_node sibling_id client c =
    let (code, parents) = delete_parents client c.parents in
    let c' : Cluster = record c { parents = parents } in
    let client' : Client = record client { cluster_id = sibling_id; category = cluster_client } in
    elim code [
      | err ↦ (err, client, c', [])
      | ok ↦ joined client' c' (add_siblings c'.commit_index client' c'.siblings)
    ]

-- `ClusterNodeCommand::operator[]`
unfoldable pub cluster_node : Client → Cluster → Outcome (Code × Client × Cluster × List Sent)
unfolding handle_cluster_node
cluster_node client c = do
  or_exit (length client.argv == 3)
  sibling_id ← int_arg client.argv 2
  ret (handle_cluster_node sibling_id client c)

-- `ReplyClusterNodeCommand::operator[]`; the number that the sibling sends is only logged.
unfoldable pub reply_cluster_node : Client → Cluster → Done
unfolding confirm_connect_sibling
reply_cluster_node client c = do
  or_exit (length client.argv == 5)
  sibling_id ← int_arg client.argv 2
  let (code, siblings) = confirm_connect_sibling client c.siblings
  ret (code, record c { siblings = siblings }, [])
