-- ===== src/Node.antt =====
-- src/Cluster.cpp, `cron`, and the method it calls of src/Siblings.cpp: what a node does between
-- two rounds of events. A node is the cluster of the other modules with its connections to the
-- servers and `Cabinet::clientIdMax`.
pub mod Cron
pub mod Keeps
pub mod Lost
pub mod Lead
pub mod Dispatch
use cabinet.AppendEntry.Send.{send_append_entry}
use cabinet.Base.{
  Bool, Bytes, Code, List, Option, Outcome, [], at, err, false, if◌then◌else◌, insert, lebℤ, ltbℤ,
  minus_one, none, not, ok, pos, ret, some, true, undefined, ℕ, ℤ, ◌&&◌, ◌++◌, ◌+ℤ◌, ◌-ℤ◌, ◌==ℤ◌,
  ◌>>=◌, ◌>>◌, ◌∷◌,
}
use cabinet.Children.{
  Children, all_children_connected, children_ready, connect_lost_children, flush_server,
}
use cabinet.Client.{Client, Sent, cluster_client}
use cabinet.Cluster.{
  Cluster, Role, candidate, follower, is_follower, is_leader, leader, to_candidate, to_follow,
  to_lead,
}
use cabinet.ClusterNode.{send_cluster_node}
use cabinet.Siblings.{
  Siblings, add_siblings, all_connected, get_siblings_need_append_entry, need_append_entry,
  satisfy_working_baseling, set_leader_id,
}

pub record Node : Type 0 where
  pub cluster : Cluster
  pub children : Children
  pub client_id_max : ℤ
  pub meet_working_baseline : Bool

-- What the calls of `cron` get from outside: `std::hash<string>`; the siblings and the servers that
-- `Util::connectTcp` reaches, and those that `EventPoll::createFileEvent` takes; the times that
-- `Util::getCurrentTimeInMs` returns, when the round begins and when the node stands for election.
pub record Round : Type 0 where
  pub hash : Bytes → ℕ
  pub sibling_reached : ℤ → Bool
  pub sibling_watched : ℤ → Bool
  pub server_reached : ℤ → Bool
  pub server_watched : ℤ → Bool
  pub now : ℤ
  pub later : ℤ

-- The new client of `connectLostSiblings`
abbrev pub new_sibling : ℤ → ℤ → Client
new_sibling next id = record {
  client_id = next;
  cluster_id = id;
  category = cluster_client;
  argv = [];
  cur_command_buf = [];
}

abbrev pub with_siblings : Siblings → Cluster → Cluster
with_siblings s c = record c { siblings = s }

-- The next client number, the node and what it sends.
abbrev pub Connecting : Type 0
Connecting = ℤ × Cluster × List Sent

-- `addSiblings`, and `connectTrying` once the message is sent; `operator>>` has no error.
abbrev pub after_add_sibling : ℤ → Client → Cluster → Code × Siblings → Connecting
after_add_sibling next sibling c (err, s) = (next, c, [])
after_add_sibling next sibling c (ok, s) = (
  next,
  with_siblings (record s { connect_trying = insert sibling.cluster_id true s.connect_trying }) c,
  send_cluster_node c sibling,
)

-- One turn of the loop of `connectLostSiblings`: a node connects to those below it.
pub connect_sibling : Round → ℤ → ℤ → Cluster → Connecting
unfolding add_siblings send_cluster_node at
connect_sibling round id next c =
    let s = c.siblings in
    if lebℤ s.cluster_id id
    then (next, c, [])
    else if at s.connect_status id false
    then (next, c, [])
    else if at s.connect_trying id false
    then (next, c, [])
    else if not (round.sibling_reached id)
    then (next, c, [])
    else if not (round.sibling_watched id)
    then (next +ℤ pos 1, c, [])
    else after_add_sibling (next +ℤ pos 1) (new_sibling next id) c
        (add_siblings c.commit_index (new_sibling next id) s)

pub connect_siblings : Round → List ℤ → ℤ → Cluster → Connecting
unfolding connect_sibling
connect_siblings round [] next c = (next, c, [])
connect_siblings round (id ∷ ids) next c =
    let (next', c', sent) = connect_sibling round id next c in
    let (next'', c'', more) = connect_siblings round ids next' c' in (next'', c'', sent ++ more)

-- `connectLostSiblings`
pub connect_lost_siblings : Round → Node → Node × List Sent
unfolding connect_siblings
connect_lost_siblings round n =
    let (next, c, sent) =
      connect_siblings round n.cluster.siblings.cluster_id_vector n.client_id_max n.cluster in
    (record n { cluster = c; client_id_max = next }, sent)

-- `siblings->satisfyWorkingBaseling() && children->satisfyWorkingBaseling()`
unfoldable pub working_baseline : Node → Bool
unfolding satisfy_working_baseling all_children_connected
working_baseline n = satisfy_working_baseling n.cluster.siblings && children_ready n.children

abbrev pub leave_role : Round → Node → Node
leave_role round n = record n {
  cluster =
      (if not (is_follower n.cluster.role)
        then to_follow round.now n.cluster.current_term n.cluster
        else n.cluster);
}

abbrev pub forget_leader : Node → Node
forget_leader n = record n {
  cluster = with_siblings (set_leader_id minus_one n.cluster.siblings) n.cluster;
}

-- `lastApplied = 0` and `connectLostChildren`
abbrev restart_children : Round → Node → Node
restart_children round n =
    let (next, ch) =
      connect_lost_children round.server_reached round.server_watched n.client_id_max n.children in
    record n {
      cluster = (let c : Cluster = record n.cluster { last_applied = pos 0 } in c);
      children = ch;
      client_id_max = next;
    }

abbrev pub lost_siblings : Round → Node → Node × List Sent
lost_siblings round n =
    if not (satisfy_working_baseling n.cluster.siblings)
    then connect_lost_siblings round (forget_leader n)
    else (n, [])

abbrev pub lost_children : Round → Node → Node
lost_children round n = if not (children_ready n.children) then restart_children round n else n

-- `cron` where the baseline is not met
pub cron_lost : Round → Node → Node × List Sent
unfolding to_follow set_leader_id connect_lost_siblings connect_lost_children
    satisfy_working_baseling working_baseline
cron_lost round n =
    let (n', sent) = lost_siblings round (leave_role round n) in
    let n'' = lost_children round n' in
    (record n'' { meet_working_baseline = working_baseline n'' }, sent)

-- The loop of a leader: it looks at the role only after an error.
pub append_entries : ℤ → List (Option Client) → Cluster → Outcome (Cluster × List Sent)
unfolding send_append_entry
append_entries now [] c = ret (c, [])
append_entries now (none ∷ siblings) c = undefined
append_entries now (some sibling ∷ siblings) c = do
  (code, c', sent) ← send_append_entry now sibling c
  elim code [
    | ok ↦ (append_entries now siblings c' >>= λ (c'', more). ret (c'', sent ++ more))
    | err ↦
        if not (is_leader c'.role)
        then ret (c', sent)
        else (append_entries now siblings c' >>= λ (c'', more). ret (c'', sent ++ more))
  ]

-- `gap > this->electionTimeout`
abbrev pub election_timed_out : Round → Cluster → Bool
election_timed_out round c = ltbℤ c.election_timeout (round.now -ℤ c.last_unix_time_in_ms)

-- What each role does; the division of the candidate's pause is undefined for a node with number 0.
pub cron_as : Role → Round → Cluster → Outcome (Cluster × List Sent)
unfolding append_entries to_candidate to_lead need_append_entry
cron_as leader round c = append_entries round.now (get_siblings_need_append_entry c.siblings) c
cron_as follower round c =
    if election_timed_out round c then to_candidate round.later c else ret (c, [])
cron_as candidate round c =
    if not (election_timed_out round c)
    then ret (c, [])
    else if lebℤ c.win_vote_baseline c.receive_votes
    then ret (to_lead c, [])
    else if c.cluster_id ==ℤ pos 0
    then undefined
    else to_candidate round.later c

-- `flushServer`, whose error is only logged, and what the role does
pub cron_working : Round → Node → Outcome (Node × List Sent)
unfolding flush_server cron_as
cron_working round n = do
  (code, c, sent) ← flush_server round.hash n.children n.cluster
  (c', more) ← cron_as c.role round c
  ret (record n { cluster = c' }, sent ++ more)

-- The search for siblings that are lost although the baseline is met
abbrev pub lost_some : Round → Node → Node × List Sent
lost_some round n =
    if not (all_connected true n.cluster.siblings n.cluster.siblings.cluster_id_vector)
    then connect_lost_siblings round n
    else (n, [])

pub cron : Round → Node → Outcome (Node × List Sent)
unfolding cron_lost cron_working working_baseline connect_lost_siblings all_connected
cron round n =
    let met = record n { meet_working_baseline = working_baseline n } in
    if not (working_baseline n) then ret (cron_lost round met) else do
      let (n', sent) = lost_some round met
      (n'', more) ← cron_working round n'
      ret (n'', sent ++ more)
