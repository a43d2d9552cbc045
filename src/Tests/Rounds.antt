-- ===== src/Tests/Rounds.antt =====
-- Runs of the connections to the servers and of `cron`.
use cabinet.Base.{
  List, [], arith, at, false, inr, length, lookup, minus_one, none, pos, refl, ret, scale, some,
  true, ℤ, ◌∷◌, ◌≡◌,
}
use cabinet.Children.{
  Children, add_children, all_children_connected, children_ready, connect_lost_children,
  delete_children, hash_slot, is_one_of, server_of_hash,
}
use cabinet.Children.Connect.{IsLinked, connect_lost_children-ready, everywhere}
use cabinet.Children.Flush.{
  AreDelivered, IsSendable, IsUp, applied_to, flush_servers, flush_servers-AreDelivered,
}
use cabinet.Children.Invariant.{IsAbove, IsPlaced, IsWired, children-IsWired}
use cabinet.Children.Routing.{IsChosen, server_of_hash-IsChosen}
use cabinet.Client.{Client, Sent, server_client}
use cabinet.Cluster.{Cluster, Role, follower, leader}
use cabinet.Entry.{Entry}
use cabinet.Node.{Node, Round, cron, working_baseline}
use cabinet.Node.Cron.{Turn, cron-Turn}
use cabinet.Node.Lost.{IsWaiting, cron-IsWaiting}
use cabinet.PersistenceFile.{PersistenceFile}
use cabinet.PersistenceFile.Abstract.{Holds, write_entries}
use cabinet.Server.Replay.{text_of}
use cabinet.Siblings.{count_from, satisfy_working_baseling}
use cabinet.Siblings.Invariant.{IsSound}
use cabinet.Tests.Nodes.{sample-IsSound}
use cabinet.Tests.Samples.{sample_node}
use cabinet.Tests.Servers.{set_a, set_a-Lacks}

abbrev server_client_of : ℤ → Client
server_client_of id = record {
  client_id = id;
  cluster_id = minus_one;
  category = server_client;
  argv = [];
  cur_command_buf = [];
}

-- Two servers; the slots are 488 and 976.
abbrev two_servers : Children
two_servers = record {
  server_id_vector = pos 1 ∷ pos 2 ∷ [];
  child_ptr_map =
      (pos 1, some (server_client_of (pos 21))) ∷ (pos 2, some (server_client_of (pos 22))) ∷ [];
  connect_status = (pos 1, true) ∷ (pos 2, true) ∷ [];
  ip_map = [];
  port_map = [];
  consistent_hash_and_server_id_map = (pos 488, pos 1) ∷ (pos 976, pos 2) ∷ [];
}

two_servers-IsWired : IsWired two_servers
unfolding IsPlaced IsAbove hash_slot scale is_one_of at lookup
two_servers-IsWired = record {
  no_sentinel = refl;
  placed = (
    (refl, refl, refl, (server_client_of (pos 21), refl)),
    (omega arith, tt),
    ((refl, refl, refl, (server_client_of (pos 22), refl)), tt, tt),
  );
}

two_servers-IsUp : IsUp two_servers
two_servers-IsUp = record { wired = two_servers-IsWired; filled = refl }

children-IsWired_example :
    IsWired (add_children (pos 1) (server_client_of (pos 23)) two_servers).1
    × IsWired (delete_children (server_client_of (pos 23)) two_servers).1
    × IsWired (connect_lost_children everywhere everywhere (pos 24) two_servers).1
children-IsWired_example =
    children-IsWired two_servers (pos 1) (server_client_of (pos 23)) everywhere everywhere (pos 24)
      two_servers-IsWired

server_of_hash-IsChosen_example :
    (k id : ℤ) × (child : Client) × (server_of_hash (pos 500) two_servers ≡ ret (some child))
    × (at two_servers.child_ptr_map id none ≡ some child)
    × (at two_servers.connect_status id false ≡ true)
    × IsChosen (pos 500) k id two_servers.consistent_hash_and_server_id_map
server_of_hash-IsChosen_example =
    server_of_hash-IsChosen (pos 500) two_servers two_servers-IsWired refl

-- Two servers that are not yet connected.
abbrev no_servers : Children
no_servers = record two_servers {
  child_ptr_map = [];
  connect_status = [];
  consistent_hash_and_server_id_map = [];
}

no_servers-IsLinked : IsLinked no_servers
unfolding at lookup
no_servers-IsLinked id = refl

no_servers-IsWired : IsWired no_servers
unfolding IsPlaced is_one_of
no_servers-IsWired = record { no_sentinel = refl; placed = tt }

connect_lost_children-ready_example :
    (let r = (connect_lost_children everywhere everywhere (pos 5) no_servers).1 in
      (children_ready r ≡ true) × IsLinked r)
connect_lost_children-ready_example =
    connect_lost_children-ready (pos 5) no_servers no_servers-IsLinked

abbrev set_entry : Entry
set_entry = record { index = pos 1; term = pos 1; content = text_of set_a }

abbrev set_file : PersistenceFile
set_file = record { file = write_entries (set_entry ∷ []); readable = true; writable = true }

set_file-Holds : Holds set_file (set_entry ∷ [])
set_file-Holds = record {
  text = refl;
  storable = (record { index_fits = refl; term_fits = refl; content_clean = set_a-Lacks }, tt);
  can_read = refl;
  can_write = refl;
}

-- A node whose only entry is committed and not yet sent.
abbrev due_node : Role → Cluster
due_node role = record (sample_node role) {
  commit_index = pos 1;
  last_applied = pos 0;
  pf = set_file;
}

set_entry-IsSendable : IsSendable set_entry
set_entry-IsSendable = record {
  request = set_a;
  type = b'w';
  text = refl;
  typed = refl;
  few = omega arith;
  fit = (omega arith, (omega arith, (omega arith, tt)));
}

flush_servers-AreDelivered_example :
    (sents : List Sent) × (flush_servers length two_servers 1 (due_node follower)
      ≡ ret (applied_to (pos 1) (due_node follower), sents))
    × AreDelivered length two_servers (set_entry ∷ []) sents
flush_servers-AreDelivered_example =
    flush_servers-AreDelivered length two_servers (due_node follower) (set_entry ∷ []) []
      (set_entry ∷ []) [] two_servers-IsUp set_file-Holds (refl, tt) refl refl refl
      (set_entry-IsSendable, tt)

abbrev sample_round : Round
sample_round = record {
  hash = length;
  sibling_reached = everywhere;
  sibling_watched = everywhere;
  server_reached = everywhere;
  server_watched = everywhere;
  now = pos 1000;
  later = pos 1001;
}

abbrev sample_whole : Children → Role → Node
sample_whole ch role = record {
  cluster = due_node role;
  children = ch;
  client_id_max = pos 30;
  meet_working_baseline = false;
}

cron-Turn_example :
    (n' : Node) × (sent : List Sent) × (cron sample_round (sample_whole two_servers follower)
      ≡ ret (n', sent))
    × Turn sample_round (due_node follower) n'.cluster
    × (n'.cluster.pf ≡ set_file)
    × (n'.children ≡ two_servers)
    × IsSound n'.cluster.siblings
cron-Turn_example =
    cron-Turn sample_round (sample_whole two_servers follower)
      (unfold working_baseline satisfy_working_baseling all_children_connected count_from at
          lookup in
        refl)
      refl refl two_servers-IsUp sample-IsSound
      (inr (
        set_entry ∷ [],
        [],
        set_entry,
        [],
        set_entry-IsSendable,
        record {
          log = refl;
          numbered = (refl, tt);
          holds = set_file-Holds;
          applied = refl;
          committed = omega arith;
        },
      ))

cron-IsWaiting_example :
    (n' : Node) × (sent : List Sent) × (cron sample_round (sample_whole no_servers leader)
      ≡ ret (n', sent))
    × IsWaiting (due_node leader) n'
cron-IsWaiting_example =
    cron-IsWaiting sample_round (sample_whole no_servers leader)
      (unfold working_baseline satisfy_working_baseling all_children_connected count_from at
          lookup in
        refl)
      sample-IsSound no_servers-IsWired no_servers-IsLinked
