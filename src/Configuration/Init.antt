-- ===== src/Configuration/Init.antt =====
-- `initConfig` and the last step of `init` of src/Cluster.cpp. `loaded` is what `loadConfiguration`
-- gives, and `pf` the file of entries as it is found.
use cabinet.Base.{
  Bytes, Code, Option, Outcome, [], codes, err, exit, false, minus_one, negsuc, ok, pos, ret, scale,
  some, suc, undefined, zero, ℕ, ℤ, ◌+ℤ◌, ◌-ℤ◌, ◌/◌, ◌>>=◌,
}
use cabinet.Children.{Children}
use cabinet.Cluster.{Cluster, follower, to_follow}
use cabinet.Configuration.{
  Configuration, conf_int, conf_value, load_configuration, recognize_children, recognize_siblings,
}
use cabinet.Node.{Node}
use cabinet.Parents.{Parents}
use cabinet.PersistenceFile.{PersistenceFile}
use cabinet.Siblings.{Siblings}

-- The constructors
abbrev pub new_siblings : Siblings
new_siblings = record {
  cluster_id = minus_one;
  cluster_id_vector = [];
  ip_map = [];
  port_map = [];
  next_index_map = [];
  match_index_map = [];
  connect_status = [];
  client_map = [];
  current_leader_id = minus_one;
  connect_trying = [];
  already_append_entry = [];
  empty_append_entry = [];
}

abbrev pub new_children : Children
new_children = record {
  server_id_vector = [];
  child_ptr_map = [];
  connect_status = [];
  ip_map = [];
  port_map = [];
  consistent_hash_and_server_id_map = [];
}

abbrev pub new_parents : Parents
new_parents = record { parents_queue = []; dealing_index_parents_map = [] }

-- `a / b` on `int`, towards 0
abbrev pub quotient : ℕ → ℤ → Outcome ℤ
quotient a (pos zero) = undefined
quotient a (pos (suc n)) = ret (pos (a / suc n))
quotient a (negsuc n) = ret (pos 0 -ℤ pos (a / suc n))

abbrev pub half : ℤ → ℤ
half (pos n) = pos (n / 2)
half (negsuc n) = pos 0 -ℤ pos (suc n / 2)

abbrev pub times : ℤ → ℤ → ℤ
times (pos n) a = scale n a
times (negsuc n) a = scale (suc n) (pos 0 -ℤ a)

-- The numbers that the `try` block reads.
pub record Numbers : Type 0 where
  pub cluster_id : ℤ
  pub election_timeout : ℤ
  pub win_vote_baseline : ℤ

-- The two ends of the range, read last
abbrev pub read_range : ℤ → ℤ → Option ℤ → Option ℤ → Outcome Numbers
read_range own timeout (some id_max) (some id_min) = ret (record {
  cluster_id = own;
  election_timeout = timeout;
  win_vote_baseline = half (id_max -ℤ id_min +ℤ pos 1) +ℤ pos 1;
})
read_range own timeout id_max id_min = exit

-- `none` is an exception, whose handler calls `exit(1)`
abbrev pub read_fields :
    Option ℤ → Option ℤ → Option ℤ → Option ℤ → Option ℤ → Option ℤ → Outcome Numbers
read_fields (some own) (some port) (some hz) (some ratio) id_max id_min =
    quotient 1000 hz >>= λ tick. read_range own (times tick ratio) id_max id_min
read_fields own port hz ratio id_max id_min = exit

unfoldable pub read_numbers : Configuration → Outcome Numbers
unfolding scale conf_value
read_numbers conf =
    read_fields (conf_int conf (codes "CLUSTER_ID")) (conf_int conf (codes "CLUSTER_PORT"))
      (conf_int conf (codes "CLUSTER_HZ")) (conf_int conf (codes "CLUSTER_ELECTION_TIMEOUT_RATIO"))
      (conf_int conf (codes "CLUSTER_ID_MAX")) (conf_int conf (codes "CLUSTER_ID_MIN"))

abbrev pub new_cluster : Numbers → Siblings → PersistenceFile → Cluster
new_cluster numbers s pf = record {
  cluster_id = numbers.cluster_id;
  role = follower;
  current_term = pos 0;
  voted_for = minus_one;
  commit_index = pos 0;
  last_entry_index = pos 0;
  last_applied = pos 0;
  siblings = s;
  parents = new_parents;
  last_unix_time_in_ms = minus_one;
  election_timeout = numbers.election_timeout;
  receive_votes = pos 0;
  win_vote_baseline = numbers.win_vote_baseline;
  pf = pf;
}

-- `recognizeChildren`, and the node
abbrev pub with_servers : PersistenceFile → Numbers → Siblings → Code × Children → Outcome Node
with_servers pf numbers s (err, ch) = exit
with_servers pf numbers s (ok, ch) = ret (record {
  cluster = new_cluster numbers s pf;
  children = ch;
  client_id_max = pos 0;
  meet_working_baseline = false;
})

-- `recognizeSiblings`, and the rest
abbrev pub with_nodes : PersistenceFile → Configuration → Numbers → Code × Siblings → Outcome Node
with_nodes pf conf numbers (err, s) = exit
with_nodes pf conf numbers (ok, s) =
    with_servers pf numbers s (recognize_children conf new_children)

-- `initConfig` with the configuration that was loaded
unfoldable pub init_config : PersistenceFile → Configuration → Outcome Node
unfolding read_numbers recognize_siblings recognize_children
init_config pf conf = read_numbers conf >>= λ numbers.
    recognize_siblings conf new_siblings >>= with_nodes pf conf numbers

-- `toFollow(1)` in `init`
abbrev pub start_following : ℤ → Node → Node
start_following now n = record n { cluster = to_follow now (pos 1) n.cluster }

abbrev pub start_loaded : ℤ → PersistenceFile → Code × Configuration → Outcome Node
start_loaded now pf (err, conf) = exit
start_loaded now pf (ok, conf) = init_config pf conf >>= λ n. ret (start_following now n)

-- The start of a node, with the text of its configuration file
unfoldable pub start_node : ℤ → PersistenceFile → Option Bytes → Outcome Node
unfolding init_config to_follow load_configuration
start_node now pf text = start_loaded now pf (load_configuration text [])
