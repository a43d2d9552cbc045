-- ===== src/Tests/Samples.antt =====
-- A log of two entries, a node that holds it, and its connections.
use cabinet.AppendEntry.{AppendRequest}
use cabinet.Base.{Bytes, List, [], codes, false, minus_one, none, pos, refl, some, true, ℤ, ◌∷◌}
use cabinet.Client.{Client, cluster_client}
use cabinet.Cluster.{Cluster, Role}
use cabinet.Entry.{Entry}
use cabinet.Entry.RoundTrip.{IsStorable}
use cabinet.Parents.{Parents}
use cabinet.PersistenceFile.{PersistenceFile}
use cabinet.PersistenceFile.Abstract.{Holds, write_entries}
use cabinet.RequestVote.{VoteRequest}
use cabinet.Siblings.{Siblings}

abbrev pub entry_one : Entry
entry_one = record { index = pos 1; term = pos 1; content = codes "set a 1" }

abbrev pub entry_two : Entry
entry_two = record { index = pos 2; term = pos 1; content = codes "del a" }

abbrev pub entry_three : Entry
entry_three = record { index = pos 3; term = pos 2; content = codes "get a" }

abbrev pub two_entries : List Entry
two_entries = entry_one ∷ entry_two ∷ []

abbrev pub sample_file : PersistenceFile
sample_file = record { file = write_entries two_entries; readable = true; writable = true }

pub sample_file-Holds : Holds sample_file two_entries
sample_file-Holds = record {
  text = refl;
  storable = (
    record {
      index_fits = refl;
      term_fits = refl;
      content_clean = (refl, (refl, (refl, (refl, (refl, (refl, (refl, tt)))))));
    },
    (
      record {
        index_fits = refl;
        term_fits = refl;
        content_clean = (refl, (refl, (refl, (refl, (refl, tt)))));
      },
      tt,
    ),
  );
  can_read = refl;
  can_write = refl;
}

pub entry_three-IsStorable : IsStorable entry_three
entry_three-IsStorable = record {
  index_fits = refl;
  term_fits = refl;
  content_clean = (refl, (refl, (refl, (refl, (refl, tt)))));
}

abbrev pub sample_client : ℤ → ℤ → List Bytes → Client
sample_client id cluster_id argv = record {
  client_id = id;
  cluster_id = cluster_id;
  category = cluster_client;
  argv = argv;
  cur_command_buf = codes "get a";
}

-- Node 1 of three; node 2 is connected and up to date, node 3 is known.
abbrev pub sample_siblings : Siblings
sample_siblings = record {
  cluster_id = pos 1;
  cluster_id_vector = pos 2 ∷ pos 3 ∷ [];
  ip_map = [];
  port_map = [];
  next_index_map = (pos 2, pos 2) ∷ (pos 3, pos 1) ∷ [];
  match_index_map = (pos 2, pos 1) ∷ (pos 3, pos 0) ∷ [];
  connect_status = (pos 2, true) ∷ [];
  client_map = (pos 2, some (sample_client (pos 7) (pos 2) [])) ∷ (pos 3, none) ∷ [];
  current_leader_id = minus_one;
  connect_trying = [];
  already_append_entry = [];
  empty_append_entry = (pos 2, false) ∷ [];
}

abbrev pub sample_parents : Parents
sample_parents = record {
  parents_queue = sample_client (pos 8) minus_one [] ∷ [];
  dealing_index_parents_map = [];
}

abbrev pub sample_node : Role → Cluster
sample_node role = record {
  cluster_id = pos 1;
  role = role;
  current_term = pos 2;
  voted_for = minus_one;
  commit_index = pos 1;
  last_entry_index = pos 2;
  last_applied = pos 1;
  siblings = sample_siblings;
  parents = sample_parents;
  last_unix_time_in_ms = pos 0;
  election_timeout = pos 200;
  receive_votes = pos 0;
  win_vote_baseline = pos 2;
  pf = sample_file;
}

-- The leader of term 2 sends the third entry.
abbrev pub sample_append : AppendRequest
sample_append = record {
  term = pos 2;
  leader_id = pos 2;
  prev_log_index = pos 2;
  prev_log_term = pos 1;
  entry = entry_three;
  leader_commit = pos 2;
}

abbrev pub sample_vote : VoteRequest
sample_vote = record {
  term = pos 3;
  candidate_id = pos 3;
  last_log_index = pos 2;
  last_log_term = pos 1;
}
