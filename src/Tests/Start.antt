-- ===== src/Tests/Start.antt =====
-- A node that starts from the text of its configuration.
use cabinet.Base.{
  Bool, Bytes, false, true, minus_one, ok, List, Outcome, [], arith, codes, insert, pos, refl, ret,
  same_bytes, scale, some, ℤ, ◌++◌, ◌+ℤ◌, ◌-ℤ◌, ◌∷◌, ◌≡◌,
}
use cabinet.Configuration.{
  Configuration, conf_lines, conf_value, find_separator, load_configuration, recognize_children,
  recognize_from, recognize_in, recognize_servers, recognize_siblings, store_line, store_lines,
}
use cabinet.Configuration.Init.{init_config, read_numbers, start_node}
use cabinet.Configuration.Ready.{EndsWith, IsConfigured, IsReady, NoTick, init_config-IsReady}
use cabinet.Node.{Node}
use cabinet.Number.{digits, read_digits, read_signed, read_unsigned, skip_space, sto, to_string}
use cabinet.ProtocolStream.{newline}
use cabinet.Tests.Samples.{sample_file}
use cabinet.EventPoll.{EventPoll}
use cabinet.EventPoll.Lives.{Lives}
use cabinet.EventPoll.Loop.{Loop}
use cabinet.Server.Start.{start_server}
use cabinet.Startup.{Polling, StartCalls, cluster_main, server_main}
use cabinet.Startup.Listening.{first_loop, is_refused, listening, main-starts, polled_with}
use cabinet.Tests.Events.{sample_epoll}
use cabinet.Util.{ListenCalls, listen_tcp, opened, reuse_address, set_non_block}

abbrev lines_of : List Bytes → Bytes
lines_of [] = []
lines_of (l ∷ ls) = l ++ newline ∷ lines_of ls

abbrev conf_text : Bytes
conf_text = lines_of (
    codes "# node 1 of three"
    ∷ codes "CLUSTER_ID=1"
    ∷ codes "CLUSTER_ID_MIN=1"
    ∷ codes "CLUSTER_ID_MAX=3"
    ∷ codes "CLUSTER_PORT=8000"
    ∷ codes "CLUSTER_HZ=10"
    ∷ codes "CLUSTER_ELECTION_TIMEOUT_RATIO=5"
    ∷ codes "CLUSTER_PORT_2=8002"
    ∷ codes "CLUSTER_PORT_3=8003"
    ∷ codes "CLUSTER_SERVER_TOTAL=1"
    ∷ codes "CLUSTER_SERVER_PORT_1=9001"
    ∷ [])

sample_conf : Configuration
unfolding load_configuration conf_lines store_lines store_line find_separator
sample_conf = (load_configuration (some conf_text) []).1

sample_conf-IsConfigured : IsConfigured sample_conf (pos 1) (pos 1) (pos 3)
unfolding sample_conf load_configuration conf_lines store_lines store_line find_separator conf_value
    same_bytes sto read_signed skip_space read_unsigned read_digits ◌+ℤ◌ ◌-ℤ◌
sample_conf-IsConfigured = record {
  own_id = refl;
  least_id = refl;
  greatest_id = refl;
  among = (omega arith, omega arith);
}

init_config-IsReady_example :
    EndsWith
      (NoTick sample_conf (pos 1) (pos 1) (pos 3))
      IsReady
      (init_config sample_file sample_conf)
init_config-IsReady_example =
    init_config-IsReady sample_conf (pos 1) (pos 1) (pos 3) sample_file sample_conf-IsConfigured

abbrev returned : Outcome Node → List ℤ
returned (ret n) = n.cluster.win_vote_baseline ∷ n.cluster.siblings.cluster_id_vector
returned r = []

-- The start returns: two votes win, and the siblings are 2 and 3.
start_returns : returned (init_config sample_file sample_conf) ≡ pos 2 ∷ pos 2 ∷ pos 3 ∷ []
unfolding sample_conf load_configuration conf_lines store_lines store_line find_separator conf_value
    same_bytes sto read_signed skip_space read_unsigned read_digits ◌+ℤ◌ ◌-ℤ◌ init_config
    read_numbers recognize_siblings recognize_in recognize_from recognize_children recognize_servers
    to_string digits scale insert
start_returns = refl

-- The first attempt to listen fails in `bind`, the second one gives descriptor 4.
abbrev refused_attempt : ListenCalls
refused_attempt = record {
  socket = pos 3;
  setsockopt = pos 0;
  bind = minus_one;
  listen = pos 0;
  got_flags = pos 0;
  set_flags = pos 0;
}

abbrev good_attempt : ListenCalls
good_attempt = record refused_attempt { socket = pos 4; bind = pos 0 }

abbrev sample_calls : StartCalls (ℤ → Bool)
sample_calls = record {
  forked = pos 0;
  forked_again = pos 0;
  attempts = refused_attempt ∷ good_attempt ∷ [];
  created = pos 5;
  kernel = λ fd. false;
}

attempt-is_refused : is_refused refused_attempt ≡ true
unfolding listen_tcp reuse_address set_non_block
attempt-is_refused = refl

attempt-is_taken : is_refused good_attempt ≡ false
unfolding listen_tcp reuse_address set_non_block
attempt-is_taken = refl

abbrev sample_polling : EventPoll (ℤ → Bool) → Polling (ℤ → Bool)
sample_polling ep = listening (pos 4) (opened (pos 3) ∷ opened (pos 4) ∷ []) ep

main-starts_example :
    (ep : EventPoll (ℤ → Bool)) × (server_main sample_epoll sample_calls sample_file
        (ok, sample_conf)
      ≡ polled_with (sample_polling ep) (start_server sample_file (ok, sample_conf)))
    × (cluster_main sample_epoll sample_calls (pos 7) sample_file (some conf_text)
        ≡ polled_with (sample_polling ep) (start_node (pos 7) sample_file (some conf_text)))
    × (ep.listen_fd_set ≡ pos 4 ∷ [])
    × (let st : Loop (ℤ → Bool) (Unit {0}) = first_loop ep tt in Lives sample_epoll st)
main-starts_example =
    main-starts sample_epoll sample_calls (refused_attempt ∷ []) good_attempt [] sample_file
      (ok, sample_conf) (some conf_text) (pos 7) tt refl refl refl (attempt-is_refused, tt)
      attempt-is_taken refl (λ fd. refl) refl
