-- ===== src/Tests/Cli.antt =====
-- Turns of the command line client, and a connection that is refused.
use cabinet.Base.{
  Bytes, List, [], arith, at, codes, false, lebℤ, lookup, ltbℤ, minus_one, not, ok, pos, refl, ret,
  same_bytes, some, true, ℕ, ◌&&◌, ◌==ℤ◌, ◌||◌, ◌∷◌, ◌≡◌,
}
use cabinet.CabinetCli.Format.{IsTyped}
use cabinet.CabinetCli.Redirect.{cli_turn-redirect, cli_turn-shows, redirect_parts}
use cabinet.CabinetCli.Main.{cli_turn}
use cabinet.CabinetCli.Session.{Session}
use cabinet.CabinetCli.Turn.{fresh, surroundings, typed_text}
use cabinet.CabinetCli.Words.{IsWord}
use cabinet.Client.{Client}
use cabinet.Cluster.{Cluster, follower}
use cabinet.Database.{select_command}
use cabinet.EventPoll.{ReadResult, read_bytes}
use cabinet.Number.{digits, to_string}
use cabinet.ProtocolStream.Frame.{frame, head_text, part_text, parts_text}
use cabinet.ProtocolStream.Plain.{plain_frame}
use cabinet.Request.{handle_request}
use cabinet.Siblings.{get_leader_ip_and_port}
use cabinet.Tests.Samples.{sample_client, sample_node, sample_siblings}
use cabinet.Util.{
  AcceptCalls, ConnectCalls, ListenCalls, accept_tcp, cabinet_err, connect_tcp, failed, listen_tcp,
}
use cabinet.Util.Descriptors.{descriptors_left, is_made, leaks}

abbrev local_session : Session
local_session = record {
  server_ip = codes "::1";
  server_port = pos 80;
  prompt = codes ">";
  connect_fd = pos 4;
  cli = fresh;
}

get-IsWord : IsWord (codes "get")
get-IsWord = record { clean = (refl, (refl, (refl, tt))); filled = refl }

a-IsWord : IsWord (codes "a")
a-IsWord = record { clean = (refl, tt); filled = refl }

get-IsTyped : IsTyped (codes "get") (codes "a" ∷ [])
unfolding select_command same_bytes
get-IsTyped = record { valid = refl; number = refl }

-- `get a` makes 18 bytes, which go out in two pieces.
abbrev get_vs : List (ℕ × Bytes)
get_vs = (0, codes "a") ∷ []

abbrev more_lines : List Bytes
more_lines = codes "del a" ∷ []

abbrev sent : Bytes
sent = typed_text (codes "get") get_vs

abbrev answer_of : List Bytes → List ReadResult
answer_of parts = read_bytes (plain_frame parts) ∷ []

cli_turn-shows_example :
    cli_turn
      (surroundings
        (codes "get")
        get_vs
        more_lines
        (10 ∷ 8 ∷ [])
        (answer_of (codes "1" ∷ []))
        (pos 6))
      local_session
    ≡ ret (
        some (record {
          session = local_session;
          lines = more_lines;
          sent = sent;
          shown = codes "1" ∷ [];
        }))
cli_turn-shows_example =
    cli_turn-shows local_session (codes "get") get_vs more_lines (10 ∷ 8 ∷ []) [] (pos 6) get-IsWord
      (a-IsWord, tt) get-IsTyped (codes "1") []
      (unfold frame head_text parts_text part_text to_string digits select_command same_bytes in
        refl)
      (unfold plain_frame head_text parts_text part_text to_string digits in omega arith)
      (unfold same_bytes in refl)

-- A follower of node 2.
abbrev led_node : Cluster
led_node = record (sample_node follower) {
  siblings = record sample_siblings {
    ip_map = (pos 2, codes "::2") ∷ [];
    port_map = (pos 2, pos 81) ∷ [];
    current_leader_id = pos 2;
  };
}

abbrev user : Client
user = sample_client (pos 8) minus_one []

cli_turn-redirect_example :
    (handle_request follower (pos 5) user led_node
      ≡ ret (
        ok,
        led_node,
        record { receiver = pos 8; text = plain_frame (redirect_parts (codes "::2") (pos 81)) }
            ∷ [],
      ))
    × (cli_turn
          (surroundings
            (codes "get")
            get_vs
            more_lines
            (10 ∷ 8 ∷ [])
            (answer_of (redirect_parts (codes "::2") (pos 81)))
            (pos 6))
          local_session
        ≡ ret (
            some (record {
              session = record {
                server_ip = codes "::2";
                server_port = pos 81;
                prompt = codes "::2:81>";
                connect_fd = pos 6;
                cli = fresh;
              };
              lines = more_lines;
              sent = sent;
              shown =
                  codes "redirect"
                  ∷ codes "leaderip"
                  ∷ codes "::2"
                  ∷ codes "leaderport"
                  ∷ codes "81"
                  ∷ [];
            })))
unfolding to_string digits
cli_turn-redirect_example =
    cli_turn-redirect local_session (codes "get") get_vs more_lines (10 ∷ 8 ∷ []) [] (pos 6)
      get-IsWord (a-IsWord, tt) get-IsTyped (pos 5) user led_node (codes "::2") (pos 81)
      (unfold frame head_text parts_text part_text to_string digits select_command same_bytes in
        refl)
      (unfold get_leader_ip_and_port at lookup in refl) refl refl refl
      (unfold plain_frame head_text parts_text part_text to_string digits in omega arith)

-- A connection that is refused at once.
abbrev refused : ConnectCalls
refused = record {
  socket = pos 7;
  inet_pton = pos 1;
  connect = minus_one;
  select = pos 1;
  is_writable = true;
  getsockopt = pos 0;
  has_error = true;
}

-- The port is in use.
abbrev port_used : ListenCalls
port_used = record {
  socket = pos 7;
  setsockopt = pos 0;
  bind = minus_one;
  listen = pos 0;
  got_flags = pos 0;
  set_flags = pos 0;
}

abbrev no_flags : AcceptCalls
no_flags = record { accept = pos 7; got_flags = minus_one; set_flags = pos 0 }

descriptors_left_example :
    (((connect_tcp refused).0 ==ℤ pos 7)
      ≡ (ltbℤ (pos 0) refused.inet_pton && (failed refused.connect || is_made refused)))
    × (leaks (connect_tcp refused) ≡ (
        lebℤ refused.inet_pton (pos 0)
        || (not (failed refused.connect)
            && (not (refused.select ==ℤ pos 0) && not refused.is_writable))))
    × (leaks (listen_tcp port_used) ≡ ((listen_tcp port_used).0 ==ℤ cabinet_err))
    × (leaks (accept_tcp no_flags) ≡ false)
descriptors_left_example = descriptors_left refused port_used no_flags refl refl
