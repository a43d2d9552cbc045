-- ===== src/Server/Methods.antt =====
-- The methods of a server that the event poll calls: `createClient` and `deleteClient` of
-- src/Server.cpp, and `executeCommand` of src/ServerClient.cpp with what its reply does to the client
-- (`initReplyHead` and `getReadyToSendMessage` of src/Client.cpp). What `accept` and `fcntl` return is a
-- parameter.
use cabinet.Base.{
  Bytes, Code, List, Option, Outcome, [], codes, false, minus_one, none, not, ret, some, true, ℤ,
  ◌++◌, ◌==ℤ◌, ◌>>=◌, ◌∷◌,
}
use cabinet.Client.{Client, Sent}
use cabinet.EventPoll.{Epoll, get_ready_to_send_message}
use cabinet.EventPoll.Loop.{Loop, Methods, Peer, find_client, put_client}
use cabinet.ProtocolStream.{new_stream}
use cabinet.Server.{Server, execute_command}
use cabinet.Server.Start.{create_server_client}
use cabinet.Util.{AcceptCalls, cabinet_err, get_connect_fd}

-- The client for a command that its stream holds.
abbrev pub client_of : Peer → Client
client_of peer = record {
  client_id = peer.connection.client_id;
  cluster_id = minus_one;
  category = peer.category;
  argv = peer.stream.argv;
  cur_command_buf = peer.stream.cur_command_buf;
}

abbrev pub peer_of : ℤ → Option Client → Option Peer
peer_of fd none = none
peer_of fd (some client) = some (record {
  connection = record { fd = fd; client_id = client.client_id };
  category = client.category;
  stream = new_stream true false (codes "none");
})

abbrev pub texts : List Sent → Bytes
texts [] = []
texts (sent ∷ more) = sent.text ++ texts more

abbrev pub with_output : Bytes → Peer → Peer
with_output text peer = record peer {
  stream = record peer.stream { output_buf = peer.stream.output_buf ++ text };
}

module _ {K : Type 0} where
  -- `createClient`
  abbrev pub accept_client :
      ℤ → (Loop K Server → AcceptCalls) → ℤ → Loop K Server → Option Peer × ℤ × Server
  accept_client own_fd accept listen_fd st =
      let fd = (get_connect_fd (accept st)).0 in
      let (client, next) =
        create_server_client own_fd listen_fd (not (fd ==ℤ cabinet_err)) st.client_id_max in
      (peer_of fd client, next, st.world)

  -- The result of a command, whose replies all go to its client.
  abbrev pub deliver :
      Epoll K
      → ℤ
      → Peer
      → Loop K Server
      → Code × Server × List Sent
      → Outcome (Code × Loop K Server)
  deliver e id peer st (code, server, []) = ret (code, record st { world = server })
  deliver e id peer st (code, server, sent ∷ more) =
      get_ready_to_send_message e peer.connection st.poll >>= λ poll. ret (
        code,
        put_client id (with_output (texts (sent ∷ more)) peer)
            (record st { poll = poll; world = server }),
      )

  unfoldable pub execute_for : Epoll K → ℤ → Loop K Server → Outcome (Code × Loop K Server)
  unfolding execute_command get_ready_to_send_message
  execute_for e id st = do
    peer ← find_client id st
    done ← execute_command (client_of peer) st.world
    deliver e id peer st done

  -- `deleteClient` does nothing.
  abbrev pub server_methods : Epoll K → ℤ → (Loop K Server → AcceptCalls) → Methods K Server
  server_methods e own_fd accept = record {
    create_client = accept_client own_fd accept;
    delete_client = λ id st. st.world;
    execute_command = execute_for e;
  }
