-- ===== src/EventPoll/Loop.antt =====
-- `EventPoll::processEvent` and `EventPoll::deleteClient`: the events of a batch, and the loop that
-- resolves and executes what was read. The methods of the cabinet that they call are virtual: an
-- interface. A client is looked up by its number; one that was deleted is not found.
use cabinet.Base.{
  Bool, Code, IntMap, List, Option, Outcome, [], erase, err, if◌then◌else◌, insert, lookup, none,
  ok, ret, some, suc, undefined, zero, ℕ, ℤ, ◌&&◌, ◌++◌, ◌>>=◌, ◌∷◌,
}
use cabinet.Children.{is_one_of}
use cabinet.Client.{Category}
use cabinet.EventPoll.{
  Connection, Epoll, EventPoll, ReadResult, Written, create_file_event, read_event, read_into,
  remove_client, send_reply,
}
use cabinet.ProtocolStream.{ProtocolStream, is_receive_buf_avaliable, resolve_receive_buf}

-- A client in memory.
pub record Peer : Type 0 where
  pub connection : Connection
  pub category : Category
  pub stream : ProtocolStream

-- The event poll, the clients that are not deleted, `readEventClientList`, `clientIdMax` of the
-- cabinet, and what else it keeps.
pub record Loop (K W : Type 0) : Type 0 where
  pub poll : EventPoll K
  pub clients : IntMap Peer
  pub read_list : List ℤ
  pub client_id_max : ℤ
  pub world : W

-- `createClient(listenFd)` with the next number after it, `deleteClient(client)` and `Client::executeCommand()`
pub record Methods (K W : Type 0) : Type 0 where
  pub create_client : ℤ → Loop K W → Option Peer × ℤ × W
  pub delete_client : ℤ → Loop K W → W
  pub execute_command : ℤ → Loop K W → Outcome (Code × Loop K W)

-- An event of `epoll_wait`, with what `read` or `write` of its descriptor returns.
pub record Event : Type 0 where
  pub fd : ℤ
  pub readable : Bool
  pub writable : Bool
  pub read_result : ReadResult
  pub written : Written

-- A pointer to a client that was deleted can not be followed.
abbrev pub or_dangling : Option Peer → Outcome Peer
or_dangling none = undefined
or_dangling (some peer) = ret peer

module _ {K W : Type 0} where
  abbrev pub find_client : ℤ → Loop K W → Outcome Peer
  find_client id st = or_dangling (lookup id st.clients)

  abbrev pub put_client : ℤ → Peer → Loop K W → Loop K W
  put_client id peer st = record st { clients = insert id peer st.clients }

  -- `deleteClient`
  unfoldable pub delete_client : Epoll K → Methods K W → ℤ → Loop K W → Outcome (Loop K W)
  unfolding remove_client
  delete_client e ops id st = do
    peer ← find_client id st
    let world = ops.delete_client id st
    poll ← remove_client e peer.connection st.poll
    ret (record st { poll = poll; clients = erase id st.clients; world = world })

  abbrev pub push_back : ℤ → Loop K W → Loop K W
  push_back id st = record st { read_list = st.read_list ++ id ∷ [] }

  -- Where a listening descriptor is readable.
  abbrev pub add_client : Epoll K → Option Peer × ℤ × W → Loop K W → Outcome (Loop K W)
  add_client e (none, next, world) st = ret (record st { client_id_max = next; world = world })
  add_client e (some peer, next, world) st =
      create_file_event e peer.connection read_event st.poll >>= λ poll. ret (record st {
        poll = poll;
        clients = insert peer.connection.client_id peer st.clients;
        client_id_max = next;
        world = world;
      })

  abbrev pub after_fill :
      Epoll K → Methods K W → ℤ → Peer → Loop K W → Code × ProtocolStream → Outcome (Loop K W)
  after_fill e ops id peer st (err, s) =
      delete_client e ops id (put_client id (record peer { stream = s }) st)
  after_fill e ops id peer st (ok, s) =
      ret (push_back id (put_client id (record peer { stream = s }) st))

  -- Where the descriptor of a client is readable.
  abbrev pub read_client :
      Epoll K → Methods K W → ReadResult → Option ℤ → Loop K W → Outcome (Loop K W)
  read_client e ops result none st = ret st
  read_client e ops result (some id) st = do
    peer ← find_client id st
    after_fill e ops id peer st (read_into result peer.stream)

  abbrev pub after_send :
      Epoll K
      → Methods K W
      → ℤ
      → Peer
      → Loop K W
      → Code × ProtocolStream × EventPoll K
      → Outcome (Loop K W)
  after_send e ops id peer st (err, s, poll) =
      delete_client e ops id
        (put_client id (record peer { stream = s }) (record st { poll = poll }))
  after_send e ops id peer st (ok, s, poll) =
      ret (put_client id (record peer { stream = s }) (record st { poll = poll }))

  -- Where the descriptor of a client is writable.
  abbrev pub write_client :
      Epoll K → Methods K W → Written → Option ℤ → Loop K W → Outcome (Loop K W)
  write_client e ops written none st = ret st
  write_client e ops written (some id) st = do
    peer ← find_client id st
    sent ← send_reply e peer.category peer.connection written peer.stream st.poll
    after_send e ops id peer st sent

  -- The body of the loop over the events.
  unfoldable pub handle_event : Epoll K → Methods K W → Event → Loop K W → Outcome (Loop K W)
  unfolding delete_client create_file_event send_reply is_one_of
  handle_event e ops ev st =
      if is_one_of ev.fd st.poll.listen_fd_set && ev.readable
      then add_client e (ops.create_client ev.fd st) st
      else if ev.readable
      then read_client e ops ev.read_result (lookup ev.fd st.poll.read_file_event_map) st
      else if ev.writable
      then write_client e ops ev.written (lookup ev.fd st.poll.write_file_event_map) st
      else ret st

  unfoldable pub handle_events : Epoll K → Methods K W → List Event → Loop K W → Outcome (Loop K W)
  unfolding handle_event
  handle_events e ops [] st = ret st
  handle_events e ops (ev ∷ evs) st = handle_event e ops ev st >>= handle_events e ops evs

  -- The client goes behind the others where there is more to resolve.
  unfoldable pub requeue : ℤ → Loop K W → Outcome (Loop K W)
  unfolding is_receive_buf_avaliable
  requeue id st = do
    peer ← find_client id st
    ret (if is_receive_buf_avaliable peer.stream then push_back id st else st)

  abbrev pub after_execute : Epoll K → Methods K W → ℤ → Code × Loop K W → Outcome (Loop K W)
  after_execute e ops id (err, st) = delete_client e ops id st
  after_execute e ops id (ok, st) = requeue id st

  abbrev pub after_parse :
      Epoll K → Methods K W → ℤ → Peer → Loop K W → Code × ProtocolStream → Outcome (Loop K W)
  after_parse e ops id peer st (err, s) =
      delete_client e ops id (put_client id (record peer { stream = s }) st)
  after_parse e ops id peer st (ok, s) =
      let st' = put_client id (record peer { stream = s }) st in
      if s.receive_complete
      then (ops.execute_command id st' >>= after_execute e ops id)
      else requeue id st'

  -- The body of the loop over `readEventClientList`, with the client that was popped
  unfoldable pub read_turn : Epoll K → Methods K W → ℤ → Loop K W → Outcome (Loop K W)
  unfolding resolve_receive_buf delete_client requeue
  read_turn e ops id st = do
    peer ← find_client id st
    parsed ← resolve_receive_buf peer.stream
    after_parse e ops id peer st parsed

  abbrev pub read_loop_with :
      Epoll K
      → Methods K W
      → (Loop K W → Outcome (Loop K W))
      → List ℤ
      → Loop K W
      → Outcome (Loop K W)
  read_loop_with e ops go_on [] st = ret st
  read_loop_with e ops go_on (id ∷ ids) st =
      read_turn e ops id (record st { read_list = ids }) >>= go_on

  -- `while (!readEventClientList.empty()) { ... }`
  unfoldable pub read_loop : Epoll K → Methods K W → ℕ → Loop K W → Outcome (Loop K W)
  unfolding read_turn
  read_loop e ops zero st = ret st
  read_loop e ops (suc fuel) st = read_loop_with e ops (read_loop e ops fuel) st.read_list st
