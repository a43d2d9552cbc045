-- ===== src/EventPoll/Held.antt =====
-- A client while one of its events is handled.
use mathlib.Core.Path.{subst}
use cabinet.Base.{
  ==ℤ_refl, IntMap, List, Outcome, ap, arith, erase, false, if_false, if_true, insert, lookup,
  lookup-erase, lookup-insert, refl, ret, some, sym, ℤ, ◌==ℤ◌, ◌>>=◌, ◌∙◌, ◌≡◌,
}
use cabinet.Children.{is_one_of}
use cabinet.EventPoll.{
  Connection, Epoll, Serves, EventPoll, EventType, map_of, read_event, remove_client, write_event,
}
use cabinet.EventPoll.Calls.{remove_client-Polls}
use cabinet.EventPoll.Lives.{Lives, Owns, reached-Owns, reached-listens, moved-Lives, waits-lookup}
use cabinet.EventPoll.Loop.{Loop, Methods, Peer, delete_client}
use cabinet.EventPoll.Moves.{Moves, remove_client-Moves}
use cabinet.EventPoll.Orderly.{IsOrderly, erase-IsOrderly, put-IsOrderly}
use cabinet.EventPoll.Safety.{IsPolled, listens}
use cabinet.ProtocolStream.Progress.{Returning}

-- Its descriptor leads to it alone and does not listen, and it is not deleted.
pub record Held {K W : Type 0} (e : Epoll K) (client : Connection) (st : Loop K W) : Type 0 where
  pub lives : Lives e st
  pub owns : Owns e st lives client
  pub quiet : listens client.fd st.poll ≡ false
  pub peer : Peer
  pub found : lookup client.client_id st.clients ≡ some peer
  pub connection : peer.connection ≡ client

pub gone :
    {K : Type 0} (e : Epoll K) (client : Connection) (poll' : EventPoll K) (inv' : IsPolled e poll')
    → e.registered client.fd poll'.kernel ≡ false
    → (t : EventType) (i : ℤ) → lookup client.fd (map_of t poll') ≡ some i
    → ⊥
gone e client poll' inv' off read_event i h =
    let one = inv'.polled client.fd in
    let two = waits-lookup (lookup client.fd poll'.read_file_event_map) i h in ground arith
gone e client poll' inv' off write_event i h =
    let one = inv'.polled client.fd in
    let two = waits-lookup (lookup client.fd poll'.write_file_event_map) i h in ground arith

pub insert-here :
    (client : Connection) (peer : Peer) (clients : IntMap Peer)
    → lookup client.client_id (insert client.client_id peer clients) ≡ some peer
insert-here client peer clients =
    lookup-insert client.client_id client.client_id peer clients
    ∙ if_true (client.client_id ==ℤ client.client_id) _ _ (==ℤ_refl client.client_id)

module _ {K W : Type 0} (e : Epoll K) (client : Connection) where
  Held-same :
      (st : Loop K W)
      → Held e client st
      → (p : Peer) → lookup client.client_id st.clients ≡ some p
      → p.connection.fd ≡ client.fd
  Held-same st held p h =
      let one = held.found in
      let two = held.connection in
      let three : p ≡ held.peer = cc in
      ap (λ (q : Peer). q.connection.fd) three ∙ ap (λ (c : Connection). c.fd) two

  -- The state with the client as `peer`, and another poll.
  abbrev pub put : EventPoll K → Peer → List ℤ → ℤ → W → Loop K W → Loop K W
  put poll peer list next world st = record {
    poll = poll;
    clients = insert client.client_id peer st.clients;
    read_list = list;
    client_id_max = next;
    world = world;
  }

  -- The client is stored; it may be new.
  pub put-Lives :
      (st : Loop K W) (live : Lives e st) (poll' : EventPoll K) (peer : Peer) (list : List ℤ)
      (next : ℤ) (world : W)
      → Moves client st.poll poll'
      → IsPolled e poll'
      → Owns e st live client
      → ((p : Peer) → lookup client.client_id st.clients ≡ some p → p.connection.fd ≡ client.fd)
      → peer.connection ≡ client
      → IsOrderly (insert client.client_id peer st.clients) next
      → Lives e (put poll' peer list next world st)
  put-Lives st live poll' peer list next world moves inv' owns same conn orderly =
      moved-Lives e st live client poll' moves inv' owns same
        (insert client.client_id peer st.clients)
        (λ j differs.
          lookup-insert client.client_id j peer st.clients
          ∙ if_false (client.client_id ==ℤ j) _ _ differs)
        (λ t i h.
          let own : i ≡ client.client_id = moves.own owns t i h in
          (
            peer,
            ap (λ k. lookup k (insert client.client_id peer st.clients)) own
                ∙ insert-here client peer st.clients,
            ap (λ (c : Connection). c.fd) conn,
            ap (λ (c : Connection). c.client_id) conn ∙ sym own,
          ))
        list next world orderly

  pub put-Held :
      (st : Loop K W) (poll' : EventPoll K) (peer : Peer) (list : List ℤ) (world : W)
      → Held e client st
      → Moves client st.poll poll'
      → IsPolled e poll'
      → peer.connection ≡ client
      → Held e client (put poll' peer list st.client_id_max world st)
  put-Held st poll' peer list world held moves inv' conn = record {
    lives =
        put-Lives st held.lives poll' peer list st.client_id_max world moves inv' held.owns
          (Held-same st held) conn
          (put-IsOrderly client.client_id peer st.clients st.client_id_max held.peer
            held.lives.orderly held.found
            (ap (λ (c : Connection). c.fd) (held.connection ∙ sym conn)));
    owns = moves.own held.owns;
    quiet = ap (is_one_of client.fd) moves.listening ∙ held.quiet;
    peer = peer;
    found = insert-here client peer st.clients;
    connection = conn;
  }

  -- The state without the client.
  abbrev pub without : EventPoll K → W → Loop K W → Loop K W
  without poll world st = record {
    poll = poll;
    clients = erase client.client_id st.clients;
    read_list = st.read_list;
    client_id_max = st.client_id_max;
    world = world;
  }

  removed-Moves :
      (st : Loop K W) (m : Outcome (EventPoll K)) (poll' : EventPoll K)
      → m ≡ ret poll'
      → Returning (Moves client st.poll) m
      → Moves client st.poll poll'
  removed-Moves st m poll' same h = subst (Returning (Moves client st.poll)) same h

  -- `deleteClient` goes through, and the rest is as before.
  pub delete_client-Lives :
      (serves : Serves e) (ops : Methods K W) (st : Loop K W)
      → Held e client st
      → (poll' : EventPoll K) × (delete_client e ops client.client_id st
          ≡ ret (without poll' (ops.delete_client client.client_id st) st))
        × Lives e (without poll' (ops.delete_client client.client_id st) st)
        × Moves client st.poll poll'
        × (e.registered client.fd poll'.kernel ≡ false)
  unfolding delete_client
  delete_client-Lives serves ops st held =
      let (poll', removed, inv', off) =
        remove_client-Polls e st.poll held.lives.polled serves client held.quiet in
      let world = ops.delete_client client.client_id st in
      (
        poll',
        rw held.found (
            ap
              (λ (c : Connection). remove_client e c st.poll >>= λ poll.
                (let o : Outcome (Loop K W) = ret (without poll world st) in o))
              held.connection
            ∙ ap
                (λ (o : Outcome (EventPoll K)).
                  o >>= λ poll. (let o : Outcome (Loop K W) = ret (without poll world st) in o))
                removed),
        moved-Lives e st held.lives client poll'
            (removed-Moves st (remove_client e client st.poll) poll' removed
              (remove_client-Moves client e st.poll))
            inv' held.owns (Held-same st held) (erase client.client_id st.clients)
            (λ j differs.
              lookup-erase client.client_id j st.clients
              ∙ if_false (client.client_id ==ℤ j) _ _ differs)
            (λ t i h. absurd (gone e client poll' inv' off t i h)) st.read_list st.client_id_max
            world
            (erase-IsOrderly client.client_id held.peer st.clients st.client_id_max
              held.lives.orderly),
        removed-Moves st (remove_client e client st.poll) poll' removed
            (remove_client-Moves client e st.poll),
        off,
      )

module _ {K W : Type 0} (e : Epoll K) where
  -- The maps lead to clients that are not deleted.
  pub reached-Held :
      (st : Loop K W)
      → Lives e st
      → (t : EventType) (fd id : ℤ) → lookup fd (map_of t st.poll) ≡ some id
      → (client : Connection) × Held e client st × (client.fd ≡ fd) × (client.client_id ≡ id)
  reached-Held st live t fd id h =
      let (peer, found, at_fd, own_id) = live.alive t fd id h in
      let client = peer.connection in
      let reached : lookup client.fd (map_of t st.poll) ≡ some client.client_id =
        ap (λ f. lookup f (map_of t st.poll)) at_fd ∙ h ∙ ap (λ (i : ℤ). some i) (sym own_id) in
      (
        client,
        record {
          lives = live;
          owns = reached-Owns e st live client t reached;
          quiet = reached-listens e st live client t reached;
          peer = peer;
          found = ap (λ i. lookup i st.clients) own_id ∙ found;
          connection = refl;
        },
        at_fd,
        own_id,
      )
