-- ===== src/EventPoll/Handlers.antt =====
-- Each branch of the body of the loop over the events, from the state between two events.
use mathlib.Core.Path.{subst}
use cabinet.Base.{
  Code, lookup, List, [], ap, err, if_false, lookup-erase, lookup-insert, ok, refl, some, sym, ℤ,
  ◌++◌, ◌==ℤ◌, ◌>>=◌, ◌∙◌, ◌∷◌, ◌≡◌,
}
use cabinet.EventPoll.{
  Connection, Serves, Epoll, EventPoll, ReadResult, Written, read_event, read_into, send_reply,
}
use cabinet.EventPoll.Batch.{IsReached-Moves, Apart-Kept, Batch, NotIn, Steps, ahead-Apart, carry}
use cabinet.EventPoll.Calls.{send_reply-Sends}
use cabinet.EventPoll.Held.{Held, delete_client-Lives, insert-here, put, put-Held, without}
use cabinet.EventPoll.Loop.{
  Event, Loop, Methods, Peer, after_fill, after_send, delete_client, read_client, write_client,
}
use cabinet.EventPoll.Moves.{Moves, Moves-trans, Moves-refl, send_reply-Moves}
use cabinet.EventPoll.Queue.{All-append_one, Apart, Distinct-append, Waiting, input_in, map_append}
use cabinet.EventPoll.Safety.{IsPolled, listens}
use cabinet.ProtocolStream.{ProtocolStream}
use cabinet.ProtocolStream.Progress.{Returning}

module _ {K W : Type 0} (e : Epoll K) (serves : Serves e) (ops : Methods K W) (ev : Event)
    (evs : List Event) (st : Loop K W) (b : Batch e (ev ∷ evs) st) (once : NotIn ev.fd evs)
    (client : Connection) (held : Held e client st) (at_fd : client.fd ≡ ev.fd) where
  apart : Apart client.client_id b.queue
  apart =
      ahead-Apart ev evs client.client_id held.peer st.clients b.queue held.found
        (ap (λ (c : Connection). c.fd) held.connection ∙ at_fd) b.ahead

  -- The client is stored with another stream and poll, and deleted.
  deleted-Steps :
      (poll' : EventPoll K) (peer : Peer)
      → Moves client st.poll poll'
      → IsPolled e poll'
      → peer.connection ≡ client
      → Steps e evs (
          delete_client e ops client.client_id
            (put e client poll' peer st.read_list st.client_id_max st.world st))
  deleted-Steps poll' peer moves inv' conn =
      let st1 = put e client poll' peer st.read_list st.client_id_max st.world st in
      let held1 = put-Held e client st poll' peer st.read_list st.world held moves inv' conn in
      let (poll2, eq, live2, moves2, off) = delete_client-Lives e client serves ops st1 held1 in
      let st2 = without e client poll2 (ops.delete_client client.client_id st1) st1 in
      (
        st2,
        eq,
        carry e ops ev evs st b once st2 live2 refl
            (Apart-Kept client.client_id st.clients st2.clients b.queue
              (λ j differs.
                lookup-erase client.client_id j st1.clients
                ∙ if_false (client.client_id ==ℤ j) _ _ differs
                ∙ lookup-insert client.client_id j peer st.clients
                ∙ if_false (client.client_id ==ℤ j) _ _ differs)
              apart)
            (IsReached-Moves client st.poll poll2 b.queue
              (Moves-trans client st.poll poll' poll2 moves moves2) (held.owns read_event) apart
              b.reached),
      )

  -- The client is stored with another stream and poll.
  abbrev stored-Batch :
      (poll' : EventPoll K) (peer : Peer)
      → Moves client st.poll poll'
      → IsPolled e poll'
      → peer.connection ≡ client
      → Batch e evs (put e client poll' peer st.read_list st.client_id_max st.world st)
  stored-Batch poll' peer moves inv' conn =
      let st1 = put e client poll' peer st.read_list st.client_id_max st.world st in
      carry e ops ev evs st b once st1
        (put-Held e client st poll' peer st.read_list st.world held moves inv' conn).lives refl
        (Apart-Kept client.client_id st.clients st1.clients b.queue
          (λ j differs.
            lookup-insert client.client_id j peer st.clients
            ∙ if_false (client.client_id ==ℤ j) _ _ differs)
          apart)
        (IsReached-Moves client st.poll poll' b.queue moves (held.owns read_event) apart b.reached)

  fill-Steps :
      (r : Code × ProtocolStream)
      → lookup client.fd st.poll.read_file_event_map ≡ some client.client_id
      → Steps e evs (after_fill e ops client.client_id held.peer st r)
  fill-Steps (err, s) there =
      deleted-Steps st.poll (record held.peer { stream = s }) (Moves-refl client st.poll)
        b.lives.polled held.connection
  fill-Steps (ok, s) there =
      let peer : Peer = record held.peer { stream = s } in
      let base =
        stored-Batch st.poll peer (Moves-refl client st.poll) b.lives.polled held.connection in
      let q : Waiting = (client.client_id, s.input_buf) in
      (
        _,
        refl,
        record {
          lives = record {
            polled = base.lives.polled;
            alive = base.lives.alive;
            orderly = base.lives.orderly;
          };
          queue = b.queue ++ q ∷ [];
          waiting = record {
            listed =
                ap (λ (l : List ℤ). l ++ client.client_id ∷ []) b.waiting.listed
                ∙ sym (map_append b.queue q);
            held =
                All-append_one _ b.queue q base.waiting.held
                  (ap input_in (insert-here client peer st.clients));
            distinct = Distinct-append b.queue q b.waiting.distinct apart;
          };
          ahead = All-append_one _ b.queue q base.ahead (
            peer,
            insert-here client peer st.clients,
            subst (λ fd. NotIn fd evs) (sym (ap (λ (c : Connection). c.fd) held.connection ∙ at_fd))
                once,
          );
          reached = All-append_one _ b.queue q base.reached (client.fd, there);
        },
      )

  pub read-Steps :
      (result : ReadResult)
      → lookup client.fd st.poll.read_file_event_map ≡ some client.client_id
      → Steps e evs (read_client e ops result (some client.client_id) st)
  read-Steps result there = rw held.found (fill-Steps (read_into result held.peer.stream) there)

  send-Steps :
      (r : Code × ProtocolStream × EventPoll K)
      → Moves client st.poll r.2
      → IsPolled e r.2
      → Steps e evs (after_send e ops client.client_id held.peer st r)
  send-Steps (err, s, poll') moves inv' =
      deleted-Steps poll' (record held.peer { stream = s }) moves inv' held.connection
  send-Steps (ok, s, poll') moves inv' =
      (_, refl, stored-Batch poll' (record held.peer { stream = s }) moves inv' held.connection)

  pub write-Steps :
      (written : Written) → Steps e evs (write_client e ops written (some client.client_id) st)
  write-Steps written =
      let c = held.peer.connection in
      let quiet = ap (λ (x : Connection). listens x.fd st.poll) held.connection ∙ held.quiet in
      let sent = send_reply e held.peer.category c written held.peer.stream st.poll in
      let sends =
        send_reply-Sends e st.poll b.lives.polled serves c quiet held.peer.category written
          held.peer.stream in
      let moves = send_reply-Moves c e held.peer.category written held.peer.stream st.poll in
      let moved : Moves client st.poll sends.after =
        subst (λ x. Moves x st.poll sends.after) held.connection
          (subst (Returning (λ r. Moves c st.poll r.2)) sends.result moves) in
      rw held.found (
        subst (λ o. Steps e evs (o >>= after_send e ops client.client_id held.peer st))
          (sym sends.result)
          (send-Steps (sends.code, sends.stream, sends.after) moved sends.is_polled))
