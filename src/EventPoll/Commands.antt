-- ===== src/EventPoll/Commands.antt =====
-- What the reply to a client's command does to the clients and the maps.
use mathlib.Core.Path.{subst}
use cabinet.Base.{
  ==ℤ_iff, Bool-cases, ap, if_false, inl, inr, lookup, lookup-insert, ret, some, sym, ◌==ℤ◌, ◌∙◌,
  ◌≡◌,
}
use cabinet.Children.{is_one_of}
use cabinet.EventPoll.{Connection, Epoll, EventPoll, Serves, get_ready_to_send_message}
use cabinet.EventPoll.Calls.{ready-Polls}
use cabinet.EventPoll.Held.{Held, put, put-Held}
use cabinet.EventPoll.Loop.{Loop, Peer}
use cabinet.EventPoll.Moves.{Moves, ready-Moves}
use cabinet.EventPoll.Safety.{IsPolled}
use cabinet.ProtocolStream.Progress.{Returning}

module _ {K W : Type 0} (e : Epoll K) (client : Connection) (st : Loop K W)
    (held : Held e client st) where
  -- Clients with the same number are the same.
  same_client :
      (other : Connection) → Held e other st → client.client_id ≡ other.client_id → client ≡ other
  same_client other old ids =
      let one : lookup client.client_id st.clients ≡ some old.peer =
        ap (λ i. lookup i st.clients) ids ∙ old.found in
      let two = held.found in
      let peers : held.peer ≡ old.peer = cc in
      sym held.connection ∙ ap (λ (p : Peer). p.connection) peers ∙ old.connection

  -- Clients with the same descriptor are the same.
  same_descriptor :
      (other : Connection)
      → Held e other st
      → client.fd ≡ other.fd
      → client.client_id ≡ other.client_id
  same_descriptor other old fds =
      held.lives.orderly.distinct client.client_id other.client_id held.peer old.peer held.found
        old.found
        (ap (λ (c : Connection). c.fd) held.connection
          ∙ fds
          ∙ sym (ap (λ (c : Connection). c.fd) old.connection))

  -- The client is stored again, and the maps change at its descriptor alone.
  pub stored-Held :
      (poll' : EventPoll K) (peer : Peer) (world : W)
      → Moves client st.poll poll'
      → IsPolled e poll'
      → peer.connection ≡ client
      → (other : Connection) → Held e other st
      → Held e other (put e client poll' peer st.read_list st.client_id_max world st)
  stored-Held poll' peer world moves inv' conn other old =
      let here = put-Held e client st poll' peer st.read_list world held moves inv' conn in
      let st' = put e client poll' peer st.read_list st.client_id_max world st in
      elim (Bool-cases (client.client_id ==ℤ other.client_id)) [
        | inl equal ↦
            subst (λ c. Held e c st')
              (same_client other old ((==ℤ_iff client.client_id other.client_id).0 equal)) here
        | inr differs ↦ record {
          lives = here.lives;
          owns = λ t i h. elim (Bool-cases (client.fd ==ℤ other.fd)) [
            | inl equal ↦
                let ids = same_descriptor other old ((==ℤ_iff client.fd other.fd).0 equal) in
                let loop = (==ℤ_iff client.client_id other.client_id).1 ids in absurd (cc)
            | inr away ↦ old.owns t i (sym (moves.elsewhere t other.fd away) ∙ h)
          ];
          quiet = ap (is_one_of other.fd) moves.listening ∙ old.quiet;
          peer = old.peer;
          found =
              lookup-insert client.client_id other.client_id peer st.clients
              ∙ if_false (client.client_id ==ℤ other.client_id) _ _ differs
              ∙ old.found;
          connection = old.connection;
        }
      ]

  -- `getReadyToSendMessage` returns, and moves the client.
  pub ready-Moved :
      Serves e
      → (poll' : EventPoll K) × (get_ready_to_send_message e client st.poll ≡ ret poll')
        × IsPolled e poll'
        × Moves client st.poll poll'
  ready-Moved serves =
      let (poll', same, inv', on, off) =
        ready-Polls e st.poll held.lives.polled serves client held.quiet in
      (
        poll',
        same,
        inv',
        subst (Returning (Moves client st.poll)) same (ready-Moves client e st.poll),
      )

  -- The world changes alone.
  pub Held-world :
      (world : W)
      → (let st' : Loop K W = record st { world = world } in
          (other : Connection) → Held e other st → Held e other st')
  Held-world world other old = record {
    lives = record {
      polled = old.lives.polled;
      alive = old.lives.alive;
      orderly = old.lives.orderly;
    };
    owns = old.owns;
    quiet = old.quiet;
    peer = old.peer;
    found = old.found;
    connection = old.connection;
  }
