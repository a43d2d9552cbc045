-- ===== src/Server/Serving.antt =====
-- The events of a server.
use mathlib.Core.Path.{subst}
use cabinet.Base.{
  +ℤ_parts, codes, ==ℤ_iff, Bool, Bool-cases, Bytes, Code, List, Option, [], ap, arith, false,
  if_false, if_true, if◌then◌else◌, inl, inr, lookup, lookup-insert, none, not, pos, refl, ret,
  some, sym, true, ℤ, ◌+ℤ◌, ◌<ℤ◌, ◌==ℤ◌, ◌>>=◌, ◌∙◌, ◌∷◌, ◌≡◌,
}
use cabinet.Client.{Client, Sent}
use cabinet.EventPoll.{Connection, Epoll, EventPoll, Serves, get_ready_to_send_message}
use cabinet.EventPoll.Batch.{DistinctFds, Fresh}
use cabinet.EventPoll.Commands.{Held-world, ready-Moved, stored-Held}
use cabinet.EventPoll.Held.{Held}
use cabinet.EventPoll.Lives.{Lives}
use cabinet.EventPoll.Loop.{Event, Loop, Peer, handle_events, or_dangling, put_client}
use cabinet.EventPoll.Process.{drain}
use cabinet.EventPoll.Queue.{KeepsInputs, input_in, input_of}
use cabinet.EventPoll.Reads.{Reads}
use cabinet.EventPoll.Ready.{KeepsHeld}
use cabinet.EventPoll.Turns.{handle_events-Reads}
use cabinet.Node.Dispatch.{new_client}
use cabinet.ProtocolStream.{new_stream}
use cabinet.ProtocolStream.Progress.{Returning, Returning-bind}
use cabinet.Server.{Server, execute_command}
use cabinet.Server.Methods.{
  client_of, deliver, execute_for, peer_of, server_methods, texts, with_output,
}
use cabinet.Util.{AcceptCalls, accept_tcp, cabinet_err, failed, get_connect_fd, set_non_block}

get_connect_fd-accept :
    (os : AcceptCalls)
    → ((get_connect_fd os).0 ==ℤ cabinet_err) ≡ false
    → ((get_connect_fd os).0 ≡ os.accept) × (failed os.accept ≡ false)
unfolding accept_tcp set_non_block
get_connect_fd-accept os h = (ground arith, ground arith)

module _ {K : Type 0} (e : Epoll K) (accept : Loop K Server → AcceptCalls) where
  -- Where `accept` succeeds, its descriptor was not open: the kernel does not watch it, and no client
  -- has it.
  pub record AcceptsNew : Type 0 where
    pub unseen :
        (st : Loop K Server)
        → failed (accept st).accept ≡ false
        → e.registered (accept st).accept st.poll.kernel ≡ false
    pub unused :
        (st : Loop K Server)
        → failed (accept st).accept ≡ false
        → (j : ℤ) (p : Peer) → lookup j st.clients ≡ some p
        → (p.connection.fd ==ℤ (accept st).accept) ≡ false

  module _ (own_fd : ℤ) where
    -- What `createClient` gives, by its two tests.
    abbrev made : ℤ → ℤ → Bool → Bool → Option Client × ℤ
    made fd next ours accepted =
        if not ours
        then (none, next)
        else if not accepted
        then (none, next)
        else (some (new_client next), next +ℤ pos 1)

    abbrev made_peer : ℤ → ℤ → Bool → Bool → Server → Option Peer × ℤ × Server
    made_peer fd next ours accepted world =
        (peer_of fd (made fd next ours accepted).0, (made fd next ours accepted).1, world)

    made-some :
        (fd next : ℤ) (ours accepted : Bool) (world : Server) (peer : Peer) (next' : ℤ)
        (world' : Server)
        → made_peer fd next ours accepted world ≡ (some peer, next', world')
        → (accepted ≡ true)
          × (peer.connection.fd ≡ fd)
          × (peer.connection.client_id ≡ next)
          × (next' ≡ next +ℤ pos 1)
    made-some fd next false accepted world peer next' world' h = absurd (cc h)
    made-some fd next true false world peer next' world' h = absurd (cc h)
    made-some fd next true true world peer next' world' h =
        let new : Peer = record {
          connection = record { fd = fd; client_id = next };
          category = (new_client next).category;
          stream = new_stream true false (codes "none");
        } in
        let same : new ≡ peer = cc in
        (
          refl,
          ap (λ (p : Peer). p.connection.fd) (sym same),
          ap (λ (p : Peer). p.connection.client_id) (sym same),
          cc,
        )

    made-none :
        (fd next : ℤ) (ours accepted : Bool) (world : Server) (next' : ℤ) (world' : Server)
        → made_peer fd next ours accepted world ≡ (none, next', world')
        → next' ≡ next
    made-none fd next false accepted world next' world' h = cc
    made-none fd next true false world next' world' h = cc
    made-none fd next true true world next' world' h = absurd (cc h)

    server_methods-Fresh : AcceptsNew → Fresh e (server_methods e own_fd accept)
    server_methods-Fresh new = record {
      is_new = λ listen_fd st peer next world h.
          (let fd = (get_connect_fd (accept st)).0 in
            let (taken, at_fd, own, step) =
              made-some fd st.client_id_max (listen_fd ==ℤ own_fd) (not (fd ==ℤ cabinet_err))
                st.world peer next world h in
            let (same, opened) = get_connect_fd-accept (accept st) (ground arith) in
            let fds : peer.connection.fd ≡ (accept st).accept = at_fd ∙ same in
            (
              ap (λ i. e.registered i st.poll.kernel) fds ∙ new.unseen st opened,
              λ j p there. ap (λ i. p.connection.fd ==ℤ i) fds ∙ new.unused st opened j p there,
              own,
              subst (λ i. st.client_id_max <ℤ i) (sym step)
                  (omega (arith, +ℤ_parts st.client_id_max (pos 1))),
            ));
      keeps_number = λ listen_fd st next world h.
          made-none (get_connect_fd (accept st)).0 st.client_id_max (listen_fd ==ℤ own_fd)
            (not ((get_connect_fd (accept st)).0 ==ℤ cabinet_err)) st.world next world h;
    }

    abbrev KeepsAll : Loop K Server → Code × Loop K Server → Type 0
    KeepsAll st done =
        (done.1.read_list ≡ st.read_list)
        × ((j : ℤ) (buf : Bytes) → input_of j st ≡ some buf → input_of j done.1 ≡ some buf)

    put-input :
        (id : ℤ) (peer : Peer) (text : Bytes) (st : Loop K Server) (poll : EventPoll K)
        (server : Server)
        → lookup id st.clients ≡ some peer
        → (let st' =
              put_client id (with_output text peer) (record st { poll = poll; world = server }) in
            (j : ℤ) (buf : Bytes) → input_of j st ≡ some buf → input_of j st' ≡ some buf)
    put-input id peer text st poll server found j buf h =
        let law = ap input_in (lookup-insert id j (with_output text peer) st.clients) in
        elim (Bool-cases (id ==ℤ j)) [
          | inl equal ↦
              law
              ∙ ap input_in (if_true (id ==ℤ j) _ _ equal)
              ∙ ap input_in (sym found ∙ ap (λ i. lookup i st.clients) ((==ℤ_iff id j).0 equal))
              ∙ h
          | inr differs ↦ law ∙ ap input_in (if_false (id ==ℤ j) _ _ differs) ∙ h
        ]

    deliver-KeepsAll :
        (id : ℤ) (peer : Peer) (st : Loop K Server)
        → lookup id st.clients ≡ some peer
        → (done : Code × Server × List Sent) → Returning (KeepsAll st) (deliver e id peer st done)
    deliver-KeepsAll id peer st found (code, server, []) = (refl, λ j buf h. h)
    deliver-KeepsAll id peer st found (code, server, sent ∷ more) =
        Returning-bind (KeepsAll st) (get_ready_to_send_message e peer.connection st.poll) _
          (λ poll. (refl, put-input id peer (texts (sent ∷ more)) st poll server found))

    server_methods-KeepsInputs : KeepsInputs (server_methods e own_fd accept)
    unfolding execute_for
    server_methods-KeepsInputs = record { keeps = λ id st. go id st (lookup id st.clients) refl }
      where
        go :
            (id : ℤ) (st : Loop K Server) (o : Option Peer)
            → lookup id st.clients ≡ o
            → Returning (KeepsAll st) (
                or_dangling o >>= λ peer.
                execute_command (client_of peer) st.world >>= deliver e id peer st)
        go id st none found = tt
        go id st (some peer) found =
            Returning-bind (KeepsAll st) (execute_command (client_of peer) st.world) _
              (deliver-KeepsAll id peer st found)

    abbrev HoldsAll : Loop K Server → Code × Loop K Server → Type 0
    HoldsAll st done =
        (done.1.read_list ≡ st.read_list)
        × ((other : Connection) → Held e other st → Held e other done.1)

    deliver-HoldsAll :
        Serves e
        → (client : Connection) (st : Loop K Server) (held : Held e client st)
        → (done : Code × Server × List Sent)
        → Returning (HoldsAll st) (deliver e client.client_id held.peer st done)
    deliver-HoldsAll serves client st held (code, server, []) =
        (refl, Held-world e client st held server)
    deliver-HoldsAll serves client st held (code, server, sent ∷ more) =
        let (poll', ready, inv', moves) = ready-Moved e client st held serves in
        let peer = with_output (texts (sent ∷ more)) held.peer in
        let same : get_ready_to_send_message e held.peer.connection st.poll ≡ ret poll' =
          ap (λ c. get_ready_to_send_message e c st.poll) held.connection ∙ ready in
        rw same (refl, stored-Held e client st held poll' peer server moves inv' held.connection)

    server_methods-KeepsHeld : Serves e → KeepsHeld e (server_methods e own_fd accept)
    unfolding execute_for
    server_methods-KeepsHeld serves = record {
      keeps = λ client st held. rw held.found (
          Returning-bind (HoldsAll st) (execute_command (client_of held.peer) st.world) _
            (deliver-HoldsAll serves client st held));
    }

    -- Take a server whose kernel watches just the descriptors of the two maps and those that listen, none
    -- being in two of these, whose maps lead only to clients that are not deleted, where these have
    -- numbers below `clientIdMax` and a descriptor of their own, and none waits to be resolved. Let
    -- `epoll_wait` give each descriptor once, `accept` one that the kernel does not watch and no client
    -- has, and let the kernel have no error for `epoll_ctl` but `EEXIST` and `ENOENT`. Then the handlers
    -- of the events follow no pointer to a deleted client, meet no error of `epoll_ctl`, and the same
    -- holds of the maps and the clients when they are done. The loop over the clients that were read,
    -- with the commands that they sent, comes to an end after finitely many turns, each of which takes
    -- a client that is not deleted; where it goes through, the same holds again and no client waits.
    pub server_events-Reads :
        (evs : List Event) (st : Loop K Server)
        → Serves e
        → AcceptsNew
        → DistinctFds evs
        → Lives e st
        → st.read_list ≡ []
        → (let ops = server_methods e own_fd accept in
            (st' : Loop K Server) × (handle_events e ops evs st ≡ ret st')
            × Lives e st'
            × Reads e ops st' (drain e ops st')
            × Returning (λ st2. Lives e st2 × (st2.read_list ≡ [])) (drain e ops st'))
    server_events-Reads evs st serves new once live none_waits =
        handle_events-Reads e serves (server_methods e own_fd accept) (server_methods-Fresh new) evs
          st server_methods-KeepsInputs (server_methods-KeepsHeld serves) once live none_waits
