-- ===== src/EventPoll/Ends.antt =====
-- A turn of the loop over the clients that were read, on clients that are not deleted, and the end of
-- the loop.
use mathlib.Core.Path.{subst}
use cabinet.Base.{
  All, Bool, Code, List, Outcome, [], abort, err, exit, false, if◌then◌else◌, lookup, ok, refl, ret,
  sym, true, undefined, ℤ, ◌++◌, ◌==ℤ◌, ◌>>=◌, ◌∙◌, ◌∷◌, ◌≡◌,
}
use cabinet.EventPoll.{Connection, Serves, Epoll}
use cabinet.EventPoll.Held.{Held}
use cabinet.EventPoll.Lives.{Lives}
use cabinet.EventPoll.Loop.{
  Loop, Methods, Peer, after_execute, after_parse, delete_client, or_dangling, put_client,
  read_turn, requeue,
}
use cabinet.EventPoll.Reads.{Reads, done, ends, next}
use cabinet.EventPoll.Ready.{
  KeepsHeld, Ready-kept, Ready, Ready-Spares, Ready-append, Ready-list, Held-list,
  delete_client-Spares, put-Spares,
}
use cabinet.ProtocolStream.{ProtocolStream, is_receive_buf_avaliable, resolve_receive_buf}
use cabinet.ProtocolStream.Progress.{Returning, Returning-if}

module _ {K W : Type 0} (e : Epoll K) (serves : Serves e) (ops : Methods K W) where
  -- The clients that wait are different ones, and none of them is deleted.
  abbrev pub IsReady : Loop K W → Type 0
  IsReady st = Ready e st.read_list st

  module _ (client : Connection) (ids : List ℤ)
      (apart : All (λ j. (client.client_id ==ℤ j) ≡ false) ids) where
    deleted-IsReady :
        (st : Loop K W)
        → Held e client st
        → st.read_list ≡ ids
        → Ready e ids st
        → Returning IsReady (delete_client e ops client.client_id st)
    deleted-IsReady st held listed ready =
        let (st', eq, same, spares) = delete_client-Spares e client st held serves ops in
        subst (Returning IsReady) (sym eq) (
          subst (λ l. Ready e l st') (sym (same ∙ listed))
            (Ready-Spares e client.client_id ids st st' spares apart ready))

    requeue_peer-IsReady :
        (st : Loop K W) (more : Bool)
        → Held e client st
        → st.read_list ≡ ids
        → Ready e ids st
        → IsReady
            (if more then record st { read_list = st.read_list ++ client.client_id ∷ [] } else st)
    requeue_peer-IsReady st false held listed ready = subst (λ l. Ready e l st) (sym listed) ready
    requeue_peer-IsReady st true held listed ready =
        let list = st.read_list ++ client.client_id ∷ [] in
        subst (λ l. Ready e (l ++ client.client_id ∷ []) (record st { read_list = list }))
          (sym listed)
          (Ready-append e client.client_id ids (record st { read_list = list }) apart
            (client, refl, Held-list e list st client held) (Ready-list e list st ids ready))

    requeue-IsReady :
        (st : Loop K W)
        → Held e client st
        → st.read_list ≡ ids
        → Ready e ids st
        → Returning IsReady (requeue client.client_id st)
    unfolding requeue
    requeue-IsReady st held listed ready =
        rw held.found
          (requeue_peer-IsReady st (is_receive_buf_avaliable held.peer.stream) held listed ready)

    execute-IsReady :
        (st : Loop K W) (m : Outcome (Code × Loop K W))
        → Held e client st
        → st.read_list ≡ ids
        → Ready e ids st
        → Returning
            (λ done.
              (done.1.read_list ≡ st.read_list)
              × ((c : Connection) → Held e c st → Held e c done.1))
            m
        → Returning IsReady (m >>= after_execute e ops client.client_id)
    execute-IsReady st (ret (err, st')) held listed ready kept =
        deleted-IsReady st' (kept.1 client held) (kept.0 ∙ listed)
          (Ready-kept e ids st st' kept.1 (kept.1 client held).lives ready)
    execute-IsReady st (ret (ok, st')) held listed ready kept =
        requeue-IsReady st' (kept.1 client held) (kept.0 ∙ listed)
          (Ready-kept e ids st st' kept.1 (kept.1 client held).lives ready)
    execute-IsReady st exit held listed ready kept = tt
    execute-IsReady st abort held listed ready kept = tt
    execute-IsReady st undefined held listed ready kept = tt

    parse-IsReady :
        (kept : KeepsHeld e ops) (st : Loop K W) (held : Held e client st)
        (m : Outcome (Code × ProtocolStream))
        → st.read_list ≡ ids
        → Ready e ids st
        → Returning IsReady (m >>= after_parse e ops client.client_id held.peer st)
    parse-IsReady kept st held (ret (err, s)) listed ready =
        let peer : Peer = record held.peer { stream = s } in
        let (held', spares) = put-Spares e client st held peer held.connection in
        deleted-IsReady (put_client client.client_id peer st) held' listed (
          Ready-Spares e client.client_id ids st (put_client client.client_id peer st) spares apart
            ready)
    parse-IsReady kept st held (ret (ok, s)) listed ready =
        let peer : Peer = record held.peer { stream = s } in
        let st' = put_client client.client_id peer st in
        let (held', spares) = put-Spares e client st held peer held.connection in
        let ready' = Ready-Spares e client.client_id ids st st' spares apart ready in
        Returning-if IsReady s.receive_complete _ _
          (execute-IsReady st' (ops.execute_command client.client_id st') held' listed ready'
            (kept.keeps client st' held'))
          (requeue-IsReady st' held' listed ready')
    parse-IsReady kept st held exit listed ready = tt
    parse-IsReady kept st held abort listed ready = tt
    parse-IsReady kept st held undefined listed ready = tt

  read_turn-IsReady :
      (kept : KeepsHeld e ops) (id : ℤ) (ids : List ℤ) (st : Loop K W)
      → Ready e (id ∷ ids) st
      → Returning IsReady (read_turn e ops id (record st { read_list = ids }))
  unfolding read_turn
  read_turn-IsReady kept id ids st ((client, own_id, held), apart, ready) =
      let st' : Loop K W = record st { read_list = ids } in
      let held' = Held-list e ids st client held in
      subst
        (λ i. Returning IsReady (
          or_dangling (lookup i st.clients) >>= λ peer.
          resolve_receive_buf peer.stream >>= after_parse e ops i peer st'))
        own_id
        (rw held.found (
          parse-IsReady client ids
            (subst (λ i. All (λ j. (i ==ℤ j) ≡ false) ids) (sym own_id) apart) kept st' held'
            (resolve_receive_buf held.peer.stream) refl (Ready-list e ids st ids ready)))

  -- A call that gives one result whatever follows it does not return.
  Returning-ends :
      (P : Loop K W → Type 0) (m r : Outcome (Loop K W))
      → ((go_on : Loop K W → Outcome (Loop K W)) → (m >>= go_on) ≡ r)
      → Returning P r
  Returning-ends P (ret st) (ret st') stops = let never = stops (λ x. exit) in absurd (cc)
  Returning-ends P exit (ret st') stops = let never = stops (λ x. exit) in absurd (cc)
  Returning-ends P abort (ret st') stops = let never = stops (λ x. exit) in absurd (cc)
  Returning-ends P undefined (ret st') stops = let never = stops (λ x. exit) in absurd (cc)
  Returning-ends P m exit stops = tt
  Returning-ends P m abort stops = tt
  Returning-ends P m undefined stops = tt

  -- If the clients that wait are different ones and not deleted, and commands keep both, then the
  -- maps lead to no client that is deleted when the loop is over, and none waits.
  pub Reads-Lives :
      (kept : KeepsHeld e ops) (st : Loop K W) (r : Outcome (Loop K W))
      → Reads e ops st r
      → IsReady st
      → Returning (λ st'. Lives e st' × (st'.read_list ≡ [])) r
  Reads-Lives kept _ _ (done st listed) ready = (subst (λ l. Ready e l st) listed ready, listed)
  Reads-Lives kept _ _ (ends st id ids peer r listed found stops) ready =
      Returning-ends _ (read_turn e ops id (record st { read_list = ids })) r stops
  Reads-Lives kept _ _ (next st st' id ids peer r listed found turn run) ready =
      Reads-Lives kept st' r run (
        subst (Returning IsReady) turn
          (read_turn-IsReady kept id ids st (subst (λ l. Ready e l st) listed ready)))
