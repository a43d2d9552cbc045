-- ===== src/EventPoll/Ready.antt =====
-- The loop over the clients that were read leaves the maps in order.
use mathlib.Core.Path.{subst}
use cabinet.Base.{
  ==ℤ_iff, All, Bool-cases, List, [], ap, arith, false, if_false, inl, inr, lookup, lookup-erase,
  lookup-insert, refl, ret, sym, ℤ, ◌++◌, ◌==ℤ◌, ◌∙◌, ◌∷◌, ◌≡◌,
}
use cabinet.Children.{is_one_of}
use cabinet.EventPoll.{Connection, Serves, Epoll, map_of}
use cabinet.EventPoll.Held.{Held, delete_client-Lives, gone, put-Held, without}
use cabinet.EventPoll.Lives.{Lives}
use cabinet.EventPoll.Loop.{Loop, Methods, Peer, delete_client, put_client}
use cabinet.EventPoll.Moves.{Moves-refl}
use cabinet.ProtocolStream.Progress.{Returning}

All-append_away :
    (id j : ℤ) (ids : List ℤ)
    → All (λ i. (j ==ℤ i) ≡ false) ids
    → (id ==ℤ j) ≡ false
    → All (λ i. (j ==ℤ i) ≡ false) (ids ++ id ∷ [])
All-append_away id j [] h differs = (ground arith, tt)
All-append_away id j (i ∷ ids) h differs = (h.0, All-append_away id j ids h.1 differs)

module _ {K W : Type 0} (e : Epoll K) where
  -- A command of a client that is not deleted does not change who waits, and keeps the clients that are
  -- not deleted and what leads to them.
  pub record KeepsHeld (ops : Methods K W) : Type 0 where
    pub keeps :
        (client : Connection) (st : Loop K W)
        → Held e client st
        → Returning
            (λ done.
              (done.1.read_list ≡ st.read_list)
              × ((other : Connection) → Held e other st → Held e other done.1))
            (ops.execute_command client.client_id st)

  abbrev pub HeldBy : ℤ → Loop K W → Type 0
  HeldBy id st = (client : Connection) × (client.client_id ≡ id) × Held e client st

  -- These clients are different ones, and none is deleted.
  abbrev pub Ready : List ℤ → Loop K W → Type 0
  Ready [] st = Lives e st
  Ready (id ∷ ids) st = HeldBy id st × All (λ j. (id ==ℤ j) ≡ false) ids × Ready ids st

  Ready-Lives : (ids : List ℤ) (st : Loop K W) → Ready ids st → Lives e st
  Ready-Lives [] st h = h
  Ready-Lives (id ∷ ids) st h = Ready-Lives ids st h.2

  -- All clients but `id` are kept.
  abbrev pub Spares : ℤ → Loop K W → Loop K W → Type 0
  Spares id st st' =
      Lives e st'
      × ((client : Connection)
          → (id ==ℤ client.client_id) ≡ false
          → Held e client st
          → Held e client st')

  pub Ready-Spares :
      (id : ℤ) (ids : List ℤ) (st st' : Loop K W)
      → Spares id st st'
      → All (λ j. (id ==ℤ j) ≡ false) ids
      → Ready ids st
      → Ready ids st'
  Ready-Spares id [] st st' s a h = s.0
  Ready-Spares id (j ∷ ids) st st' s a ((client, own_id, held), b, h) = (
    (client, own_id, s.1 client (subst (λ i. (id ==ℤ i) ≡ false) (sym own_id) a.0) held),
    b,
    Ready-Spares id ids st st' s a.1 h,
  )

  pub Ready-kept :
      (ids : List ℤ) (st st' : Loop K W)
      → ((client : Connection) → Held e client st → Held e client st')
      → Lives e st'
      → Ready ids st
      → Ready ids st'
  Ready-kept [] st st' keep live h = live
  Ready-kept (id ∷ ids) st st' keep live ((client, own_id, held), a, h) =
      ((client, own_id, keep client held), a, Ready-kept ids st st' keep live h)

  pub Ready-append :
      (id : ℤ) (ids : List ℤ) (st : Loop K W)
      → All (λ j. (id ==ℤ j) ≡ false) ids
      → HeldBy id st
      → Ready ids st
      → Ready (ids ++ id ∷ []) st
  Ready-append id [] st a by h = (by, tt, h)
  Ready-append id (j ∷ ids) st a by (held, b, h) =
      (held, All-append_away id j ids b a.0, Ready-append id ids st a.1 by h)

  module _ (list : List ℤ) (st : Loop K W) where
    abbrev pub relisted : Loop K W
    relisted = record st { read_list = list }

    abbrev Lives-list : Lives e st → Lives e relisted
    Lives-list live = record { polled = live.polled; alive = live.alive; orderly = live.orderly }

    abbrev pub Held-list : (client : Connection) → Held e client st → Held e client relisted
    Held-list client held = record {
      lives = Lives-list held.lives;
      owns = held.owns;
      quiet = held.quiet;
      peer = held.peer;
      found = held.found;
      connection = held.connection;
    }

    pub Ready-list : (ids : List ℤ) → Ready ids st → Ready ids relisted
    Ready-list [] h = Lives-list h
    Ready-list (id ∷ ids) ((client, own_id, held), a, h) =
        ((client, own_id, Held-list client held), a, Ready-list ids h)

  module _ (client : Connection) (st : Loop K W) (held : Held e client st) where
    -- The client is stored with another stream.
    pub put-Spares :
        (peer : Peer)
        → peer.connection ≡ client
        → Held e client (put_client client.client_id peer st)
          × Spares client.client_id st (put_client client.client_id peer st)
    put-Spares peer conn =
        let here =
          put-Held e client st st.poll peer st.read_list st.world held (Moves-refl client st.poll)
            held.lives.polled conn in
        (
          here,
          (
            here.lives,
            λ d differs old. record {
              lives = here.lives;
              owns = old.owns;
              quiet = old.quiet;
              peer = old.peer;
              found =
                  lookup-insert client.client_id d.client_id peer st.clients
                  ∙ if_false (client.client_id ==ℤ d.client_id) _ _ differs
                  ∙ old.found;
              connection = old.connection;
            },
          ),
        )

    -- It is deleted.
    pub delete_client-Spares :
        (serves : Serves e) (ops : Methods K W)
        → (st' : Loop K W) × (delete_client e ops client.client_id st ≡ ret st')
          × (st'.read_list ≡ st.read_list)
          × Spares client.client_id st st'
    delete_client-Spares serves ops =
        let (poll', eq, live, moves, off) = delete_client-Lives e client serves ops st held in
        (
          without e client poll' (ops.delete_client client.client_id st) st,
          eq,
          refl,
          (
            live,
            λ d differs old. record {
              lives = live;
              owns = λ t i h. elim (Bool-cases (client.fd ==ℤ d.fd)) [
                | inl equal ↦
                    let fds : client.fd ≡ d.fd = (==ℤ_iff client.fd d.fd).0 equal in
                    absurd (
                      gone e client poll' live.polled off t i
                        (ap (λ f. lookup f (map_of t poll')) fds ∙ h))
                | inr other ↦ old.owns t i (sym (moves.elsewhere t d.fd other) ∙ h)
              ];
              quiet = ap (is_one_of d.fd) moves.listening ∙ old.quiet;
              peer = old.peer;
              found =
                  lookup-erase client.client_id d.client_id st.clients
                  ∙ if_false (client.client_id ==ℤ d.client_id) _ _ differs
                  ∙ old.found;
              connection = old.connection;
            },
          ),
        )
