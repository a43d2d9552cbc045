-- ===== src/EventPoll/Turns.antt =====
-- A turn of `processEvent` from one state between two turns to the next.
use mathlib.Core.Path.{subst}
use cabinet.Base.{
  ◌<ℤ◌, All, map, Bool, sym, List, Option, Outcome, [], ap, false, if_false, if◌then◌else◌, lookup,
  lookup-insert, none, refl, ret, some, true, ℤ, ◌&&◌, ◌==ℤ◌, ◌>>=◌, ◌∙◌, ◌∷◌, ◌≡◌,
}
use cabinet.Children.{is_one_of}
use cabinet.EventPoll.{Epoll, Serves, EventPoll, read_event, write_event}
use cabinet.EventPoll.Batch.{
  Apart-Kept, Batch, Kept-refl, DistinctFds, Fresh, NotIn, Steps, IsReached, IsReached-Moves, carry,
  fresh-Apart, Held-of, pass,
}
use cabinet.EventPoll.Calls.{fresh-idle}
use cabinet.EventPoll.Handlers.{read-Steps, write-Steps}
use cabinet.EventPoll.Held.{put, reached-Held, put-Lives}
use cabinet.EventPoll.Lives.{Lives, fresh-Owns}
use cabinet.EventPoll.Loop.{
  Event, Loop, Methods, Peer, add_client, handle_event, handle_events, read_client, write_client,
}
use cabinet.EventPoll.Moves.{Moves, create_file_event-Moves}
use cabinet.EventPoll.Orderly.{IsOrderly, add-IsOrderly, next_free}
use cabinet.EventPoll.Process.{drain}
use cabinet.EventPoll.Queue.{Apart, Distinct, Waiting, KeepsInputs}
use cabinet.EventPoll.Ends.{Reads-Lives}
use cabinet.EventPoll.Ready.{KeepsHeld, Ready}
use cabinet.EventPoll.Reads.{Reads, drain-Reads}
use cabinet.EventPoll.Safety.{create-Polls}
use cabinet.ProtocolStream.Progress.{Returning}

map-Apart :
    (id : ℤ) (qs : List Waiting) → Apart id qs → All (λ j. (id ==ℤ j) ≡ false) (map (λ q. q.0) qs)
map-Apart id [] h = tt
map-Apart id (q ∷ qs) h = (h.0, map-Apart id qs h.1)

module _ {K W : Type 0} (e : Epoll K) where
  Ready-queue :
      (st : Loop K W) (qs : List Waiting)
      → Lives e st
      → Distinct qs
      → All (IsReached st.poll) qs
      → Ready e (map (λ q. q.0) qs) st
  Ready-queue st [] live d h = live
  Ready-queue st (q ∷ qs) live d ((fd, there), h) =
      let (client, held, at_fd, own_id) = reached-Held e st live read_event fd q.0 there in
      ((client, own_id, held), map-Apart q.0 qs d.0, Ready-queue st qs live d.1 h)

  -- The clients that were read in a batch are different ones and not deleted.
  Batch-Ready : (evs : List Event) (st : Loop K W) → Batch e evs st → Ready e st.read_list st
  Batch-Ready evs st b =
      subst (λ l. Ready e l st) (sym b.waiting.listed)
        (Ready-queue st b.queue b.lives b.waiting.distinct b.reached)

module _ {K W : Type 0} (e : Epoll K) (serves : Serves e) (ops : Methods K W)
    (fresh : Fresh e ops) where
  module _ (ev : Event) (evs : List Event) (st : Loop K W) (b : Batch e (ev ∷ evs) st)
      (once : NotIn ev.fd evs) where
    add-Steps :
        (r : Option Peer × ℤ × W) → ops.create_client ev.fd st ≡ r → Steps e evs (add_client e r st)
    add-Steps (none, next, world) made =
        let same = fresh.keeps_number ev.fd st next world made in
        (
          record st { client_id_max = next; world = world },
          refl,
          carry e ops ev evs st b once (record st { client_id_max = next; world = world })
              (record {
                polled = b.lives.polled;
                alive = b.lives.alive;
                orderly = subst (IsOrderly st.clients) (sym same) b.lives.orderly;
              })
              refl (Kept-refl st.clients b.queue) b.reached,
        )
    add-Steps (some peer, next, world) made =
        let client = peer.connection in
        let (unseen, apart, own, less) = fresh.is_new ev.fd st peer next world made in
        let orderly0 : IsOrderly st.clients client.client_id =
          subst (IsOrderly st.clients) (sym own) b.lives.orderly in
        let free = next_free client.client_id peer st.clients orderly0 in
        let orderly =
          add-IsOrderly client.client_id peer st.clients next orderly0
            (subst (λ i. i <ℤ next) (sym own) less) apart in
        let (quiet, idle) = fresh-idle e st.poll b.lives.polled client.fd unseen in
        let (poll', created, inv', on, off, listening) =
          create-Polls e client st.poll b.lives.polled serves quiet read_event idle in
        let moves : Moves client st.poll poll' =
          subst (Returning (Moves client st.poll)) created
            (create_file_event-Moves client e read_event st.poll) in
        let st' = put e client poll' peer st.read_list next world st in
        (
          st',
          ap
              (λ (o : Outcome (EventPoll K)). o >>= λ poll.
                (let r : Outcome (Loop K W) =
                    ret (put e client poll peer st.read_list next world st) in
                  r))
              created,
          carry e ops ev evs st b once st'
              (put-Lives e client st b.lives poll' peer st.read_list next world moves inv'
                (fresh-Owns e st b.lives client unseen) (λ p found. absurd (cc)) refl orderly)
              refl
              (Apart-Kept client.client_id st.clients st'.clients b.queue
                (λ j differs.
                  lookup-insert client.client_id j peer st.clients
                  ∙ if_false (client.client_id ==ℤ j) _ _ differs)
                (fresh-Apart (ev ∷ evs) client.client_id st.clients b.queue free b.ahead))
              (IsReached-Moves client st.poll poll' b.queue moves
                (fresh-Owns e st b.lives client unseen read_event)
                (fresh-Apart (ev ∷ evs) client.client_id st.clients b.queue free b.ahead)
                b.reached),
        )

    read_client-Steps :
        (o : Option ℤ)
        → lookup ev.fd st.poll.read_file_event_map ≡ o
        → Steps e evs (read_client e ops ev.read_result o st)
    read_client-Steps none there = (st, refl, pass e ops ev evs st b once)
    read_client-Steps (some id) there =
        let (client, held, at_fd, own_id) = Held-of e ops ev evs st b once read_event id there in
        subst (λ i. Steps e evs (read_client e ops ev.read_result (some i) st)) own_id
          (read-Steps e serves ops ev evs st b once client held at_fd ev.read_result (
            ap (λ f. lookup f st.poll.read_file_event_map) at_fd
            ∙ there
            ∙ ap (λ (i : ℤ). some i) (sym own_id)))

    write_client-Steps :
        (o : Option ℤ)
        → lookup ev.fd st.poll.write_file_event_map ≡ o
        → Steps e evs (write_client e ops ev.written o st)
    write_client-Steps none there = (st, refl, pass e ops ev evs st b once)
    write_client-Steps (some id) there =
        let (client, held, at_fd, own_id) = Held-of e ops ev evs st b once write_event id there in
        subst (λ i. Steps e evs (write_client e ops ev.written (some i) st)) own_id
          (write-Steps e serves ops ev evs st b once client held at_fd ev.written)

    Steps-if :
        (t : Bool) (u v : Outcome (Loop K W))
        → Steps e evs u
        → Steps e evs v
        → Steps e evs (if t then u else v)
    Steps-if true u v hu hv = hu
    Steps-if false u v hu hv = hv

    handle_event-Steps : Steps e evs (handle_event e ops ev st)
    unfolding handle_event
    handle_event-Steps =
        Steps-if (is_one_of ev.fd st.poll.listen_fd_set && ev.readable) _ _
          (add-Steps (ops.create_client ev.fd st) refl)
          (Steps-if ev.readable _ _
            (read_client-Steps (lookup ev.fd st.poll.read_file_event_map) refl)
            (Steps-if ev.writable _ _
              (write_client-Steps (lookup ev.fd st.poll.write_file_event_map) refl)
              (st, refl, pass e ops ev evs st b once)))

  handle_events-Steps :
      (evs : List Event) (st : Loop K W)
      → DistinctFds evs
      → Batch e evs st
      → Steps e [] (handle_events e ops evs st)
  unfolding handle_events
  handle_events-Steps [] st d b = (st, refl, b)
  handle_events-Steps (ev ∷ evs) st d b =
      let (st1, same, b1) = handle_event-Steps ev evs st b d.0 in
      let (st2, same2, b2) = handle_events-Steps evs st1 d.1 b1 in
      (st2, ap (λ (o : Outcome (Loop K W)). o >>= handle_events e ops evs) same ∙ same2, b2)

  -- A turn of `processEvent` between two turns, for any cabinet whose methods keep the laws of the
  -- interface.
  pub handle_events-Reads :
      (evs : List Event) (st : Loop K W)
      → KeepsInputs ops
      → KeepsHeld e ops
      → DistinctFds evs
      → Lives e st
      → st.read_list ≡ []
      → (st' : Loop K W) × (handle_events e ops evs st ≡ ret st')
        × Lives e st'
        × Reads e ops st' (drain e ops st')
        × Returning (λ st2. Lives e st2 × (st2.read_list ≡ [])) (drain e ops st')
  handle_events-Reads evs st kept held d live none_waits =
      let (st', same, b) = handle_events-Steps evs st d (record {
        lives = live;
        queue = [];
        waiting = record { listed = none_waits; held = tt; distinct = tt };
        ahead = tt;
        reached = tt;
      }) in
      let run = drain-Reads e ops b.queue st' kept b.waiting in
      (
        st',
        same,
        b.lives,
        run,
        Reads-Lives e serves ops held st' (drain e ops st') run (Batch-Ready e [] st' b),
      )
