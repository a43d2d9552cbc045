-- ===== src/EventPoll/Lives.antt =====
-- The maps of an event poll lead to clients that are not deleted.
use mathlib.Core.Path.{subst}
use cabinet.Base.{
  ==ℤ_iff, Bool-cases, IntMap, List, Option, ap, arith, false, inl, inr, lookup, none, refl, some,
  sym, true, ℤ, ◌==ℤ◌, ◌∙◌, ◌≡◌,
}
use cabinet.EventPoll.{Connection, Epoll, EventPoll, EventType, map_of, read_event, write_event}
use cabinet.EventPoll.Loop.{Loop, Peer}
use cabinet.EventPoll.Orderly.{IsOrderly}
use cabinet.EventPoll.Moves.{Moves}
use cabinet.EventPoll.Safety.{IsPolled, listens}
use cabinet.Siblings.{is_some}

-- The client `id` is not deleted and has this descriptor.
abbrev pub Entry : ℤ → ℤ → IntMap Peer → Type 0
Entry fd id clients =
    (peer : Peer) × (lookup id clients ≡ some peer)
    × (peer.connection.fd ≡ fd)
    × (peer.connection.client_id ≡ id)

pub record Lives {K W : Type 0} (e : Epoll K) (st : Loop K W) : Type 0 where
  pub polled : IsPolled e st.poll
  pub alive :
      (t : EventType) (fd id : ℤ) → lookup fd (map_of t st.poll) ≡ some id → Entry fd id st.clients
  pub orderly : IsOrderly st.clients st.client_id_max

-- A descriptor that leads somewhere waits.
pub waits-lookup : (o : Option ℤ) (id : ℤ) → o ≡ some id → is_some o ≡ true
waits-lookup none id h = cc
waits-lookup (some i) id h = refl

module _ {K W : Type 0} (e : Epoll K) (st : Loop K W) (live : Lives e st)
    (client : Connection) where
  -- Where the descriptor of the client leads, it is to this client.
  abbrev pub Owns : Type 0
  Owns =
      (t : EventType) (i : ℤ) → lookup client.fd (map_of t st.poll) ≡ some i → i ≡ client.client_id

  -- One that the maps lead to owns its descriptor.
  pub reached-Owns :
      (t : EventType) → lookup client.fd (map_of t st.poll) ≡ some client.client_id → Owns
  reached-Owns read_event h read_event i g = cc
  reached-Owns read_event h write_event i g =
      let one = live.polled.apart client.fd in
      let two = waits-lookup (lookup client.fd st.poll.read_file_event_map) client.client_id h in
      let three = waits-lookup (lookup client.fd st.poll.write_file_event_map) i g in
      absurd (ground arith)
  reached-Owns write_event h read_event i g =
      let one = live.polled.apart client.fd in
      let two = waits-lookup (lookup client.fd st.poll.write_file_event_map) client.client_id h in
      let three = waits-lookup (lookup client.fd st.poll.read_file_event_map) i g in
      absurd (ground arith)
  reached-Owns write_event h write_event i g = cc

  -- One whose descriptor is not registered owns it.
  pub fresh-Owns : e.registered client.fd st.poll.kernel ≡ false → Owns
  fresh-Owns unseen read_event i g =
      let one = live.polled.polled client.fd in
      let two = waits-lookup (lookup client.fd st.poll.read_file_event_map) i g in
      absurd (ground arith)
  fresh-Owns unseen write_event i g =
      let one = live.polled.polled client.fd in
      let two = waits-lookup (lookup client.fd st.poll.write_file_event_map) i g in
      absurd (ground arith)

  -- It does not listen.
  pub reached-listens :
      (t : EventType)
      → lookup client.fd (map_of t st.poll) ≡ some client.client_id
      → listens client.fd st.poll ≡ false
  reached-listens read_event h =
      let one = live.polled.listen_apart client.fd in
      let two = waits-lookup (lookup client.fd st.poll.read_file_event_map) client.client_id h in
      ground arith
  reached-listens write_event h =
      let one = live.polled.listen_apart client.fd in
      let two = waits-lookup (lookup client.fd st.poll.write_file_event_map) client.client_id h in
      ground arith

  module _ (poll' : EventPoll K) (moves : Moves client st.poll poll') (inv' : IsPolled e poll')
      (owns : Owns)
      (same : (p : Peer)
        → lookup client.client_id st.clients ≡ some p
        → p.connection.fd ≡ client.fd) where
    -- An entry at another descriptor is another client's.
    apart_entry :
        (fd id : ℤ)
        → (client.fd ==ℤ fd) ≡ false
        → Entry fd id st.clients
        → (client.client_id ==ℤ id) ≡ false
    apart_entry fd id differs (p, found, at_fd, own_id) =
        elim (Bool-cases (client.client_id ==ℤ id)) [
          | inr no_match ↦ no_match
          | inl equal ↦
              let ids : client.client_id ≡ id = (==ℤ_iff client.client_id id).0 equal in
              let fds : p.connection.fd ≡ client.fd =
                same p (ap (λ i. lookup i st.clients) ids ∙ found) in
              let there : client.fd ≡ fd = sym fds ∙ at_fd in
              let loop : (client.fd ==ℤ fd) ≡ true = (==ℤ_iff client.fd fd).1 there in absurd (cc)
        ]

    module _ (clients' : IntMap Peer)
        (kept : (j : ℤ)
          → (client.client_id ==ℤ j) ≡ false
          → lookup j clients' ≡ lookup j st.clients)
        (here : (t : EventType) (i : ℤ)
          → lookup client.fd (map_of t poll') ≡ some i
          → Entry client.fd i clients') where
      entry :
          (t : EventType) (fd id : ℤ) → lookup fd (map_of t poll') ≡ some id → Entry fd id clients'
      entry t fd id h = elim (Bool-cases (client.fd ==ℤ fd)) [
        | inl equal ↦
            let there : client.fd ≡ fd = (==ℤ_iff client.fd fd).0 equal in
            subst (λ f. Entry f id clients') there
              (here t id (ap (λ f. lookup f (map_of t poll')) there ∙ h))
        | inr differs ↦
            let old = live.alive t fd id (sym (moves.elsewhere t fd differs) ∙ h) in
            (old.0, kept id (apart_entry fd id differs old) ∙ old.1, old.2, old.3)
      ]

      pub moved-Lives :
          (list : List ℤ) (next : ℤ) (world : W)
          → IsOrderly clients' next
          → (let st' : Loop K W = record {
            poll = poll';
            clients = clients';
            read_list = list;
            client_id_max = next;
            world = world;
          } in
              Lives e st')
      moved-Lives list next world orderly = record {
        polled = inv';
        alive = entry;
        orderly = orderly;
      }
