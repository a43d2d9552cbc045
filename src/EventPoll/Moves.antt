-- ===== src/EventPoll/Moves.antt =====
-- What the calls that register and remove a client's events do to the two maps.
use cabinet.Base.{
  ==ℤ_refl, Bool, Code, IntMap, Outcome, abort, erase, exit, false, if_false, if_true, insert,
  length, lookup, lookup-erase, lookup-insert, none, not, ok, refl, ret, some, true, undefined, ℤ,
  ◌==ℤ◌, ◌==◌, ◌>>=◌, ◌∙◌, ◌≡◌,
}
use cabinet.Client.{Category, is_local_pf}
use cabinet.ProtocolStream.{ProtocolStream, clear}
use cabinet.EventPoll.{
  Connection, Epoll, EventPoll, EventType, Written, add_event, after_ctl, after_write,
  create_file_event, del_event, erase_send_buf, file_event_operation, get_ready_to_send_message,
  map_of, read_event, remove_client, remove_file_event, send_reply, with_map, write_event,
  write_failed, write_would_block, wrote,
}
use cabinet.Siblings.{is_some}
use cabinet.ProtocolStream.Progress.{Returning, Returning-if}

-- The maps change at the client's descriptor alone, and lead from there to this client if they did.
pub record Moves {K : Type 0} (client : Connection) (ep ep' : EventPoll K) : Type 0 where
  pub elsewhere :
      (t : EventType) (j : ℤ)
      → (client.fd ==ℤ j) ≡ false
      → lookup j (map_of t ep') ≡ lookup j (map_of t ep)
  pub own :
      ((t : EventType) (i : ℤ) → lookup client.fd (map_of t ep) ≡ some i → i ≡ client.client_id)
      → (t : EventType) (i : ℤ) → lookup client.fd (map_of t ep') ≡ some i
      → i ≡ client.client_id
  pub listening : ep'.listen_fd_set ≡ ep.listen_fd_set

module _ (client : Connection) where
  -- The same of one map; the descriptor then leads to this client, or nowhere.
  record Changes (m m' : IntMap ℤ) : Type 0 where
    elsewhere : (j : ℤ) → (client.fd ==ℤ j) ≡ false → lookup j m' ≡ lookup j m
    own : (i : ℤ) → lookup client.fd m' ≡ some i → i ≡ client.client_id

  insert-Changes : (m : IntMap ℤ) → Changes m (insert client.fd client.client_id m)
  insert-Changes m = record {
    elsewhere =
        λ j h. lookup-insert client.fd j client.client_id m ∙ if_false (client.fd ==ℤ j) _ _ h;
    own = λ i h.
        (let there =
            lookup-insert client.fd client.fd client.client_id m
            ∙ if_true (client.fd ==ℤ client.fd) (some client.client_id) (lookup client.fd m)
                (==ℤ_refl client.fd) in
          cc);
  }

  erase-Changes : (m : IntMap ℤ) → Changes m (erase client.fd m)
  erase-Changes m = record {
    elsewhere = λ j h. lookup-erase client.fd j m ∙ if_false (client.fd ==ℤ j) _ _ h;
    own = λ i h.
        (let there =
            lookup-erase client.fd client.fd m
            ∙ if_true (client.fd ==ℤ client.fd) none (lookup client.fd m) (==ℤ_refl client.fd) in
          cc);
  }

module _ {K : Type 0} (client : Connection) where
  pub Moves-refl : (ep : EventPoll K) → Moves client ep ep
  Moves-refl ep = record { elsewhere = λ t j h. refl; own = λ h. h; listening = refl }

  pub Moves-trans :
      (ep ep1 ep2 : EventPoll K) → Moves client ep ep1 → Moves client ep1 ep2 → Moves client ep ep2
  Moves-trans ep ep1 ep2 m n = record {
    elsewhere = λ t j h. n.elsewhere t j h ∙ m.elsewhere t j h;
    own = λ h. n.own (m.own h);
    listening = n.listening ∙ m.listening;
  }

  module _ (ep : EventPoll K) (k : K) (m' : IntMap ℤ) where
    abbrev changed : EventType → EventPoll K
    changed type = with_map type m' (record ep { kernel = k })

    with_map-elsewhere :
        (type t : EventType) (j : ℤ)
        → Changes client (map_of type ep) m'
        → (client.fd ==ℤ j) ≡ false
        → lookup j (map_of t (changed type)) ≡ lookup j (map_of t ep)
    with_map-elsewhere read_event read_event j c h = c.elsewhere j h
    with_map-elsewhere read_event write_event j c h = refl
    with_map-elsewhere write_event read_event j c h = refl
    with_map-elsewhere write_event write_event j c h = c.elsewhere j h

    with_map-own :
        (type t : EventType) (i : ℤ)
        → Changes client (map_of type ep) m'
        → (lookup client.fd (map_of t ep) ≡ some i → i ≡ client.client_id)
        → lookup client.fd (map_of t (changed type)) ≡ some i
        → i ≡ client.client_id
    with_map-own read_event read_event i c old h = c.own i h
    with_map-own read_event write_event i c old h = old h
    with_map-own write_event read_event i c old h = old h
    with_map-own write_event write_event i c old h = c.own i h

    with_map-listening : (type : EventType) → (changed type).listen_fd_set ≡ ep.listen_fd_set
    with_map-listening read_event = refl
    with_map-listening write_event = refl

    with_map-Moves :
        (type : EventType) → Changes client (map_of type ep) m' → Moves client ep (changed type)
    with_map-Moves type c = record {
      elsewhere = λ t j h. with_map-elsewhere type t j c h;
      own = λ old t i h. with_map-own type t i c (old t i) h;
      listening = with_map-listening type;
    }

  ctl-Moves :
      (type : EventType) (ep : EventPoll K) (r : Bool × K) (f : IntMap ℤ → IntMap ℤ)
      → ((m : IntMap ℤ) → Changes client m (f m))
      → Returning (Moves client ep) (
          after_ctl ep r >>= λ ep'.
          (let o : Outcome (EventPoll K) = ret (with_map type (f (map_of type ep')) ep') in o))
  ctl-Moves read_event ep (true, k) f c =
      with_map-Moves ep k (f ep.read_file_event_map) read_event (c ep.read_file_event_map)
  ctl-Moves write_event ep (true, k) f c =
      with_map-Moves ep k (f ep.write_file_event_map) write_event (c ep.write_file_event_map)
  ctl-Moves type ep (false, k) f c = tt

  module _ (e : Epoll K) (type : EventType) (ep : EventPoll K) where
    pub create_file_event-Moves : Returning (Moves client ep) (create_file_event e client type ep)
    unfolding create_file_event file_event_operation
    create_file_event-Moves =
        Returning-if (Moves client ep) (is_some (lookup client.fd (map_of type ep))) _ _
          (Moves-refl ep)
          (ctl-Moves type ep (e.epoll_ctl add_event type client.fd ep.kernel)
            (insert client.fd client.client_id) (insert-Changes client))

    remove_file_event-Moves : Returning (Moves client ep) (remove_file_event e client type ep)
    unfolding remove_file_event file_event_operation
    remove_file_event-Moves =
        Returning-if (Moves client ep) (not (is_some (lookup client.fd (map_of type ep)))) _ _
          (Moves-refl ep)
          (ctl-Moves type ep (e.epoll_ctl del_event type client.fd ep.kernel) (erase client.fd)
            (erase-Changes client))

  Moves-bind :
      (ep : EventPoll K) (m : Outcome (EventPoll K)) (f : EventPoll K → Outcome (EventPoll K))
      → Returning (Moves client ep) m
      → ((ep' : EventPoll K) → Returning (Moves client ep') (f ep'))
      → Returning (Moves client ep) (m >>= f)
  Moves-bind ep (ret ep1) f h k = further (f ep1) (k ep1)
    where
      further :
          (m : Outcome (EventPoll K))
          → Returning (Moves client ep1) m
          → Returning (Moves client ep) m
      further (ret ep2) n = Moves-trans ep ep1 ep2 h n
      further exit n = tt
      further abort n = tt
      further undefined n = tt
  Moves-bind ep exit f h k = tt
  Moves-bind ep abort f h k = tt
  Moves-bind ep undefined f h k = tt

  pub remove_client-Moves :
      (e : Epoll K) (ep : EventPoll K) → Returning (Moves client ep) (remove_client e client ep)
  unfolding remove_client
  remove_client-Moves e ep =
      Moves-bind ep (remove_file_event e client read_event ep) _
        (remove_file_event-Moves e read_event ep) (λ ep'. remove_file_event-Moves e write_event ep')

  pub ready-Moves :
      (e : Epoll K) (ep : EventPoll K)
      → Returning (Moves client ep) (get_ready_to_send_message e client ep)
  unfolding get_ready_to_send_message
  ready-Moves e ep =
      Moves-bind ep (remove_file_event e client read_event ep) _
        (remove_file_event-Moves e read_event ep) (λ ep'. create_file_event-Moves e write_event ep')

  Moves-sent :
      (ep : EventPoll K) (m : Outcome (EventPoll K)) (code : Code) (s : ProtocolStream)
      → Returning (Moves client ep) m
      → Returning
          (λ r. Moves client ep r.2)
          (m >>= λ ep'.
            (let o : Outcome (Code × ProtocolStream × EventPoll K) = ret (code, s, ep') in o))
  Moves-sent ep (ret ep') code s h = h
  Moves-sent ep exit code s h = tt
  Moves-sent ep abort code s h = tt
  Moves-sent ep undefined code s h = tt

  after_write-Moves :
      (e : Epoll K) (written : Written) (s : ProtocolStream) (ep : EventPoll K)
      → Returning (λ r. Moves client ep r.2) (after_write e client written s ep)
  unfolding after_write
  after_write-Moves e write_would_block s ep = Moves-refl ep
  after_write-Moves e write_failed s ep = Moves-refl ep
  after_write-Moves e (wrote n) s ep =
      Returning-if (λ r. Moves client ep r.2) (length (erase_send_buf n s).output_buf == 0) _ _
        (Moves-sent ep
          (remove_file_event e client write_event ep >>= create_file_event e client read_event) ok
          (clear (erase_send_buf n s))
          (Moves-bind ep (remove_file_event e client write_event ep) _
            (remove_file_event-Moves e write_event ep)
            (λ ep'. create_file_event-Moves e read_event ep')))
        (Moves-refl ep)

  pub send_reply-Moves :
      (e : Epoll K) (category : Category) (written : Written) (s : ProtocolStream)
      (ep : EventPoll K)
      → Returning (λ r. Moves client ep r.2) (send_reply e category client written s ep)
  unfolding send_reply
  send_reply-Moves e category written s ep =
      Returning-if (λ r. Moves client ep r.2) (is_local_pf category) _ _ (Moves-refl ep)
        (Returning-if (λ r. Moves client ep r.2) (length s.output_buf == 0) _ _ (Moves-refl ep)
          (after_write-Moves e written s ep))
