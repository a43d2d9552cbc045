-- ===== src/EventPoll/Safety.antt =====
-- The maps of an event poll agree with the kernel, so that no call of `epoll_ctl` meets a descriptor
-- that is registered already, or not yet.
use mathlib.Core.Path.{subst}
use cabinet.Base.{
  ==ℤ_iff, ==ℤ_refl, Bool, Bool-cases, IntMap, Outcome, ap, arith, erase, false, if_false, if_true,
  if◌then◌else◌, inl, inr, insert, lookup, lookup-erase, lookup-insert, map-if, not, refl, ret,
  true, ℤ, ◌&&◌, ◌==ℤ◌, ◌>>=◌, ◌||◌, ◌∙◌, ◌≡◌,
}
use cabinet.Children.{is_one_of}
use cabinet.EventPoll.{
  Connection, Epoll, Serves, EventPoll, EventType, add_event, after_ctl, create_file_event,
  del_event, file_event_operation, map_of, read_event, remove_file_event, with_map, write_event,
}
use cabinet.Siblings.{is_some}

abbrev pub other : EventType → EventType
other read_event = write_event
other write_event = read_event

is_some-insert :
    (i j v : ℤ) (m : IntMap ℤ)
    → is_some (lookup j (insert i v m)) ≡ (if i ==ℤ j then true else is_some (lookup j m))
is_some-insert i j v m = ap is_some (lookup-insert i j v m) ∙ map-if is_some (i ==ℤ j) _ _

is_some-erase :
    (i j : ℤ) (m : IntMap ℤ)
    → is_some (lookup j (erase i m)) ≡ (if i ==ℤ j then false else is_some (lookup j m))
is_some-erase i j m = ap is_some (lookup-erase i j m) ∙ map-if is_some (i ==ℤ j) _ _

module _ {K : Type 0} where
  -- Whether a descriptor is in a map.
  abbrev pub waits : EventType → ℤ → EventPoll K → Bool
  waits type fd ep = is_some (lookup fd (map_of type ep))

  abbrev pub listens : ℤ → EventPoll K → Bool
  listens fd ep = is_one_of fd ep.listen_fd_set

  -- The kernel watches a descriptor just if it waits to be read, waits to be written or listens; and
  -- none does two of these.
  pub record IsPolled (e : Epoll K) (ep : EventPoll K) : Type 0 where
    pub polled :
        (fd : ℤ)
        → e.registered fd ep.kernel
          ≡ (waits read_event fd ep || (waits write_event fd ep || listens fd ep))
    pub apart : (fd : ℤ) → waits read_event fd ep && waits write_event fd ep ≡ false
    pub listen_apart :
        (fd : ℤ) → listens fd ep && (waits read_event fd ep || waits write_event fd ep) ≡ false

  after_ctl-true :
      (ep : EventPoll K) (r : Bool × K)
      → r.0 ≡ true
      → after_ctl ep r ≡ ret (record ep { kernel = r.1 })
  after_ctl-true ep (true, k) h = refl
  after_ctl-true ep (false, k) h = cc

  module _ (e : Epoll K) (client : Connection) (ep : EventPoll K) (inv : IsPolled e ep)
      (serves : Serves e) (connected : listens client.fd ep ≡ false) where
    unwatched :
        (type : EventType)
        → waits type client.fd ep ≡ false
        → waits (other type) client.fd ep ≡ false
        → e.registered client.fd ep.kernel ≡ false
    unwatched read_event here there = inv.polled client.fd ∙ ground arith
    unwatched write_event here there = inv.polled client.fd ∙ ground arith

    watched :
        (type : EventType)
        → waits type client.fd ep ≡ true
        → e.registered client.fd ep.kernel ≡ true
    watched read_event here = inv.polled client.fd ∙ ground arith
    watched write_event here = inv.polled client.fd ∙ ground arith

    -- what holds of the client's descriptor holds where another is the same
    at_same : (P : ℤ → Type 0) (j : ℤ) → P client.fd → (client.fd ==ℤ j) ≡ true → P j
    at_same P j p same = subst P ((==ℤ_iff client.fd j).0 same) p

    added : EventType → K → EventPoll K
    added type k =
        with_map type (insert client.fd client.client_id (map_of type ep))
          (record ep { kernel = k })

    added-IsPolled :
        (type : EventType)
        → e.registered client.fd ep.kernel ≡ false
        → waits (other type) client.fd ep ≡ false
        → IsPolled e (added type (e.epoll_ctl add_event type client.fd ep.kernel).1)
    unfolding added
    added-IsPolled read_event free there = record {
      polled = λ j.
          e.add_registers read_event client.fd j ep.kernel free
            (serves add_event client.fd ep.kernel)
          ∙ rw (inv.polled j, is_some-insert) (ground arith);
      apart = λ j. rw is_some-insert (elim (Bool-cases (client.fd ==ℤ j)) [
        | inl same ↦ rw same (at_same (λ i. waits write_event i ep ≡ false) j there same)
        | inr differ ↦ rw differ (inv.apart j)
      ]);
      listen_apart = λ j. rw is_some-insert (elim (Bool-cases (client.fd ==ℤ j)) [
        | inl same ↦
            let quiet = at_same (λ i. listens i ep ≡ false) j connected same in ground arith
        | inr differ ↦ rw differ (inv.listen_apart j)
      ]);
    }
    added-IsPolled write_event free there = record {
      polled = λ j.
          e.add_registers write_event client.fd j ep.kernel free
            (serves add_event client.fd ep.kernel)
          ∙ rw (inv.polled j, is_some-insert) (ground arith);
      apart = λ j. rw is_some-insert (elim (Bool-cases (client.fd ==ℤ j)) [
        | inl same ↦
            let idle = at_same (λ i. waits read_event i ep ≡ false) j there same in ground arith
        | inr differ ↦ rw differ (inv.apart j)
      ]);
      listen_apart = λ j. rw is_some-insert (elim (Bool-cases (client.fd ==ℤ j)) [
        | inl same ↦
            let quiet = at_same (λ i. listens i ep ≡ false) j connected same in ground arith
        | inr differ ↦ rw differ (inv.listen_apart j)
      ]);
    }

    removed : EventType → K → EventPoll K
    removed type k = with_map type (erase client.fd (map_of type ep)) (record ep { kernel = k })

    removed-IsPolled :
        (type : EventType)
        → waits type client.fd ep ≡ true
        → IsPolled e (removed type (e.epoll_ctl del_event type client.fd ep.kernel).1)
    unfolding removed
    removed-IsPolled read_event here = record {
      polled = λ j.
          e.del_registers read_event client.fd j ep.kernel (watched read_event here)
            (serves del_event client.fd ep.kernel)
          ∙ rw (inv.polled j, is_some-erase)
              (elim (Bool-cases (client.fd ==ℤ j)) [
                | inl same ↦
                    let quiet = at_same (λ i. listens i ep ≡ false) j connected same in
                    let alone =
                      at_same (λ i. waits read_event i ep && waits write_event i ep ≡ false) j
                        (inv.apart client.fd) same in
                    let there = at_same (λ i. waits read_event i ep ≡ true) j here same in
                    ground arith
                | inr differ ↦ rw differ refl
              ]);
      apart = λ j. rw is_some-erase (let before = inv.apart j in ground arith);
      listen_apart = λ j. rw is_some-erase (let before = inv.listen_apart j in ground arith);
    }
    removed-IsPolled write_event here = record {
      polled = λ j.
          e.del_registers write_event client.fd j ep.kernel (watched write_event here)
            (serves del_event client.fd ep.kernel)
          ∙ rw (inv.polled j, is_some-erase)
              (elim (Bool-cases (client.fd ==ℤ j)) [
                | inl same ↦
                    let quiet = at_same (λ i. listens i ep ≡ false) j connected same in
                    let alone =
                      at_same (λ i. waits read_event i ep && waits write_event i ep ≡ false) j
                        (inv.apart client.fd) same in
                    let there = at_same (λ i. waits write_event i ep ≡ true) j here same in
                    ground arith
                | inr differ ↦ rw differ refl
              ]);
      apart = λ j. rw is_some-erase (let before = inv.apart j in ground arith);
      listen_apart = λ j. rw is_some-erase (let before = inv.listen_apart j in ground arith);
    }

    abbrev with_event : EventType → K → EventPoll K
    with_event type k =
        let ep' : EventPoll K = record ep { kernel = k } in
        with_map type (insert client.fd client.client_id (map_of type ep')) ep'

    added-facts :
        (type : EventType) (k : K)
        → (with_event type k ≡ added type k)
          × (waits type client.fd (added type k) ≡ true)
          × (waits (other type) client.fd (added type k) ≡ waits (other type) client.fd ep)
          × ((added type k).listen_fd_set ≡ ep.listen_fd_set)
    unfolding added
    added-facts read_event k = (refl, rw (is_some-insert, ==ℤ_refl) refl, refl, refl)
    added-facts write_event k = (refl, rw (is_some-insert, ==ℤ_refl) refl, refl, refl)

    abbrev without_event : EventType → K → EventPoll K
    without_event type k =
        let ep' : EventPoll K = record ep { kernel = k } in
        with_map type (erase client.fd (map_of type ep')) ep'

    removed-facts :
        (type : EventType) (k : K)
        → (without_event type k ≡ removed type k)
          × (waits type client.fd (removed type k) ≡ false)
          × (waits (other type) client.fd (removed type k) ≡ waits (other type) client.fd ep)
          × ((removed type k).listen_fd_set ≡ ep.listen_fd_set)
    unfolding removed
    removed-facts read_event k = (refl, rw (is_some-erase, ==ℤ_refl) refl, refl, refl)
    removed-facts write_event k = (refl, rw (is_some-erase, ==ℤ_refl) refl, refl, refl)

    -- `createFileEvent` on a client that does not wait for the other event
    pub create-Polls :
        (type : EventType)
        → waits (other type) client.fd ep ≡ false
        → (ep' : EventPoll K) × (create_file_event e client type ep ≡ ret ep')
          × IsPolled e ep'
          × (waits type client.fd ep' ≡ true)
          × (waits (other type) client.fd ep' ≡ false)
          × (ep'.listen_fd_set ≡ ep.listen_fd_set)
    unfolding create_file_event file_event_operation
    create-Polls type there = elim (Bool-cases (waits type client.fd ep)) [
      | inl here ↦ (ep, if_true (waits type client.fd ep) _ _ here, inv, here, there, refl)
      | inr free ↦
          let unseen = unwatched type free there in
          let r = e.epoll_ctl add_event type client.fd ep.kernel in
          let (same, on, off, listening) = added-facts type r.1 in
          (
            added type r.1,
            if_false (waits type client.fd ep) _ _ free
                ∙ ap
                    (λ o. o >>= λ ep'.
                      (let r : Outcome (EventPoll K) = ret (
                          with_map type (insert client.fd client.client_id (map_of type ep'))
                            ep') in
                        r))
                    (after_ctl-true ep r (
                      e.add_returns type client.fd ep.kernel unseen
                      ∙ ap not (serves add_event client.fd ep.kernel)))
                ∙ ap ret same,
            added-IsPolled type unseen there,
            on,
            off ∙ there,
            listening,
          )
    ]

    -- `removeFileEvent`
    pub remove-Polls :
        (type : EventType)
        → (ep' : EventPoll K) × (remove_file_event e client type ep ≡ ret ep')
          × IsPolled e ep'
          × (waits type client.fd ep' ≡ false)
          × (waits (other type) client.fd ep' ≡ waits (other type) client.fd ep)
          × (ep'.listen_fd_set ≡ ep.listen_fd_set)
    unfolding remove_file_event file_event_operation
    remove-Polls type = elim (Bool-cases (waits type client.fd ep)) [
      | inr absent ↦
          (ep, if_true (not (waits type client.fd ep)) _ _ (ground arith), inv, absent, refl, refl)
      | inl here ↦
          let seen = watched type here in
          let r = e.epoll_ctl del_event type client.fd ep.kernel in
          let (same, off, kept, listening) = removed-facts type r.1 in
          (
            removed type r.1,
            if_false (not (waits type client.fd ep)) _ _ (ground arith)
                ∙ ap
                    (λ o. o >>= λ ep'.
                      (let r : Outcome (EventPoll K) =
                          ret (with_map type (erase client.fd (map_of type ep')) ep') in
                        r))
                    (after_ctl-true ep r (
                      e.del_returns type client.fd ep.kernel seen
                      ∙ ap not (serves del_event client.fd ep.kernel)))
                ∙ ap ret same,
            removed-IsPolled type here,
            off,
            kept,
            listening,
          )
    ]
