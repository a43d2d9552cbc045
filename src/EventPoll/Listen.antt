-- ===== src/EventPoll/Listen.antt =====
-- `EventPoll::initEventPoll` and the first call of `pollListenFd`, on an event poll that was just made.
use cabinet.Base.{
  ap, not, ◌∙◌, Bool, Code, Outcome, [], arith, err, false, if◌then◌else◌, lookup, minus_one, ok,
  refl, ret, true, ℤ, ◌==ℤ◌, ◌>>=◌, ◌∷◌, ◌≡◌,
}
use cabinet.Children.{is_one_of}
use cabinet.EventPoll.{
  Epoll, EventPoll, add_event, after_ctl, file_event_operation, poll_listen_fd, read_event,
}
use cabinet.EventPoll.Safety.{IsPolled}

module _ {K : Type 0} where
  -- `new EventPoll`, with the kernel as it is
  abbrev pub new_event_poll : K → EventPoll K
  new_event_poll k = record {
    read_file_event_map = [];
    write_file_event_map = [];
    listen_fd_set = [];
    kernel = k;
  }

  -- `initEventPoll`, with what `epoll_create` returns and the kernel after it
  unfoldable pub init_event_poll : ℤ → K → Code × EventPoll K
  init_event_poll created k =
      if created ==ℤ minus_one then (err, new_event_poll k) else (ok, new_event_poll k)

  -- The event poll where one descriptor listens and no client is known.
  abbrev pub listening_poll : ℤ → K → EventPoll K
  listening_poll fd k = record (new_event_poll k) { listen_fd_set = fd ∷ [] }

  module _ (e : Epoll K) (fd : ℤ) (k : K) (unseen : (j : ℤ) → e.registered j k ≡ false)
      (watched : e.refuses add_event fd k ≡ false) where
    abbrev listened : EventPoll K
    listened = listening_poll fd (e.epoll_ctl add_event read_event fd k).1

    listened-IsPolled : IsPolled e listened
    unfolding lookup is_one_of
    listened-IsPolled = record {
      polled = λ j.
          (let now = e.add_registers read_event fd j k (unseen fd) watched in
            let before = unseen j in ground arith);
      apart = λ j. refl;
      listen_apart = λ j. ground arith;
    }

    after_ctl-listens :
        (r : Bool × K)
        → r.0 ≡ true
        → (after_ctl (listening_poll fd k) r >>= λ ep.
            (let o : Outcome (Code × EventPoll K) = ret (ok, ep) in o))
          ≡ ret (ok, listening_poll fd r.1)
    after_ctl-listens (true, k') h = refl
    after_ctl-listens (false, k') h = absurd (cc)

    -- The first descriptor that listens is registered: the kernel watches it and no other.
    pub poll_listen_fd-Polls :
        (ep : EventPoll K) × (poll_listen_fd e fd (new_event_poll k) ≡ ret (ok, ep))
        × IsPolled e ep
        × (ep.listen_fd_set ≡ fd ∷ [])
        × (ep.read_file_event_map ≡ [])
        × (ep.write_file_event_map ≡ [])
    unfolding poll_listen_fd file_event_operation is_one_of
    poll_listen_fd-Polls = (
      listened,
      after_ctl-listens (e.epoll_ctl add_event read_event fd k)
          (e.add_returns read_event fd k (unseen fd) ∙ ap not watched),
      listened-IsPolled,
      refl,
      refl,
      refl,
    )
