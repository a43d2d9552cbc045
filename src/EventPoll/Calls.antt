-- ===== src/EventPoll/Calls.antt =====
-- The calls of the event loop and of the clients never meet `EEXIST` or `ENOENT`.
use cabinet.Base.{
  Bool, Code, Outcome, ap, arith, err, false, if◌then◌else◌, length, ok, refl, ret, true, ℤ, ◌==◌,
  ◌>>=◌, ◌∙◌, ◌≡◌,
}
use cabinet.Children.{is_one_of}
use cabinet.Client.{Category, is_local_pf}
use cabinet.EventPoll.{
  Connection, Epoll, Serves, EventPoll, Written, after_write, create_file_event, erase_send_buf,
  get_ready_to_send_message, read_event, remove_client, remove_file_event, send_reply, write_event,
  write_failed, write_would_block, wrote,
}
use cabinet.EventPoll.Safety.{IsPolled, create-Polls, listens, remove-Polls, waits}
use cabinet.ProtocolStream.{ProtocolStream, clear}

module _ {K : Type 0} (e : Epoll K) (ep : EventPoll K) (inv : IsPolled e ep) where
  -- A new client's descriptor is in no map and does not listen.
  pub fresh-idle :
      (fd : ℤ)
      → e.registered fd ep.kernel ≡ false
      → (listens fd ep ≡ false) × (waits write_event fd ep ≡ false)
  fresh-idle fd unseen = let seen = inv.polled fd in (ground arith, ground arith)

  module _ (serves : Serves e) (client : Connection)
      (connected : listens client.fd ep ≡ false) where
    pub ready-Polls :
        (ep' : EventPoll K) × (get_ready_to_send_message e client ep ≡ ret ep')
        × IsPolled e ep'
        × (waits write_event client.fd ep' ≡ true)
        × (waits read_event client.fd ep' ≡ false)
    unfolding get_ready_to_send_message
    ready-Polls =
        let (ep1, removed, inv1, off, kept, listening) =
          remove-Polls e client ep inv serves connected read_event in
        let connected1 = ap (is_one_of client.fd) listening ∙ connected in
        let (ep2, created, inv2, on, still, listening2) =
          create-Polls e client ep1 inv1 serves connected1 write_event off in
        (
          ep2,
          ap (λ o. o >>= create_file_event e client write_event) removed ∙ created,
          inv2,
          on,
          still,
        )

    pub remove_client-Polls :
        (ep' : EventPoll K) × (remove_client e client ep ≡ ret ep')
        × IsPolled e ep'
        × (e.registered client.fd ep'.kernel ≡ false)
    unfolding remove_client
    remove_client-Polls =
        let (ep1, removed, inv1, off, kept, listening) =
          remove-Polls e client ep inv serves connected read_event in
        let connected1 = ap (is_one_of client.fd) listening ∙ connected in
        let (ep2, removed2, inv2, off2, kept2, listening2) =
          remove-Polls e client ep1 inv1 serves connected1 write_event in
        let off1 = kept2 ∙ off in
        let connected2 = ap (is_one_of client.fd) listening2 ∙ connected1 in
        (
          ep2,
          ap (λ o. o >>= remove_file_event e client write_event) removed ∙ removed2,
          inv2,
          inv2.polled client.fd ∙ ground arith,
        )

    -- How `sendReply` ends: it returns, and the maps agree with the kernel.
    pub record Sends (r : Outcome (Code × ProtocolStream × EventPoll K)) : Type 0 where
      pub code : Code
      pub stream : ProtocolStream
      pub after : EventPoll K
      pub result : r ≡ ret (code, stream, after)
      pub is_polled : IsPolled e after

    Sends-if :
        (b : Bool) (u v : Outcome (Code × ProtocolStream × EventPoll K))
        → Sends u
        → Sends v
        → Sends (if b then u else v)
    Sends-if true u v hu hv = hu
    Sends-if false u v hu hv = hv

    same-Sends : (code : Code) (s : ProtocolStream) → Sends (ret (code, s, ep))
    same-Sends code s = record {
      code = code;
      stream = s;
      after = ep;
      result = refl;
      is_polled = inv;
    }

    all_sent-Sends :
        (s : ProtocolStream)
        → Sends (
            remove_file_event e client write_event ep
            >>= create_file_event e client read_event
            >>= λ ep'. ret (ok, s, ep'))
    all_sent-Sends s =
        let (ep1, removed, inv1, off, kept, listening) =
          remove-Polls e client ep inv serves connected write_event in
        let connected1 = ap (is_one_of client.fd) listening ∙ connected in
        let (ep2, created, inv2, on, still, listening2) =
          create-Polls e client ep1 inv1 serves connected1 read_event off in
        record {
          code = ok;
          stream = s;
          after = ep2;
          result =
              ap
                (λ o. o >>= create_file_event e client read_event >>= λ ep'.
                  (let r : Outcome (Code × ProtocolStream × EventPoll K) = ret (ok, s, ep') in r))
                removed
              ∙ ap
                  (λ o. o >>= λ ep'.
                    (let r : Outcome (Code × ProtocolStream × EventPoll K) = ret (ok, s, ep') in r))
                  created;
          is_polled = inv2;
        }

    after_write-Sends :
        (written : Written) (s : ProtocolStream) → Sends (after_write e client written s ep)
    unfolding after_write
    after_write-Sends write_would_block s = same-Sends ok s
    after_write-Sends write_failed s = same-Sends err s
    after_write-Sends (wrote n) s =
        Sends-if (length (erase_send_buf n s).output_buf == 0) _ _
          (all_sent-Sends (clear (erase_send_buf n s))) (same-Sends ok (erase_send_buf n s))

    pub send_reply-Sends :
        (category : Category) (written : Written) (s : ProtocolStream)
        → Sends (send_reply e category client written s ep)
    unfolding send_reply
    send_reply-Sends category written s =
        Sends-if (is_local_pf category) _ _ (same-Sends ok s)
          (Sends-if (length s.output_buf == 0) _ _ (same-Sends ok s) (after_write-Sends written s))

  -- If the kernel watches just the descriptors of the two maps and those that listen, and none is in
  -- two of these, and if it has no error for a call of `epoll_ctl` but `EEXIST` and `ENOENT`, then for a
  -- client whose descriptor does not listen and a new one whose descriptor the kernel does not watch,
  -- these calls meet neither of the two, do not stop the program, and leave an event poll of which the
  -- same holds: `getReadyToSendMessage`, after which the client waits to be written and not to be read;
  -- `sendReply`, however `write` ends; the removal of the client by `deleteClient`, after which the
  -- kernel does not watch its descriptor; and `createFileEvent` of the new client for reading.
  pub events-IsPolled :
      (client fresh : Connection) (category : Category) (written : Written) (s : ProtocolStream)
      → Serves e
      → listens client.fd ep ≡ false
      → e.registered fresh.fd ep.kernel ≡ false
      → ((ep' : EventPoll K) × (get_ready_to_send_message e client ep ≡ ret ep')
          × IsPolled e ep'
          × (waits write_event client.fd ep' ≡ true)
          × (waits read_event client.fd ep' ≡ false))
        × ((code : Code) × (s' : ProtocolStream) × (ep' : EventPoll K) × (send_reply e category
                client written s ep
              ≡ ret (code, s', ep'))
            × IsPolled e ep')
        × ((ep' : EventPoll K) × (remove_client e client ep ≡ ret ep')
            × IsPolled e ep'
            × (e.registered client.fd ep'.kernel ≡ false))
        × ((ep' : EventPoll K) × (create_file_event e fresh read_event ep ≡ ret ep')
            × IsPolled e ep'
            × (waits read_event fresh.fd ep' ≡ true))
  events-IsPolled client fresh category written s serves connected unseen =
      let sends = send_reply-Sends serves client connected category written s in
      let (quiet, idle) = fresh-idle fresh.fd unseen in
      let (ep', created, inv', on, off, listening) =
        create-Polls e fresh ep inv serves quiet read_event idle in
      (
        ready-Polls serves client connected,
        (sends.code, sends.stream, sends.after, sends.result, sends.is_polled),
        remove_client-Polls serves client connected,
        (ep', created, inv', on),
      )
