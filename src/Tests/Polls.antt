-- ===== src/Tests/Polls.antt =====
-- A batch of two events at a server: a connection comes in, and a client sends a whole `set`.
use mathlib.Core.Path.{subst}
use cabinet.Base.{
  ==ℤ_iff, Bool, Bool-cases, IntMap, List, [], ap, arith, false, if_false, if_true, if◌then◌else◌,
  inl, inr, lookup, minus_one, none, pos, refl, ret, some, sym, true, ℤ, ◌<ℤ◌, ◌==ℤ◌, ◌||◌, ◌∙◌,
  ◌∷◌, ◌≡◌, codes,
}
use cabinet.Client.{normal_client}
use cabinet.EventPoll.{EventType, map_of, read_bytes, read_event, write_event, write_failed}
use cabinet.EventPoll.Lives.{Entry, Lives}
use cabinet.EventPoll.Loop.{Event, Loop, Peer, handle_events}
use cabinet.EventPoll.Orderly.{IsOrderly}
use cabinet.EventPoll.Process.{drain}
use cabinet.EventPoll.Reads.{Reads}
use cabinet.ProtocolStream.{new_stream}
use cabinet.ProtocolStream.Progress.{Returning}
use cabinet.Server.{Server}
use cabinet.Server.Methods.{server_methods}
use cabinet.Server.Replay.{text_of}
use cabinet.Server.Serving.{AcceptsNew, server_events-Reads}
use cabinet.Tests.Events.{client_five, sample_epoll, sample_poll, sample_poll-IsPolled}
use cabinet.Tests.Samples.{sample_file}
use cabinet.Tests.Servers.{set_a}
use cabinet.Util.{AcceptCalls, failed}

abbrev TestLoop : Type 0
TestLoop = Loop (ℤ → Bool) Server

abbrev peer_five : Peer
peer_five = record {
  connection = client_five;
  category = normal_client;
  stream = new_stream true false (codes "none");
}

abbrev has_fd : ℤ → IntMap Peer → Bool
has_fd fd [] = false
has_fd fd ((id, p) ∷ clients) = (p.connection.fd ==ℤ fd) || has_fd fd clients

has_fd-lookup :
    (fd : ℤ) (clients : IntMap Peer) (j : ℤ) (p : Peer)
    → has_fd fd clients ≡ false
    → lookup j clients ≡ some p
    → (p.connection.fd ==ℤ fd) ≡ false
unfolding lookup
has_fd-lookup fd [] j p none_has h = absurd (cc h)
has_fd-lookup fd ((id, q) ∷ clients) j p none_has h = elim (Bool-cases (id ==ℤ j)) [
  | inl equal ↦
      let there = sym (if_true (id ==ℤ j) (some q) (lookup j clients) equal) ∙ h in
      let same : q ≡ p = cc in
      let first : (q.connection.fd ==ℤ fd) ≡ false = ground (arith, none_has) in
      ap (λ (x : Peer). x.connection.fd ==ℤ fd) (sym same) ∙ first
  | inr differs ↦
      let there = sym (if_false (id ==ℤ j) (some q) (lookup j clients) differs) ∙ h in
      has_fd-lookup fd clients j p (ground (arith, none_has)) there
]

abbrev in_use : TestLoop → Bool
in_use st = st.poll.kernel (pos 6) || has_fd (pos 6) st.clients

-- `accept` gives 6 where that is free, and fails otherwise.
abbrev sample_accept : TestLoop → AcceptCalls
sample_accept st = record {
  accept = if in_use st then minus_one else pos 6;
  got_flags = pos 0;
  set_flags = pos 0;
}

free_six :
    (b : Bool)
    → failed (if b then minus_one else pos 6) ≡ false
    → (b ≡ false) × ((if b then minus_one else pos 6) ≡ pos 6)
free_six true h = absurd (ground arith)
free_six false h = (refl, refl)

sample_accept-AcceptsNew : AcceptsNew sample_epoll sample_accept
sample_accept-AcceptsNew = record {
  unseen = λ st opened.
      (let (free, six) = free_six (in_use st) opened in
        ap st.poll.kernel six ∙ ground (arith, free));
  unused = λ st opened j p there.
      (let (free, six) = free_six (in_use st) opened in
        let unused : has_fd (pos 6) st.clients ≡ false = ground (arith, free) in
        ap (λ i. p.connection.fd ==ℤ i) six ∙ has_fd-lookup (pos 6) st.clients j p unused there);
}

abbrev polled_loop : TestLoop
polled_loop = record {
  poll = sample_poll;
  clients = (pos 1, peer_five) ∷ [];
  read_list = [];
  client_id_max = pos 2;
  world = record { db = []; pf = sample_file; has_pf = false };
}

five_at : (j : ℤ) (p : Peer) → lookup j polled_loop.clients ≡ some p → pos 1 ≡ j
unfolding lookup
five_at j p h = elim (Bool-cases (pos 1 ==ℤ j)) [
  | inl equal ↦ (==ℤ_iff (pos 1) j).0 equal
  | inr differs ↦
      let there = sym (if_false (pos 1 ==ℤ j) (some peer_five) none differs) ∙ h in absurd (cc)
]

polled_loop-IsOrderly : IsOrderly polled_loop.clients (pos 2)
polled_loop-IsOrderly = record {
  numbered = λ j p h. subst (λ i. i <ℤ pos 2) (five_at j p h) (omega arith);
  distinct = λ i j p q hi hj fds. sym (five_at i p hi) ∙ five_at j q hj;
}

-- The only entry of the map is that of client 1.
five-Entry :
    (fd id : ℤ) → lookup fd ((pos 5, pos 1) ∷ []) ≡ some id → Entry fd id polled_loop.clients
unfolding lookup
five-Entry fd id h = elim (Bool-cases (pos 5 ==ℤ fd)) [
  | inl equal ↦
      let fds : pos 5 ≡ fd = (==ℤ_iff (pos 5) fd).0 equal in
      let found = sym (if_true (pos 5 ==ℤ fd) (some (pos 1)) none equal) ∙ h in
      let ids : pos 1 ≡ id = cc in
      (peer_five, ap (λ (i : ℤ). lookup i polled_loop.clients) (sym ids), fds, ids)
  | inr differs ↦
      let found = sym (if_false (pos 5 ==ℤ fd) (some (pos 1)) none differs) ∙ h in absurd (cc)
]

polled_loop-Lives : Lives sample_epoll polled_loop
polled_loop-Lives = record {
  polled = sample_poll-IsPolled;
  alive = λ t. alive_at t;
  orderly = polled_loop-IsOrderly;
}
  where
    alive_at :
        (t : EventType) (fd id : ℤ)
        → lookup fd (map_of t sample_poll) ≡ some id
        → Entry fd id polled_loop.clients
    alive_at read_event fd id h = five-Entry fd id h
    alive_at write_event fd id h = absurd (unfold lookup in cc h)

abbrev sample_events : List Event
sample_events =
    record {
      fd = pos 3;
      readable = true;
      writable = false;
      read_result = read_bytes [];
      written = write_failed;
    }
    ∷ record {
      fd = pos 5;
      readable = true;
      writable = false;
      read_result = read_bytes (text_of set_a);
      written = write_failed;
    }
    ∷ []

server_events-Reads_example :
    (let ops = server_methods sample_epoll (pos 3) sample_accept in
      (st' : TestLoop) × (handle_events sample_epoll ops sample_events polled_loop ≡ ret st')
      × Lives sample_epoll st'
      × Reads sample_epoll ops st' (drain sample_epoll ops st')
      × Returning
          (λ st2. Lives sample_epoll st2 × (st2.read_list ≡ []))
          (drain sample_epoll ops st'))
server_events-Reads_example =
    server_events-Reads sample_epoll sample_accept (pos 3) sample_events polled_loop
      (λ op fd k. refl) sample_accept-AcceptsNew ((refl, tt), (tt, tt)) polled_loop-Lives refl
