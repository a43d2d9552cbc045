-- ===== src/EventPoll/Batch.antt =====
-- The events of a batch: no handler meets a deleted client or an error of `epoll_ctl`, and the clients
-- that were read wait once each.
use cabinet.EventPoll.Moves.{Moves}
use cabinet.Base.{
  ◌<ℤ◌, ==ℤ_iff, All, Bool-cases, IntMap, List, Outcome, [], ap, false, inl, inr, lookup, none,
  refl, ret, some, sym, true, ℤ, ◌==ℤ◌, ◌∙◌, ◌∷◌, ◌≡◌,
}
use cabinet.EventPoll.{Connection, Epoll, EventPoll, EventType, map_of, read_event}
use cabinet.EventPoll.Held.{Held, reached-Held}
use cabinet.EventPoll.Lives.{Lives}
use cabinet.EventPoll.Loop.{Event, Loop, Methods, Peer}
use cabinet.EventPoll.Queue.{Apart, Queue, Waiting, input_in, input_of}

-- No event of the list is of this descriptor.
abbrev pub NotIn : ℤ → List Event → Type 0
NotIn fd = All (λ ev. (fd ==ℤ ev.fd) ≡ false)

-- `epoll_wait` gives each descriptor once.
abbrev pub DistinctFds : List Event → Type 0
DistinctFds [] = Unit
DistinctFds (ev ∷ evs) = NotIn ev.fd evs × DistinctFds evs

-- A client that waits has no event to come.
abbrev pub IsAhead : IntMap Peer → List Event → Waiting → Type 0
IsAhead clients evs q =
    (peer : Peer) × (lookup q.0 clients ≡ some peer) × NotIn peer.connection.fd evs

-- The client of an event is none of those that wait.
pub ahead-Apart :
    (ev : Event) (evs : List Event) (id : ℤ) (peer : Peer) (clients : IntMap Peer)
    (qs : List Waiting)
    → lookup id clients ≡ some peer
    → peer.connection.fd ≡ ev.fd
    → All (IsAhead clients (ev ∷ evs)) qs
    → Apart id qs
ahead-Apart ev evs id peer clients [] found at_fd h = tt
ahead-Apart ev evs id peer clients (q ∷ qs) found at_fd h = (
  elim (Bool-cases (id ==ℤ q.0)) [
    | inr differs ↦ differs
    | inl equal ↦
        let ids : id ≡ q.0 = (==ℤ_iff id q.0).0 equal in
        let (p, there, tests) = h.0 in
        let found' : lookup q.0 clients ≡ some peer =
          ap (λ i. lookup i clients) (sym ids) ∙ found in
        let peers : p ≡ peer = cc in
        let fds : p.connection.fd ≡ ev.fd = ap (λ (x : Peer). x.connection.fd) peers ∙ at_fd in
        let loop : (p.connection.fd ==ℤ ev.fd) ≡ true = (==ℤ_iff p.connection.fd ev.fd).1 fds in
        let first = tests.0 in absurd (cc)
  ],
  ahead-Apart ev evs id peer clients qs found at_fd h.1,
)

pub fresh-Apart :
    (evs : List Event) (id : ℤ) (clients : IntMap Peer) (qs : List Waiting)
    → lookup id clients ≡ none
    → All (IsAhead clients evs) qs
    → Apart id qs
fresh-Apart evs id clients [] free h = tt
fresh-Apart evs id clients (q ∷ qs) free h = (
  elim (Bool-cases (id ==ℤ q.0)) [
    | inr differs ↦ differs
    | inl equal ↦
        let ids : id ≡ q.0 = (==ℤ_iff id q.0).0 equal in
        let free' : lookup q.0 clients ≡ none = ap (λ i. lookup i clients) (sym ids) ∙ free in
        let there = h.0.1 in absurd (cc)
  ],
  fresh-Apart evs id clients qs free h.1,
)

-- The clients `qs` are stored as before.
abbrev pub Kept : IntMap Peer → IntMap Peer → List Waiting → Type 0
Kept clients clients' = All (λ q. lookup q.0 clients' ≡ lookup q.0 clients)

pub Kept-refl : (clients : IntMap Peer) (qs : List Waiting) → Kept clients clients qs
Kept-refl clients [] = tt
Kept-refl clients (q ∷ qs) = (refl, Kept-refl clients qs)

pub Apart-Kept :
    (id : ℤ) (clients clients' : IntMap Peer) (qs : List Waiting)
    → ((j : ℤ) → (id ==ℤ j) ≡ false → lookup j clients' ≡ lookup j clients)
    → Apart id qs
    → Kept clients clients' qs
Apart-Kept id clients clients' [] same a = tt
Apart-Kept id clients clients' (q ∷ qs) same a =
    (same q.0 a.0, Apart-Kept id clients clients' qs same a.1)

pub Kept-IsAhead :
    (ev : Event) (evs : List Event) (clients clients' : IntMap Peer) (qs : List Waiting)
    → Kept clients clients' qs
    → All (IsAhead clients (ev ∷ evs)) qs
    → All (IsAhead clients' evs) qs
Kept-IsAhead ev evs clients clients' [] k h = tt
Kept-IsAhead ev evs clients clients' (q ∷ qs) k h =
    ((h.0.0, k.0 ∙ h.0.1, h.0.2.1), Kept-IsAhead ev evs clients clients' qs k.1 h.1)

pub Kept-held :
    {K W : Type 0} (st st' : Loop K W) (qs : List Waiting)
    → Kept st.clients st'.clients qs
    → All (λ q. input_of q.0 st ≡ some q.1) qs
    → All (λ q. input_of q.0 st' ≡ some q.1) qs
Kept-held st st' [] k h = tt
Kept-held st st' (q ∷ qs) k h = (ap input_in k.0 ∙ h.0, Kept-held st st' qs k.1 h.1)

-- A descriptor that waits to be read leads to the client.
abbrev pub IsReached : {K : Type 0} → EventPoll K → Waiting → Type 0
IsReached ep q = (fd : ℤ) × (lookup fd ep.read_file_event_map ≡ some q.0)

-- What leads to the clients that wait does not change where another client's descriptor does.
pub IsReached-Moves :
    {K : Type 0} (client : Connection) (ep ep' : EventPoll K) (qs : List Waiting)
    → Moves client ep ep'
    → ((i : ℤ) → lookup client.fd ep.read_file_event_map ≡ some i → i ≡ client.client_id)
    → Apart client.client_id qs
    → All (IsReached ep) qs
    → All (IsReached ep') qs
IsReached-Moves client ep ep' [] moves owns a h = tt
IsReached-Moves client ep ep' (q ∷ qs) moves owns a ((fd, there), h) = (
  elim (Bool-cases (client.fd ==ℤ fd)) [
    | inr differs ↦ (fd, moves.elsewhere read_event fd differs ∙ there)
    | inl equal ↦
        let fds : client.fd ≡ fd = (==ℤ_iff client.fd fd).0 equal in
        let own : q.0 ≡ client.client_id =
          owns q.0 (ap (λ f. lookup f ep.read_file_event_map) fds ∙ there) in
        let same : (client.client_id ==ℤ q.0) ≡ true = (==ℤ_iff client.client_id q.0).1 (sym own) in
        let other = a.0 in absurd (cc)
  ],
  IsReached-Moves client ep ep' qs moves owns a.1 h,
)

module _ {K W : Type 0} (e : Epoll K) where
  -- Between two events, with those that are still to come
  pub record Batch (evs : List Event) (st : Loop K W) : Type 0 where
    pub lives : Lives e st
    pub queue : List Waiting
    pub waiting : Queue queue st
    pub ahead : All (IsAhead st.clients evs) queue
    pub reached : All (IsReached st.poll) queue

  -- A new client has a descriptor that is not registered and that no other client has, and the next
  -- number.
  pub record Fresh (ops : Methods K W) : Type 0 where
    pub is_new :
        (fd : ℤ) (st : Loop K W) (peer : Peer) (next : ℤ) (world : W)
        → ops.create_client fd st ≡ (some peer, next, world)
        → (e.registered peer.connection.fd st.poll.kernel ≡ false)
          × ((j : ℤ) (p : Peer)
              → lookup j st.clients ≡ some p
              → (p.connection.fd ==ℤ peer.connection.fd) ≡ false)
          × (peer.connection.client_id ≡ st.client_id_max)
          × (st.client_id_max <ℤ next)
    pub keeps_number :
        (fd : ℤ) (st : Loop K W) (next : ℤ) (world : W)
        → ops.create_client fd st ≡ (none, next, world)
        → next ≡ st.client_id_max

  -- The handler of an event returns, and what holds between two events holds again.
  abbrev pub Steps : List Event → Outcome (Loop K W) → Type 0
  Steps evs m = (st' : Loop K W) × (m ≡ ret st') × Batch evs st'

  module _ (ops : Methods K W) (ev : Event) (evs : List Event) (st : Loop K W)
      (b : Batch (ev ∷ evs) st) (once : NotIn ev.fd evs) where
    abbrev pub carry :
        (st' : Loop K W)
        → Lives e st'
        → st'.read_list ≡ st.read_list
        → Kept st.clients st'.clients b.queue
        → All (IsReached st'.poll) b.queue
        → Batch evs st'
    carry st' live same kept reached = record {
      lives = live;
      queue = b.queue;
      waiting = record {
        listed = same ∙ b.waiting.listed;
        held = Kept-held st st' b.queue kept b.waiting.held;
        distinct = b.waiting.distinct;
      };
      ahead = Kept-IsAhead ev evs st.clients st'.clients b.queue kept b.ahead;
      reached = reached;
    }

    pub pass : Batch evs st
    pass = carry st b.lives refl (Kept-refl st.clients b.queue) b.reached

    pub Held-of :
        (t : EventType) (id : ℤ)
        → lookup ev.fd (map_of t st.poll) ≡ some id
        → (client : Connection) × Held e client st × (client.fd ≡ ev.fd) × (client.client_id ≡ id)
    Held-of t id h = reached-Held e st b.lives t ev.fd id h
