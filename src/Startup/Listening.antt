-- ===== src/Startup/Listening.antt =====
-- A cabinet that starts comes to listen, with an event poll in order.
use cabinet.Base.{
  All, Bool, Bytes, abort, exit, undefined, IntMap, Code, List, Option, Outcome, [], ap, arith, err,
  false, if_false, if_true, if◌then◌else◌, lookup, minus_one, none, ok, pos, refl, ret, some, sym,
  true, ℤ, ◌++◌, ◌==ℤ◌, ◌>>=◌, ◌∙◌, ◌∷◌, ◌≡◌,
}
use cabinet.Configuration.{Configuration, load_configuration}
use cabinet.Configuration.Init.{init_config, start_following, start_loaded, start_node}
use cabinet.EventPoll.{
  add_event, Epoll, EventPoll, EventType, map_of, poll_listen_fd, read_event, write_event,
}
use cabinet.EventPoll.Listen.{init_event_poll, new_event_poll, poll_listen_fd-Polls}
use cabinet.EventPoll.Lives.{Entry, Lives}
use cabinet.EventPoll.Loop.{Loop}
use cabinet.EventPoll.Orderly.{IsOrderly}
use cabinet.EventPoll.Safety.{IsPolled}
use cabinet.Node.{Node}
use cabinet.PersistenceFile.{PersistenceFile}
use cabinet.Server.Start.{allow_pf, import_if, new_server, start_server}
use cabinet.Startup.{
  Polling, StartCalls, Starting, after_attempt, behind_attempt, init_cluster, init_server,
  server_main, cluster_main, node_with, listen_loop, start_polling,
}
use cabinet.Util.{
  Action, ListenCalls, cabinet_err, daemonize, failed, listen_on_port, listen_tcp, opened,
  reuse_address, set_non_block,
}

-- What an attempt to listen opens; it closes nothing.
abbrev pub opened_by : ListenCalls → List Action
opened_by os = if failed os.socket then [] else opened os.socket ∷ []

abbrev pub opened_until : List ListenCalls → ListenCalls → List Action
opened_until [] good = opened_by good
opened_until (os ∷ rest) good = opened_by os ++ opened_until rest good

abbrev pub is_refused : ListenCalls → Bool
is_refused os = (listen_tcp os).0 ==ℤ cabinet_err

listen_tcp-opened : (os : ListenCalls) → (listen_tcp os).1 ≡ opened_by os
unfolding listen_tcp reuse_address set_non_block
listen_tcp-opened os = ground arith

listen_tcp-socket : (os : ListenCalls) → is_refused os ≡ false → (listen_tcp os).0 ≡ os.socket
unfolding listen_tcp reuse_address set_non_block
listen_tcp-socket os h = ground arith

attempt-refused :
    (os : ListenCalls) → is_refused os ≡ true → listen_on_port os ≡ (cabinet_err, opened_by os)
attempt-refused os h =
    if_true (is_refused os) _ _ h
    ∙ ap (λ (a : List Action). (cabinet_err, a)) (listen_tcp-opened os)

attempt-taken :
    (os : ListenCalls) → is_refused os ≡ false → listen_on_port os ≡ (os.socket, opened_by os)
attempt-taken os h =
    if_false (is_refused os) _ _ h
    ∙ ap (λ (fd : ℤ). (fd, (listen_tcp os).1)) (listen_tcp-socket os h)
    ∙ ap (λ (a : List Action). (os.socket, a)) (listen_tcp-opened os)

listen_loop-returns :
    (refused : List ListenCalls) (good : ListenCalls) (more : List ListenCalls)
    → All (λ os. is_refused os ≡ true) refused
    → is_refused good ≡ false
    → listen_loop (refused ++ good ∷ more) ≡ some (good.socket, opened_until refused good)
unfolding listen_loop
listen_loop-returns [] good more h taken =
    ap (λ r. after_attempt r (listen_loop more)) (attempt-taken good taken)
    ∙ if_false (good.socket ==ℤ cabinet_err) _ _
        (ap (λ (fd : ℤ). fd ==ℤ cabinet_err) (sym (listen_tcp-socket good taken)) ∙ taken)
listen_loop-returns (os ∷ refused) good more (h, hs) taken =
    ap (λ r. after_attempt r (listen_loop (refused ++ good ∷ more))) (attempt-refused os h)
    ∙ ap (behind_attempt (opened_by os)) (listen_loop-returns refused good more hs taken)

-- The loop of an event poll in which no client is known.
abbrev pub first_loop : {K W : Type 0} → EventPoll K → W → Loop K W
first_loop ep world = record {
  poll = ep;
  clients = [];
  read_list = [];
  client_id_max = pos 0;
  world = world;
}

nowhere : (m : IntMap ℤ) (fd id : ℤ) → m ≡ [] → lookup fd m ≡ some id → ⊥
unfolding lookup
nowhere m fd id empty h =
    let there : none ≡ some id = sym (ap (λ (x : IntMap ℤ). lookup fd x) empty) ∙ h in cc

no_clients-IsOrderly : IsOrderly [] (pos 0)
unfolding lookup
no_clients-IsOrderly = record {
  numbered = λ id p h. absurd (cc h);
  distinct = λ i j p q h h' fds. absurd (cc h);
}

module _ {K W : Type 0} (e : Epoll K) where
  first_loop-Lives :
      (ep : EventPoll K) (world : W)
      → IsPolled e ep
      → ep.read_file_event_map ≡ []
      → ep.write_file_event_map ≡ []
      → Lives e (first_loop ep world)
  first_loop-Lives ep world inv reads writes = record {
    polled = inv;
    alive = alive;
    orderly = no_clients-IsOrderly;
  }
    where
      alive : (t : EventType) (fd id : ℤ) → lookup fd (map_of t ep) ≡ some id → Entry fd id []
      alive read_event fd id h = absurd (nowhere ep.read_file_event_map fd id reads h)
      alive write_event fd id h = absurd (nowhere ep.write_file_event_map fd id writes h)

abbrev pub listening : {K : Type 0} → ℤ → List Action → EventPoll K → Polling K
listening fd actions ep = record { listen_fd = fd; actions = actions; code = ok; poll = ep }

module _ {K : Type 0} (e : Epoll K) (os : StartCalls K) (fd : ℤ) (actions : List Action)
    (ep : EventPoll K) where
  start_polling-returns :
      os.forked ≡ pos 0
      → os.forked_again ≡ pos 0
      → listen_loop os.attempts ≡ some (fd, actions)
      → (os.created ==ℤ minus_one) ≡ false
      → poll_listen_fd e fd (new_event_poll os.kernel) ≡ ret (ok, ep)
      → start_polling e os ≡ ret (some (listening fd actions ep))
  unfolding start_polling daemonize init_event_poll
  start_polling-returns child grandchild listens created polled =
      rw (child, grandchild, listens, created, polled) refl

bind_after :
    {A B C : Type 0} (m : Outcome A) (f : A → Outcome B) (g : B → Outcome C) (h : A → Outcome C)
    → ((a : A) → h a ≡ (f a >>= g))
    → (m >>= h) ≡ (m >>= f >>= g)
bind_after (ret a) f g h same = same a
bind_after exit f g h same = refl
bind_after abort f g h same = refl
bind_after undefined f g h same = refl

-- The outcome with the event poll.
abbrev pub polled_with : {K A : Type 0} → Polling K → Outcome A → Starting K A
polled_with p m = m >>= λ a. ret (some (a, p))

module _ {K : Type 0} (e : Epoll K) (os : StartCalls K) (fd : ℤ) (actions : List Action)
    (ep : EventPoll K) (returns : start_polling e os ≡ ret (some (listening fd actions ep))) where
  abbrev p : Polling K
  p = listening fd actions ep

  init_server-import :
      (pf : PersistenceFile) (allow : Bool)
      → init_server e os pf allow ≡ polled_with p (import_if allow (new_server pf allow))
  unfolding init_server
  init_server-import pf allow = rw returns refl

  init_cluster-follows :
      (now : ℤ) (n : Node) → init_cluster e os now n ≡ polled_with p (ret (start_following now n))
  unfolding init_cluster
  init_cluster-follows now n = rw returns refl

  server_main-start :
      (pf : PersistenceFile) (loaded : Code × Configuration)
      → server_main e os pf loaded ≡ polled_with p (start_server pf loaded)
  unfolding server_main start_server
  server_main-start pf loaded =
      bind_after (allow_pf loaded) (λ allow. import_if allow (new_server pf allow))
        (λ a. ret (some (a, p))) (init_server e os pf) (init_server-import pf)

  cluster_main-start :
      (now : ℤ) (pf : PersistenceFile) (text : Option Bytes)
      → cluster_main e os now pf text ≡ polled_with p (start_node now pf text)
  unfolding cluster_main start_node
  cluster_main-start now pf text = loaded (load_configuration text [])
    where
      loaded :
          (r : Code × Configuration)
          → node_with e os now pf r ≡ polled_with p (start_loaded now pf r)
      loaded (err, conf) = refl
      loaded (ok, conf) =
          bind_after (init_config pf conf) (λ n. ret (start_following now n))
            (λ a. ret (some (a, p))) (init_cluster e os now) (init_cluster-follows now)

-- If the processes behind the forks go on, some attempts to listen are refused and the next one is
-- not, and `epoll_create` succeeds with a kernel that watches nothing and has no error but `EEXIST` for
-- adding the descriptor that listens: then `main` of the server, and `main` of a node, come to `onFire`
-- with what their start without sockets gives and a new event poll, or end the process as that start
-- does. The event poll listens on the descriptor of the successful attempt alone, the kernel watches
-- what it should, and its maps lead to no client that is deleted. Nothing was closed: each refused
-- attempt leaves the descriptor open that it opened.
pub main-starts :
    {K W : Type 0} (e : Epoll K) (os : StartCalls K) (refused : List ListenCalls)
    (good : ListenCalls) (more : List ListenCalls) (pf : PersistenceFile)
    (loaded : Code × Configuration) (text : Option Bytes) (now : ℤ) (world : W)
    → os.forked ≡ pos 0
    → os.forked_again ≡ pos 0
    → os.attempts ≡ refused ++ good ∷ more
    → All (λ l. is_refused l ≡ true) refused
    → is_refused good ≡ false
    → (os.created ==ℤ minus_one) ≡ false
    → ((fd : ℤ) → e.registered fd os.kernel ≡ false)
    → e.refuses add_event good.socket os.kernel ≡ false
    → (ep : EventPoll K) × (server_main e os pf loaded
        ≡ polled_with
            (listening good.socket (opened_until refused good) ep)
            (start_server pf loaded))
      × (cluster_main e os now pf text
          ≡ polled_with
              (listening good.socket (opened_until refused good) ep)
              (start_node now pf text))
      × (ep.listen_fd_set ≡ good.socket ∷ [])
      × Lives e (first_loop ep world)
main-starts e os refused good more pf loaded text now world child grandchild attempts hs taken
      created unseen watched =
    let (ep, polled, inv, listens, reads, writes) =
      poll_listen_fd-Polls e good.socket os.kernel unseen watched in
    let returns =
      start_polling-returns e os good.socket (opened_until refused good) ep child grandchild
        (ap listen_loop attempts ∙ listen_loop-returns refused good more hs taken) created polled in
    (
      ep,
      server_main-start e os good.socket (opened_until refused good) ep returns pf loaded,
      cluster_main-start e os good.socket (opened_until refused good) ep returns now pf text,
      listens,
      first_loop-Lives e ep world inv reads writes,
    )
