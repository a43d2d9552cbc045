-- ===== src/Startup.antt =====
-- `init` of src/Server.cpp and of src/Cluster.cpp, by what the operating system returns: from the fork
-- to the event poll in which the cabinet listens. `initConfig` stands in Server.Start and
-- Configuration.Init.
pub mod Listening
use cabinet.Base.{
  Bool, Bytes, Code, List, Option, Outcome, [], err, exit, if◌then◌else◌, none, ok, pos, ret, some,
  ℤ, ◌++◌, ◌==ℤ◌, ◌>>=◌, ◌∷◌,
}
use cabinet.Configuration.{Configuration, load_configuration}
use cabinet.Configuration.Init.{init_config, start_following}
use cabinet.EventPoll.{Epoll, EventPoll, poll_listen_fd}
use cabinet.EventPoll.Listen.{init_event_poll}
use cabinet.Node.{Node}
use cabinet.PersistenceFile.{PersistenceFile}
use cabinet.Server.{Server}
use cabinet.Server.Start.{allow_pf, import_if, new_server}
use cabinet.Util.{Action, ListenCalls, Result, cabinet_err, daemonize, listen_on_port}

-- What the calls return: of `fork`, of each attempt to listen, and of `epoll_create`, with the kernel's
-- state after it.
pub record StartCalls (K : Type 0) : Type 0 where
  pub forked : ℤ
  pub forked_again : ℤ
  pub attempts : List ListenCalls
  pub created : ℤ
  pub kernel : K

-- `none` where no attempt that has returned was successful.
abbrev pub behind_attempt : List Action → Option Result → Option Result
behind_attempt actions none = none
behind_attempt actions (some (fd, later)) = some (fd, actions ++ later)

abbrev pub after_attempt : Result → Option Result → Option Result
after_attempt (fd, actions) later =
    if fd ==ℤ cabinet_err then behind_attempt actions later else some (fd, actions)

-- `while ((listenFd = listenOnPort(port)) == CABINET_ERR) { ... }`
unfoldable pub listen_loop : List ListenCalls → Option Result
listen_loop [] = none
listen_loop (os ∷ rest) = let later = listen_loop rest in after_attempt (listen_on_port os) later

-- The descriptor that listens, what was opened and closed, the result of `pollListenFd`, and the event
-- poll.
pub record Polling (K : Type 0) : Type 0 where
  pub listen_fd : ℤ
  pub actions : List Action
  pub code : Code
  pub poll : EventPoll K

-- What a call returns with the event poll, or `none` where it does not return.
abbrev pub Starting : Type 0 → Type 0 → Type 0
Starting K A = Outcome (Option (A × Polling K))

module _ {K : Type 0} where
  abbrev pub polling_with : ℤ → List Action → Code × EventPoll K → Outcome (Option (Polling K))
  polling_with fd actions (code, ep) =
      ret (some (record { listen_fd = fd; actions = actions; code = code; poll = ep }))

  abbrev pub after_create :
      Epoll K → ℤ → List Action → Code × EventPoll K → Outcome (Option (Polling K))
  after_create e fd actions (err, ep) = exit
  after_create e fd actions (ok, ep) = poll_listen_fd e fd ep >>= polling_with fd actions

  abbrev pub after_listening : Epoll K → StartCalls K → Option Result → Outcome (Option (Polling K))
  after_listening e os none = ret none
  after_listening e os (some (fd, actions)) =
      after_create e fd actions (init_event_poll os.created os.kernel)

  abbrev pub after_fork : Epoll K → StartCalls K → Code → Outcome (Option (Polling K))
  after_fork e os err = exit
  after_fork e os ok = after_listening e os (listen_loop os.attempts)

  -- Both `init`s up to `pollListenFd`
  unfoldable pub start_polling : Epoll K → StartCalls K → Outcome (Option (Polling K))
  unfolding daemonize listen_loop init_event_poll poll_listen_fd
  start_polling e os = daemonize os.forked os.forked_again >>= after_fork e os

  -- `Server::init`, with whether persistence is required; the result of `pollListenFd` is dropped.
  abbrev pub serve_with : PersistenceFile → Bool → Option (Polling K) → Starting K Server
  serve_with pf allow none = ret none
  serve_with pf allow (some p) =
      import_if allow (new_server pf allow) >>= λ server. ret (some (server, p))

  unfoldable pub init_server : Epoll K → StartCalls K → PersistenceFile → Bool → Starting K Server
  unfolding start_polling
  init_server e os pf allow = start_polling e os >>= serve_with pf allow

  abbrev pub join_with : ℤ → Node → Option (Polling K) → Starting K Node
  join_with now n none = ret none
  join_with now n (some p) = elim p.code [ err ↦ exit | ok ↦ ret (some (start_following now n, p)) ]

  -- `Cluster::init` on the node that `initConfig` makes
  unfoldable pub init_cluster : Epoll K → StartCalls K → ℤ → Node → Starting K Node
  unfolding start_polling
  init_cluster e os now n = start_polling e os >>= join_with now n

  -- `main` of the server up to `onFire`, with what `loadConfiguration` gives
  unfoldable pub server_main :
      Epoll K → StartCalls K → PersistenceFile → Code × Configuration → Starting K Server
  unfolding init_server
  server_main e os pf loaded = allow_pf loaded >>= init_server e os pf

  -- `main` of a node up to `onFire`, with the text of its configuration file; `signal` succeeds.
  abbrev pub node_with :
      Epoll K → StartCalls K → ℤ → PersistenceFile → Code × Configuration → Starting K Node
  node_with e os now pf (err, conf) = exit
  node_with e os now pf (ok, conf) = init_config pf conf >>= init_cluster e os now

  unfoldable pub cluster_main :
      Epoll K → StartCalls K → ℤ → PersistenceFile → Option Bytes → Starting K Node
  unfolding init_cluster init_config load_configuration
  cluster_main e os now pf text = node_with e os now pf (load_configuration text [])
