-- ===== src/Util.antt =====
-- src/Util.cpp: the calls on sockets, by what the operating system returns. A call gives its result
-- and the descriptors that it opens and closes, in order.
pub mod Descriptors
use cabinet.Base.{
  Bool, Code, List, Option, Outcome, [], err, exit, if◌then◌else◌, lebℤ, ltbℤ, minus_one, none, not,
  ok, pos, ret, some, ℕ, ℤ, ◌*◌, ◌+◌, ◌/◌, ◌==ℤ◌, ◌||◌, ◌∷◌,
}

pub data Action : Type 0 where
  opened closed : ℤ → Action

abbrev pub Result : Type 0
Result = ℤ × List Action

-- `CABINET_ERR` and `CABINET_OK`
abbrev pub cabinet_err : ℤ
cabinet_err = minus_one

abbrev pub cabinet_ok : ℤ
cabinet_ok = pos 0

abbrev pub failed : ℤ → Bool
failed n = ltbℤ n (pos 0)

-- `getCurrentTimeInMs`, with the seconds and microseconds that `gettimeofday` gives, if it does
abbrev pub get_current_time_in_ms : Option (ℕ × ℕ) → ℤ
get_current_time_in_ms none = cabinet_err
get_current_time_in_ms (some (sec, usec)) = pos (sec * 1000 + usec / 1000)

-- `setNonBlock`, with the results of the two calls of `fcntl`
unfoldable pub set_non_block : ℤ → ℤ → ℤ
set_non_block got set =
    if got ==ℤ minus_one then cabinet_err else if set ==ℤ minus_one then cabinet_err else cabinet_ok

-- `reuseAddress`, with the result of `setsockopt`
unfoldable pub reuse_address : ℤ → ℤ
reuse_address set = if set ==ℤ minus_one then cabinet_err else cabinet_ok

-- What the calls of `listenTcp` return.
pub record ListenCalls : Type 0 where
  pub socket : ℤ
  pub setsockopt : ℤ
  pub bind : ℤ
  pub listen : ℤ
  pub got_flags : ℤ
  pub set_flags : ℤ

unfoldable pub listen_tcp : ListenCalls → Result
unfolding reuse_address set_non_block
listen_tcp os =
    if failed os.socket
    then (cabinet_err, [])
    else if reuse_address os.setsockopt ==ℤ cabinet_err
    then (cabinet_err, opened os.socket ∷ [])
    else if failed os.bind
    then (cabinet_err, opened os.socket ∷ [])
    else if failed os.listen
    then (cabinet_err, opened os.socket ∷ [])
    else if set_non_block os.got_flags os.set_flags ==ℤ cabinet_err
    then (cabinet_err, opened os.socket ∷ [])
    else (os.socket, opened os.socket ∷ [])

-- What the calls of `acceptTcp` return.
pub record AcceptCalls : Type 0 where
  pub accept : ℤ
  pub got_flags : ℤ
  pub set_flags : ℤ

unfoldable pub accept_tcp : AcceptCalls → Result
unfolding set_non_block
accept_tcp os =
    if failed os.accept
    then (cabinet_err, [])
    else if set_non_block os.got_flags os.set_flags ==ℤ cabinet_err
    then (cabinet_err, opened os.accept ∷ closed os.accept ∷ [])
    else (os.accept, opened os.accept ∷ [])

-- `Cabinet::listenOnPort` and `Cabinet::getConnectFd`, which add log lines
abbrev pub listen_on_port : ListenCalls → Result
listen_on_port os =
    let (fd, actions) = listen_tcp os in
    if fd ==ℤ cabinet_err then (cabinet_err, actions) else (fd, actions)

abbrev pub get_connect_fd : AcceptCalls → Result
get_connect_fd os =
    let (fd, actions) = accept_tcp os in
    if fd ==ℤ cabinet_err then (cabinet_err, actions) else (fd, actions)

-- What the calls of `connectTcpNoBlock` return, and whether `FD_ISSET` and `SO_ERROR` are set.
pub record ConnectCalls : Type 0 where
  pub socket : ℤ
  pub inet_pton : ℤ
  pub connect : ℤ
  pub select : ℤ
  pub is_writable : Bool
  pub getsockopt : ℤ
  pub has_error : Bool

-- Behind `select`
unfoldable pub after_select : ConnectCalls → Result
after_select os =
    if os.select ==ℤ pos 0
    then (cabinet_err, opened os.socket ∷ closed os.socket ∷ [])
    else if os.is_writable
    then (if failed os.getsockopt || os.has_error
        then (cabinet_err, opened os.socket ∷ closed os.socket ∷ [])
        else (os.socket, opened os.socket ∷ []))
    else (cabinet_err, opened os.socket ∷ [])

-- `n = connect(...) < 0`: `n` is 1 or 0, so that the second test never holds.
unfoldable pub connect_tcp_no_block : ConnectCalls → Result
unfolding after_select
connect_tcp_no_block os =
    if failed os.socket
    then (cabinet_err, [])
    else if lebℤ os.inet_pton (pos 0)
    then (cabinet_err, opened os.socket ∷ [])
    else (let n : ℤ = if failed os.connect then pos 1 else pos 0 in
        if not (n ==ℤ pos 0)
        then (os.socket, opened os.socket ∷ [])
        else if failed n
        then (cabinet_err, opened os.socket ∷ [])
        else after_select os)

-- `connectTcp` returns at its first line.
abbrev pub connect_tcp : ConnectCalls → Result
connect_tcp os = connect_tcp_no_block os

-- `daemonize`, with what the two calls of `fork` return; `exit` is the end of a parent.
unfoldable pub daemonize : ℤ → ℤ → Outcome Code
daemonize pid1 pid2 =
    if failed pid1
    then ret err
    else if ltbℤ (pos 0) pid1
    then exit
    else if failed pid2
    then ret err
    else if ltbℤ (pos 0) pid2
    then exit
    else ret ok
