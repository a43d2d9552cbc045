-- ===== src/Util/Descriptors.antt =====
-- Which descriptors the calls on sockets leave open.
use cabinet.Base.{
  ==ℤ_refl, Bool, [], arith, false, lebℤ, ltbℤ, minus_one, not, pos, ℤ, ◌&&◌, ◌==ℤ◌, ◌||◌, ◌∷◌, ◌≡◌,
}
use cabinet.Util.{
  AcceptCalls, ConnectCalls, ListenCalls, Result, accept_tcp, after_select, cabinet_err,
  connect_tcp, connect_tcp_no_block, failed, listen_tcp, opened, reuse_address, set_non_block,
}

-- Whether a call leaves a descriptor open that it does not return.
abbrev pub leaks : Result → Bool
leaks (n, opened fd ∷ []) = not (n ==ℤ fd)
leaks (n, actions) = false

-- A connection that was made: `connect` returned 0, and `select` finds it writable with no error.
abbrev pub is_made : ConnectCalls → Bool
is_made os =
    not (failed os.connect)
    && (not (os.select ==ℤ pos 0) && (os.is_writable && not (failed os.getsockopt || os.has_error)))

error-differs : (n : ℤ) → failed n ≡ false → (minus_one ==ℤ n) ≡ false
error-differs n h = ground arith

connect_tcp-socket :
    (c : ConnectCalls)
    → failed c.socket ≡ false
    → ((connect_tcp c).0 ==ℤ c.socket)
      ≡ (ltbℤ (pos 0) c.inet_pton && (failed c.connect || is_made c))
unfolding connect_tcp_no_block after_select
connect_tcp-socket c h = ground (arith, error-differs c.socket h, ==ℤ_refl c.socket)

leaks-connect_tcp :
    (c : ConnectCalls)
    → failed c.socket ≡ false
    → leaks (connect_tcp c) ≡ (
        lebℤ c.inet_pton (pos 0)
        || (not (failed c.connect) && (not (c.select ==ℤ pos 0) && not c.is_writable)))
unfolding connect_tcp_no_block after_select
leaks-connect_tcp c h = ground (arith, error-differs c.socket h, ==ℤ_refl c.socket)

leaks-listen_tcp :
    (l : ListenCalls)
    → failed l.socket ≡ false
    → leaks (listen_tcp l) ≡ ((listen_tcp l).0 ==ℤ cabinet_err)
unfolding listen_tcp reuse_address set_non_block
leaks-listen_tcp l h = ground (arith, error-differs l.socket h, ==ℤ_refl l.socket)

leaks-accept_tcp : (a : AcceptCalls) → leaks (accept_tcp a) ≡ false
unfolding accept_tcp set_non_block
leaks-accept_tcp a = ground (arith, ==ℤ_refl a.accept)

-- `connectTcp` returns its socket, if that could be opened and the address is one, just where `connect`
-- fails or the connection was made: it takes each failure of `connect` for a connection. It leaves its
-- socket open and returns an error just where the address is none, or `connect` returned 0 and `select`
-- did not return 0 and did not mark the socket. `listenTcp` leaves it open wherever it returns an error
-- behind `socket`, and `acceptTcp` nowhere.
pub descriptors_left :
    (c : ConnectCalls) (l : ListenCalls) (a : AcceptCalls)
    → failed c.socket ≡ false
    → failed l.socket ≡ false
    → (((connect_tcp c).0 ==ℤ c.socket)
        ≡ (ltbℤ (pos 0) c.inet_pton && (failed c.connect || is_made c)))
      × (leaks (connect_tcp c) ≡ (
          lebℤ c.inet_pton (pos 0)
          || (not (failed c.connect) && (not (c.select ==ℤ pos 0) && not c.is_writable))))
      × (leaks (listen_tcp l) ≡ ((listen_tcp l).0 ==ℤ cabinet_err))
      × (leaks (accept_tcp a) ≡ false)
descriptors_left c l a socket listener = (
  connect_tcp-socket c socket,
  leaks-connect_tcp c socket,
  leaks-listen_tcp l listener,
  leaks-accept_tcp a,
)
