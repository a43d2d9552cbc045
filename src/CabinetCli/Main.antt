-- ===== src/CabinetCli/Main.antt =====
-- src/cabinet-cli.cpp: `main`, and a turn of its loop, by what the surroundings do.
use cabinet.Base.{
  Bytes, Code, List, Option, Outcome, [], codes, err, exit, none, ok, ret, some, undefined, ℤ,
  ◌>>=◌, ◌∷◌,
}
use cabinet.CabinetCli.{CabinetCli, format_client_input}
use cabinet.CabinetCli.Session.{
  Sending, Session, connect_server, display_server_output, new_session, read_client_input,
  receive_server_output, send_client_input,
}
use cabinet.Client.{or_exit_with}
use cabinet.Configuration.{Configuration, conf_int, conf_value}
use cabinet.EventPoll.{ReadResult, Written}

-- What the surroundings do in a turn of the loop of `main`.
pub record Surroundings : Type 0 where
  pub lines : List Bytes
  pub writes : List Written
  pub reads : List ReadResult
  pub connected : ℤ

-- The session after a turn, the lines that are left, what was written and what was shown.
pub record CliTurn : Type 0 where
  pub session : Session
  pub lines : List Bytes
  pub sent : Bytes
  pub shown : List Bytes

abbrev pub turn_of : List Bytes → Bytes → Option (Code × Session) → Option CliTurn
turn_of lines sent none = none
turn_of lines sent (some (err, s)) =
    some (record { session = s; lines = lines; sent = sent; shown = [] })
turn_of lines sent (some (ok, s)) =
    let (shown, s') = display_server_output s in
    some (record { session = s'; lines = lines; sent = sent; shown = shown })

abbrev pub after_sending : Surroundings → List Bytes → Session → Sending → Outcome (Option CliTurn)
after_sending w lines s none = ret none
after_sending w lines s (some (err, cli, sent)) =
    ret (some (record { session = record s { cli = cli }; lines = lines; sent = sent; shown = [] }))
after_sending w lines s (some (ok, cli, sent)) =
    receive_server_output w.reads w.connected (record s { cli = cli }) >>= λ r.
    ret (turn_of lines sent r)

abbrev pub after_format :
    Surroundings → List Bytes → Session → Code × CabinetCli → Outcome (Option CliTurn)
after_format w lines s (err, cli) =
    ret (some (record { session = record s { cli = cli }; lines = lines; sent = []; shown = [] }))
after_format w lines s (ok, cli) =
    after_sending w lines (record s { cli = cli }) (send_client_input w.writes cli)

abbrev pub after_input :
    Surroundings → Session → Option (CabinetCli × List Bytes) → Outcome (Option CliTurn)
after_input w s none = ret none
after_input w s (some (cli, lines)) =
    after_format w lines (record s { cli = cli }) (format_client_input cli)

-- The body of `while (1)` in `main`; `none` where a call has not returned.
unfoldable pub cli_turn : Surroundings → Session → Outcome (Option CliTurn)
unfolding read_client_input format_client_input send_client_input receive_server_output
    display_server_output
cli_turn w s = after_input w s (read_client_input w.lines s.cli)

-- The client that `main` makes for its arguments; for three or more it is a null pointer.
abbrev session_for : (Bytes → ℤ) → Bytes → ℤ → List Bytes → Outcome Session
session_for atoi ip port [] = ret (new_session ip port)
session_for atoi ip port (a ∷ []) = ret (new_session ip (atoi a))
session_for atoi ip port (a ∷ b ∷ []) = ret (new_session a (atoi b))
session_for atoi ip port (a ∷ b ∷ c ∷ args) = undefined

-- `main` up to its loop, with what `atoi` and `connectTcp` return
unfoldable pub start_session : (Bytes → ℤ) → Code × Configuration → List Bytes → ℤ → Outcome Session
unfolding new_session conf_value
start_session atoi (err, conf) args fd = exit
start_session atoi (ok, conf) args fd = do
  let ip = conf_value conf (codes "CLI_SERVER_IP")
  port ← or_exit_with (conf_int conf (codes "CLI_SERVER_PORT"))
  s ← session_for atoi ip port args
  connect_server fd s
