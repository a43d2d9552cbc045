-- ===== src/CabinetCli/Session.antt =====
-- The rest of src/CabinetCli.cpp: a session of the command line client with a server, by the results of `write`, `read` and `connectTcp`. What is printed besides the reply is
-- left out.
use cabinet.Base.{
  Bytes, Code, List, Option, Outcome, [], codes, err, exit, false, if◌then◌else◌, length, ltb,
  minus_one, none, ok, ret, same_bytes, some, take, undefined, ℕ, ℤ, ◌*◌, ◌++◌, ◌==ℤ◌, ◌==◌, ◌>>=◌,
  ◌∷◌,
}
use cabinet.CabinetCli.{CabinetCli, reset_all}
use cabinet.Client.{arg, or_exit_with}
use cabinet.EventPoll.{
  ReadResult, Written, erase_send_buf, read_bytes, read_failed, read_would_block, wrote,
}
use cabinet.Number.{stoi, to_string}
use cabinet.ProtocolStream.{ProtocolStream, fill_receive_buf, new_stream, resolve_receive_buf}

-- `serverIp`, `serverPort`, `prompt` and `connectFd`, and the rest in `cli`.
pub record Session : Type 0 where
  pub server_ip : Bytes
  pub server_port : ℤ
  pub prompt : Bytes
  pub connect_fd : ℤ
  pub cli : CabinetCli

unfoldable pub set_prompt : Session → Session
set_prompt s = record s { prompt = s.server_ip ++ b':' ∷ (to_string s.server_port ++ b'>' ∷ []) }

-- The constructor
unfoldable pub new_session : Bytes → ℤ → Session
unfolding set_prompt
new_session ip port = set_prompt (record {
  server_ip = ip;
  server_port = port;
  prompt = [];
  connect_fd = minus_one;
  cli = record {
    client_input = [];
    client_input_splited = [];
    protocol_stream = new_stream false false (codes "none");
  };
})

-- `connectServer`, with what `connectTcp` returns
abbrev pub connect_server : ℤ → Session → Outcome Session
connect_server fd s = if fd ==ℤ minus_one then exit else ret (record s { connect_fd = fd })

-- `reSetServer`
unfoldable pub re_set_server : Bytes → ℤ → ℤ → Session → Outcome Session
unfolding set_prompt
re_set_server ip port fd s =
    connect_server fd (record s { server_ip = ip; server_port = port }) >>= λ s'.
    ret (set_prompt s')

-- The loop of `readClientInput`, with the lines of `std::cin`: the input, and the lines that are left.
-- Behind the last line `getline` reads nothing, for ever: `none`.
unfoldable pub get_line : List Bytes → CabinetCli → Option (CabinetCli × List Bytes)
unfolding reset_all
get_line [] cli = none
get_line ([] ∷ lines) cli = get_line lines cli
get_line ((c ∷ cs) ∷ lines) cli = some (record (reset_all cli) { client_input = c ∷ cs }, lines)

unfoldable pub read_client_input : List Bytes → CabinetCli → Option (CabinetCli × List Bytes)
unfolding get_line
read_client_input lines cli =
    if length cli.client_input == 0 then get_line lines cli else some (cli, lines)

-- What `sendClientInput` returns, the client and the bytes that it wrote; `none` where a `write` has
-- not returned yet.
abbrev pub Sending : Type 0
Sending = Option (Code × CabinetCli × Bytes)

abbrev pub sent_behind : Bytes → Sending → Sending
sent_behind text none = none
sent_behind text (some (code, cli, sent)) = some (code, cli, text ++ sent)

-- `while (getSendBufLen() != 0) { ... }`
unfoldable pub send_loop : List Written → CabinetCli → Sending
unfolding reset_all
send_loop [] cli = if length cli.protocol_stream.output_buf == 0 then some (ok, cli, []) else none
send_loop (wrote n ∷ results) cli =
    let rest =
      send_loop results (record cli { protocol_stream = erase_send_buf n cli.protocol_stream }) in
    if length cli.protocol_stream.output_buf == 0
    then some (ok, cli, [])
    else sent_behind (take n cli.protocol_stream.output_buf) rest
send_loop (_ ∷ results) cli =
    if length cli.protocol_stream.output_buf == 0
    then some (ok, cli, [])
    else some (err, reset_all cli, [])

unfoldable pub send_client_input : List Written → CabinetCli → Sending
unfolding send_loop reset_all
send_client_input results cli =
    if length cli.protocol_stream.output_buf == 0
    then some (err, reset_all cli, [])
    else send_loop results cli

-- `READ_MAX_LEN`
abbrev pub read_max_len : ℕ
read_max_len = 1024 * 16

-- What a call returns, or `none` where a `read` has not returned yet.
abbrev pub Receiving : Type 0 → Type 0
Receiving A = Outcome (Option (Code × A))

unfoldable pub after_resolve :
    CabinetCli → (CabinetCli → Receiving CabinetCli) → Code × ProtocolStream → Receiving CabinetCli
unfolding reset_all
after_resolve cli go_on (err, s) = ret (some (err, reset_all (record cli { protocol_stream = s })))
after_resolve cli go_on (ok, s) = go_on (record cli { protocol_stream = s })

-- `readBuf[nRead] = '\0'` is outside of the array where that is full.
unfoldable pub receive_text :
    Bytes → CabinetCli → (CabinetCli → Receiving CabinetCli) → Receiving CabinetCli
unfolding after_resolve resolve_receive_buf fill_receive_buf
receive_text [] cli go_on = exit
receive_text (c ∷ cs) cli go_on =
    if ltb (length (c ∷ cs)) read_max_len
    then (resolve_receive_buf (fill_receive_buf (c ∷ cs) cli.protocol_stream)
        >>= after_resolve cli go_on)
    else undefined

-- The loop of `receiveServerOutput`
unfoldable pub receive_loop : List ReadResult → CabinetCli → Receiving CabinetCli
unfolding receive_text reset_all
receive_loop [] cli = ret (if cli.protocol_stream.receive_complete then some (ok, cli) else none)
receive_loop (r ∷ results) cli =
    let go_on : Receiving CabinetCli = elim r [
      | read_would_block ↦ ret (some (err, reset_all cli))
      | read_failed ↦ ret (some (err, reset_all cli))
      | read_bytes text ↦ receive_text text cli (receive_loop results)
    ] in
    if cli.protocol_stream.receive_complete then ret (some (ok, cli)) else go_on

-- The block of the command `redirect`, with what `connectTcp` returns
unfoldable pub redirect : ℤ → List Bytes → Session → Receiving Session
unfolding re_set_server
redirect fd argv s = do
  ip ← arg argv 2
  port_text ← arg argv 4
  port ← or_exit_with (stoi port_text)
  s' ← re_set_server ip port fd s
  ret (some (ok, s'))

unfoldable pub after_receive : ℤ → Session → Option (Code × CabinetCli) → Receiving Session
unfolding redirect same_bytes
after_receive fd s none = ret none
after_receive fd s (some (err, cli)) = ret (some (err, record s { cli = cli }))
after_receive fd s (some (ok, cli)) = do
  let s' : Session = record s { cli = cli }
  let argv = cli.protocol_stream.argv
  name ← arg argv 0
  if same_bytes name (codes "redirect") then redirect fd argv s' else ret (some (ok, s'))

-- `receiveServerOutput`
unfoldable pub receive_server_output : List ReadResult → ℤ → Session → Receiving Session
unfolding receive_loop after_receive
receive_server_output results fd s = receive_loop results s.cli >>= after_receive fd s

-- `displayServerOutput`: the lines that it prints, and the session
unfoldable pub display_server_output : Session → List Bytes × Session
unfolding reset_all
display_server_output s = (s.cli.protocol_stream.argv, record s { cli = reset_all s.cli })
