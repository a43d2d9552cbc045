-- ===== src/CabinetCli/Redirect.antt =====
-- How a turn ends: the reply is shown, and a follower's reply leads to its leader.
use cabinet.Base.{
  All, Bytes, List, Option, Outcome, [], ap, append-nil, arith, codes, false, if_false, length,
  length-append, map, minus_one, ok, pos, refl, ret, same_bytes, some, sym, true, ℕ, ℤ, ◌++◌, ◌<◌,
  ◌==ℤ◌, ◌>>=◌, ◌∙◌, ◌∷◌, ◌≡◌, ◌≤◌,
}
use cabinet.CabinetCli.Format.{IsTyped}
use cabinet.CabinetCli.Sending.{sum}
use cabinet.CabinetCli.Main.{CliTurn, Surroundings, cli_turn, turn_of}
use cabinet.CabinetCli.Session.{
  Receiving, Session, after_receive, display_server_output, read_max_len,
}
use cabinet.CabinetCli.Turn.{
  cli_turn-sends, fresh, receive_server_output-reply, replied, surroundings, typed_text,
}
use cabinet.CabinetCli.Words.{IsWord}
use cabinet.Client.{Client, Sent, is_local_pf}
use cabinet.Cluster.{Cluster, follower}
use cabinet.EventPoll.{ReadResult, read_bytes}
use cabinet.EventPoll.Safety.{other}
use cabinet.Number.{in_range, int_half, stoi, to_string}
use cabinet.Number.RoundTrip.{sto-to_string}
use cabinet.ProtocolStream.{newline}
use cabinet.ProtocolStream.Frame.{head_text, part_text, parts_text}
use cabinet.ProtocolStream.Loop.{IsPart, parts_text-cons}
use cabinet.ProtocolStream.Plain.{plain_frame, reply_untyped-plain_frame}
use cabinet.ProtocolStream.RoundTrip.{parts_text-long}
use cabinet.Request.{handle_request, redirect_to}
use cabinet.RequestVote.{Done}
use cabinet.Siblings.{get_leader_ip_and_port}

-- No part is longer than all of them together.
length-part_text-le : (part : Bytes) → length part ≤ length (part_text part)
unfolding part_text
length-part_text-le part = omega (
  arith,
  length-append (to_string (pos (length part))) (newline ∷ (part ++ newline ∷ [])),
  length-append part (newline ∷ []),
)

parts-below :
    (k : ℕ) (parts : List Bytes)
    → length (parts_text parts) < k
    → All (λ part. length part < k) parts
parts-below k [] short = tt
parts-below k (part ∷ parts) short =
    let whole =
      ap length (parts_text-cons part parts) ∙ length-append (part_text part) (parts_text parts) in
    (
      omega (arith, length-part_text-le part),
      parts-below k parts (omega (arith, length-part_text-le part)),
    )

length-plain_frame : (parts : List Bytes) → length (parts_text parts) ≤ length (plain_frame parts)
unfolding plain_frame
length-plain_frame parts =
    omega (arith, length-append (head_text (pos (length parts))) (parts_text parts))

All-IsPart :
    (parts : List Bytes) → All (λ part. length part < read_max_len) parts → All IsPart parts
All-IsPart [] h = tt
All-IsPart (part ∷ parts) h = (omega arith, All-IsPart parts h.1)

reply-fits :
    (parts : List Bytes)
    → length (plain_frame parts) < read_max_len
    → (length parts < int_half) × All IsPart parts
reply-fits parts short =
    let shorter = length-plain_frame parts in
    (
      omega (arith, parts_text-long parts),
      All-IsPart parts (parts-below read_max_len parts (omega arith)),
    )

stoi-to_string : (port : ℤ) → in_range int_half port ≡ true → stoi (to_string port) ≡ some port
stoi-to_string port fits =
    ap stoi (sym (append-nil (to_string port))) ∙ sto-to_string int_half port [] fits tt

-- The session that goes on with another server.
abbrev pub moved : ℤ → Bytes → ℤ → Session
moved fd ip port = record {
  server_ip = ip;
  server_port = port;
  prompt = ip ++ b':' ∷ (to_string port ++ b'>' ∷ []);
  connect_fd = fd;
  cli = fresh;
}

abbrev pub redirect_parts : Bytes → ℤ → List Bytes
redirect_parts ip port =
    codes "redirect" ∷ codes "leaderip" ∷ ip ∷ codes "leaderport" ∷ to_string port ∷ []

module _ (s : Session) (w : Bytes) (vs : List (ℕ × Bytes)) (lines : List Bytes) (ns : List ℕ)
    (more : List ReadResult) (fd : ℤ) (h : IsWord w) (hs : All (λ v. IsWord v.1) vs)
    (typed : IsTyped w (map (λ v. v.1) vs)) where
  -- A turn in which the server answers with these parts, in one `read`.
  abbrev answered : List Bytes → Surroundings
  answered parts = surroundings w vs lines ns (read_bytes (plain_frame parts) ∷ more) fd

  cli_turn-answered :
      (part : Bytes) (parts : List Bytes)
      → sum ns ≡ length (typed_text w vs)
      → length (plain_frame (part ∷ parts)) < read_max_len
      → cli_turn (answered (part ∷ parts)) (record s { cli = fresh }) ≡ (
          after_receive fd (record s { cli = fresh }) (some (ok, replied (part ∷ parts))) >>= λ r.
          (let t : Outcome (Option CliTurn) = ret (turn_of lines (typed_text w vs) r) in t))
  cli_turn-answered part parts adds short =
      let (few, fit) = reply-fits (part ∷ parts) short in
      cli_turn-sends s w vs lines ns (read_bytes (plain_frame (part ∷ parts)) ∷ more) fd h hs typed
        adds
      ∙ ap
          (λ (o : Receiving Session). o >>= λ r.
            (let t : Outcome (Option CliTurn) = ret (turn_of lines (typed_text w vs) r) in t))
          (receive_server_output-reply s part parts more fd short few fit)

  -- Between two turns, where the next line is a command's name and as many arguments as it takes, words
  -- without blanks with one blank or more between them, the calls of `write` take the text that the line
  -- makes, in pieces, and the first `read` brings a reply without a type, shorter than `READ_MAX_LEN`,
  -- whose first part is not "redirect": the turn ends. The text was written whole and in order, the
  -- parts of the reply are what is shown, and the session is as it was before.
  pub cli_turn-shows :
      (part : Bytes) (parts : List Bytes)
      → sum ns ≡ length (typed_text w vs)
      → length (plain_frame (part ∷ parts)) < read_max_len
      → same_bytes part (codes "redirect") ≡ false
      → cli_turn (answered (part ∷ parts)) (record s { cli = fresh })
        ≡ ret (
            some (record {
              session = record s { cli = fresh };
              lines = lines;
              sent = (typed_text w vs);
              shown = part ∷ parts;
            }))
  unfolding after_receive display_server_output
  cli_turn-shows part parts adds short other =
      cli_turn-answered part parts adds short
      ∙ ap
          (λ (o : Receiving Session). o >>= λ r.
            (let t : Outcome (Option CliTurn) = ret (turn_of lines (typed_text w vs) r) in t))
          (if_false (same_bytes part (codes "redirect")) _ _ other)

  -- Between two turns, where the next line is a command's name and as many arguments as it takes, words
  -- without blanks with one blank or more between them, the calls of `write` take the text that the line
  -- makes, in pieces, and the server is a follower that knows its leader, whose port is an `int`: the
  -- follower answers a client that is not the local one with the message "redirect" and the leader's
  -- address. If the first `read` brings this message, which is shorter than `READ_MAX_LEN`, and
  -- `connectTcp` makes a connection, then the client shows the message and the session goes on with the
  -- leader's address, the new connection and a prompt that names the address, ready for the next line.
  pub cli_turn-redirect :
      (now : ℤ) (client : Client) (c : Cluster) (ip : Bytes) (port : ℤ)
      → sum ns ≡ length (typed_text w vs)
      → get_leader_ip_and_port c.siblings ≡ some (ip, port)
      → is_local_pf client.category ≡ false
      → in_range int_half port ≡ true
      → (fd ==ℤ minus_one) ≡ false
      → length (plain_frame (redirect_parts ip port)) < read_max_len
      → (handle_request follower now client c
          ≡ ret (
            ok,
            c,
            record { receiver = client.client_id; text = plain_frame (redirect_parts ip port) }
                ∷ [],
          ))
        × (cli_turn (answered (redirect_parts ip port)) (record s { cli = fresh })
            ≡ ret (
                some (record {
                  session = moved fd ip port;
                  lines = lines;
                  sent = (typed_text w vs);
                  shown = redirect_parts ip port;
                })))
  unfolding after_receive display_server_output handle_request
  cli_turn-redirect now client c ip port adds led remote fits connected short = (
    ap (redirect_to client c) led
        ∙ ap (λ (sent : List Sent). (let d : Done = ret (ok, c, sent) in d))
            (reply_untyped-plain_frame client (redirect_parts ip port) remote),
    cli_turn-answered _ _ adds short ∙ rw (stoi-to_string port fits, connected) refl,
  )
