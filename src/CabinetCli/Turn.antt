-- ===== src/CabinetCli/Turn.antt =====
-- A turn of the command line client: a typed command, its reply, and what is shown.
use cabinet.Base.{
  All, Bytes, Code, List, Option, Outcome, [], ap, append-nil, append_assoc, arith, codes, false,
  if_true, length, ltb, map, ok, refl, ret, some, suc, sym, ℕ, ℤ, ◌++◌, ◌<◌, ◌>>=◌, ◌∙◌, ◌∷◌, ◌≡◌,
}
use cabinet.CabinetCli.{CabinetCli, type_of_command}
use cabinet.CabinetCli.Format.{IsTyped, format_client_input-typed, typed_cli}
use cabinet.CabinetCli.Sending.{append_parts_lem, send_client_input-writes, sum, with_output}
use cabinet.CabinetCli.Main.{
  CliTurn, Surroundings, after_format, after_input, after_sending, cli_turn, turn_of,
}
use cabinet.CabinetCli.Session.{
  Receiving, Sending, Session, after_receive, after_resolve, read_client_input, read_max_len,
  receive_loop, receive_server_output, receive_text, send_client_input,
}
use cabinet.CabinetCli.Words.{IsWord, line, words_of}
use cabinet.Database.{select_command}
use cabinet.EventPoll.{ReadResult, read_bytes, wrote}
use cabinet.Number.{int_half}
use cabinet.ProtocolStream.{
  ProtocolStream, append_command_type, fill_receive_buf, get_ready_for_next_command,
  init_reply_head, new_stream, resolve_receive_buf,
}
use cabinet.ProtocolStream.Frame.{frame}
use cabinet.ProtocolStream.Loop.{IsPart}
use cabinet.ProtocolStream.Plain.{plain_frame, resolve_receive_buf-plain_frame, resolved_plain}
use cabinet.ProtocolStream.RoundTrip.{received}

-- A client between two turns.
abbrev pub fresh_stream : ProtocolStream
fresh_stream = new_stream false false (codes "none")

abbrev pub fresh : CabinetCli
fresh = record { client_input = []; client_input_splited = []; protocol_stream = fresh_stream }

read_client_input-line :
    (w : Bytes) (vs : List (ℕ × Bytes)) (lines : List Bytes)
    → IsWord w
    → read_client_input (line w vs ∷ lines) fresh
      ≡ some (record fresh { client_input = line w vs }, lines)
unfolding read_client_input line
read_client_input-line [] vs lines h = absurd (let f = h.filled in ground arith)
read_client_input-line (c ∷ w) [] lines h = refl
read_client_input-line (c ∷ w) (v ∷ vs) lines h = refl

typed_cli-frame :
    (name : Bytes) (args : List Bytes) (input : Bytes)
    → typed_cli name args (record fresh { client_input = input })
      ≡ with_output (frame (type_of_command (select_command name)) (name ∷ args)) fresh
unfolding frame init_reply_head append_command_type
typed_cli-frame name args input =
    ap (λ (s : ProtocolStream). record fresh { protocol_stream = s })
      (append_parts_lem (name ∷ args) _ ∙ simp append_assoc)

frame-head : (type : ℕ) (parts : List Bytes) → (text : Bytes) × (frame type parts ≡ b'*' ∷ text)
unfolding frame
frame-head type parts = (_, refl)

plain_frame-head : (parts : List Bytes) → (text : Bytes) × (plain_frame parts ≡ b'*' ∷ text)
unfolding plain_frame
plain_frame-head parts = (_, refl)

-- The client once it has read a reply.
abbrev pub replied : List Bytes → CabinetCli
replied parts = record fresh { protocol_stream = resolved_plain fresh_stream parts [] }

receive_loop_complete :
    (more : List ReadResult) (parts : List Bytes)
    → receive_loop more (replied parts) ≡ ret (some (ok, replied parts))
unfolding receive_loop
receive_loop_complete [] parts = refl
receive_loop_complete (r ∷ more) parts = refl

received-fresh : (text : Bytes) → fill_receive_buf text fresh_stream ≡ received fresh_stream text
unfolding fill_receive_buf get_ready_for_next_command
received-fresh text = refl

receive_text-reply :
    (text : Bytes) (k : CabinetCli → Receiving CabinetCli) (part : Bytes) (parts : List Bytes)
    → plain_frame (part ∷ parts) ≡ b'*' ∷ text
    → length (b'*' ∷ text) < read_max_len
    → length (part ∷ parts) < int_half
    → All IsPart (part ∷ parts)
    → receive_text (b'*' ∷ text) fresh k ≡ k (replied (part ∷ parts))
unfolding receive_text after_resolve
receive_text-reply text k part parts is_reply short few fit =
    if_true (ltb (suc (length text)) read_max_len) _ _ (ground arith)
    ∙ ap (λ (o : Outcome (Code × ProtocolStream)). o >>= after_resolve fresh k)
        (ap (λ (t : Bytes). resolve_receive_buf (fill_receive_buf t fresh_stream))
            (sym is_reply ∙ sym (append-nil (plain_frame (part ∷ parts))))
          ∙ ap resolve_receive_buf (received-fresh (plain_frame (part ∷ parts) ++ []))
          ∙ resolve_receive_buf-plain_frame fresh_stream part parts [] refl refl few fit)

pub receive_server_output-reply :
    (s : Session) (part : Bytes) (parts : List Bytes) (more : List ReadResult) (fd : ℤ)
    → length (plain_frame (part ∷ parts)) < read_max_len
    → length (part ∷ parts) < int_half
    → All IsPart (part ∷ parts)
    → receive_server_output
        (read_bytes (plain_frame (part ∷ parts)) ∷ more)
        fd
        (record s { cli = fresh })
      ≡ after_receive fd (record s { cli = fresh }) (some (ok, replied (part ∷ parts)))
unfolding receive_server_output
receive_server_output-reply s part parts more fd short few fit =
    let (text, starts) = plain_frame-head (part ∷ parts) in
    ap (λ (o : Receiving CabinetCli). o >>= after_receive fd (record s { cli = fresh }))
      (ap (λ (t : Bytes). receive_loop (read_bytes t ∷ more) fresh) starts
        ∙ (unfold receive_loop in
            receive_text-reply text (receive_loop more) part parts starts (rw starts at short) few
              fit)
        ∙ receive_loop_complete more (part ∷ parts))

-- The text that the typed line makes.
abbrev pub typed_text : Bytes → List (ℕ × Bytes) → Bytes
typed_text w vs = frame (type_of_command (select_command w)) (words_of w vs)

-- The surroundings of a turn in which the line is typed first.
abbrev pub surroundings :
    Bytes → List (ℕ × Bytes) → List Bytes → List ℕ → List ReadResult → ℤ → Surroundings
surroundings w vs lines ns reads fd = record {
  lines = line w vs ∷ lines;
  writes = map wrote ns;
  reads = reads;
  connected = fd;
}

module _ (s : Session) (w : Bytes) (vs : List (ℕ × Bytes)) (lines : List Bytes) (ns : List ℕ)
    (reads : List ReadResult) (fd : ℤ) where
  abbrev here : Surroundings
  here = surroundings w vs lines ns reads fd

  pub cli_turn-sends :
      IsWord w
      → All (λ v. IsWord v.1) vs
      → IsTyped w (map (λ v. v.1) vs)
      → sum ns ≡ length (typed_text w vs)
      → cli_turn here (record s { cli = fresh }) ≡ (
          receive_server_output reads fd (record s { cli = fresh }) >>= λ r.
          let t : Outcome (Option CliTurn) = ret (turn_of lines (typed_text w vs) r) in t)
  unfolding cli_turn
  cli_turn-sends h hs typed adds =
      let fresh_session : Session = record s { cli = fresh } in
      let input : CabinetCli = record fresh { client_input = line w vs } in
      let (text, starts) = frame-head (type_of_command (select_command w)) (words_of w vs) in
      ap (after_input here fresh_session) (read_client_input-line w vs lines h)
      ∙ ap (after_format here lines (record s { cli = input })) (
          format_client_input-typed input w vs refl refl h hs typed
          ∙ ap (λ (cli : CabinetCli). (let r : Code × CabinetCli = (ok, cli) in r))
              (typed_cli-frame w (map (λ v. v.1) vs) (line w vs)))
      ∙ ap (after_sending here lines fresh_session) (
          ap (λ (t : Bytes). send_client_input (map wrote ns) (with_output t fresh)) starts
          ∙ send_client_input-writes ns b'*' text fresh (adds ∙ ap length starts)
          ∙ ap (λ (t : Bytes). (let r : Sending = some (ok, fresh, t) in r)) (sym starts))
