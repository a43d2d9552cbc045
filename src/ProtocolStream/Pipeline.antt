-- ===== src/ProtocolStream/Pipeline.antt =====
-- A second message behind one that was read, where nothing has reset the stream in between:
-- `ServerClient::executeCommand` does not, and `Client::sendReply` only once the reply is written.
use cabinet.Base.{
  All, Bytes, List, ap, arith, err, false, if_false, length, ok, pos, refl, ret, true, ℕ, ◌&&◌,
  ◌++◌, ◌<◌, ◌==◌, ◌∙◌, ◌∷◌, ◌≡◌,
}
use cabinet.Client.{reply}
use cabinet.Number.{int_half, to_string}
use cabinet.ProtocolStream.{
  ProtocolStream, byte_at, fill_receive_buf, find_newline, get_ready_for_next_command, is_available,
  is_receive_buf_avaliable, newline, proceed, resolve_length, resolve_receive_buf, resolve_type,
}
use cabinet.ProtocolStream.Frame.{available-newline, frame}
use cabinet.ProtocolStream.Loop.{IsPart}
use cabinet.ProtocolStream.Partial.{loop_round}
use cabinet.ProtocolStream.RoundTrip.{
  frame-rest, received, resolve_receive_buf-frame, resolve_stages, resolved,
}

-- A stream whose command was read and executed: the message behind it, and a reply, wait in it.
abbrev pub executed : ProtocolStream → ℕ → List Bytes → Bytes → Bytes → ProtocolStream
executed s type parts text reply = record (resolved s type parts text) { output_buf = reply }

reset-received :
    (s : ProtocolStream) (text : Bytes)
    → get_ready_for_next_command (record s { input_buf = text }) ≡ received s text
reset-received s text = unfold get_ready_for_next_command fill_receive_buf in refl

module _ (s : ProtocolStream) (type : ℕ) (parts : List Bytes) (reply : Bytes) where
  executed-refuses :
      (tail : Bytes)
      → is_available (find_newline (b'*' ∷ tail)) ≡ true
      → (s.has_command_type && type == 0) ≡ false
      → (let t = executed s type parts (b'*' ∷ tail) reply in resolve_receive_buf t ≡ ret (err, t))
  executed-refuses tail some_line typed =
      let t = executed s type parts (b'*' ∷ tail) reply in
      let here : is_receive_buf_avaliable t ≡ true = unfold is_receive_buf_avaliable in some_line in
      resolve_stages t t t here refl
        (if_false (s.has_command_type && type == 0) (resolve_type t) (ret (proceed t)) typed)
        (loop_round (length t.input_buf) t here ∙ (unfold resolve_length byte_at in refl))

  -- A stream of commands with a type, which wraps none of them, has read a command with a type, which
  -- was executed, and a whole message that the parser can read waits behind it. Before the stream is
  -- reset the parser refuses the message and leaves the stream as it is; after the reset it reads it.
  pub resolve_receive_buf-again :
      (next : ℕ) (part : Bytes) (more : List Bytes) (rest : Bytes)
      → s.has_command_type ≡ true
      → s.wrap_default_command ≡ false
      → (type == 0) ≡ false
      → (next == newline) ≡ false
      → length (part ∷ more) < int_half
      → All IsPart (part ∷ more)
      → (let t = executed s type parts (frame next (part ∷ more) ++ rest) reply in
          (resolve_receive_buf t ≡ ret (err, t))
          × (resolve_receive_buf (get_ready_for_next_command t)
              ≡ ret (ok, resolved t next (part ∷ more) rest)))
  resolve_receive_buf-again next part more rest typed plain some_type differs few fit =
      let text = frame next (part ∷ more) ++ rest in
      let t = executed s type parts text reply in
      (
        rw (frame-rest) (
            executed-refuses _ (available-newline (b'*' ∷ to_string (pos (length (part ∷ more)))) _)
              (ground arith)),
        ap resolve_receive_buf (reset-received t text)
            ∙ resolve_receive_buf-frame t next part more rest typed plain differs few fit,
      )
