-- ===== src/ProtocolStream/Plain.antt =====
-- `resolveReceiveBuf` on a stream whose commands have no type, as the command line client's.
use cabinet.Base.{
  All, Bytes, Code, List, Outcome, [], ap, append_assoc, arith, false, if_false, length, minus_one,
  ok, pos, ret, suc, true, ℤ, ◌&&◌, ◌++◌, ◌<◌, ◌∙◌, ◌∷◌, ◌≡◌,
}
use cabinet.Client.{Client, is_local_pf, reply_untyped}
use cabinet.Client.Replies.{output-append_parts}
use cabinet.Number.{int_half, to_string}
use cabinet.ProtocolStream.{
  ProtocolStream, init_reply_head, is_receive_buf_avaliable, newline, resolve_receive_buf,
  resolve_type,
}
use cabinet.ProtocolStream.Frame.{available-newline, head_text, parts_text}
use cabinet.ProtocolStream.Lines.{resolve_argc-line}
use cabinet.ProtocolStream.Loop.{IsPart, resolve_loop-parts}
use cabinet.ProtocolStream.RoundTrip.{
  enough_rounds, idle, parts_text-available, received, received-idle, resolve_stages,
}

-- A message without a command type.
unfoldable pub plain_frame : List Bytes → Bytes
unfolding head_text parts_text
plain_frame parts = head_text (pos (length parts)) ++ parts_text parts

-- What a stream of commands without a type holds once it has read the message.
abbrev pub resolved_plain : ProtocolStream → List Bytes → Bytes → ProtocolStream
resolved_plain s parts rest = record s {
  input_buf = rest;
  cur_command_buf = plain_frame parts;
  argc = pos 0;
  argv = parts;
  cur_argv_len = minus_one;
  receive_complete = true;
  command_type = 0;
}

plain_frame-rest :
    (parts : List Bytes) (rest : Bytes)
    → plain_frame parts ++ rest
      ≡ b'*' ∷ (to_string (pos (length parts)) ++ newline ∷ (parts_text parts ++ rest))
plain_frame-rest parts rest = unfold plain_frame in simp append_assoc

-- A stream of commands without a type, which wraps none of them and is between two of them, reads
-- whole a message without a type that has at least one part, the lengths of the parts and their number
-- being below 2 ^ 31; what stands behind it is left in the buffer.
pub resolve_receive_buf-plain_frame :
    (s : ProtocolStream) (part : Bytes) (parts : List Bytes) (rest : Bytes)
    → s.has_command_type ≡ false
    → s.wrap_default_command ≡ false
    → length (part ∷ parts) < int_half
    → All IsPart (part ∷ parts)
    → resolve_receive_buf (received s (plain_frame (part ∷ parts) ++ rest))
      ≡ ret (ok, resolved_plain s (part ∷ parts) rest)
resolve_receive_buf-plain_frame s part parts rest untyped plain few fit =
    let n : ℤ = pos (suc (length parts)) in
    let body = parts_text (part ∷ parts) ++ rest in
    let s0 = idle s (b'*' ∷ (to_string n ++ newline ∷ body)) in
    let s1 : ProtocolStream = record s0 {
      input_buf = body;
      cur_command_buf = b'*' ∷ (to_string n ++ newline ∷ []);
      argc = n;
    } in
    rw (received-idle, plain_frame-rest)
      (resolve_stages s0 s1 s1
        (unfold is_receive_buf_avaliable in available-newline (b'*' ∷ to_string n) body)
        (resolve_argc-line (idle s []) n body (ground arith) (ground arith)
          (parts_text-available part parts rest))
        (if_false (s.has_command_type && true) (resolve_type s1) _ (ground arith))
        (resolve_loop-parts (record s1 { input_buf = [] }) part parts rest _ fit
            (enough_rounds part parts rest)
          ∙ ap (λ (z : ProtocolStream). let o : Outcome (Code × ProtocolStream) = ret (ok, z) in o)
              (if_false s.wrap_default_command _ _ plain
                ∙ (unfold plain_frame in simp append_assoc))))

-- A reply without a type, to a client that is not the local one, is such a message.
pub reply_untyped-plain_frame :
    (client : Client) (parts : List Bytes)
    → is_local_pf client.category ≡ false
    → reply_untyped client (pos (length parts)) parts
      ≡ record { receiver = client.client_id; text = plain_frame parts } ∷ []
unfolding reply_untyped plain_frame init_reply_head
reply_untyped-plain_frame client parts h =
    if_false (is_local_pf client.category) _ _ h
    ∙ ap (λ (text : Bytes). (record { receiver = client.client_id; text = text } ∷ []))
        (output-append_parts parts _)
