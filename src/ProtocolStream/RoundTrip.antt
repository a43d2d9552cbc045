-- ===== src/ProtocolStream/RoundTrip.antt =====
-- `resolveReceiveBuf` reads a whole message that the output operations wrote.
use cabinet.Base.{
  All, Bytes, Code, List, Outcome, [], ap, append_assoc, arith, false, if_false, if_true, length,
  length-append, minus_one, ok, pos, refl, ret, suc, true, ℕ, ℤ, ◌&&◌, ◌++◌, ◌+◌, ◌<◌, ◌==◌, ◌∙◌,
  ◌∷◌, ◌≡◌, ◌≤◌,
}
use cabinet.Number.{int_half, to_string}
use cabinet.ProtocolStream.{
  ProtocolStream, argc_stage, fill_receive_buf, find_newline, get_ready_for_next_command,
  is_available, is_receive_buf_avaliable, newline, proceed, resolve_parts, resolve_receive_buf,
  resolve_type, type_stage,
}
use cabinet.ProtocolStream.Frame.{available-newline, frame, part_text, parts_text}
use cabinet.ProtocolStream.Lines.{resolve_argc-line, resolve_type-line}
use cabinet.ProtocolStream.Loop.{IsPart, parts_text-cons, resolve_loop-parts}

-- The stream between two commands, with this text received.
abbrev pub received : ProtocolStream → Bytes → ProtocolStream
received s text = fill_receive_buf text (record (get_ready_for_next_command s) { input_buf = [] })

-- What a stream holds once it has read the message.
abbrev pub resolved : ProtocolStream → ℕ → List Bytes → Bytes → ProtocolStream
resolved s type parts rest = record s {
  input_buf = rest;
  cur_command_buf = frame type parts;
  argc = pos 0;
  argv = parts;
  cur_argv_len = minus_one;
  receive_complete = true;
  command_type = type;
}

pub frame-rest :
    (type : ℕ) (parts : List Bytes) (rest : Bytes)
    → frame type parts ++ rest
      ≡ b'*'
        ∷ (to_string (pos (length parts))
            ++ newline ∷ (b'#' ∷ type ∷ newline ∷ (parts_text parts ++ rest)))
frame-rest type parts rest = unfold frame in simp append_assoc

pub parts_text-available :
    (part : Bytes) (parts : List Bytes) (rest : Bytes)
    → is_available (find_newline (parts_text (part ∷ parts) ++ rest)) ≡ true
parts_text-available part parts rest =
    unfold parts_text in
    rw (append_assoc, append_assoc) (available-newline (b'$' ∷ to_string (pos (length part))) _)

part_text-long : (part : Bytes) → 2 ≤ length (part_text part)
part_text-long part =
    unfold part_text in
    omega (arith, length-append (to_string (pos (length part))) (newline ∷ (part ++ newline ∷ [])))

pub parts_text-long : (parts : List Bytes) → length parts + length parts ≤ length (parts_text parts)
parts_text-long [] = omega arith
parts_text-long (part ∷ parts) = omega (
  arith,
  part_text-long part,
  parts_text-long parts,
  ap length (parts_text-cons part parts),
  length-append (part_text part) (parts_text parts),
)

pub enough_rounds :
    (part : Bytes) (parts : List Bytes) (rest : Bytes)
    → length parts + length parts < length (parts_text (part ∷ parts) ++ rest)
enough_rounds part parts rest =
    omega (arith, parts_text-long (part ∷ parts), length-append (parts_text (part ∷ parts)) rest)

pub resolve_stages :
    (s s1 s2 : ProtocolStream) {r : Outcome (Code × ProtocolStream)}
    → is_receive_buf_avaliable s ≡ true
    → argc_stage s ≡ ret (proceed s1)
    → type_stage s1 ≡ ret (proceed s2)
    → resolve_parts s2 ≡ r
    → resolve_receive_buf s ≡ r
resolve_stages s s1 s2 a h t p = unfold resolve_receive_buf in rw (a, h, t) p

abbrev pub idle : ProtocolStream → Bytes → ProtocolStream
idle s text = record s {
  input_buf = text;
  cur_command_buf = [];
  argc = minus_one;
  argv = [];
  cur_argv_len = minus_one;
  receive_complete = false;
  command_type = 0;
}

pub received-idle : (s : ProtocolStream) (text : Bytes) → received s text ≡ idle s text
received-idle s text = unfold get_ready_for_next_command fill_receive_buf in refl

-- A stream of commands with a type, which wraps none of them and is between two of them, reads a
-- message whole that has at least one part, the lengths of the parts and their number being below
-- 2 ^ 31 and the type no line feed: the parts and the type are those that were written, the text of
-- the command is the message, and what stands behind it is left in the buffer.
pub resolve_receive_buf-frame :
    (s : ProtocolStream) (type : ℕ) (part : Bytes) (parts : List Bytes) (rest : Bytes)
    → s.has_command_type ≡ true
    → s.wrap_default_command ≡ false
    → (type == newline) ≡ false
    → length (part ∷ parts) < int_half
    → All IsPart (part ∷ parts)
    → resolve_receive_buf (received s (frame type (part ∷ parts) ++ rest))
      ≡ ret (ok, resolved s type (part ∷ parts) rest)
resolve_receive_buf-frame s type part parts rest typed plain other few fit =
    let n : ℤ = pos (suc (length parts)) in
    let body = parts_text (part ∷ parts) ++ rest in
    let typed_body = b'#' ∷ type ∷ newline ∷ body in
    let whole = b'*' ∷ (to_string n ++ newline ∷ typed_body) in
    let s0 = idle s whole in
    let s1 : ProtocolStream = record s0 {
      input_buf = typed_body;
      cur_command_buf = b'*' ∷ (to_string n ++ newline ∷ []);
      argc = n;
    } in
    let s2 : ProtocolStream = record s1 {
      input_buf = body;
      cur_command_buf = b'*' ∷ (to_string n ++ newline ∷ []) ++ b'#' ∷ type ∷ newline ∷ [];
      command_type = type;
    } in
    rw (received-idle, frame-rest)
      (resolve_stages s0 s1 s2
        (unfold is_receive_buf_avaliable in available-newline (b'*' ∷ to_string n) typed_body)
        (resolve_argc-line (idle s []) n typed_body (ground arith) (ground arith)
          (available-newline (b'#' ∷ type ∷ []) body))
        (if_true (s.has_command_type && true) (resolve_type s1) _ (ground arith)
          ∙ (resolve_type-line (record s1 { input_buf = [] }) type body other
              (parts_text-available part parts rest)))
        (resolve_loop-parts (record s2 { input_buf = [] }) part parts rest _ fit
            (enough_rounds part parts rest)
          ∙ ap (λ (z : ProtocolStream). let o : Outcome (Code × ProtocolStream) = ret (ok, z) in o)
              (if_false s.wrap_default_command _ _ plain ∙ (unfold frame in simp append_assoc))))
