-- ===== src/Tests/Wire.antt =====
-- The wire format on a command of two parts.
use cabinet.Base.{
  Bytes, List, [], arith, codes, err, false, ok, pos, refl, ret, same_bytes, true, ℕ, ◌++◌, ◌==◌,
  ◌∷◌, ◌≡◌,
}
use cabinet.CabinetCli.{CabinetCli, blank, format_client_input, type_of_command}
use cabinet.CabinetCli.Format.{IsTyped, format_client_input-resolved}
use cabinet.CabinetCli.Words.{IsWord, blanks, line}
use cabinet.Database.{select_command}
use cabinet.EventPoll.Safety.{other}
use cabinet.ProtocolStream.{
  ProtocolStream, find_newline, get_ready_for_next_command, is_receive_buf_avaliable, new_stream,
  resolve_parts, resolve_receive_buf,
}
use cabinet.ProtocolStream.Frame.{frame}
use cabinet.ProtocolStream.Partial.{refusal, resolve_receive_buf-short}
use cabinet.ProtocolStream.Pipeline.{executed, resolve_receive_buf-again}
use cabinet.ProtocolStream.Progress.{Runs, resolve_parts-Runs}
use cabinet.ProtocolStream.RoundTrip.{received, resolve_receive_buf-frame, resolved}

abbrev get_parts : List Bytes
get_parts = codes "get" ∷ codes "a" ∷ []

abbrev typed_stream : ProtocolStream
typed_stream = new_stream true false (codes "none")

resolve_receive_buf-frame_example :
    resolve_receive_buf (received typed_stream (frame b'r' get_parts ++ codes "*1"))
    ≡ ret (ok, resolved typed_stream b'r' get_parts (codes "*1"))
resolve_receive_buf-frame_example =
    resolve_receive_buf-frame typed_stream b'r' (codes "get") (codes "a" ∷ []) (codes "*1") refl
      refl refl (omega arith) (omega arith, (omega arith, tt))

-- The head of a command, and three of the five bytes of a part.
abbrev waiting_stream : ProtocolStream
waiting_stream = record typed_stream {
  input_buf = codes "a\nb";
  argc = pos 1;
  cur_argv_len = pos 5;
  command_type = b'r';
}

resolve_receive_buf-short_example : resolve_receive_buf waiting_stream ≡ refusal 5 waiting_stream
resolve_receive_buf-short_example =
    resolve_receive_buf-short waiting_stream 5 refl refl refl
      (unfold is_receive_buf_avaliable find_newline in refl) (omega arith)

-- The length and one part of two, with the beginning of the length of the second.
abbrev loaded_stream : ProtocolStream
loaded_stream = record typed_stream {
  input_buf = codes "$3\nget\n$1";
  argc = pos 2;
  command_type = b'r';
}

resolve_parts-Runs_example : Runs loaded_stream (resolve_parts loaded_stream)
resolve_parts-Runs_example = resolve_parts-Runs loaded_stream

-- A `get` stands behind a `del` that was executed and whose reply is not written yet.
abbrev pipelined : ProtocolStream
pipelined =
    executed typed_stream b'w' (codes "del" ∷ codes "a" ∷ []) (frame b'r' get_parts ++ codes "*1")
      (codes "*1\n$2\nok\n")

resolve_receive_buf-again_example :
    (resolve_receive_buf pipelined ≡ ret (err, pipelined))
    × (resolve_receive_buf (get_ready_for_next_command pipelined)
        ≡ ret (ok, resolved pipelined b'r' get_parts (codes "*1")))
resolve_receive_buf-again_example =
    resolve_receive_buf-again typed_stream b'w' (codes "del" ∷ codes "a" ∷ [])
      (codes "*1\n$2\nok\n") b'r' (codes "get") (codes "a" ∷ []) (codes "*1") refl refl refl refl
      (omega arith) (omega arith, (omega arith, tt))

-- `set  a 1`, with two blanks.
abbrev typed_set : CabinetCli
typed_set = record {
  client_input = codes "set  a 1";
  client_input_splited = [];
  protocol_stream = new_stream false false (codes "none");
}

set-IsWord : IsWord (codes "set")
set-IsWord = record { clean = (refl, (refl, (refl, tt))); filled = refl }

letter-IsWord : (c : ℕ) → (c == blank) ≡ false → IsWord (c ∷ [])
letter-IsWord c other = record { clean = (other, tt); filled = refl }

set-IsTyped : IsTyped (codes "set") (codes "a" ∷ codes "1" ∷ [])
unfolding select_command same_bytes
set-IsTyped = record { valid = refl; number = refl }

format_client_input-resolved_example :
    (cli' : CabinetCli) × (format_client_input typed_set ≡ (ok, cli'))
    × (cli'.client_input ≡ [])
    × (cli'.client_input_splited ≡ [])
    × (resolve_receive_buf
          (received (new_stream true false (codes "none")) cli'.protocol_stream.output_buf)
        ≡ ret (
          ok,
          resolved
              (new_stream true false (codes "none"))
              (type_of_command (select_command (codes "set")))
              (codes "set" ∷ codes "a" ∷ codes "1" ∷ [])
              [],
        ))
format_client_input-resolved_example =
    format_client_input-resolved typed_set (codes "set") ((1, codes "a") ∷ (0, codes "1") ∷ [])
      (new_stream true false (codes "none")) (unfold line blanks in refl) refl refl set-IsWord
      (letter-IsWord _ refl, (letter-IsWord _ refl, tt)) set-IsTyped (omega arith)
      (omega arith, (omega arith, (omega arith, tt))) refl refl
