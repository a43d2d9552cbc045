-- ===== src/CabinetCli/Format.antt =====
-- What the command line client sends is what the server reads.
use cabinet.Base.{
  All, Bytes, List, [], ap, append-nil, append_assoc, arith, false, length, map, ok, pos, refl, ret,
  suc, sym, true, ℕ, ℤ, ◌<◌, ◌==◌, ◌∙◌, ◌∷◌, ◌≡◌,
}
use cabinet.CabinetCli.{
  CabinetCli, command_argc, format_client_input, format_command, format_words, is_command_valid,
  split_words, type_of_command, wrong_number,
}
use cabinet.CabinetCli.Words.{IsWord, line, split_words-line, words_of}
use cabinet.Client.{append_parts}
use cabinet.Client.Replies.{output-append_parts}
use cabinet.Database.{ServerCommand, del_it, get_it, no_match, select_command, set_it}
use cabinet.Number.{int_half}
use cabinet.ProtocolStream.{
  ProtocolStream, append_command_type, init_reply_head, newline, resolve_receive_buf,
}
use cabinet.ProtocolStream.Frame.{frame}
use cabinet.ProtocolStream.Loop.{IsPart}
use cabinet.ProtocolStream.RoundTrip.{received, resolve_receive_buf-frame, resolved}

-- A command that the client takes, with the number of arguments it wants.
pub record IsTyped (name : Bytes) (args : List Bytes) : Type 0 where
  pub valid : is_command_valid (select_command name) ≡ true
  pub number : command_argc (select_command name) ≡ pos (length args)

-- The command is not made before the last test of its name and number.
number-right : (argc : ℤ) (given : ℕ) → argc ≡ pos given → wrong_number argc (pos given) ≡ false
number-right argc given same = rw same (ground arith)

format_command-typed :
    (name : Bytes) (args : List Bytes) (cli : CabinetCli)
    → IsTyped name args
    → format_command name args cli ≡ (
      ok,
      record cli {
        client_input_splited = [];
        protocol_stream =
            append_parts
              (name ∷ args)
              (append_command_type (type_of_command (select_command name)) cli.protocol_stream);
      },
    )
unfolding format_command
format_command-typed name args cli typed =
    rw (typed.valid, number-right _ (length args) typed.number) refl

append_parts-output :
    (name : Bytes) (args : List Bytes) (type : ℕ) (s : ProtocolStream)
    → s.output_buf ≡ []
    → (append_parts
        (name ∷ args)
        (append_command_type type (init_reply_head (pos (suc (length args))) s))).output_buf
      ≡ frame type (name ∷ args)
unfolding frame init_reply_head append_command_type
append_parts-output name args type s empty =
    output-append_parts (name ∷ args) _ ∙ rw empty (simp append_assoc)

-- The state with the words of the line.
abbrev with_words : CabinetCli → Bytes × List Bytes → CabinetCli
with_words cli (input, words) = record cli { client_input = []; client_input_splited = words }

format_client_input_lem :
    (cli : CabinetCli)
    → format_client_input cli
      ≡ format_words (
          with_words cli
            (split_words (length cli.client_input) cli.client_input cli.client_input_splited))
unfolding format_client_input
format_client_input_lem cli = refl

type-plain : (command : ServerCommand) → (type_of_command command == newline) ≡ false
type-plain get_it = refl
type-plain set_it = refl
type-plain del_it = refl
type-plain no_match = refl

-- What `formatClientInput` makes of a command's words.
abbrev pub typed_cli : Bytes → List Bytes → CabinetCli → CabinetCli
typed_cli name args cli = record cli {
  client_input = [];
  client_input_splited = [];
  protocol_stream = append_parts (name ∷ args) (
      append_command_type (type_of_command (select_command name))
        (init_reply_head (pos (suc (length args))) cli.protocol_stream));
}

pub format_client_input-typed :
    (cli : CabinetCli) (w : Bytes) (vs : List (ℕ × Bytes))
    → cli.client_input ≡ line w vs
    → cli.client_input_splited ≡ []
    → IsWord w
    → All (λ v. IsWord v.1) vs
    → IsTyped w (map (λ v. v.1) vs)
    → format_client_input cli ≡ (ok, typed_cli w (map (λ v. v.1) vs) cli)
format_client_input-typed cli w vs input none_yet h hs typed =
    format_client_input_lem cli
    ∙ ap (λ i. format_words (with_words cli (split_words (length i) i cli.client_input_splited)))
        input
    ∙ ap (λ ws. format_words (with_words cli (split_words (length (line w vs)) (line w vs) ws)))
        none_yet
    ∙ ap (λ r. format_words (with_words cli r))
        (split_words-line (length (line w vs)) w vs [] (omega arith) h hs)
    ∙ format_command-typed w (map (λ v. v.1) vs) _ typed

-- If the typed line is a command's name and as many arguments as it takes, words without blanks, with
-- one blank or more between them, none is so long or so many as `int` does not hold, and nothing is
-- left from before, then `formatClientInput` succeeds, no input is left, and a server that gets the
-- text in its send buffer reads exactly these words and the type of the command.
pub format_client_input-resolved :
    (cli : CabinetCli) (w : Bytes) (vs : List (ℕ × Bytes)) (server : ProtocolStream)
    → cli.client_input ≡ line w vs
    → cli.client_input_splited ≡ []
    → cli.protocol_stream.output_buf ≡ []
    → IsWord w
    → All (λ v. IsWord v.1) vs
    → IsTyped w (map (λ v. v.1) vs)
    → length (words_of w vs) < int_half
    → All IsPart (words_of w vs)
    → server.has_command_type ≡ true
    → server.wrap_default_command ≡ false
    → (cli' : CabinetCli) × (format_client_input cli ≡ (ok, cli'))
      × (cli'.client_input ≡ [])
      × (cli'.client_input_splited ≡ [])
      × (resolve_receive_buf (received server cli'.protocol_stream.output_buf)
          ≡ ret (ok, resolved server (type_of_command (select_command w)) (words_of w vs) []))
format_client_input-resolved cli w vs server input none_yet empty h hs typed few fit kind plain =
    let args = map (λ v. v.1) vs in
    let type = type_of_command (select_command w) in
    (
      typed_cli w args cli,
      format_client_input-typed cli w vs input none_yet h hs typed,
      refl,
      refl,
      ap (λ text. resolve_receive_buf (received server text))
            (append_parts-output w args type cli.protocol_stream empty
              ∙ sym (append-nil (frame type (words_of w vs))))
          ∙ resolve_receive_buf-frame server type w args [] kind plain
              (type-plain (select_command w)) few fit,
    )
