-- ===== src/CabinetCli.antt =====
-- src/CabinetCli.h and src/CabinetCli.cpp: how the command line client makes a command of what its
-- user types. What it prints is left out.
pub mod Redirect
pub mod Turn
pub mod Words
pub mod Format
pub mod Session
pub mod Main
pub mod Sending
use mathlib.Core.Option
use cabinet.Base.{
  Bool, Bytes, Code, List, Option, [], drop, err, false, if◌then◌else◌, lebℤ, length, ltbℤ, none,
  not, ok, pos, some, suc, take, true, zero, ℕ, ℤ, ◌++◌, ◌-ℤ◌, ◌==ℤ◌, ◌==◌, ◌∷◌,
}
use cabinet.Client.{append_parts}
use cabinet.Database.{ServerCommand, del_it, get_it, no_match, select_command, set_it}
use cabinet.ProtocolStream.{ProtocolStream, append_command_type, clear, init_reply_head}

pub record CabinetCli : Type 0 where
  pub client_input : Bytes
  pub client_input_splited : List Bytes
  pub protocol_stream : ProtocolStream

abbrev pub blank : ℕ
blank = 32

-- `find_first_of(' ')`
pub find_blank : Bytes → Option ℕ
find_blank [] = none
find_blank (c ∷ cs) = if c == blank then some 0 else Option.map suc (find_blank cs)

-- `erase(0, find_first_not_of(' ', blankPosition))`, and `clear` where there is no other character
pub skip_blanks : Bytes → Bytes
skip_blanks [] = []
skip_blanks (c ∷ cs) = let rest = skip_blanks cs in if c == blank then rest else c ∷ cs

-- What a round of the loop leaves: the input, and the words with the new one.
abbrev pub split_at : Bytes → List Bytes → Option ℕ → Bytes × List Bytes
split_at input words none = ([], words ++ input ∷ [])
split_at input words (some n) = (skip_blanks (drop n input), words ++ take n input ∷ [])

-- `while (clientInput.length() != 0) { ... }`; each round takes a byte of the input at least.
pub split_words : ℕ → Bytes → List Bytes → Bytes × List Bytes
unfolding find_blank skip_blanks
split_words zero input words = (input, words)
split_words (suc fuel) [] words = ([], words)
split_words (suc fuel) (c ∷ cs) words =
    let (input, words') = split_at (c ∷ cs) words (find_blank (c ∷ cs)) in
    split_words fuel input words'

pub reset_all : CabinetCli → CabinetCli
unfolding clear
reset_all cli = record {
  client_input = [];
  client_input_splited = [];
  protocol_stream = clear cli.protocol_stream;
}

-- `isCommandValid`, `commandArgc` and `commandType`
abbrev pub is_command_valid : ServerCommand → Bool
is_command_valid no_match = false
is_command_valid _ = true

abbrev pub command_argc : ServerCommand → ℤ
command_argc get_it = pos 1
command_argc set_it = pos 2
command_argc del_it = pos 1
command_argc no_match = pos 0

abbrev pub type_of_command : ServerCommand → ℕ
type_of_command get_it = b'r'
type_of_command set_it = b'w'
type_of_command del_it = b'w'
type_of_command no_match = b'r'

-- Whether the number of parameters is refused.
abbrev pub wrong_number : ℤ → ℤ → Bool
wrong_number argc given =
    if lebℤ (pos 0) argc then not (given ==ℤ argc) else ltbℤ argc (pos 0 -ℤ given)

-- The checks of the command and the message, behind `initReplyHead`.
pub format_command : Bytes → List Bytes → CabinetCli → Code × CabinetCli
unfolding select_command append_parts append_command_type reset_all
format_command name args cli =
    let command = select_command name in
    if not (is_command_valid command)
    then (err, reset_all cli)
    else if wrong_number (command_argc command) (pos (length args))
    then (err, reset_all cli)
    else (
      ok,
      record cli {
        client_input_splited = [];
        protocol_stream =
            append_parts (name ∷ args)
              (append_command_type (type_of_command command) cli.protocol_stream);
      },
    )

abbrev pub format_words : CabinetCli → Code × CabinetCli
format_words cli = elim cli.client_input_splited [
  | [] ↦ (err, reset_all cli)
  | name ∷ args ↦ format_command name args (record cli {
    protocol_stream = init_reply_head (pos (suc (length args))) cli.protocol_stream;
  })
]

-- `formatClientInput`
pub format_client_input : CabinetCli → Code × CabinetCli
unfolding split_words init_reply_head format_command reset_all
format_client_input cli =
    let (input, words) =
      split_words (length cli.client_input) cli.client_input cli.client_input_splited in
    format_words (record cli { client_input = []; client_input_splited = words })
