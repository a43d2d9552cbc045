-- ===== src/ProtocolStream.antt =====
-- src/ProtocolStream.h and src/ProtocolStream.cpp: the wire format.
-- A request is `*argc\n[#type\n]` and, for each part, `$length\npart\n`.
pub mod Frame
pub mod Lines
pub mod Loop
pub mod Shrink
pub mod RoundTrip
pub mod Partial
pub mod Pipeline
pub mod Plain
pub mod Progress
use mathlib.Core.Option
use cabinet.Base.{
  Bool, Bytes, Code, List, Option, Outcome, [], abort, drop, err, false, if◌then◌else◌, lebℤ,
  length, minus_one, negsuc, none, ok, pos, ret, some, suc, take, true, undefined, zero, ℕ, ℤ, ◌&&◌,
  ◌++◌, ◌+◌, ◌-ℤ◌, ◌==ℤ◌, ◌==◌, ◌>>=◌, ◌>>◌, ◌∷◌,
}
use cabinet.Number.{stoi, to_string}

pub record ProtocolStream : Type 0 where
  pub has_command_type : Bool
  pub input_buf : Bytes
  pub cur_command_buf : Bytes
  pub argc : ℤ
  pub argv : List Bytes
  pub cur_argv_len : ℤ
  pub receive_complete : Bool
  pub command_type : ℕ
  pub output_buf : Bytes
  pub wrap_default_command : Bool
  pub wrap_command_name : Bytes

-- `ProtocolStream(bool, bool, string)`; the constructor with one argument passes `false` and "none".
abbrev pub new_stream : Bool → Bool → Bytes → ProtocolStream
new_stream typed wrap name = record {
  has_command_type = typed;
  input_buf = [];
  cur_command_buf = [];
  argc = minus_one;
  argv = [];
  cur_argv_len = minus_one;
  receive_complete = false;
  command_type = 0;
  output_buf = [];
  wrap_default_command = wrap;
  wrap_command_name = name;
}

unfoldable pub get_ready_for_next_command : ProtocolStream → ProtocolStream
get_ready_for_next_command s = record s {
  cur_command_buf = [];
  argc = minus_one;
  argv = [];
  cur_argv_len = minus_one;
  receive_complete = false;
  command_type = 0;
}

-- `clear`
unfoldable pub clear : ProtocolStream → ProtocolStream
clear s = record s {
  cur_command_buf = [];
  argc = minus_one;
  argv = [];
  cur_argv_len = minus_one;
  receive_complete = false;
  command_type = 0;
  output_buf = [];
}

unfoldable pub fill_receive_buf : Bytes → ProtocolStream → ProtocolStream
fill_receive_buf str s = record s { input_buf = s.input_buf ++ str }

abbrev pub newline : ℕ
newline = 10

-- `find_first_of('\n')`. A search from 1 on is the same where byte 0 is another one.
unfoldable pub find_newline : Bytes → Option ℕ
find_newline [] = none
find_newline (c ∷ cs) = if c == newline then some 0 else Option.map suc (find_newline cs)

abbrev pub is_available : Option ℕ → Bool
is_available none = false
is_available (some n) = true

-- `isReceiveBufAvaliable`
unfoldable pub is_receive_buf_avaliable : ProtocolStream → Bool
unfolding find_newline
is_receive_buf_avaliable s = is_available (find_newline s.input_buf)

-- `string::operator[]`; at the length it is the byte 0, and beyond it undefined.
unfoldable pub byte_at : Bytes → ℕ → Outcome ℕ
byte_at [] zero = ret 0
byte_at [] (suc i) = undefined
byte_at (c ∷ cs) zero = ret c
byte_at (c ∷ cs) (suc i) = byte_at cs i

-- `stoi` where nothing catches its exceptions
abbrev pub or_abort {ℓ} : {A : Type ℓ} → Option A → Outcome A
or_abort none = abort
or_abort (some a) = ret a

-- `curCommandBuf.append(inputBuf, 0, n); inputBuf.erase(0, n);`
abbrev pub consume : ℕ → ProtocolStream → ProtocolStream
consume n s = record s {
  cur_command_buf = s.cur_command_buf ++ take n s.input_buf;
  input_buf = drop n s.input_buf;
}

-- Whether `resolveReceiveBuf` returns at this point, or goes on.
pub data Flow : Type 0 where
  return : Code → ProtocolStream → Flow
  proceed : ProtocolStream → Flow

abbrev pub pause_unless_avaliable : ProtocolStream → Flow
pause_unless_avaliable s = if is_receive_buf_avaliable s then proceed s else return ok s

-- The number in `string(inputBuf, 1, firstLF)`
abbrev pub head_number : ℕ → Bytes → Option ℤ
head_number first_lf buf = stoi (take first_lf (drop 1 buf))

-- the block of `argc == -1`, at the position of the first line feed
unfoldable pub resolve_argc_at : ProtocolStream → Option ℕ → Outcome Flow
unfolding is_receive_buf_avaliable
resolve_argc_at s none = ret (return ok s)
resolve_argc_at s (some first_lf) = do
  argc ← or_abort (head_number first_lf s.input_buf)
  let s' : ProtocolStream = record s { argc = argc }
  if lebℤ argc (pos 0)
      then ret (return err s')
      else ret (pause_unless_avaliable (consume (first_lf + 1) s'))

unfoldable pub resolve_argc : ProtocolStream → Outcome Flow
unfolding resolve_argc_at byte_at
resolve_argc s = do
  first ← byte_at s.input_buf 0
  if first == b'*' then resolve_argc_at s (find_newline s.input_buf) else ret (return err s)

-- the block of `hasCommandType && commandType == '\0'`
unfoldable pub resolve_type_at : ProtocolStream → Option ℕ → Outcome Flow
unfolding is_receive_buf_avaliable byte_at
resolve_type_at s none = ret (return ok s)
resolve_type_at s (some first_lf) =
    if first_lf == 2
    then (do
      type ← byte_at s.input_buf 1
      ret (pause_unless_avaliable (consume (first_lf + 1) (record s { command_type = type }))))
    else ret (return err s)

unfoldable pub resolve_type : ProtocolStream → Outcome Flow
unfolding resolve_type_at byte_at
resolve_type s = do
  first ← byte_at s.input_buf 0
  if first == b'#' then resolve_type_at s (find_newline s.input_buf) else ret (return err s)

-- One round of the loop over the parts: `return err` is the error, `return ok` the `break`.
unfoldable pub resolve_length_at : ProtocolStream → Option ℕ → Outcome Flow
resolve_length_at s none = ret (return ok s)
resolve_length_at s (some first_lf) = do
  len ← or_abort (head_number first_lf s.input_buf)
  ret (proceed (consume (first_lf + 1) (record s { cur_argv_len = len })))

unfoldable pub resolve_length : ProtocolStream → Outcome Flow
unfolding resolve_length_at byte_at
resolve_length s = do
  first ← byte_at s.input_buf 0
  if first == b'$' then resolve_length_at s (find_newline s.input_buf) else ret (return err s)

-- A negative length is an index far outside of the string.
unfoldable pub resolve_part_of : ℕ → ProtocolStream → Outcome Flow
unfolding byte_at
resolve_part_of len s = do
  end ← byte_at s.input_buf len
  if end == newline
      then (do
        let left = s.argc -ℤ pos 1
        let s' : ProtocolStream = record (consume (len + 1) s) {
          argv = s.argv ++ take len s.input_buf ∷ [];
          cur_argv_len = minus_one;
          argc = left;
        }
        if left ==ℤ pos 0
            then ret (return ok (record s' { receive_complete = true }))
            else ret (proceed s'))
      else ret (return err s)

unfoldable pub resolve_part : ℤ → ProtocolStream → Outcome Flow
unfolding resolve_part_of
resolve_part (pos len) s = resolve_part_of len s
resolve_part (negsuc n) s = undefined

abbrev pub resolve_round : ProtocolStream → Outcome Flow
resolve_round s =
    if s.cur_argv_len ==ℤ minus_one then resolve_length s else resolve_part s.cur_argv_len s

-- The wrapped argument vector at the end of `resolveReceiveBuf`.
abbrev pub wrap_default : ProtocolStream → ProtocolStream
wrap_default s =
    if s.wrap_default_command
    then record s { argv = s.wrap_command_name ∷ s.cur_command_buf ∷ [] }
    else s

abbrev pub finish_round :
    Flow → (ProtocolStream → Outcome (Code × ProtocolStream)) → Outcome (Code × ProtocolStream)
finish_round (return err s) go_on = ret (err, s)
finish_round (return ok s) go_on = ret (ok, wrap_default s)
finish_round (proceed s) go_on = go_on s

-- `while (isReceiveBufAvaliable()) { ... }` and what follows it.
unfoldable pub resolve_loop : ℕ → ProtocolStream → Outcome (Code × ProtocolStream)
unfolding is_receive_buf_avaliable resolve_length resolve_part
resolve_loop zero s = ret (ok, wrap_default s)
resolve_loop (suc fuel) s =
    let round = resolve_round s >>= λ flow. finish_round flow (resolve_loop fuel) in
    if is_receive_buf_avaliable s then round else ret (ok, wrap_default s)

abbrev pub then_flow :
    Flow → (ProtocolStream → Outcome (Code × ProtocolStream)) → Outcome (Code × ProtocolStream)
then_flow (return code s) go_on = ret (code, s)
then_flow (proceed s) go_on = go_on s

-- Each round but the last takes at least one byte of the buffer.
abbrev pub resolve_parts : ProtocolStream → Outcome (Code × ProtocolStream)
resolve_parts s = resolve_loop (suc (length s.input_buf)) s

abbrev pub type_stage : ProtocolStream → Outcome Flow
type_stage s = if s.has_command_type && s.command_type == 0 then resolve_type s else ret (proceed s)

abbrev pub argc_stage : ProtocolStream → Outcome Flow
argc_stage s = if s.argc ==ℤ minus_one then resolve_argc s else ret (proceed s)

-- `resolveReceiveBuf`
unfoldable pub resolve_receive_buf : ProtocolStream → Outcome (Code × ProtocolStream)
unfolding is_receive_buf_avaliable resolve_argc resolve_type resolve_loop
resolve_receive_buf s =
    if is_receive_buf_avaliable s
    then (argc_stage s >>= λ flow.
        then_flow flow λ s1. type_stage s1 >>= λ flow2. then_flow flow2 resolve_parts)
    else ret (ok, s)

unfoldable pub init_reply_head : ℤ → ProtocolStream → ProtocolStream
init_reply_head argc s = record s {
  output_buf = s.output_buf ++ b'*' ∷ (to_string argc ++ newline ∷ []);
}

unfoldable pub append_command_type : ℕ → ProtocolStream → ProtocolStream
append_command_type type s = record s { output_buf = s.output_buf ++ b'#' ∷ type ∷ newline ∷ [] }

unfoldable pub append_reply_body : Bytes → ProtocolStream → ProtocolStream
append_reply_body part s = record s {
  output_buf =
      s.output_buf ++ b'$' ∷ (to_string (pos (length part)) ++ newline ∷ (part ++ newline ∷ []));
}

unfoldable pub fill_send_buf : Bytes → ProtocolStream → ProtocolStream
fill_send_buf str s = record s { output_buf = s.output_buf ++ str }
