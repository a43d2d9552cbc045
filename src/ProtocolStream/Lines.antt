-- ===== src/ProtocolStream/Lines.antt =====
-- Each line of a written message is read by the block of `resolveReceiveBuf` for it.

use native.Mathlib.Numerals.{add-one}
use cabinet.Base.{
  Bytes, Option, Outcome, [], ap, arith, err, false, if◌then◌else◌, lebℤ, length, minus_one, ok,
  pos, refl, ret, some, suc, take-append, true, ℕ, ℤ, ◌++◌, ◌+◌, ◌-ℤ◌, ◌==ℤ◌, ◌==◌, ◌>>=◌, ◌∙◌, ◌∷◌,
  ◌≡◌,
}
use cabinet.Number.{in_range, int_half, to_string}
use cabinet.Number.RoundTrip.{to_string-Lacks}
use cabinet.ProtocolStream.{
  Flow, ProtocolStream, consume, find_newline, is_available, newline, or_abort,
  pause_unless_avaliable, proceed, resolve_argc, resolve_argc_at, resolve_length, resolve_length_at,
  resolve_part, resolve_type, return,
}
use cabinet.ProtocolStream.Frame.{
  byte_at-append, drop-line, find_newline-Lacks, head_number-line, take-line,
}

module _ (s : ProtocolStream) (n : ℤ) (rest : Bytes) (fits : in_range int_half n ≡ true) where
  abbrev line : ℕ → Bytes
  line c = c ∷ (to_string n ++ newline ∷ rest)

  abbrev taken : ℕ → Bytes
  taken c = c ∷ (to_string n ++ newline ∷ [])

  find_newline-line :
      (c : ℕ) → (c == newline) ≡ false → find_newline (line c) ≡ some (suc (length (to_string n)))
  find_newline-line c h =
      find_newline-Lacks (c ∷ to_string n) rest (h, to_string-Lacks newline n refl refl)

  consume-line :
      (c : ℕ) (s : ProtocolStream)
      → consume (suc (length (to_string n)) + 1) (record s { input_buf = line c })
        ≡ record s { input_buf = rest; cur_command_buf = s.cur_command_buf ++ taken c }
  consume-line c s = rw (add-one, take-line, drop-line)

  -- the line `$length`
  pub resolve_length-line :
      resolve_length (record s { input_buf = line b'$' })
      ≡ ret (
          proceed (record s {
            input_buf = rest;
            cur_command_buf = s.cur_command_buf ++ taken b'$';
            cur_argv_len = n;
          }))
  unfolding resolve_length
  resolve_length-line =
      ap (resolve_length_at (record s { input_buf = line b'$' })) (find_newline-line b'$' refl)
      ∙ ap
          (λ (o : Option ℤ). or_abort o >>= λ len.
            let f : Outcome Flow = ret (
              proceed (
                consume (suc (length (to_string n)) + 1)
                  (record s { input_buf = line b'$'; cur_argv_len = len }))) in
            f)
          (head_number-line b'$' n rest fits)
      ∙ ap (λ (z : ProtocolStream). (let f : Outcome Flow = ret (proceed z) in f))
          (consume-line b'$' (record s { cur_argv_len = n }))

  -- the line `*argc`, of a positive number, in front of more lines
  pub resolve_argc-line :
      lebℤ n (pos 0) ≡ false
      → is_available (find_newline rest) ≡ true
      → resolve_argc (record s { input_buf = line b'*' })
        ≡ ret (
            proceed (record s {
              input_buf = rest;
              cur_command_buf = s.cur_command_buf ++ taken b'*';
              argc = n;
            }))
  unfolding resolve_argc
  resolve_argc-line positive more =
      ap (resolve_argc_at (record s { input_buf = line b'*' })) (find_newline-line b'*' refl)
      ∙ ap
          (λ (o : Option ℤ). or_abort o >>= λ argc.
            let s' : ProtocolStream = record s { input_buf = line b'*'; argc = argc } in
            let f : Outcome Flow =
              if lebℤ argc (pos 0)
              then ret (return err s')
              else ret (pause_unless_avaliable (consume (suc (length (to_string n)) + 1) s')) in
            f)
          (head_number-line b'*' n rest fits)
      ∙ rw positive (
          ap (λ (z : ProtocolStream). (let f : Outcome Flow = ret (pause_unless_avaliable z) in f))
            (consume-line b'*' (record s { argc = n }))
          ∙ rw more)

pos_suc-minus_one : (n : ℕ) → pos (suc n) -ℤ pos 1 ≡ pos n
unfolding ◌-ℤ◌
pos_suc-minus_one n = ground arith

pos-==ℤ-zero : (n : ℕ) → (pos n ==ℤ pos 0) ≡ (n == 0)
pos-==ℤ-zero n = ground arith

module _ (s : ProtocolStream) where
  -- the line `#type`
  pub resolve_type-line :
      (type : ℕ) (rest : Bytes)
      → (type == newline) ≡ false
      → is_available (find_newline rest) ≡ true
      → resolve_type (record s { input_buf = b'#' ∷ type ∷ newline ∷ rest })
        ≡ ret (
            proceed (record s {
              input_buf = rest;
              cur_command_buf = s.cur_command_buf ++ b'#' ∷ type ∷ newline ∷ [];
              command_type = type;
            }))
  unfolding resolve_type find_newline
  resolve_type-line type rest other more = rw (other, more)

  -- the bytes of a part and its line feed, where more parts follow or not
  pub resolve_part-line :
      (part rest : Bytes) (left : ℕ)
      → resolve_part
          (pos (length part))
          (record s { input_buf = part ++ newline ∷ rest; argc = pos (suc left) })
        ≡ (let s' : ProtocolStream = record s {
          input_buf = rest;
          cur_command_buf = s.cur_command_buf ++ (part ++ newline ∷ []);
          argv = s.argv ++ part ∷ [];
          cur_argv_len = minus_one;
          argc = pos left;
        } in
            if left == 0
            then ret (return ok (record s' { receive_complete = true }))
            else ret (proceed s'))
  unfolding resolve_part
  resolve_part-line part rest left =
      simp (
        byte_at-append, add-one, take-line, drop-line, take-append, pos_suc-minus_one, pos-==ℤ-zero,
      )
