-- ===== src/ProtocolStream/Loop.antt =====
-- The loop over the parts reads a list of written parts.
use cabinet.Base.{
  All, Bool, Bytes, Code, List, Outcome, [], append-nil, append_assoc, arith, false, if◌then◌else◌,
  length, minus_one, ok, pos, refl, ret, suc, true, zero, ℕ, ◌++◌, ◌+◌, ◌<◌, ◌==ℤ◌, ◌==◌, ◌∙◌, ◌∷◌,
  ◌≡◌,
}
use cabinet.Number.{in_range, int_half, to_string}
use cabinet.ProtocolStream.{
  Flow, ProtocolStream, find_newline, finish_round, is_available, newline, proceed, resolve_loop,
  resolve_round, return, wrap_default,
}
use cabinet.ProtocolStream.Frame.{available-newline, part_text, parts_text}
use cabinet.ProtocolStream.Lines.{resolve_length-line, resolve_part-line}

-- A part whose length is an `int`.
abbrev pub IsPart : Bytes → Type 0
IsPart part = length part < int_half

part-in_range : (part : Bytes) → IsPart part → in_range int_half (pos (length part)) ≡ true
part-in_range part h = ground arith

length-not-minus_one : (n : ℕ) → (pos n ==ℤ minus_one) ≡ false
length-not-minus_one n = ground arith

loop_step :
    (fuel : ℕ) (s : ProtocolStream) (flow : Flow)
    → is_available (find_newline s.input_buf) ≡ true
    → resolve_round s ≡ ret flow
    → resolve_loop (suc fuel) s ≡ finish_round flow (resolve_loop fuel)
loop_step fuel s flow more round = unfold resolve_loop in rw (more, round)

ret_if : (b : Bool) (f g : Flow) → (if b then ret f else ret g) ≡ ret (if b then f else g)
ret_if true f g = refl
ret_if false f g = refl

module _ (s : ProtocolStream) (part rest : Bytes) (fits : IsPart part) where
  abbrev at_length : ProtocolStream
  at_length = record s { input_buf = part_text part ++ rest; cur_argv_len = minus_one }

  abbrev at_part : ProtocolStream
  at_part = record s {
    input_buf = part ++ newline ∷ rest;
    cur_command_buf = s.cur_command_buf ++ b'$' ∷ (to_string (pos (length part)) ++ newline ∷ []);
    cur_argv_len = pos (length part);
  }

  part_text-rest :
      part_text part ++ rest
      ≡ b'$' ∷ (to_string (pos (length part)) ++ newline ∷ (part ++ newline ∷ rest))
  part_text-rest = unfold part_text in simp append_assoc

  length_round : (fuel : ℕ) → resolve_loop (suc fuel) at_length ≡ resolve_loop fuel at_part
  length_round fuel =
      loop_step fuel at_length (proceed at_part)
        (rw part_text-rest (available-newline (b'$' ∷ to_string (pos (length part))) _))
        (rw part_text-rest (
          resolve_length-line (record s { cur_argv_len = minus_one }) (pos (length part))
            (part ++ newline ∷ rest) (part-in_range part fits)))

  -- what the buffer and the command text are once the part is read
  abbrev after_part : ℕ → ProtocolStream
  after_part left = record s {
    input_buf = rest;
    cur_command_buf = s.cur_command_buf ++ part_text part;
    argv = s.argv ++ part ∷ [];
    cur_argv_len = minus_one;
    argc = pos left;
  }

  command-part_text :
      s.cur_command_buf
        ++ b'$' ∷ (to_string (pos (length part)) ++ newline ∷ [])
        ++ (part ++ newline ∷ [])
      ≡ s.cur_command_buf ++ part_text part
  command-part_text = unfold part_text in simp append_assoc

  part_round :
      (fuel left : ℕ)
      → resolve_loop (suc fuel) (record at_part { argc = pos (suc left) })
        ≡ finish_round
            (if left == 0
              then return ok (record (after_part left) { receive_complete = true })
              else proceed (after_part left))
            (resolve_loop fuel)
  part_round fuel left =
      loop_step fuel (record at_part { argc = pos (suc left) }) _ (available-newline part rest)
        (rw length-not-minus_one (
          resolve_part-line
            (record s {
              cur_command_buf =
                  s.cur_command_buf ++ b'$' ∷ (to_string (pos (length part)) ++ newline ∷ []);
              cur_argv_len = pos (length part);
            })
            part rest left
          ∙ rw command-part_text (ret_if (left == 0) _ _)))

suc-not-zero : (n : ℕ) → (suc n == 0) ≡ false
suc-not-zero n = ground arith

two_rounds :
    (s : ProtocolStream) (part rest : Bytes) (fits : IsPart part) (fuel left : ℕ)
    → resolve_loop (suc (suc fuel)) (record s {
      input_buf = part_text part ++ rest;
      argc = pos (suc left);
      cur_argv_len = minus_one;
    })
      ≡ finish_round
          (if left == 0
            then return ok (record (after_part s part rest fits left) { receive_complete = true })
            else proceed (after_part s part rest fits left))
          (resolve_loop fuel)
two_rounds s part rest fits fuel left =
    length_round (record s { argc = pos (suc left) }) part rest fits (suc fuel)
    ∙ part_round s part rest fits fuel left

more_left :
    (n : ℕ) (f g : Flow) (k : ProtocolStream → Outcome (Code × ProtocolStream))
    → finish_round (if suc n == 0 then f else g) k ≡ finish_round g k
more_left n f g k = rw (suc-not-zero n)

pub parts_text-cons :
    (part : Bytes) (parts : List Bytes)
    → parts_text (part ∷ parts) ≡ part_text part ++ parts_text parts
parts_text-cons part parts = unfold parts_text in refl

parts_text-nil : parts_text [] ≡ []
parts_text-nil = unfold parts_text in refl

-- The parts that are still to come are read, and nothing behind them.
pub resolve_loop-parts :
    (s : ProtocolStream) (part : Bytes) (parts : List Bytes) (rest : Bytes) (fuel : ℕ)
    → All IsPart (part ∷ parts)
    → length parts + length parts < fuel
    → resolve_loop (suc fuel) (record s {
      input_buf = parts_text (part ∷ parts) ++ rest;
      argc = pos (suc (length parts));
      cur_argv_len = minus_one;
    })
      ≡ ret (
        ok,
        wrap_default (record s {
          input_buf = rest;
          cur_command_buf = s.cur_command_buf ++ parts_text (part ∷ parts);
          argc = pos 0;
          argv = s.argv ++ part ∷ parts;
          cur_argv_len = minus_one;
          receive_complete = true;
        }),
      )
resolve_loop-parts s part parts rest zero h lt = absurd (omega arith)
resolve_loop-parts s part [] rest (suc fuel) h lt =
    rw (parts_text-cons, parts_text-nil, append-nil) (two_rounds s part rest h.0 fuel 0)
resolve_loop-parts s part (p ∷ parts) rest (suc zero) h lt = absurd (omega arith)
resolve_loop-parts s part (p ∷ parts) rest (suc (suc fuel)) h lt =
    let t : ProtocolStream =
      after_part s part (parts_text (p ∷ parts) ++ rest) h.0 (suc (length parts)) in
    rw (parts_text-cons part (p ∷ parts), append_assoc)
      (two_rounds s part (parts_text (p ∷ parts) ++ rest) h.0 (suc fuel) (suc (length parts))
        ∙ more_left (length parts) _ (proceed t) _
        ∙ resolve_loop-parts t p parts rest fuel h.1 (omega arith)
        ∙ rw (append_assoc, append_assoc))
