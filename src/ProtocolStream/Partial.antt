-- ===== src/ProtocolStream/Partial.antt =====
-- A part of which only a beginning has arrived.
use cabinet.Base.{
  Bytes, Code, Outcome, [], ap, arith, err, false, if_false, if_true, if◌then◌else◌, length,
  minus_one, pos, refl, ret, suc, true, undefined, zero, ℕ, ℤ, ◌&&◌, ◌==ℤ◌, ◌==◌, ◌>>=◌, ◌∙◌, ◌∷◌,
  ◌≡◌, ◌≤◌,
}
use cabinet.ProtocolStream.{
  Flow, ProtocolStream, byte_at, find_newline, finish_round, is_available, is_receive_buf_avaliable,
  resolve_length, resolve_loop, resolve_part, resolve_parts, resolve_receive_buf, resolve_round,
}
use cabinet.ProtocolStream.RoundTrip.{resolve_stages}

byte_at-short :
    (buf : Bytes) (k : ℕ)
    → length buf ≤ k
    → byte_at buf k ≡ (if length buf == k then ret 0 else undefined)
unfolding byte_at
byte_at-short [] zero h = refl
byte_at-short [] (suc k) h = ground arith
byte_at-short (c ∷ cs) zero h = absurd (omega arith)
byte_at-short (c ∷ cs) (suc k) h = byte_at-short cs k (omega arith) ∙ ground arith

-- How a buffer with a beginning of a part is answered: an error where only its line feed is
-- missing, and a read outside of the buffer where more is.
abbrev pub refusal : ℕ → ProtocolStream → Outcome (Code × ProtocolStream)
refusal k s = if length s.input_buf == k then ret (err, s) else undefined

part_round-short :
    (s : ProtocolStream) (k : ℕ)
    → length s.input_buf ≤ k
    → (resolve_part (pos k) s >>= λ flow. finish_round flow (resolve_loop (length s.input_buf)))
      ≡ refusal k s
part_round-short s k h = unfold resolve_part in rw (byte_at-short s.input_buf k h) (ground arith)

pos-not-minus_one : (k : ℕ) → (pos k ==ℤ minus_one) ≡ false
pos-not-minus_one k = ground arith

pub loop_round :
    (fuel : ℕ) (s : ProtocolStream)
    → is_receive_buf_avaliable s ≡ true
    → resolve_loop (suc fuel) s
      ≡ (resolve_round s >>= λ flow. finish_round flow (resolve_loop fuel))
unfolding resolve_loop
loop_round fuel s h = if_true (is_available (find_newline s.input_buf)) _ _ h

loop-short :
    (s : ProtocolStream) (k : ℕ)
    → s.cur_argv_len ≡ pos k
    → is_receive_buf_avaliable s ≡ true
    → length s.input_buf ≤ k
    → resolve_parts s ≡ refusal k s
loop-short s k len some_line short =
    loop_round (length s.input_buf) s some_line
    ∙ ap (λ (f : Outcome Flow). f >>= λ flow. finish_round flow (resolve_loop (length s.input_buf)))
        (ap (λ (l : ℤ). if l ==ℤ minus_one then resolve_length s else resolve_part l s) len
          ∙ if_false _ _ (resolve_part (pos k) s) (pos-not-minus_one k))
    ∙ part_round-short s k short

-- A stream that has read the head of a command, its type where it has one, and the length `k` of a
-- part, and whose buffer holds a line feed but at most `k` bytes, is not left waiting for the rest:
-- the call is an error if just the closing line feed is missing, and reads outside of its buffer if
-- more is.
pub resolve_receive_buf-short :
    (s : ProtocolStream) (k : ℕ)
    → (s.argc ==ℤ minus_one) ≡ false
    → (s.has_command_type && s.command_type == 0) ≡ false
    → s.cur_argv_len ≡ pos k
    → is_receive_buf_avaliable s ≡ true
    → length s.input_buf ≤ k
    → resolve_receive_buf s ≡ refusal k s
resolve_receive_buf-short s k begun typed len some_line short =
    resolve_stages s s s some_line (if_false (s.argc ==ℤ minus_one) _ _ begun)
      (if_false (s.has_command_type && s.command_type == 0) _ _ typed)
      (loop-short s k len some_line short)
