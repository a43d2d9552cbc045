-- ===== src/ProtocolStream/Shrink.antt =====
-- A call of `resolveReceiveBuf` after which the stream could go on has taken a part of its buffer.
use mathlib.Core.Path.{subst}
use cabinet.Base.{
  Bool-cases, Code, Option, Outcome, abort, arith, err, exit, inl, inr, lebℤ, length,
  length-drop-le, minus_one, none, ok, pos, refl, ret, some, suc, sym, true, undefined, zero, ℕ,
  ◌&&◌, ◌+◌, ◌<◌, ◌==ℤ◌, ◌==◌, ◌>>=◌, ◌≡◌, ◌≤◌,
}
use cabinet.ProtocolStream.{
  Flow, ProtocolStream, argc_stage, byte_at, consume, find_newline, finish_round, head_number,
  is_receive_buf_avaliable, or_abort, pause_unless_avaliable, proceed, resolve_argc,
  resolve_argc_at, resolve_loop, resolve_receive_buf, resolve_round, resolve_type, resolve_type_at,
  return, then_flow, type_stage, wrap_default,
}
use cabinet.ProtocolStream.Partial.{loop_round}
use cabinet.ProtocolStream.Progress.{
  Leaves, Returning, Returning-bind, Returning-if, absurd_line, is_available-filled, loop_stop,
  resolve_round-Leaves,
}

-- Where a call returns no error and the stream could go on, less than `k` bytes are left.
abbrev pub Shrinks : ℕ → Code × ProtocolStream → Type 0
Shrinks k (err, s) = Unit
Shrinks k (ok, s) = is_receive_buf_avaliable s ≡ true → length s.input_buf < k

-- A stage either goes on with no more bytes than before, or returns where nothing is available.
abbrev Stays : ℕ → Flow → Type 0
Stays k (return err s) = Unit
Stays k (return ok s) = is_receive_buf_avaliable s ≡ true → ⊥
Stays k (proceed s) = length s.input_buf ≤ k

module _ (k : ℕ) where
  pause-Stays : (s : ProtocolStream) → length s.input_buf ≤ k → Stays k (pause_unless_avaliable s)
  pause-Stays s short = elim (Bool-cases (is_receive_buf_avaliable s)) [
    | inl more ↦ rw more short
    | inr none_left ↦ rw none_left (λ more. cc)
  ]

  resolve_argc_at-Stays :
      (s : ProtocolStream) (o : Option ℕ)
      → length s.input_buf ≤ k
      → find_newline s.input_buf ≡ o
      → Returning (Stays k) (resolve_argc_at s o)
  unfolding resolve_argc_at
  resolve_argc_at-Stays s none short at_line = λ more. absurd_line s at_line more
  resolve_argc_at-Stays s (some n) short at_line =
      Returning-bind (Stays k) (or_abort (head_number n s.input_buf)) _ (λ argc.
        let s' : ProtocolStream = record s { argc = argc } in
        Returning-if (Stays k) (lebℤ argc (pos 0)) _ _ tt
          (pause-Stays (consume (n + 1) s') (omega (arith, length-drop-le (n + 1) s.input_buf))))

  argc_stage-Stays :
      (s : ProtocolStream) → length s.input_buf ≤ k → Returning (Stays k) (argc_stage s)
  unfolding resolve_argc
  argc_stage-Stays s short =
      Returning-if (Stays k) (s.argc ==ℤ minus_one) _ _
        (Returning-bind (Stays k) (byte_at s.input_buf 0) _ (λ first.
          Returning-if (Stays k) (first == b'*') _ _
            (resolve_argc_at-Stays s (find_newline s.input_buf) short refl) tt))
        short

  resolve_type_at-Stays :
      (s : ProtocolStream) (o : Option ℕ)
      → length s.input_buf ≤ k
      → find_newline s.input_buf ≡ o
      → Returning (Stays k) (resolve_type_at s o)
  unfolding resolve_type_at
  resolve_type_at-Stays s none short at_line = λ more. absurd_line s at_line more
  resolve_type_at-Stays s (some n) short at_line =
      Returning-if (Stays k) (n == 2) _ _
        (Returning-bind (Stays k) (byte_at s.input_buf 1) _ (λ type.
          pause-Stays (consume (n + 1) (record s { command_type = type }))
            (omega (arith, length-drop-le (n + 1) s.input_buf))))
        tt

  type_stage-Stays :
      (s : ProtocolStream) → length s.input_buf ≤ k → Returning (Stays k) (type_stage s)
  unfolding resolve_type
  type_stage-Stays s short =
      Returning-if (Stays k) (s.has_command_type && s.command_type == 0) _ _
        (Returning-bind (Stays k) (byte_at s.input_buf 0) _ (λ first.
          Returning-if (Stays k) (first == b'#') _ _
            (resolve_type_at-Stays s (find_newline s.input_buf) short refl) tt))
        short

  wrap-Shrinks :
      (s : ProtocolStream)
      → (is_receive_buf_avaliable s ≡ true → length s.input_buf < k)
      → Shrinks k (ok, wrap_default s)
  unfolding is_receive_buf_avaliable
  wrap-Shrinks s h = elim (Bool-cases s.wrap_default_command) [
    | inl wraps ↦ rw wraps h
    | inr plain ↦ rw plain h
  ]

  round-Shrinks :
      (m : Outcome Flow) (j : ℕ) (go_on : ProtocolStream → Outcome (Code × ProtocolStream))
      → j ≤ k
      → Returning (Leaves j) m
      → ((t : ProtocolStream) → length t.input_buf < j → Returning (Shrinks k) (go_on t))
      → Returning (Shrinks k) (m >>= λ flow. finish_round flow go_on)
  round-Shrinks (ret (return ok t)) j go_on small h rest =
      wrap-Shrinks t (λ more. let less = h more in omega arith)
  round-Shrinks (ret (return err t)) j go_on small h rest = tt
  round-Shrinks (ret (proceed t)) j go_on small h rest = rest t h
  round-Shrinks exit j go_on small h rest = tt
  round-Shrinks abort j go_on small h rest = tt
  round-Shrinks undefined j go_on small h rest = tt

  resolve_loop-Shrinks :
      (fuel : ℕ) (s : ProtocolStream)
      → length s.input_buf < fuel
      → length s.input_buf ≤ k
      → Returning (Shrinks k) (resolve_loop fuel s)
  resolve_loop-Shrinks zero s enough small = absurd (omega arith)
  resolve_loop-Shrinks (suc fuel) s enough small = elim (Bool-cases (is_receive_buf_avaliable s)) [
    | inl some_line ↦ subst (Returning (Shrinks k)) (sym (loop_round fuel s some_line)) (
        round-Shrinks (resolve_round s) (length s.input_buf) (resolve_loop fuel) small
          (resolve_round-Leaves s
            (is_available-filled s.input_buf (unfold is_receive_buf_avaliable in some_line)))
          (λ t less. resolve_loop-Shrinks fuel t (omega arith) (omega arith)))
    | inr none_left ↦
        subst (Returning (Shrinks k)) (sym (loop_stop fuel s none_left))
          (wrap-Shrinks s (λ more. absurd (cc)))
  ]

  then-Shrinks :
      (m : Outcome Flow) (go_on : ProtocolStream → Outcome (Code × ProtocolStream))
      → Returning (Stays k) m
      → ((t : ProtocolStream) → length t.input_buf ≤ k → Returning (Shrinks k) (go_on t))
      → Returning (Shrinks k) (m >>= λ flow. then_flow flow go_on)
  then-Shrinks (ret (return ok t)) go_on h rest = λ more. absurd (h more)
  then-Shrinks (ret (return err t)) go_on h rest = tt
  then-Shrinks (ret (proceed t)) go_on h rest = rest t h
  then-Shrinks exit go_on h rest = tt
  then-Shrinks abort go_on h rest = tt
  then-Shrinks undefined go_on h rest = tt

-- If the parser returns no error and its stream still has a line feed to read, then fewer bytes are
-- left in the buffer than before.
pub resolve_receive_buf-Shrinks :
    (s : ProtocolStream) → Returning (Shrinks (length s.input_buf)) (resolve_receive_buf s)
unfolding resolve_receive_buf
resolve_receive_buf-Shrinks s = elim (Bool-cases (is_receive_buf_avaliable s)) [
  | inl some_line ↦ rw some_line (
      then-Shrinks k (argc_stage s) _ (argc_stage-Stays k s (omega arith)) (λ t small.
        then-Shrinks k (type_stage t) _ (type_stage-Stays k t small)
          (λ u less. resolve_loop-Shrinks k (suc (length u.input_buf)) u (omega arith) less)))
  | inr none_left ↦ rw none_left (λ more. absurd (cc))
]
  where
    k : ℕ
    k = length s.input_buf
