-- ===== src/ProtocolStream/Progress.antt =====
-- Every round of the parser's loop takes a part of the buffer, so that the loop ends.
use mathlib.Core.Path.{subst}
use cabinet.Base.{
  Bool, Bool-cases, Bytes, Code, Option, Outcome, [], abort, ap, arith, drop, err, exit, false,
  if_false, if◌then◌else◌, inl, inr, length, length-drop-le, minus_one, negsuc, none, ok, pos, refl,
  ret, some, suc, sym, true, undefined, zero, ℕ, ℤ, ◌+◌, ◌-ℤ◌, ◌<◌, ◌==ℤ◌, ◌==◌, ◌>>=◌, ◌∙◌, ◌∷◌,
  ◌≡◌,
}
use cabinet.ProtocolStream.{
  Flow, ProtocolStream, byte_at, consume, find_newline, finish_round, head_number, is_available,
  is_receive_buf_avaliable, newline, or_abort, proceed, resolve_length, resolve_length_at,
  resolve_loop, resolve_part, resolve_part_of, resolve_parts, resolve_round, return, wrap_default,
}
use cabinet.ProtocolStream.Partial.{loop_round}

-- If a call returns, `P` holds of what it returns.
abbrev pub Returning {ℓ} : {A : Type ℓ} → (A → Type 0) → Outcome A → Type 0
Returning P (ret a) = P a
Returning P exit = Unit
Returning P abort = Unit
Returning P undefined = Unit

pub Returning-bind {ℓ κ} :
    {A : Type ℓ} {B : Type κ} (Q : B → Type 0) (m : Outcome A) (f : A → Outcome B)
    → ((a : A) → Returning Q (f a))
    → Returning Q (m >>= f)
Returning-bind Q (ret a) f h = h a
Returning-bind Q exit f h = tt
Returning-bind Q abort f h = tt
Returning-bind Q undefined f h = tt

pub Returning-if {ℓ} :
    {A : Type ℓ} (P : A → Type 0) (b : Bool) (u v : Outcome A)
    → Returning P u
    → Returning P v
    → Returning P (if b then u else v)
Returning-if P true u v hu hv = hu
Returning-if P false u v hu hv = hv

-- Where the parser goes on, or returns with no error and could go on, less than `k` bytes are left.
abbrev pub Leaves : ℕ → Flow → Type 0
Leaves k (return err s) = Unit
Leaves k (return ok s) = is_receive_buf_avaliable s ≡ true → length s.input_buf < k
Leaves k (proceed s) = length s.input_buf < k

length-drop-suc : (n : ℕ) (buf : Bytes) → 0 < length buf → length (drop (n + 1) buf) < length buf
length-drop-suc n buf filled = go (n + 1) buf (omega arith) filled
  where
    go : (k : ℕ) (buf : Bytes) → 0 < k → 0 < length buf → length (drop k buf) < length buf
    go zero buf positive filled = absurd (omega arith)
    go (suc k) [] positive filled = absurd (omega arith)
    go (suc k) (c ∷ buf) positive filled = omega (arith, length-drop-le k buf)

pub is_available-filled : (buf : Bytes) → is_available (find_newline buf) ≡ true → 0 < length buf
unfolding find_newline
is_available-filled [] here = absurd (ground arith)
is_available-filled (c ∷ buf) here = omega arith

-- A stream whose buffer has no line feed is not available.
pub absurd_line {ℓ} :
    {A : Type ℓ} (s : ProtocolStream)
    → find_newline s.input_buf ≡ none
    → is_receive_buf_avaliable s ≡ true
    → A
unfolding is_receive_buf_avaliable
absurd_line s at_line more = absurd (cc (ap is_available at_line))

module _ (s : ProtocolStream) (filled : 0 < length s.input_buf) where
  abbrev pub left : ℕ
  left = length s.input_buf

  resolve_length_at-Leaves :
      (o : Option ℕ)
      → find_newline s.input_buf ≡ o
      → Returning (Leaves left) (resolve_length_at s o)
  unfolding resolve_length_at is_receive_buf_avaliable
  resolve_length_at-Leaves none at_line = λ more. absurd_line s at_line more
  resolve_length_at-Leaves (some n) at_line =
      Returning-bind (Leaves left) (or_abort (head_number n s.input_buf))
        (λ len. ret (proceed (consume (n + 1) (record s { cur_argv_len = len }))))
        (λ len. length-drop-suc n s.input_buf filled)

  resolve_length-Leaves : Returning (Leaves left) (resolve_length s)
  unfolding resolve_length
  resolve_length-Leaves =
      Returning-bind (Leaves left) (byte_at s.input_buf 0)
        (λ first.
          if first == b'$'
          then resolve_length_at s (find_newline s.input_buf)
          else ret (return err s))
        (λ first.
          Returning-if (Leaves left) (first == b'$') _ _
            (resolve_length_at-Leaves (find_newline s.input_buf) refl) tt)

  resolve_part-Leaves : (len : ℤ) → Returning (Leaves left) (resolve_part len s)
  unfolding resolve_part resolve_part_of
  resolve_part-Leaves (negsuc n) = tt
  resolve_part-Leaves (pos len) = Returning-bind (Leaves left) (byte_at s.input_buf len) _ (λ end.
      Returning-if (Leaves left) (end == newline) _ _
        (Returning-if (Leaves left) ((s.argc -ℤ pos 1) ==ℤ pos 0) _ _
          (λ more. length-drop-suc len s.input_buf filled) (length-drop-suc len s.input_buf filled))
        tt)

  pub resolve_round-Leaves : Returning (Leaves left) (resolve_round s)
  resolve_round-Leaves =
      Returning-if (Leaves left) (s.cur_argv_len ==ℤ minus_one) _ _ resolve_length-Leaves
        (resolve_part-Leaves s.cur_argv_len)

-- A run of `while (isReceiveBufAvaliable()) { ... }` and of what follows it, to its end, with the
-- outcome of the call.
pub data Runs : ProtocolStream → Outcome (Code × ProtocolStream) → Type 0 where
  -- The condition of the loop fails.
  stops :
      (s : ProtocolStream) → is_receive_buf_avaliable s ≡ false → Runs s (ret (ok, wrap_default s))
  -- The round ends the call, whatever would follow.
  leaves :
      (s : ProtocolStream) (r : Outcome (Code × ProtocolStream))
      → is_receive_buf_avaliable s ≡ true
      → ((go_on : ProtocolStream → Outcome (Code × ProtocolStream))
          → (resolve_round s >>= λ flow. finish_round flow go_on) ≡ r)
      → Runs s r
  goes_on :
      (s t : ProtocolStream) (r : Outcome (Code × ProtocolStream))
      → is_receive_buf_avaliable s ≡ true
      → resolve_round s ≡ ret (proceed t)
      → Runs t r
      → Runs s r

pub loop_stop :
    (fuel : ℕ) (s : ProtocolStream)
    → is_receive_buf_avaliable s ≡ false
    → resolve_loop (suc fuel) s ≡ ret (ok, wrap_default s)
unfolding resolve_loop
loop_stop fuel s h = if_false (is_available (find_newline s.input_buf)) _ _ h

module _ (s : ProtocolStream) (some_line : is_receive_buf_avaliable s ≡ true) (fuel : ℕ)
    (rest : (t : ProtocolStream)
      → length t.input_buf < length s.input_buf
      → Runs t (resolve_loop fuel t)) where
  ends :
      (m : Outcome Flow)
      → resolve_round s ≡ m
      → ((go_on : ProtocolStream → Outcome (Code × ProtocolStream))
          → (m >>= λ flow. finish_round flow go_on)
            ≡ (m >>= λ flow. finish_round flow (resolve_loop fuel)))
      → Runs s (m >>= λ flow. finish_round flow (resolve_loop fuel))
  ends m round same =
      leaves s _ some_line
        λ go_on. ap (λ (o : Outcome Flow). o >>= λ flow. finish_round flow go_on) round ∙ same go_on

  round-Runs :
      (m : Outcome Flow)
      → resolve_round s ≡ m
      → Returning (Leaves (length s.input_buf)) m
      → Runs s (m >>= λ flow. finish_round flow (resolve_loop fuel))
  round-Runs (ret (return ok t)) round less = ends (ret (return ok t)) round (λ go_on. refl)
  round-Runs (ret (return err t)) round less = ends (ret (return err t)) round (λ go_on. refl)
  round-Runs (ret (proceed t)) round less = goes_on s t _ some_line round (rest t less)
  round-Runs exit round less = ends exit round (λ go_on. refl)
  round-Runs abort round less = ends abort round (λ go_on. refl)
  round-Runs undefined round less = ends undefined round (λ go_on. refl)

resolve_loop-Runs :
    (fuel : ℕ) (s : ProtocolStream) → length s.input_buf < fuel → Runs s (resolve_loop fuel s)
resolve_loop-Runs zero s enough = absurd (omega arith)
resolve_loop-Runs (suc fuel) s enough = elim (Bool-cases (is_receive_buf_avaliable s)) [
  | inl some_line ↦ subst (Runs s) (sym (loop_round fuel s some_line)) (
      round-Runs s some_line fuel (λ t less. resolve_loop-Runs fuel t (omega arith))
        (resolve_round s) refl
        (resolve_round-Leaves s
          (is_available-filled s.input_buf (unfold is_receive_buf_avaliable in some_line))))
  | inr none_left ↦ subst (Runs s) (sym (loop_stop fuel s none_left)) (stops s none_left)
]

-- From every stream, the loop over the parts comes to an end after finitely many rounds, by its
-- condition or in a round that ends the call, and the parser's outcome is the one of this run: the
-- number of bytes in the buffer, and one more, bounds its rounds.
pub resolve_parts-Runs : (s : ProtocolStream) → Runs s (resolve_parts s)
resolve_parts-Runs s = resolve_loop-Runs (suc (length s.input_buf)) s (omega arith)
