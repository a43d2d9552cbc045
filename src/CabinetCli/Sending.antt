-- ===== src/CabinetCli/Sending.antt =====
-- What `sendClientInput` writes.
use cabinet.Base.{
  Bytes, List, [], ap, append-nil, append_assoc, arith, drop, if_false, length, map, ok, refl, some,
  suc, take, zero, ℕ, ◌++◌, ◌+◌, ◌-◌, ◌==◌, ◌∙◌, ◌∷◌, ◌≡◌,
}
use cabinet.CabinetCli.{CabinetCli}
use cabinet.CabinetCli.Session.{Sending, sent_behind, send_client_input, send_loop}
use cabinet.Client.{append_parts}
use cabinet.EventPoll.{wrote}
use cabinet.ProtocolStream.{ProtocolStream, append_reply_body}
use cabinet.ProtocolStream.Frame.{parts_text}

abbrev pub sum : List ℕ → ℕ
sum [] = 0
sum (n ∷ ns) = n + sum ns

length-drop : (n : ℕ) (buf : Bytes) → length (drop n buf) ≡ length buf - n
length-drop zero buf = omega arith
length-drop (suc n) [] = omega arith
length-drop (suc n) (c ∷ buf) = omega (arith, length-drop n buf)

take-drop : (n : ℕ) (buf : Bytes) → take n buf ++ drop n buf ≡ buf
take-drop zero buf = refl
take-drop (suc n) [] = refl
take-drop (suc n) (c ∷ buf) = ap (◌∷◌ c) (take-drop n buf)

-- The client with another send buffer.
abbrev pub with_output : Bytes → CabinetCli → CabinetCli
with_output buf cli = record cli {
  protocol_stream = record cli.protocol_stream { output_buf = buf };
}

-- The loop writes the whole buffer, in order, where the results add up to it.
send_loop-writes :
    (ns : List ℕ) (buf : Bytes) (cli : CabinetCli)
    → sum ns ≡ length buf
    → send_loop (map wrote ns) (with_output buf cli) ≡ some (ok, with_output [] cli, buf)
unfolding send_loop
send_loop-writes [] [] cli h = refl
send_loop-writes [] (c ∷ cs) cli h = absurd (omega arith)
send_loop-writes (n ∷ ns) [] cli h = refl
send_loop-writes (n ∷ ns) (c ∷ cs) cli h =
    if_false (suc (length cs) == 0) _ _ (ground arith)
    ∙ ap (sent_behind (take n (c ∷ cs)))
        (send_loop-writes ns (drop n (c ∷ cs)) cli (omega (arith, length-drop n (c ∷ cs))))
    ∙ ap (λ text. (let r : Sending = some (ok, with_output [] cli, text) in r))
        (take-drop n (c ∷ cs))

pub send_client_input-writes :
    (ns : List ℕ) (c : ℕ) (buf : Bytes) (cli : CabinetCli)
    → sum ns ≡ length (c ∷ buf)
    → send_client_input (map wrote ns) (with_output (c ∷ buf) cli)
      ≡ some (ok, with_output [] cli, c ∷ buf)
unfolding send_client_input
send_client_input-writes ns c buf cli h =
    if_false (suc (length buf) == 0) _ _ (ground arith) ∙ send_loop-writes ns (c ∷ buf) cli h

-- Appending parts moves the send buffer alone.
pub append_parts_lem :
    (parts : List Bytes) (s : ProtocolStream)
    → append_parts parts s ≡ record s { output_buf = s.output_buf ++ parts_text parts }
unfolding append_parts append_reply_body parts_text
append_parts_lem [] s = rw append-nil
append_parts_lem (part ∷ parts) s = append_parts_lem parts _ ∙ rw append_assoc
