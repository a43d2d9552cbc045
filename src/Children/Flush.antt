-- ===== src/Children/Flush.antt =====
-- The committed entries reach the servers.
use mathlib.Core.Path.{subst}
use cabinet.Base.{
  ==ℤ_iff, ==ℤ_refl, All, Bytes, List, Outcome, [], ap, append_assoc, arith, false, inl, inr,
  length, length-append, ltbℤ, ok, pos, refl, ret, some, suc, sym, zero, ℕ, ℤ, ◌%◌, ◌++◌, ◌+ℤ◌, ◌+◌,
  ◌<ℤ◌, ◌<◌, ◌==ℤ◌, ◌==◌, ◌>>=◌, ◌∙◌, ◌∷◌, ◌≡◌, ◌⊎◌,
}
use cabinet.Children.{
  Children, flush_found, flush_server, get_respond_server, hash_value_max, is_empty, key_of,
  respond_resolved, send_to, server_of_hash,
}
use cabinet.Children.Invariant.{IsWired}
use cabinet.Children.Routing.{server_of_hash-IsChosen}
use cabinet.Client.{Client, Sent}
use cabinet.Cluster.{Cluster}
use cabinet.Entry.{Entry, empty_entry}
use cabinet.Number.{int_half}
use cabinet.PersistenceFile.{find_entry}
use cabinet.PersistenceFile.Abstract.{Holds, find, last_from}
use cabinet.PersistenceFile.Contiguous.{IsContiguous, find-here, find-skip, next_index}
use cabinet.PersistenceFile.Refinement.{find_entry-Holds, found_or}
use cabinet.ProtocolStream.{fill_receive_buf, newline, resolve_receive_buf}
use cabinet.ProtocolStream.Loop.{IsPart}
use cabinet.ProtocolStream.Frame.{frame}
use cabinet.Server.Replay.{Request, parts_of, resolve_frame, start}

-- The content of an entry is a command as a client sends it, of any type, which is no line feed: `w`
-- for `set` and `del`, `r` for `get`.
pub record IsSendable (e : Entry) : Type 0 where
  pub request : Request
  pub type : ℕ
  pub text : e.content ≡ frame type (parts_of request)
  pub typed : (type == newline) ≡ false
  pub few : length (parts_of request) < int_half
  pub fit : All IsPart (parts_of request)

-- The servers are wired, and there is one.
pub record IsUp (ch : Children) : Type 0 where
  pub wired : IsWired ch
  pub filled : is_empty ch.consistent_hash_and_server_id_map ≡ false

-- What is hashed of a command: its second part, or the first of one that has no other.
abbrev pub hashed : Request → Bytes
hashed r = elim r.args [ [] ↦ r.name | key ∷ rest ↦ key ]

key_of-parts : (r : Request) → key_of (parts_of r) ≡ ret (hashed r)
key_of-parts r = go r.args
  where
    go :
        (args : List Bytes)
        → key_of (r.name ∷ args) ≡ ret (elim args [ [] ↦ r.name | key ∷ rest ↦ key ])
    go [] = refl
    go (key ∷ rest) = ground arith

get_respond_server_lem :
    (hash : Bytes → ℕ) (content : Bytes) (ch : Children)
    → get_respond_server hash content ch
      ≡ (resolve_receive_buf (fill_receive_buf content start) >>= respond_resolved hash ch)
get_respond_server_lem hash content ch = unfold get_respond_server in refl

-- The command goes where its hash says.
get_respond_server-request :
    (hash : Bytes → ℕ) (type : ℕ) (r : Request) (ch : Children)
    → (type == newline) ≡ false
    → length (parts_of r) < int_half
    → All IsPart (parts_of r)
    → get_respond_server hash (frame type (parts_of r)) ch
      ≡ server_of_hash (pos (hash (hashed r) % hash_value_max)) ch
get_respond_server-request hash type r ch typed few fit =
    get_respond_server_lem hash (frame type (parts_of r)) ch
    ∙ ap (λ o. o >>= respond_resolved hash ch) (resolve_frame type r typed few fit)
    ∙ ap (λ o. o >>= λ key. server_of_hash (pos (hash key % hash_value_max)) ch) (key_of-parts r)

find_contiguous :
    (i : ℤ) (n : ℕ) (done : List Entry) (e : Entry) (rest : List Entry)
    → i ≡ pos (n + length done)
    → IsContiguous n (done ++ e ∷ rest)
    → find i (done ++ e ∷ rest) ≡ some e
find_contiguous i n [] e rest here (index, tail) =
    find-here i e rest ((==ℤ_iff e.index i).1 (index ∙ ap pos (omega arith) ∙ sym here))
find_contiguous i n (z ∷ done) e rest here (index, tail) =
    find-skip i z (done ++ e ∷ rest) (rw (index, here) (ground arith))
    ∙ find_contiguous i (suc n) done e rest (here ∙ ap pos (omega arith)) tail

-- The entries that are due: they stand in the log behind as many as were sent, and are committed.
pub record IsDue (c : Cluster) (es done : List Entry) (e : Entry) (rest : List Entry) : Type 0 where
  pub log : es ≡ done ++ e ∷ rest
  pub numbered : IsContiguous 1 es
  pub holds : Holds c.pf es
  pub applied : c.last_applied ≡ pos (length done)
  pub committed : c.last_applied <ℤ c.commit_index

flush_server_lem :
    (hash : Bytes → ℕ) (ch : Children) (c : Cluster)
    → c.last_applied <ℤ c.commit_index
    → flush_server hash ch c ≡ (
        let c' : Cluster = record c { last_applied = c.last_applied +ℤ pos 1 } in
        flush_found hash ch c' (find_entry c'.last_applied c'.pf empty_entry))
unfolding flush_server
flush_server_lem hash ch c less =
    let other : (c.commit_index ==ℤ c.last_applied) ≡ false = ground arith in
    let above : ltbℤ c.commit_index c.last_applied ≡ false = ground arith in rw (other, above) refl

-- The content of an entry, sent to the server that the hash of the command chooses.
pub record IsDelivered (hash : Bytes → ℕ) (ch : Children) (e : Entry) (sent : Sent) : Type 0 where
  request : Request
  type : ℕ
  server : Client
  command : e.content ≡ frame type (parts_of request)
  chosen : server_of_hash (pos (hash (hashed request) % hash_value_max)) ch ≡ ret (some server)
  message : sent ≡ record { receiver = server.client_id; text = e.content }

-- The entries, each sent once and in this order.
abbrev pub AreDelivered : (Bytes → ℕ) → Children → List Entry → List Sent → Type 0
AreDelivered hash ch [] [] = Unit
AreDelivered hash ch (e ∷ es) (sent ∷ sents) =
    IsDelivered hash ch e sent × AreDelivered hash ch es sents
AreDelivered hash ch [] (sent ∷ sents) = ⊥
AreDelivered hash ch (e ∷ es) [] = ⊥

abbrev pub applied_to : ℤ → Cluster → Cluster
applied_to i c = record c { last_applied = i }

module _ (hash : Bytes → ℕ) (ch : Children) (up : IsUp ch) where
  -- the next entry, sent to the server for its key
  flush_server-next :
      (c : Cluster) (es done : List Entry) (e : Entry) (rest : List Entry)
      → IsSendable e
      → IsDue c es done e rest
      → (sent : Sent) × (flush_server hash ch c
          ≡ ret (ok, applied_to (pos (suc (length done))) c, sent ∷ []))
        × IsDelivered hash ch e sent
  flush_server-next c es done e rest sendable due =
      let i = pos (suc (length done)) in
      let next : c.last_applied +ℤ pos 1 ≡ i =
        ap (λ i. i +ℤ pos 1) due.applied ∙ next_index (length done) in
      let found : find i es ≡ some e =
        ap (find i) due.log
        ∙ find_contiguous i 1 done e rest (ap pos (omega arith))
            (subst (IsContiguous 1) due.log due.numbered) in
      let (k, id, server, given, has, on, chosen) =
        server_of_hash-IsChosen (pos (hash (hashed sendable.request) % hash_value_max)) ch up.wired
          up.filled in
      (
        record { receiver = server.client_id; text = e.content },
        flush_server_lem hash ch c due.committed
            ∙ ap (λ i. flush_found hash ch (applied_to i c) (find_entry i c.pf empty_entry)) next
            ∙ ap (flush_found hash ch (applied_to i c)) (
                find_entry-Holds due.holds i empty_entry
                ∙ ap (λ o. found_or o (last_from empty_entry es)) found)
            ∙ ap (λ o. o >>= λ to. ret (send_to (applied_to i c) e.content to))
                (ap (λ text. get_respond_server hash text ch) sendable.text
                  ∙ get_respond_server-request hash sendable.type sendable.request ch sendable.typed
                      sendable.few sendable.fit
                  ∙ given),
        record {
          request = sendable.request;
          type = sendable.type;
          server = server;
          command = sendable.text;
          chosen = given;
          message = refl;
        },
      )

-- There is nothing to send, or the next entry is due and a command of a client.
abbrev pub IsFlushable : Cluster → Type 0
IsFlushable c =
    (c.commit_index ≡ c.last_applied)
    ⊎ ((es done : List Entry) × (e : Entry) × (rest : List Entry) × IsSendable e
        × IsDue c es done e rest)

flush_server-none :
    (hash : Bytes → ℕ) (ch : Children) (c : Cluster)
    → c.commit_index ≡ c.last_applied
    → flush_server hash ch c ≡ ret (ok, c, [])
unfolding flush_server
flush_server-none hash ch c same = rw (same, ==ℤ_refl) refl

pub flush_server-returns :
    (hash : Bytes → ℕ) (ch : Children) (c : Cluster)
    → IsUp ch
    → IsFlushable c
    → (i : ℤ) × (sent : List Sent) × (flush_server hash ch c ≡ ret (ok, applied_to i c, sent))
flush_server-returns hash ch c up (inl same) =
    (c.last_applied, [], flush_server-none hash ch c same)
flush_server-returns hash ch c up (inr (es, done, e, rest, sendable, due)) =
    let (sent, step, delivered) = flush_server-next hash ch up c es done e rest sendable due in
    (pos (suc (length done)), sent ∷ [], step)

-- One call of `flushServer` after the other, as `Cluster::cron` makes them: it goes on after an
-- error.
pub flush_servers : (Bytes → ℕ) → Children → ℕ → Cluster → Outcome (Cluster × List Sent)
unfolding flush_server
flush_servers hash ch zero c = ret (c, [])
flush_servers hash ch (suc n) c = do
  (code, c', sent) ← flush_server hash ch c
  (last, more) ← flush_servers hash ch n c'
  ret (last, sent ++ more)

flush_servers-suc :
    (hash : Bytes → ℕ) (ch : Children) (n : ℕ) (c : Cluster)
    → flush_servers hash ch (suc n) c ≡ (
        flush_server hash ch c >>= λ step.
        flush_servers hash ch n step.1 >>= λ later. ret (later.0, step.2 ++ later.1))
unfolding flush_servers
flush_servers-suc hash ch n c = refl

flush_servers-zero :
    (hash : Bytes → ℕ) (ch : Children) (c : Cluster) → flush_servers hash ch 0 c ≡ ret (c, [])
unfolding flush_servers
flush_servers-zero hash ch c = refl

-- If the log that the file holds is numbered from 1, its first entries were sent and those of `due`
-- behind them are the other committed ones, every one of `due` is a command of a client, of any type
-- that is no line feed, with fewer than 2 ^ 31 parts, each shorter than 2 ^ 31, and the consistent hash
-- is not empty and holds only connected servers of the configuration, each at its slot and in ascending
-- order of the slots, and -1 is no server's number, then as many calls of `flushServer` as `due` has
-- entries succeed, send the content of each of these entries once, in the order of the log, to the
-- server that the hash of its key chooses, and leave `lastApplied` at `commitIndex`.
pub flush_servers-AreDelivered :
    (hash : Bytes → ℕ) (ch : Children) (c : Cluster) (es done due rest : List Entry)
    → IsUp ch
    → Holds c.pf es
    → IsContiguous 1 es
    → es ≡ done ++ (due ++ rest)
    → c.last_applied ≡ pos (length done)
    → c.commit_index ≡ pos (length done + length due)
    → All IsSendable due
    → (sents : List Sent) × (flush_servers hash ch (length due) c
        ≡ ret (applied_to c.commit_index c, sents))
      × AreDelivered hash ch due sents
flush_servers-AreDelivered hash ch c es done [] rest up holds numbered log applied commit sendable =
    (
      [],
      flush_servers-zero hash ch c
          ∙ ap (λ i. (let r : Outcome (Cluster × List Sent) = ret (applied_to i c, []) in r))
              (applied ∙ ap pos (omega arith) ∙ sym commit),
      tt,
    )
flush_servers-AreDelivered hash ch c es done (e ∷ due) rest up holds numbered log applied commit
      sendable =
    let (sent, step, delivered) =
      flush_server-next hash ch up c es done e (due ++ rest) sendable.0 (record {
        log = log;
        numbered = numbered;
        holds = holds;
        applied = applied;
        committed = rw (applied, commit) (omega arith);
      }) in
    let c' = applied_to (pos (suc (length done))) c in
    let (sents, others, all) =
      flush_servers-AreDelivered hash ch c' es (done ++ e ∷ []) due rest up holds numbered
        (log ∙ sym (append_assoc done (e ∷ []) (due ++ rest)))
        (ap pos (sym (length-append done (e ∷ []) ∙ omega arith)))
        (commit ∙ ap pos (omega (arith, length-append done (e ∷ [])))) sendable.1 in
    (
      sent ∷ sents,
      flush_servers-suc hash ch (length due) c
          ∙ ap
              (λ o. o >>= λ step. flush_servers hash ch (length due) step.1 >>= λ later.
                ret (later.0, step.2 ++ later.1))
              step
          ∙ ap
              (λ o. o >>= λ later.
                (let r : Outcome (Cluster × List Sent) = ret (later.0, sent ∷ later.1) in r))
              others,
      (delivered, all),
    )
