-- ===== src/EventPoll/Lighter.antt =====
-- How a turn of the loop over the clients that were read changes the clients that wait.
use cabinet.Base.{
  ==ℤ_refl, All, Bool-cases, Bytes, Code, List, Option, Outcome, [], abort, ap, arith, err, exit,
  if_true, if◌then◌else◌, inl, inr, length, lookup, lookup-insert, none, ok, refl, ret, some, suc,
  sym, true, undefined, ℕ, ℤ, ◌++◌, ◌+◌, ◌<◌, ◌==ℤ◌, ◌>>=◌, ◌∙◌, ◌∷◌, ◌≡◌,
}
use cabinet.EventPoll.{Epoll}
use cabinet.EventPoll.Loop.{
  Loop, Methods, Peer, after_execute, after_parse, or_dangling, put_client, read_turn, requeue,
}
use cabinet.ProtocolStream.{
  ProtocolStream, find_newline, is_available, is_receive_buf_avaliable, resolve_receive_buf,
}
use cabinet.ProtocolStream.Progress.{Returning, Returning-if}
use cabinet.ProtocolStream.Shrink.{Shrinks, resolve_receive_buf-Shrinks}
use cabinet.EventPoll.Queue.{
  All-append_one, Apart, Distinct-append, KeepsInputs, Queue, Waiting, delete_client-Queue,
  input_in, input_of, map_append, put-Queue, weight,
}

weight-append :
    (qs : List Waiting) (q : Waiting) → weight (qs ++ q ∷ []) ≡ weight qs + suc (length q.1)
weight-append [] q = omega arith
weight-append (p ∷ qs) q = omega (arith, weight-append qs q)

All-imp {ℓ} :
    {A : Type ℓ} (P Q : A → Type 0) (xs : List A) → ((x : A) → P x → Q x) → All P xs → All Q xs
All-imp P Q [] f h = tt
All-imp P Q (x ∷ xs) f h = (f x h.0, All-imp P Q xs f h.1)

-- Where there is more to resolve, less than `n` bytes.
abbrev Shrunk : ℕ → Bytes → Type 0
Shrunk n buf = is_available (find_newline buf) ≡ true → length buf < n

module _ {K W : Type 0} where
  -- What a turn leaves: the clients that wait are others, with less to read.
  abbrev pub Lighter : ℕ → Loop K W → Type 0
  Lighter k st = (qs : List Waiting) × Queue qs st × (weight qs < k)

  Queue-Lighter :
      (k : ℕ) (qs : List Waiting) (m : Outcome (Loop K W))
      → weight qs < k
      → Returning (Queue qs) m
      → Returning (Lighter k) m
  Queue-Lighter k qs (ret st) less inv = (qs, inv, less)
  Queue-Lighter k qs exit less inv = tt
  Queue-Lighter k qs abort less inv = tt
  Queue-Lighter k qs undefined less inv = tt

  module _ (id : ℤ) (n : ℕ) (buf : Bytes) (qs : List Waiting) (a : Apart id qs)
      (shrunk : Shrunk n buf) where
    requeue_peer-Lighter :
        (st : Loop K W) (peer : Peer)
        → Queue qs st
        → input_of id st ≡ some buf
        → peer.stream.input_buf ≡ buf
        → Lighter (suc n + weight qs) (
            if is_receive_buf_avaliable peer.stream
            then record st { read_list = st.read_list ++ id ∷ [] }
            else st)
    unfolding is_receive_buf_avaliable
    requeue_peer-Lighter st peer inv here same =
        elim (Bool-cases (is_available (find_newline peer.stream.input_buf))) [
          | inl more ↦ rw more (
            qs ++ (id, buf) ∷ [],
            record {
              listed = ap (λ (l : List ℤ). l ++ id ∷ []) inv.listed ∙ sym (map_append qs (id, buf));
              held = All-append_one (λ q. input_of q.0 st ≡ some q.1) qs (id, buf) inv.held here;
              distinct = Distinct-append qs (id, buf) inv.distinct a;
            },
            (let less = shrunk (ap (λ b. is_available (find_newline b)) (sym same) ∙ more) in
                omega (arith, weight-append qs (id, buf))),
          )
          | inr none_left ↦ rw none_left (qs, inv, omega arith)
        ]

    requeue-Lighter :
        (o : Option Peer) (st : Loop K W)
        → lookup id st.clients ≡ o
        → Queue qs st
        → input_in o ≡ some buf
        → Returning (Lighter (suc n + weight qs)) (
            or_dangling o >>= λ peer.
            (let r : Outcome (Loop K W) = ret (
                if is_receive_buf_avaliable peer.stream
                then record st { read_list = st.read_list ++ id ∷ [] }
                else st) in
              r))
    requeue-Lighter none st found inv here = tt
    requeue-Lighter (some peer) st found inv here =
        requeue_peer-Lighter st peer inv (ap input_in found ∙ here) (cc)

    requeue_lem :
        (st : Loop K W)
        → Queue qs st
        → input_of id st ≡ some buf
        → Returning (Lighter (suc n + weight qs)) (requeue id st)
    unfolding requeue
    requeue_lem st inv here = requeue-Lighter (lookup id st.clients) st refl inv here

    execute-Lighter :
        (e : Epoll K) (ops : Methods K W) (st : Loop K W) (m : Outcome (Code × Loop K W))
        → Queue qs st
        → input_of id st ≡ some buf
        → Returning
            (λ done.
              (done.1.read_list ≡ st.read_list)
              × ((j : ℤ) (buf : Bytes) → input_of j st ≡ some buf → input_of j done.1 ≡ some buf))
            m
        → Returning (Lighter (suc n + weight qs)) (m >>= after_execute e ops id)
    execute-Lighter e ops st (ret (err, st')) inv here kept = Queue-Lighter _ qs _ (omega arith) (
        delete_client-Queue e ops id qs st' a (record {
          listed = kept.0 ∙ inv.listed;
          held = All-imp _ _ qs (λ q. kept.1 q.0 q.1) inv.held;
          distinct = inv.distinct;
        }))
    execute-Lighter e ops st (ret (ok, st')) inv here kept =
        requeue_lem st'
          (record {
            listed = kept.0 ∙ inv.listed;
            held = All-imp _ _ qs (λ q. kept.1 q.0 q.1) inv.held;
            distinct = inv.distinct;
          })
          (kept.1 id buf here)
    execute-Lighter e ops st exit inv here kept = tt
    execute-Lighter e ops st abort inv here kept = tt
    execute-Lighter e ops st undefined inv here kept = tt

  module _ (e : Epoll K) (ops : Methods K W) (kept : KeepsInputs ops) (id : ℤ) (n : ℕ)
      (qs : List Waiting) (a : Apart id qs) (st : Loop K W) (inv : Queue qs st) where
    put-here : (peer : Peer) → input_of id (put_client id peer st) ≡ some peer.stream.input_buf
    put-here peer =
        ap input_in (lookup-insert id id peer st.clients ∙ if_true (id ==ℤ id) _ _ (==ℤ_refl id))

    Shrunk-of : (s : ProtocolStream) → Shrinks n (ok, s) → Shrunk n s.input_buf
    unfolding is_receive_buf_avaliable
    Shrunk-of s h = h

    parse-Lighter :
        (peer : Peer) (m : Outcome (Code × ProtocolStream))
        → Returning (Shrinks n) m
        → Returning (Lighter (suc n + weight qs)) (m >>= after_parse e ops id peer st)
    parse-Lighter peer (ret (err, s)) h =
        let peer' : Peer = record peer { stream = s } in
        Queue-Lighter _ qs _ (omega arith) (
          delete_client-Queue e ops id qs (put_client id peer' st) a
            (put-Queue id qs peer' st a inv))
    parse-Lighter peer (ret (ok, s)) h =
        let peer' : Peer = record peer { stream = s } in
        let st' = put_client id peer' st in
        let inv' = put-Queue id qs peer' st a inv in
        Returning-if (Lighter (suc n + weight qs)) s.receive_complete _ _
          (execute-Lighter id n s.input_buf qs a (Shrunk-of s h) e ops st'
            (ops.execute_command id st') inv' (put-here peer') (kept.keeps id st'))
          (requeue_lem id n s.input_buf qs a (Shrunk-of s h) st' inv' (put-here peer'))
    parse-Lighter peer exit h = tt
    parse-Lighter peer abort h = tt
    parse-Lighter peer undefined h = tt

  -- A turn of the loop over the clients that were read, on a client that is not deleted and does not
  -- wait elsewhere, leaves less to do.
  pub read_turn-Lighter :
      (e : Epoll K) (ops : Methods K W) (id : ℤ) (peer : Peer) (qs : List Waiting) (st : Loop K W)
      → KeepsInputs ops
      → lookup id st.clients ≡ some peer
      → Apart id qs
      → Queue qs st
      → Returning (Lighter (suc (length peer.stream.input_buf) + weight qs)) (read_turn e ops id st)
  unfolding read_turn
  read_turn-Lighter e ops id peer qs st kept found a inv = rw found (
      parse-Lighter e ops kept id (length peer.stream.input_buf) qs a st inv peer
        (resolve_receive_buf peer.stream) (resolve_receive_buf-Shrinks peer.stream))
