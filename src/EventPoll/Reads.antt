-- ===== src/EventPoll/Reads.antt =====
-- The loop over the clients that were read ends.
use mathlib.Core.Path.{subst}
use cabinet.Base.{
  All, Bytes, List, Option, Outcome, [], abort, ap, arith, exit, length, lookup, map, none, refl,
  ret, some, suc, sym, undefined, zero, ℕ, ℤ, ◌+◌, ◌<◌, ◌>>=◌, ◌∷◌, ◌≡◌,
}
use cabinet.EventPoll.{Epoll}
use cabinet.EventPoll.Loop.{Loop, Methods, Peer, read_loop, read_loop_with, read_turn}
use cabinet.EventPoll.Process.{drain, pending_in}
use cabinet.EventPoll.Lighter.{Lighter, read_turn-Lighter}
use cabinet.EventPoll.Queue.{KeepsInputs, Queue, Waiting, input_in, input_of, weight}
use cabinet.ProtocolStream.Progress.{Returning}

module _ {K W : Type 0} (e : Epoll K) (ops : Methods K W) where
  -- A run of `while (!readEventClientList.empty()) { ... }` to its end, with its outcome. Every client
  -- that is popped is one that was not deleted.
  pub data Reads : Loop K W → Outcome (Loop K W) → Type 0 where
    done : (st : Loop K W) → st.read_list ≡ [] → Reads st (ret st)
    -- The turn ends the process, whatever would follow.
    ends :
        (st : Loop K W) (id : ℤ) (ids : List ℤ) (peer : Peer) (r : Outcome (Loop K W))
        → st.read_list ≡ id ∷ ids
        → lookup id st.clients ≡ some peer
        → ((go_on : Loop K W → Outcome (Loop K W))
            → (read_turn e ops id (record st { read_list = ids }) >>= go_on) ≡ r)
        → Reads st r
    next :
        (st st' : Loop K W) (id : ℤ) (ids : List ℤ) (peer : Peer) (r : Outcome (Loop K W))
        → st.read_list ≡ id ∷ ids
        → lookup id st.clients ≡ some peer
        → read_turn e ops id (record st { read_list = ids }) ≡ ret st'
        → Reads st' r
        → Reads st r

  found :
      (o : Option Peer) (buf : Bytes)
      → input_in o ≡ some buf
      → (peer : Peer) × (o ≡ some peer) × (peer.stream.input_buf ≡ buf)
  found none buf h = absurd (cc)
  found (some peer) buf h = (peer, refl, cc)

  module _ (st : Loop K W) (id : ℤ) (ids : List ℤ) (peer : Peer) (fuel : ℕ)
      (listed : st.read_list ≡ id ∷ ids) (here : lookup id st.clients ≡ some peer) (k : ℕ)
      (rest : (st' : Loop K W) → Lighter k st' → Reads st' (read_loop e ops fuel st')) where
    abbrev turn : Outcome (Loop K W)
    turn = read_turn e ops id (record st { read_list = ids })

    turn-Reads :
        (m : Outcome (Loop K W))
        → turn ≡ m
        → Returning (Lighter k) m
        → Reads st (m >>= read_loop e ops fuel)
    turn-Reads (ret st') same light = next st st' id ids peer _ listed here same (rest st' light)
    turn-Reads exit same light =
        ends st id ids peer exit listed here
          (λ go_on. ap (λ (o : Outcome (Loop K W)). o >>= go_on) same)
    turn-Reads abort same light =
        ends st id ids peer abort listed here
          (λ go_on. ap (λ (o : Outcome (Loop K W)). o >>= go_on) same)
    turn-Reads undefined same light =
        ends st id ids peer undefined listed here
          (λ go_on. ap (λ (o : Outcome (Loop K W)). o >>= go_on) same)

  read_loop-Reads :
      (kept : KeepsInputs ops) (fuel : ℕ) (qs : List Waiting) (st : Loop K W)
      → Queue qs st
      → weight qs < fuel
      → Reads st (read_loop e ops fuel st)
  unfolding read_loop
  read_loop-Reads kept zero qs st inv enough = absurd (omega arith)
  read_loop-Reads kept (suc fuel) [] st inv enough =
      subst (λ l. Reads st (read_loop_with e ops (read_loop e ops fuel) l st)) (sym inv.listed)
        (done st inv.listed)
  read_loop-Reads kept (suc fuel) (q ∷ qs) st inv enough =
      let (peer, here, same) = found (lookup q.0 st.clients) q.1 inv.held.0 in
      let ids = map (λ w. w.0) qs in
      let popped : Loop K W = record st { read_list = ids } in
      let inv' : Queue qs popped = record {
        listed = refl;
        held = inv.held.1;
        distinct = inv.distinct.1;
      } in
      subst (λ l. Reads st (read_loop_with e ops (read_loop e ops fuel) l st)) (sym inv.listed)
        (turn-Reads st q.0 ids peer fuel inv.listed here
          (suc (length peer.stream.input_buf) + weight qs)
          (λ st' light.
            read_loop-Reads kept fuel light.0 st' light.1
              (let small = ap length same in let less = light.2 in omega arith))
          (read_turn e ops q.0 popped) refl
          (read_turn-Lighter e ops q.0 peer qs popped kept here inv.distinct.0 inv'))

  pending-weight :
      (qs : List Waiting) (st : Loop K W)
      → All (λ q. input_of q.0 st ≡ some q.1) qs
      → pending_in st.clients (map (λ q. q.0) qs) ≡ weight qs
  pending-weight [] st h = refl
  pending-weight (q ∷ qs) st h =
      let (peer, here, same) = found (lookup q.0 st.clients) q.1 h.0 in
      rw here (let small = ap length same in omega (arith, pending-weight qs st h.1))

  -- If the clients that were read wait once each and none of them is deleted, and commands do not
  -- change who waits, delete no client and leave what is in the buffers, then the loop over these
  -- clients comes to an end after finitely many turns, each of which takes a client that was not
  -- deleted; the outcome is that of the model's loop, whose bound on the turns is the number of the
  -- clients and of the bytes in their buffers.
  pub drain-Reads :
      (qs : List Waiting) (st : Loop K W)
      → KeepsInputs ops
      → Queue qs st
      → Reads st (drain e ops st)
  unfolding drain
  drain-Reads qs st kept inv =
      read_loop-Reads kept (suc (pending_in st.clients st.read_list)) qs st inv
        (omega (arith, pending-weight qs st inv.held, ap (pending_in st.clients) inv.listed))
