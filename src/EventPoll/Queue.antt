-- ===== src/EventPoll/Queue.antt =====
-- The clients that wait to be resolved, by their numbers and what is in their buffers.
use cabinet.Base.{
  All, Bytes, List, Option, [], ap, arith, erase, false, if_false, length, lookup, lookup-erase,
  lookup-insert, map, none, refl, some, suc, ℕ, ℤ, ◌++◌, ◌+◌, ◌==ℤ◌, ◌∙◌, ◌∷◌, ◌≡◌,
}
use cabinet.EventPoll.{Epoll, EventPoll, remove_client}
use cabinet.EventPoll.Loop.{Loop, Methods, Peer, delete_client, find_client, put_client}
use cabinet.ProtocolStream.Progress.{Returning, Returning-bind}

abbrev pub input_in : Option Peer → Option Bytes
input_in none = none
input_in (some peer) = some peer.stream.input_buf

-- A client with the bytes in its buffer.
abbrev pub Waiting : Type 0
Waiting = ℤ × Bytes

abbrev pub weight : List Waiting → ℕ
weight [] = 0
weight (q ∷ qs) = suc (length q.1) + weight qs

abbrev pub Apart : ℤ → List Waiting → Type 0
Apart id = All (λ q. (id ==ℤ q.0) ≡ false)

abbrev pub Distinct : List Waiting → Type 0
Distinct [] = Unit
Distinct (q ∷ qs) = Apart q.0 qs × Distinct qs

pub map_append :
    (qs : List Waiting) (q : Waiting)
    → map (λ w. w.0) (qs ++ q ∷ []) ≡ map (λ w. w.0) qs ++ q.0 ∷ []
map_append [] q = refl
map_append (p ∷ qs) q = ap (◌∷◌ p.0) (map_append qs q)

pub All-append_one {ℓ} :
    {A : Type ℓ} (P : A → Type 0) (xs : List A) (x : A) → All P xs → P x → All P (xs ++ x ∷ [])
All-append_one P [] x h p = (p, tt)
All-append_one P (y ∷ xs) x h p = (h.0, All-append_one P xs x h.1 p)

pub Distinct-append :
    (qs : List Waiting) (q : Waiting) → Distinct qs → Apart q.0 qs → Distinct (qs ++ q ∷ [])
Distinct-append [] q d a = (tt, tt)
Distinct-append (p ∷ qs) q d a = (
  All-append_one (λ w. (p.0 ==ℤ w.0) ≡ false) qs q d.0 (ground (arith, a.0)),
  Distinct-append qs q d.1 a.1,
)

module _ {K W : Type 0} where
  abbrev pub input_of : ℤ → Loop K W → Option Bytes
  input_of id st = input_in (lookup id st.clients)

  -- These clients, and no others, wait, each once, and are not deleted.
  pub record Queue (qs : List Waiting) (st : Loop K W) : Type 0 where
    pub listed : st.read_list ≡ map (λ q. q.0) qs
    pub held : All (λ q. input_of q.0 st ≡ some q.1) qs
    pub distinct : Distinct qs

  -- What the loop relies on: a command does not change which clients wait, deletes none, and leaves
  -- what is in their buffers.
  pub record KeepsInputs (ops : Methods K W) : Type 0 where
    pub keeps :
        (id : ℤ) (st : Loop K W)
        → Returning
            (λ done.
              (done.1.read_list ≡ st.read_list)
              × ((j : ℤ) (buf : Bytes) → input_of j st ≡ some buf → input_of j done.1 ≡ some buf))
            (ops.execute_command id st)

  held-Apart :
      (id : ℤ) (qs : List Waiting) (st st' : Loop K W)
      → ((j : ℤ) → (id ==ℤ j) ≡ false → input_of j st' ≡ input_of j st)
      → Apart id qs
      → All (λ q. input_of q.0 st ≡ some q.1) qs
      → All (λ q. input_of q.0 st' ≡ some q.1) qs
  held-Apart id [] st st' same a h = tt
  held-Apart id (q ∷ qs) st st' same a h =
      (same q.0 a.0 ∙ h.0, held-Apart id qs st st' same a.1 h.1)

  pub put-Queue :
      (id : ℤ) (qs : List Waiting) (peer : Peer) (st : Loop K W)
      → Apart id qs
      → Queue qs st
      → Queue qs (put_client id peer st)
  put-Queue id qs peer st a inv = record {
    listed = inv.listed;
    held =
        held-Apart id qs st (put_client id peer st)
          (λ j differs.
            ap input_in (lookup-insert id j peer st.clients ∙ if_false (id ==ℤ j) _ _ differs))
          a inv.held;
    distinct = inv.distinct;
  }

  abbrev without : ℤ → EventPoll K → W → Loop K W → Loop K W
  without id poll world st = record st { poll = poll; clients = erase id st.clients; world = world }

  pub delete_client-Queue :
      (e : Epoll K) (ops : Methods K W) (id : ℤ) (qs : List Waiting) (st : Loop K W)
      → Apart id qs
      → Queue qs st
      → Returning (Queue qs) (delete_client e ops id st)
  unfolding delete_client
  delete_client-Queue e ops id qs st a inv =
      Returning-bind (Queue qs) (find_client id st) _ (λ peer.
        Returning-bind (Queue qs) (remove_client e peer.connection st.poll) _ (λ poll. record {
          listed = inv.listed;
          held =
              held-Apart id qs st (without id poll (ops.delete_client id st) st)
                (λ j differs.
                  ap input_in (lookup-erase id j st.clients ∙ if_false (id ==ℤ j) _ _ differs))
                a inv.held;
          distinct = inv.distinct;
        }))
