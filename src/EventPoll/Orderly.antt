-- ===== src/EventPoll/Orderly.antt =====
-- The clients in memory: their numbers and their descriptors.
use mathlib.Core.Path.{subst}
use cabinet.Base.{
  Option, ==ℤ_iff, Bool-cases, IntMap, ap, arith, erase, false, if_false, if_true, inl, inr, insert,
  lookup, lookup-erase, lookup-insert, none, refl, some, sym, true, ℤ, ◌<ℤ◌, ◌==ℤ◌, ◌∙◌, ◌≡◌, ◌⊎◌,
}
use cabinet.EventPoll.Loop.{Peer}

-- Each client has a number below the next one, and a descriptor of its own.
pub record IsOrderly (clients : IntMap Peer) (next : ℤ) : Type 0 where
  pub numbered : (id : ℤ) (p : Peer) → lookup id clients ≡ some p → id <ℤ next
  pub distinct :
      (i j : ℤ) (p q : Peer)
      → lookup i clients ≡ some p
      → lookup j clients ≡ some q
      → p.connection.fd ≡ q.connection.fd
      → i ≡ j

module _ (id : ℤ) (peer : Peer) (clients : IntMap Peer) where
  insert-back :
      (j : ℤ) (p : Peer)
      → lookup j (insert id peer clients) ≡ some p
      → ((id ≡ j) × (peer ≡ p)) ⊎ (lookup j clients ≡ some p)
  insert-back j p h =
      let law = lookup-insert id j peer clients in
      elim (Bool-cases (id ==ℤ j)) [
        | inl equal ↦
            let there = sym (law ∙ if_true (id ==ℤ j) _ _ equal) ∙ h in
            inl ((==ℤ_iff id j).0 equal, cc)
        | inr differs ↦ inr (sym (law ∙ if_false (id ==ℤ j) _ _ differs) ∙ h)
      ]

  erase-back : (j : ℤ) (p : Peer) → lookup j (erase id clients) ≡ some p → lookup j clients ≡ some p
  erase-back j p h =
      let law = lookup-erase id j clients in
      elim (Bool-cases (id ==ℤ j)) [
        | inl equal ↦ let there = sym (law ∙ if_true (id ==ℤ j) _ _ equal) ∙ h in absurd (cc)
        | inr differs ↦ sym (law ∙ if_false (id ==ℤ j) _ _ differs) ∙ h
      ]

  -- A client is stored again with its descriptor.
  pub put-IsOrderly :
      (next : ℤ) (old : Peer)
      → IsOrderly clients next
      → lookup id clients ≡ some old
      → old.connection.fd ≡ peer.connection.fd
      → IsOrderly (insert id peer clients) next
  put-IsOrderly next old o found same = record {
    numbered = λ j p h. (let (q, there, fds) = back j p h in o.numbered j q there);
    distinct = λ i j p q hi hj fds.
        (let (p', at_i, same_i) = back i p hi in
          let (q', at_j, same_j) = back j q hj in
          o.distinct i j p' q' at_i at_j (same_i ∙ fds ∙ sym same_j));
  }
    where
      back :
          (j : ℤ) (p : Peer)
          → lookup j (insert id peer clients) ≡ some p
          → (q : Peer) × (lookup j clients ≡ some q) × (q.connection.fd ≡ p.connection.fd)
      back j p h = elim (insert-back j p h) [
        | inl (ids, peers) ↦ (
          old,
          ap (λ i. lookup i clients) (sym ids) ∙ found,
          same ∙ ap (λ (q : Peer). q.connection.fd) peers,
        )
        | inr there ↦ (p, there, refl)
      ]

  pub erase-IsOrderly : (next : ℤ) → IsOrderly clients next → IsOrderly (erase id clients) next
  erase-IsOrderly next o = record {
    numbered = λ j p h. o.numbered j p (erase-back j p h);
    distinct = λ i j p q hi hj fds. o.distinct i j p q (erase-back i p hi) (erase-back j q hj) fds;
  }

  -- A new client has the next number, and a descriptor that no client has.
  pub add-IsOrderly :
      (next : ℤ)
      → IsOrderly clients id
      → id <ℤ next
      → ((j : ℤ) (p : Peer)
          → lookup j clients ≡ some p
          → (p.connection.fd ==ℤ peer.connection.fd) ≡ false)
      → IsOrderly (insert id peer clients) next
  add-IsOrderly next o less apart = record {
    numbered = λ j p h. elim (insert-back j p h) [
      | inl (ids, peers) ↦ subst (λ i. i <ℤ next) ids less
      | inr there ↦ (let before = o.numbered j p there in omega arith)
    ];
    distinct = λ i j p q hi hj fds. elim (insert-back i p hi) [
      | inl (ids, peers) ↦ elim (insert-back j q hj) [
        | inl (ids', peers') ↦ sym ids ∙ ids'
        | inr there ↦
            absurd (clash j q there (sym fds ∙ sym (ap (λ (x : Peer). x.connection.fd) peers)))
      ]
      | inr here ↦ elim (insert-back j q hj) [
        | inl (ids', peers') ↦
            absurd (clash i p here (fds ∙ sym (ap (λ (x : Peer). x.connection.fd) peers')))
        | inr there ↦ o.distinct i j p q here there fds
      ]
    ];
  }
    where
      clash :
          (j : ℤ) (p : Peer) → lookup j clients ≡ some p → p.connection.fd ≡ peer.connection.fd → ⊥
      clash j p h fds =
          let other = apart j p h in
          let same : (p.connection.fd ==ℤ peer.connection.fd) ≡ true =
            (==ℤ_iff p.connection.fd peer.connection.fd).1 fds in
          cc

  -- The next number is no client's.
  pub next_free : IsOrderly clients id → lookup id clients ≡ none
  next_free o = go (lookup id clients) refl
    where
      go : (r : Option Peer) → lookup id clients ≡ r → r ≡ none
      go none h = refl
      go (some p) h = let less = o.numbered id p h in absurd (omega arith)
