-- ===== src/RequestVote/Elected.antt =====
-- How a candidate becomes a leader: the answers that it takes, one after the other.
use cabinet.Base.{
  +ℤ_parts, Bool, Bytes, Code, List, Option, Outcome, [], abort, arith, codes, exit, false,
  get_elem?, if◌then◌else◌, inl, inr, int_laws, lebℤ, ltbℤ, none, not, ok, pos, refl, ret,
  same_bytes, some, suc, true, undefined, ℕ, ℤ, ◌+ℤ◌, ◌+◌, ◌>>=◌, ◌∷◌, ◌≡◌, ◌≤ℤ◌, ◌≤◌, ◌⊎◌,
}
use cabinet.Client.{Client, Sent, long_arg}
use cabinet.Cluster.{Cluster, as_candidate, is_candidate, is_leader, to_follow, to_lead}
use cabinet.RequestVote.{Done, handle_vote_reply, reply_request_vote}

-- The answers are taken in this order. The process ends where one of them ends it.
unfoldable pub take_vote_replies : ℤ → List Client → Cluster → Outcome Cluster
unfolding reply_request_vote
take_vote_replies now [] c = ret c
take_vote_replies now (client ∷ clients) c =
    reply_request_vote now client c >>= λ done. take_vote_replies now clients done.1

-- Whether the fifth argument of an answer is "true".
abbrev pub grants_vote : Client → Bool
grants_vote client = elim (get_elem? client.argv 4) [
  | none ↦ false
  | some part ↦ same_bytes part (codes "true")
]

abbrev pub one_if : Bool → ℕ
one_if true = 1
one_if false = 0

unfoldable pub granted_votes : List Client → ℕ
granted_votes [] = 0
granted_votes (client ∷ clients) = one_if (grants_vote client) + granted_votes clients

-- What holds of the node where the process goes on.
abbrev pub IfReturns {ℓ} : {A : Type ℓ} → (A → Type 0) → Outcome A → Type 0
IfReturns P (ret a) = P a
IfReturns P exit = Unit
IfReturns P abort = Unit
IfReturns P undefined = Unit

-- With `more` votes still to come, the node has no more than `total` of them, or leads, and then
-- `total` is enough.
abbrev Counted : ℤ → ℤ → ℕ → Cluster → Type 0
Counted baseline total more c =
    (c.win_vote_baseline ≡ baseline)
    × (((is_leader c.role ≡ false) × (c.receive_votes +ℤ pos more ≤ℤ total)) ⊎ (baseline ≤ℤ total))

fewer-Counted :
    (baseline total : ℤ) (g more : ℕ) (c : Cluster)
    → Counted baseline total (g + more) c
    → Counted baseline total more c
fewer-Counted baseline total g more c (b, inl (role, h)) = (
  b,
  inl (
    role,
    omega
        (int_laws, +ℤ_parts c.receive_votes (pos (g + more)), +ℤ_parts c.receive_votes (pos more)),
  ),
)
fewer-Counted baseline total g more c (b, inr h) = (b, inr h)

module _ (now baseline total : ℤ) where
  Counted-if :
      (more : ℕ) (b : Bool) (u v : Cluster)
      → (b ≡ true → Counted baseline total more u)
      → (b ≡ false → Counted baseline total more v)
      → Counted baseline total more (if b then u else v)
  Counted-if more true u v hu hv = hu refl
  Counted-if more false u v hu hv = hv refl

  voted-Counted :
      (g more : ℕ) (c : Cluster)
      → 1 ≤ g
      → Counted baseline total (g + more) c
      → (let c' : Cluster = record c { receive_votes = c.receive_votes +ℤ pos 1 } in
          Counted baseline total more
            (if lebℤ c'.win_vote_baseline c'.receive_votes then to_lead c' else c'))
  unfolding to_lead
  voted-Counted g more c one (b, inr h) = Counted-if more _ _ _ (λ _. (b, inr h)) (λ _. (b, inr h))
  voted-Counted g more c one (b, inl (role, h)) =
      let sum = +ℤ_parts c.receive_votes (pos 1) in
      let all = +ℤ_parts c.receive_votes (pos (g + more)) in
      Counted-if more _ _ _
        (λ enough. (
          b,
          inr (
              let base : c.win_vote_baseline ≤ℤ baseline = rw b (omega arith) in
              let base' : baseline ≤ℤ c.win_vote_baseline = rw b (omega arith) in
              ground (arith, sum, all, enough)),
        ))
        (λ _.
          (b, inl (role, omega (arith, sum, all, +ℤ_parts (c.receive_votes +ℤ pos 1) (pos more)))))

  handle_vote_reply-Counted :
      (term : ℤ) (granted : Bytes) (g more : ℕ) (c : Cluster)
      → (same_bytes granted (codes "true") ≡ true → 1 ≤ g)
      → Counted baseline total (g + more) c
      → Counted baseline total more (handle_vote_reply now term granted c)
  unfolding handle_vote_reply to_follow
  handle_vote_reply-Counted term granted g more c one h =
      let later = fewer-Counted baseline total g more c h in
      Counted-if more (ltbℤ c.current_term term) _ _
        (λ _. (later.0, elim later.1 [ inl k ↦ inl (refl, k.1) | inr k ↦ inr k ]))
        (λ _.
          Counted-if more (not (same_bytes granted (codes "true"))) _ _ (λ _. later)
            (λ yes. voted-Counted g more c (one (ground arith)) h))

  one_if-true : (b : Bool) → b ≡ true → 1 ≤ one_if b
  one_if-true true h = omega arith
  one_if-true false h = cc

  answer-Counted :
      (more : ℕ) (c : Cluster) (o : Option Bytes) (m : Outcome ℤ)
      → Counted baseline total
          (one_if (elim o [ none ↦ false | some part ↦ same_bytes part (codes "true") ]) + more)
          c
      → IfReturns
          (λ (done : Code × Cluster × List Sent). Counted baseline total more done.1)
          (elim o [ none ↦ undefined | some part ↦ ret part ] >>= λ granted.
            m >>= λ term. ret (ok, handle_vote_reply now term granted c, []))
  answer-Counted more c none m h = tt
  answer-Counted more c (some granted) (ret term) h =
      handle_vote_reply-Counted term granted (one_if (same_bytes granted (codes "true"))) more c
        (one_if-true (same_bytes granted (codes "true"))) h
  answer-Counted more c (some granted) exit h = tt
  answer-Counted more c (some granted) abort h = tt
  answer-Counted more c (some granted) undefined h = tt

  IfReturns-if {ℓ} :
      {A : Type ℓ} (P : A → Type 0) (b : Bool) (u v : Outcome A)
      → IfReturns P u
      → IfReturns P v
      → IfReturns P (if b then u else v)
  IfReturns-if P true u v hu hv = hu
  IfReturns-if P false u v hu hv = hv

  reply_request_vote-Counted :
      (more : ℕ) (client : Client) (c : Cluster)
      → Counted baseline total (one_if (grants_vote client) + more) c
      → IfReturns
          (λ (done : Code × Cluster × List Sent). Counted baseline total more done.1)
          (reply_request_vote now client c)
  unfolding reply_request_vote
  reply_request_vote-Counted more client c h =
      IfReturns-if (λ (done : Code × Cluster × List Sent). Counted baseline total more done.1)
        (not (is_candidate c.role)) (ret (ok, c, [])) _
        (fewer-Counted baseline total (one_if (grants_vote client)) more c h)
        (answer-Counted more c (get_elem? client.argv 4) (long_arg client.argv 2) h)

  bind-Counted :
      (clients : List Client) (o : Done)
      → IfReturns
          (λ (done : Code × Cluster × List Sent).
            Counted baseline total (granted_votes clients) done.1)
          o
      → ((c : Cluster)
          → Counted baseline total (granted_votes clients) c
          → IfReturns (Counted baseline total 0) (take_vote_replies now clients c))
      → IfReturns (Counted baseline total 0) (o >>= λ done. take_vote_replies now clients done.1)
  bind-Counted clients (ret (code, c, sent)) h k = k c h
  bind-Counted clients exit h k = tt
  bind-Counted clients abort h k = tt
  bind-Counted clients undefined h k = tt

  take_vote_replies-Counted :
      (clients : List Client) (c : Cluster)
      → Counted baseline total (granted_votes clients) c
      → IfReturns (Counted baseline total 0) (take_vote_replies now clients c)
  unfolding take_vote_replies granted_votes
  take_vote_replies-Counted [] c h = h
  take_vote_replies-Counted (client ∷ clients) c h =
      bind-Counted clients (reply_request_vote now client c)
        (reply_request_vote-Counted (granted_votes clients) client c h)
        (take_vote_replies-Counted clients)

-- The node does not lead, or the candidate's own vote and the votes of others reach the baseline.
abbrev pub IsElected : ℕ → Cluster → Type 0
IsElected votes c = (is_leader c.role ≡ false) ⊎ (c.win_vote_baseline ≤ℤ pos (suc votes))

Counted-IsElected :
    (baseline : ℤ) (votes : ℕ) (o : Outcome Cluster)
    → IfReturns (Counted baseline (pos (suc votes)) 0) o
    → IfReturns (IsElected votes) o
Counted-IsElected baseline votes (ret c) (b, inl (role, h)) = inl role
Counted-IsElected baseline votes (ret c) (b, inr h) = inr (rw b h)
Counted-IsElected baseline votes exit h = tt
Counted-IsElected baseline votes abort h = tt
Counted-IsElected baseline votes undefined h = tt

-- A node that becomes a candidate and then takes any sequence of answers leads afterwards only if
-- its own vote, and one for each answer among them that says "true", reach the baseline.
pub take_vote_replies-IsElected :
    (now : ℤ) (clients : List Client) (c : Cluster)
    → IfReturns
        (IsElected (granted_votes clients))
        (take_vote_replies now clients (as_candidate now c))
take_vote_replies-IsElected now clients c =
    let votes = granted_votes clients in
    Counted-IsElected c.win_vote_baseline votes _ (
      take_vote_replies-Counted now c.win_vote_baseline (pos (suc votes)) clients
        (as_candidate now c) (refl, inl (refl, omega (arith, +ℤ_parts (pos 1) (pos votes)))))
