-- ===== src/Node/Cron.antt =====
-- How a round of `cron` changes the role of a node.
use mathlib.Core.Path.{subst}
use cabinet.Base.{
  Bool, Bool-cases, Code, List, Outcome, [], ap, arith, false, if◌then◌else◌, inl, inr, lebℤ, not,
  pos, refl, ret, sym, true, ℤ, ◌++◌, ◌+ℤ◌, ◌==ℤ◌, ◌>>=◌, ◌∙◌, ◌≡◌, ◌≤ℤ◌,
}
use cabinet.Children.{flush_server}
use cabinet.Children.Flush.{IsFlushable, IsUp, applied_to, flush_server-returns}
use cabinet.Client.{Sent}
use cabinet.Cluster.{
  Cluster, Role, as_candidate, candidate, follower, is_leader, leader, to_candidate, to_lead,
}
use cabinet.Cluster.Roles.{to_candidate-returns}
use cabinet.Node.{
  Node, Round, cron, cron_as, cron_working, election_timed_out, lost_some, with_siblings,
  working_baseline,
}
use cabinet.Node.Keeps.{connect_lost_siblings-IsReconnected}
use cabinet.Siblings.{
  Siblings, all_connected, set_already_append_entry_batch, set_match_index_batch,
  set_next_index_batch,
}
use cabinet.Siblings.Invariant.{IsSound}

-- The role machine of a node, said without its code.
pub data Turn (round : Round) (c c' : Cluster) : Type 0 where
  stays :
      c'.role ≡ c.role
      → c'.current_term ≡ c.current_term
      → c'.voted_for ≡ c.voted_for
      → Turn round c c'
  stands :
      is_leader c.role ≡ false
      → election_timed_out round c ≡ true
      → c'.role ≡ candidate
      → c'.current_term ≡ c.current_term +ℤ pos 1
      → c'.voted_for ≡ c.cluster_id
      → c'.receive_votes ≡ pos 1
      → Turn round c c'
  wins :
      c.role ≡ candidate
      → election_timed_out round c ≡ true
      → c.win_vote_baseline ≤ℤ c.receive_votes
      → c'.role ≡ leader
      → c'.current_term ≡ c.current_term
      → Turn round c c'

-- A round of the role returns, and turns the role.
record Turns (round : Round) (c : Cluster) (r : Outcome (Cluster × List Sent)) : Type 0 where
  after : Cluster
  sent : List Sent
  result : r ≡ ret (after, sent)
  turn : Turn round c after
  log : after.pf ≡ c.pf
  sound : IsSound after.siblings

unchanged-Turns : (round : Round) (c : Cluster) → IsSound c.siblings → Turns round c (ret (c, []))
unchanged-Turns round c sound = record {
  after = c;
  sent = [];
  result = refl;
  turn = stays refl refl refl;
  log = refl;
  sound = sound;
}

stands-Turns :
    (round : Round) (c : Cluster)
    → IsSound c.siblings
    → is_leader c.role ≡ false
    → election_timed_out round c ≡ true
    → Turns round c (to_candidate round.later c)
stands-Turns round c sound other late =
    let (sent, returns) = to_candidate-returns round.later c sound in
    record {
      after = as_candidate round.later c;
      sent = sent;
      result = returns;
      turn = stands other late refl refl refl refl;
      log = refl;
      sound = sound;
    }

wins-Turns :
    (round : Round) (c : Cluster)
    → IsSound c.siblings
    → c.role ≡ candidate
    → election_timed_out round c ≡ true
    → lebℤ c.win_vote_baseline c.receive_votes ≡ true
    → Turns round c (ret (to_lead c, []))
unfolding to_lead set_next_index_batch set_match_index_batch set_already_append_entry_batch
wins-Turns round c sound role late enough = record {
  after = to_lead c;
  sent = [];
  result = refl;
  turn = wins role late (ground arith) refl refl;
  log = refl;
  sound = sound;
}

Turns-if :
    (round : Round) (c : Cluster) (b : Bool) (u v : Outcome (Cluster × List Sent))
    → (b ≡ true → Turns round c u)
    → (b ≡ false → Turns round c v)
    → Turns round c (if b then u else v)
Turns-if round c true u v hu hv = hu refl
Turns-if round c false u v hu hv = hv refl

cron_as-Turns :
    (role : Role) (round : Round) (c : Cluster)
    → c.role ≡ role
    → IsSound c.siblings
    → is_leader role ≡ false
    → (c.cluster_id ==ℤ pos 0) ≡ false
    → Turns round c (cron_as role round c)
unfolding cron_as
cron_as-Turns leader round c here sound other named = ground arith
cron_as-Turns follower round c here sound other named =
    Turns-if round c (election_timed_out round c) _ _
      (λ late. stands-Turns round c sound (rw here other) late)
      (λ early. unchanged-Turns round c sound)
cron_as-Turns candidate round c here sound other named =
    Turns-if round c (not (election_timed_out round c)) _ _ (λ early. unchanged-Turns round c sound)
      (λ late.
        Turns-if round c (lebℤ c.win_vote_baseline c.receive_votes) _ _
          (λ enough. wins-Turns round c sound here (ground arith) enough)
          (λ few.
            Turns-if round c (c.cluster_id ==ℤ pos 0) _ _ (λ zero_id. ground arith)
              (λ other_id. stands-Turns round c sound (rw here other) (ground arith))))

abbrev pub with_cluster : Node → Cluster → Node
with_cluster n c = record n { cluster = c }

-- What comes after the role, and after `flushServer`.
abbrev after_role : Node → List Sent → Cluster × List Sent → Outcome (Node × List Sent)
after_role n sent (c, more) = ret (with_cluster n c, sent ++ more)

abbrev after_flush : Round → Node → Code × Cluster × List Sent → Outcome (Node × List Sent)
after_flush round n (code, c, sent) = cron_as c.role round c >>= after_role n sent

cron_working_lem :
    (round : Round) (n : Node)
    → cron_working round n ≡ (flush_server round.hash n.children n.cluster >>= after_flush round n)
unfolding cron_working
cron_working_lem round n = refl

-- `lastApplied` and the siblings have no part in a turn.
Turn-moved :
    (round : Round) (i : ℤ) (s : Siblings) (c : Cluster) {c' : Cluster}
    → Turn round (applied_to i (with_siblings s c)) c'
    → Turn round c c'
Turn-moved round i s c (stays role term vote) = stays role term vote
Turn-moved round i s c (stands other late role term vote votes) =
    stands other late role term vote votes
Turn-moved round i s c (wins role late enough role' term) = wins role late enough role' term

-- What the round makes of a node that is not the leader, and meets the baseline.
abbrev pub Rounded : Round → Node → Node → Outcome (Node × List Sent) → Type 0
Rounded round n m r =
    (after : Cluster) × (id_max : ℤ) × (sent : List Sent) × (r
      ≡ ret (record m { cluster = after; client_id_max = id_max }, sent))
    × Turn round n.cluster after
    × (after.pf ≡ n.cluster.pf)
    × IsSound after.siblings

-- The round after the search for lost siblings, which gave `s`.
cron_working-Turns :
    (round : Round) (n : Node) (s : Siblings) (m : Node)
    → IsUp m.children
    → IsFlushable n.cluster
    → IsSound s
    → is_leader n.cluster.role ≡ false
    → (n.cluster.cluster_id ==ℤ pos 0) ≡ false
    → m.cluster ≡ with_siblings s n.cluster
    → Rounded round n m (cron_working round m)
cron_working-Turns round n s m up ready sound other named here =
    let c = with_siblings s n.cluster in
    let (i, sent, flushed) = flush_server-returns round.hash m.children c up (moved ready) in
    let acted = cron_as-Turns c.role round (applied_to i c) refl sound other named in
    (
      acted.after,
      m.client_id_max,
      sent ++ acted.sent,
      cron_working_lem round m
          ∙ ap (λ d. flush_server round.hash m.children d >>= after_flush round m) here
          ∙ ap (λ o. o >>= after_flush round m) flushed
          ∙ ap (λ o. o >>= after_role m sent) acted.result,
      Turn-moved round i s n.cluster acted.turn,
      acted.log,
      acted.sound,
    )
  where
    moved : IsFlushable n.cluster → IsFlushable (with_siblings s n.cluster)
    moved (inl same) = inl same
    moved (inr (es, done, e, rest, sendable, due)) = inr (
      es,
      done,
      e,
      rest,
      sendable,
      record {
        log = due.log;
        numbered = due.numbered;
        holds = due.holds;
        applied = due.applied;
        committed = due.committed;
      },
    )

abbrev after_working : List Sent → Node × List Sent → Outcome (Node × List Sent)
after_working sent (n, more) = ret (n, sent ++ more)

abbrev met_baseline : Node → Bool → Node
met_baseline n met = record n { meet_working_baseline = met }

cron_lem :
    (round : Round) (n : Node)
    → working_baseline n ≡ true
    → cron round n ≡ (
        let (n', sent) = lost_some round (met_baseline n true) in
        cron_working round n' >>= after_working sent)
unfolding cron
cron_lem round n met = rw met refl

lost_some-IsReconnected :
    (round : Round) (n : Node)
    → IsSound n.cluster.siblings
    → (s : Siblings) × ((lost_some round n).0.cluster ≡ with_siblings s n.cluster)
      × ((lost_some round n).0.children ≡ n.children)
      × IsSound s
lost_some-IsReconnected round n sound =
    elim (Bool-cases (all_connected true n.cluster.siblings n.cluster.siblings.cluster_id_vector)) [
      | inl all ↦ rw all (n.cluster.siblings, refl, refl, sound)
      | inr lost ↦ rw lost (connect_lost_siblings-IsReconnected round n sound)
    ]

-- Take a node that meets the baseline, is not the leader and has not the number 0, whose connected
-- siblings have connections, whose consistent hash is not empty and holds only connected servers of
-- the configuration, each at its slot and in ascending order of the slots, where -1 is no server's
-- number, and which has nothing to flush, or a file with a log numbered from 1 in which the entry
-- behind those that were sent is committed and a command of a client, of any type that is no line feed,
-- with fewer than 2 ^ 31 parts, each shorter than 2 ^ 31. A round of `cron` on it returns; the log and
-- the connections to the servers are as before, every connected sibling has a connection, and the role,
-- the term and the vote either stay, or the election has timed out and the node is a candidate of the
-- next term with its own vote, or it has timed out, the node was a candidate with enough votes and is
-- the leader of its term.
pub cron-Turn :
    (round : Round) (n : Node)
    → working_baseline n ≡ true
    → is_leader n.cluster.role ≡ false
    → (n.cluster.cluster_id ==ℤ pos 0) ≡ false
    → IsUp n.children
    → IsSound n.cluster.siblings
    → IsFlushable n.cluster
    → (n' : Node) × (sent : List Sent) × (cron round n ≡ ret (n', sent))
      × Turn round n.cluster n'.cluster
      × (n'.cluster.pf ≡ n.cluster.pf)
      × (n'.children ≡ n.children)
      × IsSound n'.cluster.siblings
cron-Turn round n met other named up sound ready =
    let start = met_baseline n true in
    let (s, here, same, sound') = lost_some-IsReconnected round start sound in
    let (m, first) = lost_some round start in
    let (after, id_max, sent, result, turn, log, sound'') =
      cron_working-Turns round n s m (subst IsUp (sym same) up) ready sound' other named here in
    (
      record m { cluster = after; client_id_max = id_max },
      first ++ sent,
      cron_lem round n met ∙ ap (λ o. o >>= after_working first) result,
      turn,
      log,
      same,
      sound'',
    )
