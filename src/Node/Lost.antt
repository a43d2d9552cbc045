-- ===== src/Node/Lost.antt =====
-- A node that does not meet the baseline.
use mathlib.Core.Path.{subst}
use cabinet.Base.{Bool-cases, List, ap, arith, false, inl, inr, refl, ret, sym, true, ◌∙◌, ◌≡◌}
use cabinet.Children.{children_ready}
use cabinet.Children.Connect.{IsLinked, connect_lost-IsLinked}
use cabinet.Children.Invariant.{IsWired, connect_lost-IsWired}
use cabinet.Client.{Sent}
use cabinet.Cluster.{Cluster, Role, candidate, follower, is_follower, leader, to_follow}
use cabinet.Node.{
  Node, Round, connect_lost_siblings, cron, cron_lost, forget_leader, leave_role, lost_children,
  lost_siblings, working_baseline,
}
use cabinet.Node.Keeps.{connect_lost_siblings-IsReconnected}
use cabinet.Siblings.{satisfy_working_baseling, set_leader_id}
use cabinet.Siblings.Invariant.{IsSound}

-- The node follows in the same term with the same log, and its connections are in order.
pub record IsWaiting (c : Cluster) (n : Node) : Type 0 where
  pub role : n.cluster.role ≡ follower
  pub term : n.cluster.current_term ≡ c.current_term
  pub log : n.cluster.pf ≡ c.pf
  pub sound : IsSound n.cluster.siblings
  pub wired : IsWired n.children
  pub linked : IsLinked n.children

is_follower-role : (role : Role) → is_follower role ≡ true → role ≡ follower
is_follower-role leader h = ground arith
is_follower-role follower h = refl
is_follower-role candidate h = ground arith

module _ (round : Round) where
  leave_role-IsWaiting :
      (n : Node)
      → IsSound n.cluster.siblings
      → IsWired n.children
      → IsLinked n.children
      → IsWaiting n.cluster (leave_role round n)
  unfolding to_follow
  leave_role-IsWaiting n sound wired linked = elim (Bool-cases (is_follower n.cluster.role)) [
    | inl follows ↦ rw follows (record {
      role = is_follower-role n.cluster.role follows;
      term = refl;
      log = refl;
      sound = sound;
      wired = wired;
      linked = linked;
    })
    | inr leads ↦ rw leads (record {
      role = refl;
      term = refl;
      log = refl;
      sound = sound;
      wired = wired;
      linked = linked;
    })
  ]

  connect-IsWaiting :
      (c : Cluster) (n : Node) → IsWaiting c n → IsWaiting c (connect_lost_siblings round n).0
  connect-IsWaiting c n waits =
      let (s, here, same, sound) = connect_lost_siblings-IsReconnected round n waits.sound in
      record {
        role = ap (λ (d : Cluster). d.role) here ∙ waits.role;
        term = ap (λ (d : Cluster). d.current_term) here ∙ waits.term;
        log = ap (λ (d : Cluster). d.pf) here ∙ waits.log;
        sound = subst IsSound (sym (ap (λ (d : Cluster). d.siblings) here)) sound;
        wired = subst IsWired (sym same) waits.wired;
        linked = subst IsLinked (sym same) waits.linked;
      }

  forget_leader-IsWaiting : (c : Cluster) (n : Node) → IsWaiting c n → IsWaiting c (forget_leader n)
  unfolding set_leader_id
  forget_leader-IsWaiting c n waits = record {
    role = waits.role;
    term = waits.term;
    log = waits.log;
    sound = waits.sound;
    wired = waits.wired;
    linked = waits.linked;
  }

  lost_siblings-IsWaiting :
      (c : Cluster) (n : Node) → IsWaiting c n → IsWaiting c (lost_siblings round n).0
  lost_siblings-IsWaiting c n waits =
      elim (Bool-cases (satisfy_working_baseling n.cluster.siblings)) [
        | inl met ↦ rw met waits
        | inr lost ↦
            rw lost (connect-IsWaiting c (forget_leader n) (forget_leader-IsWaiting c n waits))
      ]

  lost_children-IsWaiting :
      (c : Cluster) (n : Node) → IsWaiting c n → IsWaiting c (lost_children round n)
  lost_children-IsWaiting c n waits = elim (Bool-cases (children_ready n.children)) [
    | inl met ↦ rw met waits
    | inr lost ↦ rw lost (record {
      role = waits.role;
      term = waits.term;
      log = waits.log;
      sound = waits.sound;
      wired =
          connect_lost-IsWired round.server_reached round.server_watched n.client_id_max n.children
            waits.wired;
      linked =
          connect_lost-IsLinked round.server_reached round.server_watched n.client_id_max n.children
            waits.linked;
    })
  ]

  cron_lost-IsWaiting :
      (n : Node)
      → IsSound n.cluster.siblings
      → IsWired n.children
      → IsLinked n.children
      → IsWaiting n.cluster (cron_lost round n).0
  unfolding cron_lost
  cron_lost-IsWaiting n sound wired linked =
      let waits =
        lost_children-IsWaiting n.cluster _
          (lost_siblings-IsWaiting n.cluster _ (leave_role-IsWaiting n sound wired linked)) in
      record {
        role = waits.role;
        term = waits.term;
        log = waits.log;
        sound = waits.sound;
        wired = waits.wired;
        linked = waits.linked;
      }

  cron-lost_lem :
      (n : Node)
      → working_baseline n ≡ false
      → cron round n ≡ ret (cron_lost round (record n { meet_working_baseline = false }))
  unfolding cron
  cron-lost_lem n lost = rw lost refl

  -- Take a node that does not meet the baseline, on which every connected sibling has a connection,
  -- every server has one just when its status says so, the consistent hash holds only connected servers
  -- of the configuration, each at its slot and in ascending order of the slots, and -1 is no server's
  -- number. A round of `cron` on it returns, whichever nodes are reached: the node is a follower of the
  -- same term with the same log, and what is said of its connections holds again.
  pub cron-IsWaiting :
      (n : Node)
      → working_baseline n ≡ false
      → IsSound n.cluster.siblings
      → IsWired n.children
      → IsLinked n.children
      → (n' : Node) × (sent : List Sent) × (cron round n ≡ ret (n', sent)) × IsWaiting n.cluster n'
  cron-IsWaiting n lost sound wired linked =
      let n0 = record n { meet_working_baseline = false } in
      let r = cron_lost round n0 in
      (r.0, r.1, cron-lost_lem n lost, cron_lost-IsWaiting n0 sound wired linked)
