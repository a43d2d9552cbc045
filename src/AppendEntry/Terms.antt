-- ===== src/AppendEntry/Terms.antt =====
-- How a node answers a message of another term.

use cabinet.AppendEntry.{AppendRequest, accepts_term, handle_append_request, reply_append}
use cabinet.AppendEntry.Follow.{handle_append_request_lem}
use cabinet.Base.{
  abort, arith, codes, exit, false, if_false, if◌then◌else◌, ltbℤ, ok, ret, undefined, ℤ, ◌<ℤ◌, ◌∙◌,
  ◌≡◌,
}
use cabinet.Client.{Client}
use cabinet.Cluster.{Cluster, Role, candidate, follower, is_follower, leader}
use cabinet.Entry.{Entry}
use cabinet.PersistenceFile.{PersistenceFile}
use cabinet.RequestVote.{Done}

-- Whoever follows after the message: the node's leader, and its term.
abbrev pub Follows : ℤ → ℤ → Done → Type 0
Follows id term (ret (code, c, sent)) =
    (c.siblings.current_leader_id ≡ id) × (c.current_term ≡ term)
Follows id term exit = Unit
Follows id term abort = ⊥
Follows id term undefined = ⊥

-- A leader or a candidate whose own term is higher stays as it is, and answers "false".
handle_append_request-stale :
    (now : ℤ) (r : AppendRequest) (client : Client) (c : Cluster)
    → is_follower c.role ≡ false
    → r.term <ℤ c.current_term
    → handle_append_request now r client c
      ≡ ret (ok, c, reply_append client c.current_term (codes "false"))
handle_append_request-stale now r client c other stale =
    handle_append_request_lem now r client c
    ∙ if_false (accepts_term c.role c.current_term r.term) _ _ (refused c.role other)
  where
    refused :
        (role : Role) → is_follower role ≡ false → accepts_term role c.current_term r.term ≡ false
    refused leader o = unfold accepts_term in ground arith
    refused candidate o = unfold accepts_term in ground arith
    refused follower o = cc

-- The higher one of the node's term and the sender's.
abbrev pub newer : ℤ → ℤ → ℤ
newer own term = if ltbℤ own term then term else own
