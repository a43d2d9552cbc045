-- ===== src/AppendEntry/Commit.antt =====
-- The commit index that a follower takes over from its leader.

use mathlib.Core.Path.{subst}
use cabinet.AppendEntry.{commit_from, update_commit}
use cabinet.AppendEntry.Follow.{update_commit_lem}
use cabinet.Base.{
  List, abort, ap, arith, exit, false, if_false, ok, pos, refl, ret, sym, undefined, ℤ, ◌<ℤ◌, ◌==ℤ◌,
  ◌∙◌, ◌∷◌, ◌≡◌, ◌≤ℤ◌, ◌⊎◌,
}
use cabinet.Client.{Client}
use cabinet.Cluster.{Cluster}
use cabinet.Entry.{Entry, empty_entry}
use cabinet.PersistenceFile.Abstract.{Holds, last_from}
use cabinet.PersistenceFile.Refinement.{find_last_entry-Holds}
use cabinet.RequestVote.{Done}

-- The command goes on to a reply, and this holds of the node then.
abbrev pub Returns : (Cluster → Type 0) → Done → Type 0
Returns P (ret (code, c, sent)) = (code ≡ ok) × P c
Returns P _ = ⊥

-- The commit index is the leader's or that of the last entry, whichever is lower; all else stays.
abbrev pub CommitIs : Cluster → ℤ → Entry → Cluster → Type 0
CommitIs c leader_commit last c' =
    (c' ≡ record c { commit_index = c'.commit_index })
    × (c'.commit_index ≤ℤ leader_commit)
    × (c'.commit_index ≤ℤ last.index)
    × ((c'.commit_index ≡ leader_commit) ⊎ (c'.commit_index ≡ last.index))

commit_from-CommitIs :
    (client : Client) (n : ℤ) (c : Cluster) (last : Entry)
    → Returns (CommitIs c n last) (commit_from client n c (ok, last))
commit_from-CommitIs client n c last = (refl, (refl, ground arith, ground arith, ground arith))

module _ (client : Client) (n : ℤ) (c : Cluster) (x : Entry) (xs : List Entry)
    (h : Holds c.pf (x ∷ xs)) where
  -- A node whose log is not empty takes over a commit index other than 0 that its leader reports, but
  -- not beyond its own last entry, and changes nothing else.
  pub update_commit-CommitIs :
      (n ==ℤ pos 0) ≡ false → Returns (CommitIs c n (last_from x xs)) (update_commit client n c)
  update_commit-CommitIs reported =
      subst (Returns (CommitIs c n (last_from x xs)))
        (sym (
          update_commit_lem client n c
          ∙ if_false (n ==ℤ pos 0) _ _ reported
          ∙ ap (commit_from client n c) (find_last_entry-Holds h empty_entry)))
        (commit_from-CommitIs client n c (last_from x xs))

  -- The commit index that the node had does not count: where the leader reports a lower one, other
  -- than 0, the node's commit index falls below what it was.
  update_commit-falls :
      (n ==ℤ pos 0) ≡ false
      → n <ℤ c.commit_index
      → Returns (λ c'. c'.commit_index <ℤ c.commit_index) (update_commit client n c)
  update_commit-falls reported lower =
      falls (update_commit client n c) (update_commit-CommitIs reported)
    where
      falls :
          (d : Done)
          → Returns (CommitIs c n (last_from x xs)) d
          → Returns (λ c'. c'.commit_index <ℤ c.commit_index) d
      falls (ret (code, c', sent)) s =
          (s.0, (let bound : c'.commit_index ≤ℤ n = s.1.1 in omega arith))
      falls exit s = s
      falls abort s = s
      falls undefined s = s
