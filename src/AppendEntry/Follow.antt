-- ===== src/AppendEntry/Follow.antt =====
-- A node that takes entries keeps a log that is numbered from 1 on.

use mathlib.Core.Path.{subst}
use cabinet.AppendEntry.{
  AppendRequest, PrevCheck, accept, accept_leader, accepts_term, after_append, after_check,
  append_new, check_prev, commit_from, fatal, follow_leader, handle_append_request, reject,
  reply_append, update_commit,
}
use cabinet.AppendEntry.LogMatching.{CheckSpec, EndsWith, HoldsPrefix, check_prev-CheckSpec}
use cabinet.Base.{
  ==ℤ_iff, Bool, Code, List, [], abort, arith, codes, err, exit, false, if◌then◌else◌, inl, inr,
  not, ok, pos, refl, ret, suc, sym, true, undefined, ℕ, ℤ, ◌&&◌, ◌++◌, ◌+ℤ◌, ◌==ℤ◌, ◌∙◌, ◌∷◌, ◌≡◌,
  ◌≢◌, ◌⊎◌,
}
use cabinet.Client.{Client}
use cabinet.Cluster.{Cluster, Role, candidate, follower, leader, to_follow, update_timeout}
use cabinet.Entry.{Entry, empty_entry}
use cabinet.Entry.RoundTrip.{IsStorable}
use cabinet.PersistenceFile.{PersistenceFile, append_to_pf, find_last_entry}
use cabinet.PersistenceFile.Abstract.{Holds, last_from}
use cabinet.PersistenceFile.Contiguous.{IsContiguous, next_index}
use cabinet.PersistenceFile.Refinement.{append_to_pf-Holds}
use cabinet.RequestVote.{Done}

-- The file holds a log whose entries are numbered from 1 on.
abbrev pub HasLog : PersistenceFile → Type 0
HasLog pf = (es : List Entry) × Holds pf es × IsContiguous 1 es

-- A message that a leader with such a log sends: it carries no entry, or one that the file can hold
-- and that has the number after the entry before.
abbrev pub IsNextEntry : AppendRequest → Type 0
IsNextEntry r =
    ((not (r.entry.index ==ℤ pos 0) && not (r.entry.term ==ℤ pos 0)) ≡ false)
    ⊎ (IsStorable r.entry × (r.entry.index ≡ r.prev_log_index +ℤ pos 1))

-- The command returns `CABINET_OK` on a node with a log; only a message that reports a commit can
-- end the process.
abbrev pub KeepsLog : AppendRequest → Done → Type 0
KeepsLog r (ret (code, c, sent)) = (code ≡ ok) × HasLog c.pf
KeepsLog r exit = r.leader_commit ≢ pos 0
KeepsLog r abort = ⊥
KeepsLog r undefined = ⊥

IsContiguous-prefix : (n : ℕ) (xs ys : List Entry) → IsContiguous n (xs ++ ys) → IsContiguous n xs
IsContiguous-prefix n [] ys h = tt
IsContiguous-prefix n (x ∷ xs) ys h = (h.0, IsContiguous-prefix (suc n) xs ys h.1)

IsContiguous-concat :
    (n : ℕ) (d : Entry) (es : List Entry) (e : Entry)
    → d.index ≡ pos n
    → IsContiguous (suc n) es
    → e.index ≡ (last_from d es).index +ℤ pos 1
    → IsContiguous (suc n) (es ++ e ∷ [])
unfolding last_from
IsContiguous-concat n d [] e at_n h next = (rw at_n at next ∙ next_index n, tt)
IsContiguous-concat n d (x ∷ xs) e at_n h next =
    (h.0, IsContiguous-concat (suc n) x xs e h.0 h.1 next)

last-EndsWith : (i t : ℤ) (es : List Entry) → EndsWith i t es → (last_from empty_entry es).index ≡ i
last-EndsWith i t es (inl (at_zero, no_entry)) = rw (no_entry, at_zero) (unfold last_from in refl)
last-EndsWith i t es (inr (index, term)) = index

HoldsPrefix-HasLog :
    {pf : PersistenceFile} {es kept : List Entry}
    → IsContiguous 1 es
    → HoldsPrefix pf es kept
    → HasLog pf
HoldsPrefix-HasLog {kept} c p =
    (kept, p.holds, IsContiguous-prefix 1 kept p.behind (rw p.splits at c))

pub update_commit_lem :
    (client : Client) (n : ℤ) (c : Cluster)
    → update_commit client n c ≡ (
        if n ==ℤ pos 0
        then ret (ok, c, reply_append client c.current_term (codes "true"))
        else commit_from client n c (find_last_entry c.pf empty_entry))
update_commit_lem client n c = unfold update_commit in refl

pub append_new_lem :
    (client : Client) (r : AppendRequest) (c : Cluster)
    → append_new client r c ≡ (
        if not (r.entry.index ==ℤ pos 0) && not (r.entry.term ==ℤ pos 0)
        then after_append client r.leader_commit c (append_to_pf r.entry c.pf)
        else update_commit client r.leader_commit c)
append_new_lem client r c = unfold append_new in refl

module _ (client : Client) (r : AppendRequest) where
  KeepsLog-if :
      (b : Bool) (u v : Done)
      → (b ≡ true → KeepsLog r u)
      → (b ≡ false → KeepsLog r v)
      → KeepsLog r (if b then u else v)
  KeepsLog-if true u v hu hv = hu refl
  KeepsLog-if false u v hu hv = hv refl

  commit_from-KeepsLog :
      (c : Cluster) (d : Code × Entry)
      → (r.leader_commit ==ℤ pos 0) ≡ false
      → HasLog c.pf
      → KeepsLog r (commit_from client r.leader_commit c d)
  commit_from-KeepsLog c (ok, last) h l = (refl, l)
  commit_from-KeepsLog c (err, last) h l = λ e. ground (arith, ==ℤ_iff r.leader_commit (pos 0))

  update_commit-KeepsLog :
      (c : Cluster) → HasLog c.pf → KeepsLog r (update_commit client r.leader_commit c)
  update_commit-KeepsLog c h =
      subst (KeepsLog r) (sym (update_commit_lem client r.leader_commit c)) (
        KeepsLog-if (r.leader_commit ==ℤ pos 0) _ _ (λ _. (refl, h))
          (λ reported. commit_from-KeepsLog c (find_last_entry c.pf empty_entry) reported h))

  after_append-KeepsLog :
      (c : Cluster) (d : Code × PersistenceFile)
      → HasLog d.1
      → KeepsLog r (after_append client r.leader_commit c d)
  after_append-KeepsLog c (ok, pf) h = update_commit-KeepsLog (record c { pf = pf }) h
  after_append-KeepsLog c (err, pf) h = (refl, h)

  append_new-KeepsLog :
      (c : Cluster) (es : List Entry)
      → IsNextEntry r
      → Holds c.pf es
      → IsContiguous 1 es
      → (last_from empty_entry es).index ≡ r.prev_log_index
      → KeepsLog r (append_new client r c)
  append_new-KeepsLog c es next h n at_prev = subst (KeepsLog r) (sym (append_new_lem client r c)) (
      KeepsLog-if (not (r.entry.index ==ℤ pos 0) && not (r.entry.term ==ℤ pos 0)) _ _
        (λ carries. grown carries next) (λ _. update_commit-KeepsLog c (es, h, n)))
    where
      grown :
          (not (r.entry.index ==ℤ pos 0) && not (r.entry.term ==ℤ pos 0)) ≡ true
          → IsNextEntry r
          → KeepsLog r (after_append client r.leader_commit c (append_to_pf r.entry c.pf))
      grown carries (inl carries_none) = cc
      grown carries (inr (storable, number)) = after_append-KeepsLog c (append_to_pf r.entry c.pf) (
        es ++ r.entry ∷ [],
        (append_to_pf-Holds h r.entry storable).1,
        IsContiguous-concat 0 empty_entry es r.entry refl n (number ∙ rw at_prev),
      )

  after_check-KeepsLog :
      (c : Cluster) (es : List Entry) (check : PrevCheck)
      → IsNextEntry r
      → IsContiguous 1 es
      → CheckSpec r.prev_log_index r.prev_log_term es check
      → KeepsLog r (after_check client r c check)
  after_check-KeepsLog c es (reject pf) next n (kept, p) = (refl, HoldsPrefix-HasLog n p)
  after_check-KeepsLog c es fatal next n s = absurd s
  after_check-KeepsLog c es (accept pf) next n (kept, p, end) =
      append_new-KeepsLog (record c { pf = pf }) kept next p.holds
        (IsContiguous-prefix 1 kept p.behind (rw p.splits at n))
        (last-EndsWith r.prev_log_index r.prev_log_term kept end)

pf-follow_leader :
    (now : ℤ) (role : Role) (term : ℤ) (c : Cluster) → (follow_leader now role term c).pf ≡ c.pf
unfolding follow_leader to_follow
pf-follow_leader now follower term c = ground arith
pf-follow_leader now candidate term c = refl
pf-follow_leader now leader term c = refl

pub handle_append_request_lem :
    (now : ℤ) (r : AppendRequest) (client : Client) (c : Cluster)
    → handle_append_request now r client c ≡ (
        if accepts_term c.role c.current_term r.term
        then (let c' = accept_leader now r.leader_id (follow_leader now c.role r.term c) in
            after_check client r c' (check_prev r.prev_log_index r.prev_log_term c'.pf))
        else ret (ok, c, reply_append client c.current_term (codes "false")))
handle_append_request_lem now r client c = unfold handle_append_request in refl

pf-update_timeout : (now : ℤ) (c : Cluster) → (update_timeout now c).pf ≡ c.pf
pf-update_timeout now c = unfold update_timeout in refl

-- A node whose file holds a log numbered from 1 on keeps such a log when it takes a message that
-- carries no entry, or one that the file can hold and whose number follows the entry before. The
-- command then returns `CABINET_OK`, or ends the process, which only a message that reports a commit
-- can do.
pub handle_append_request-KeepsLog :
    (now : ℤ) (r : AppendRequest) (client : Client) (c : Cluster)
    → HasLog c.pf
    → IsNextEntry r
    → KeepsLog r (handle_append_request now r client c)
handle_append_request-KeepsLog now r client c (es, h, n) next =
    let followed = follow_leader now c.role r.term c in
    let same_file : (accept_leader now r.leader_id followed).pf ≡ c.pf =
      pf-update_timeout now followed ∙ pf-follow_leader now c.role r.term c in
    subst (KeepsLog r) (sym (handle_append_request_lem now r client c)) (
      KeepsLog-if client r (accepts_term c.role c.current_term r.term) _ _
        (λ _. after_check-KeepsLog client r (accept_leader now r.leader_id followed) es _ next n (
          check_prev-CheckSpec r.prev_log_index r.prev_log_term es
            (subst (λ (pf : PersistenceFile). Holds pf es) (sym same_file) h) n))
        (λ _. (refl, (es, h, n))))
