-- ===== src/Node/Lead.antt =====
-- What a leader does that steps down while it sends its entries.
use cabinet.AppendEntry.Send.{send_append_entry, send_found, send_next_entry}
use cabinet.Base.{
  Code, List, Option, Outcome, [], ap, arith, err, exit, false, if_true, lebℤ, ltbℤ, ok, or_exit,
  pos, refl, ret, some, true, ℤ, ◌++◌, ◌+ℤ◌, ◌<ℤ◌, ◌>>=◌, ◌>>◌, ◌∙◌, ◌∷◌, ◌≡◌, ◌≤ℤ◌,
}
use cabinet.Client.{Client, Sent}
use cabinet.Cluster.{Cluster, is_leader, to_follow}
use cabinet.Entry.{Entry, empty_entry}
use cabinet.Node.{append_entries}
use cabinet.PersistenceFile.{find_entry, find_last_entry}
use cabinet.PersistenceFile.Contiguous.{next_index}
use cabinet.Siblings.{get_sibling_next_index}

lead_step :
    (now : ℤ) (first : Client) (siblings : List (Option Client)) (c c' : Cluster) (sent : List Sent)
    → send_append_entry now first c ≡ ret (ok, c', sent)
    → append_entries now (some first ∷ siblings) c
      ≡ (append_entries now siblings c' >>= λ later. ret (later.0, sent ++ later.1))
unfolding append_entries
lead_step now first siblings c c' sent step = rw step refl

send_append_entry-exits :
    (now : ℤ) (sibling : Client) (c : Cluster)
    → is_leader c.role ≡ false
    → send_append_entry now sibling c ≡ exit
unfolding send_append_entry
send_append_entry-exits now sibling c other = rw other refl

append_entries-exits :
    (now : ℤ) (sibling : Client) (siblings : List (Option Client)) (c : Cluster)
    → is_leader c.role ≡ false
    → append_entries now (some sibling ∷ siblings) c ≡ exit
unfolding append_entries
append_entries-exits now sibling siblings c other =
    rw (send_append_entry-exits now sibling c other) refl

-- The log has no entry for the sibling, and not the one before it either.
abbrev pub IsBeyond : ℤ → Cluster → Type 0
IsBeyond next_index c =
    ((find_entry next_index c.pf empty_entry).0 ≡ err)
    × ((find_last_entry c.pf empty_entry).1.index +ℤ pos 1 <ℤ next_index)

send_found-beyond :
    (now next_index : ℤ) (sibling : Client) (c : Cluster) (last_index : ℤ) (r : Code × Entry)
    → r.0 ≡ err
    → last_index +ℤ pos 1 <ℤ next_index
    → send_found now next_index sibling c last_index r ≡ (ok, to_follow now c.current_term c, [])
send_found-beyond now next_index sibling c last_index (err, next) absent beyond =
    if_true (ltbℤ (last_index +ℤ pos 1) next_index) _ _ (ground arith)
send_found-beyond now next_index sibling c last_index (ok, next) absent beyond = cc

send_next_entry_lem :
    (now next_index : ℤ) (sibling : Client) (c : Cluster)
    → send_next_entry now next_index sibling c
      ≡ send_found now next_index sibling c
          (find_last_entry c.pf empty_entry).1.index
          (find_entry next_index c.pf empty_entry)
unfolding send_next_entry
send_next_entry_lem now next_index sibling c = refl

send_append_entry_lem :
    (now : ℤ) (sibling : Client) (c : Cluster)
    → send_append_entry now sibling c ≡ (
        let next_index = get_sibling_next_index sibling.cluster_id c.siblings in
        or_exit (is_leader c.role)
        >> (or_exit (lebℤ (pos 1) next_index) >> ret (send_next_entry now next_index sibling c)))
unfolding send_append_entry
send_append_entry_lem now sibling c = refl

send_append_entry-gap :
    (now next_index : ℤ) (sibling : Client) (c : Cluster)
    → is_leader c.role ≡ true
    → get_sibling_next_index sibling.cluster_id c.siblings ≡ next_index
    → pos 1 ≤ℤ next_index
    → IsBeyond next_index c
    → send_append_entry now sibling c ≡ ret (ok, to_follow now c.current_term c, [])
send_append_entry-gap now next_index sibling c leads index positive (absent, beyond) =
    let at_least : lebℤ (pos 1) next_index ≡ true = ground arith in
    let sends : ℤ → Outcome (Code × Cluster × List Sent) =
      λ i. ret (send_next_entry now i sibling c) in
    send_append_entry_lem now sibling c
    ∙ ap
        (λ b.
          let i = get_sibling_next_index sibling.cluster_id c.siblings in
          or_exit b >> (or_exit (lebℤ (pos 1) i) >> sends i))
        leads
    ∙ ap (λ i. or_exit (lebℤ (pos 1) i) >> sends i) index
    ∙ ap (λ b. or_exit b >> sends next_index) at_least
    ∙ ap ret (
        send_next_entry_lem now next_index sibling c
        ∙ send_found-beyond now next_index sibling c _ (find_entry next_index c.pf empty_entry)
            absent beyond)

to_follow-role : (now term : ℤ) (c : Cluster) → is_leader (to_follow now term c).role ≡ false
unfolding to_follow
to_follow-role now term c = refl

-- If a leader's turn is at a sibling whose next index is more than one above the last entry and in
-- the log of no entry, and another sibling comes behind it, then the leader's loop of `cron` stops the
-- program: `operator>>` makes the node a follower and returns no error, so the loop goes on and
-- `operator>>` stops at a node that is no leader.
pub append_entries-steps_down :
    (now next_index : ℤ) (first second : Client) (others : List (Option Client)) (c : Cluster)
    → is_leader c.role ≡ true
    → get_sibling_next_index first.cluster_id c.siblings ≡ next_index
    → pos 1 ≤ℤ next_index
    → IsBeyond next_index c
    → append_entries now (some first ∷ some second ∷ others) c ≡ exit
append_entries-steps_down now next_index first second others c leads index positive beyond =
    let c' = to_follow now c.current_term c in
    lead_step now first (some second ∷ others) c c' []
      (send_append_entry-gap now next_index first c leads index positive beyond)
    ∙ ap (λ o. o >>= λ later. ret (later.0, later.1))
        (append_entries-exits now second others c' (to_follow-role now c.current_term c))
