-- ===== src/Request/Accept.antt =====
-- What a leader makes of the request of a cabinet client.

use cabinet.Base.{
  Code, List, [], abort, ap, err, exit, if_true, ok, pos, refl, ret, some, true, undefined, ℤ, ◌++◌,
  ◌+ℤ◌, ◌∷◌, ◌≡◌,
}
use cabinet.Client.{Client}
use cabinet.Cluster.{Cluster, leader, set_new_entry_index_and_term}
use cabinet.Entry.{Entry}
use cabinet.Entry.RoundTrip.{IsStorable}
use cabinet.Parents.{Parents, get_parents_by_dealing_index, in_queue, set_dealing_index}
use cabinet.Parents.Dealing.{dealing_once}
use cabinet.PersistenceFile.{PersistenceFile}
use cabinet.PersistenceFile.Abstract.{Holds}
use cabinet.PersistenceFile.Refinement.{append_to_pf-Holds}
use cabinet.Request.{handle_request, new_entry, take_entry}
use cabinet.RequestVote.{Done}

-- The command returns `CABINET_OK`; `e` is then the log's last entry behind `es`, and the node's, and
-- its reply will go to the client.
abbrev pub Accepts : List Entry → Client → Entry → Done → Type 0
Accepts es client e (ret (code, c, sent)) =
    (code ≡ ok)
    × Holds c.pf (es ++ e ∷ [])
    × (c.last_entry_index ≡ e.index)
    × ((get_parents_by_dealing_index e.index c.parents).0 ≡ some client)
Accepts es client e exit = ⊥
Accepts es client e abort = ⊥
Accepts es client e undefined = ⊥

module _ (now : ℤ) (client : Client) (es : List Entry) (e : Entry) where
  take_entry-Accepts :
      (c : Cluster) (d : Code × PersistenceFile)
      → (d.0 ≡ ok) × Holds d.1 (es ++ e ∷ [])
      → in_queue client c.parents.parents_queue ≡ true
      → c.last_entry_index ≡ e.index
      → Accepts es client e (take_entry now client e c d)
  take_entry-Accepts c (err, pf) (failed, h) waits last = cc
  take_entry-Accepts c (ok, pf) (done, h) waits last =
      let set : (set_dealing_index e.index client c.parents).0 ≡ ok =
        unfold set_dealing_index in
        ap (λ (r : Code × Parents). r.0)
          (if_true (in_queue client c.parents.parents_queue) _ _ waits) in
      (set, h, last, (dealing_once e.index client c.parents set).0)

-- A leader whose file holds `es` puts the request of a client that it knows behind them, as the entry
-- with the number after its last one, its own term and the whole command, if the file can hold that
-- entry; the client is then the one that the reply to this entry goes to.
pub handle_request-Accepts :
    (now : ℤ) (client : Client) (c : Cluster) (es : List Entry)
    → Holds c.pf es
    → IsStorable (record {
      index = c.last_entry_index +ℤ pos 1;
      term = c.current_term;
      content = client.cur_command_buf;
    })
    → in_queue client c.parents.parents_queue ≡ true
    → Accepts es client
        (record {
          index = c.last_entry_index +ℤ pos 1;
          term = c.current_term;
          content = client.cur_command_buf;
        })
        (handle_request leader now client c)
unfolding handle_request set_new_entry_index_and_term
handle_request-Accepts now client c es h storable waits =
    take_entry-Accepts now client es _ (new_entry client c).1 _ (append_to_pf-Holds h _ storable)
      waits refl
