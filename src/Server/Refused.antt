-- ===== src/Server/Refused.antt =====
-- A `set` with a wrong number of arguments: the file keeps it, and the import ends at it.

use mathlib.Core.Path.{subst}
use cabinet.Base.{
  All, Bytes, Code, List, Outcome, [], ap, err, length, ok, refl, ret, sym, true, ◌++◌, ◌<◌, ◌>>=◌,
  ◌∙◌, ◌∷◌, ◌≡◌, ◌≢◌,
}
use cabinet.Client.{Client, Sent}
use cabinet.Database.{DataBase, Effect, need_pf, run_command, select_command, set_command, set_it}
use cabinet.Entry.{Entry, empty_entry}
use cabinet.Entry.RoundTrip.{IsStorable}
use cabinet.Number.{int_half}
use cabinet.PersistenceFile.{after_visit, append_to_pf, break}
use cabinet.PersistenceFile.Abstract.{Holds}
use cabinet.PersistenceFile.Loop.{walk}
use cabinet.PersistenceFile.Refinement.{append_to_pf-Holds, loop-Holds, reset-Holds, stream}
use cabinet.ProtocolStream.{ProtocolStream}
use cabinet.ProtocolStream.Loop.{IsPart}
use cabinet.Server.{
  Import, Server, after_execute, execute_command, execute_resolved, go_on_if_ok, import_entry,
  import_pf, pf_client, visit_entry,
}
use cabinet.Server.Replay.{
  Request, effect_of, entry_of, execute_lem, holding, import_entry_lem, import_from, import_pf_lem,
  parts_of, resolve_request, start,
}
use cabinet.Server.Restart.{execute_write_lem, sending}

-- The command returns an error and changes nothing.
abbrev Refuses : DataBase → Effect → Type 0
Refuses db d = (d.0 ≡ err) × (d.1 ≡ db)

set_command-Refuses :
    (client : Client) (name : Bytes) (args : List Bytes) (db : DataBase)
    → length args ≢ 2
    → Refuses db (set_command client (name ∷ args) db)
unfolding set_command
set_command-Refuses client name [] db other = (refl, refl)
set_command-Refuses client name (key ∷ []) db other = (refl, refl)
set_command-Refuses client name (key ∷ value ∷ []) db other = absurd (other refl)
set_command-Refuses client name (key ∷ value ∷ more ∷ args) db other = (refl, refl)

effect_of-Refuses :
    (r : Request) (client : Client) (db : DataBase)
    → select_command r.name ≡ set_it
    → length r.args ≢ 2
    → Refuses db (effect_of r client db)
effect_of-Refuses r client db is_set other =
    subst (λ command. Refuses db (run_command command client (parts_of r) db)) (sym is_set)
      (unfold run_command in set_command-Refuses client r.name r.args db other)

after_execute-Refuses :
    (stream : ProtocolStream) (s : Server) (d : Effect)
    → Refuses s.db d
    → after_execute stream (d.0, record s { db = d.1 }, d.2) ≡ ret (err, stream, s)
after_execute-Refuses stream s (err, db, sent) (failed, same) =
    ap (λ db'. (let i : Import = ret (err, stream, record s { db = db' }) in i)) same
after_execute-Refuses stream s (ok, db, sent) (failed, same) = cc

import_entry-Refuses :
    (r : Request) (s : Server)
    → select_command r.name ≡ set_it
    → length r.args ≢ 2
    → length (parts_of r) < int_half
    → All IsPart (parts_of r)
    → import_entry (entry_of r) start s ≡ ret (err, holding r, s)
import_entry-Refuses r s is_set other few fit =
    import_entry_lem (entry_of r) s
    ∙ ap (λ o. o >>= execute_resolved s) (resolve_request r few fit)
    ∙ ap (λ o. o >>= after_execute (holding r)) (execute_lem r (holding r) s refl)
    ∙ after_execute-Refuses (holding r) s (effect_of r (pf_client (holding r)) s.db)
        (effect_of-Refuses r (pf_client (holding r)) s.db is_set other)

visit-Refuses :
    (r : Request) (s : Server)
    → import_entry (entry_of r) start s ≡ ret (err, holding r, s)
    → visit_entry (entry_of r) (ret (ok, start, s)) ≡ break (ret (err, holding r, s))
visit-Refuses r s e = unfold visit_entry in ap go_on_if_ok e

-- A server whose file begins with a `set` that has not two arguments, in a text whose number of parts
-- and their lengths are below 2 ^ 31, imports nothing: `importPF` ends with an error at this entry,
-- whatever stands behind it, and the database is what it was.
pub import_pf-refused :
    (r : Request) (es : List Entry) (s : Server)
    → Holds s.pf (entry_of r ∷ es)
    → select_command r.name ≡ set_it
    → length r.args ≢ 2
    → length (parts_of r) < int_half
    → All IsPart (parts_of r)
    → import_pf s ≡ ret (err, holding r, s)
import_pf-refused r es s h is_set other few fit =
    import_pf_lem s
    ∙ ap (import_from s) (reset-Holds h)
    ∙ ap (λ (d : Entry × Import). d.1) (loop-Holds h visit_entry empty_entry (ret (ok, start, s)))
    ∙ walk-break
  where
    walk-break :
        (walk visit_entry (entry_of r ∷ es) empty_entry (ret (ok, start, s))).1
        ≡ ret (err, holding r, s)
    walk-break =
        unfold walk in
        ap (λ v. (after_visit v (entry_of r) (walk visit_entry es (entry_of r))).1)
          (visit-Refuses r s (import_entry-Refuses r s is_set other few fit))

-- A server that keeps a file returns an error for a `set` that has not two arguments, and leaves the
-- database as it is, but its file then ends with the entry of that request, if it can hold it.
pub execute_command-refused :
    (client : Client) (r : Request) (es : List Entry) (s : Server)
    → s.has_pf ≡ true
    → Holds s.pf es
    → IsStorable (entry_of r)
    → select_command r.name ≡ set_it
    → length r.args ≢ 2
    → (sent : List Sent) × (execute_command (sending client r) s
        ≡ ret (err, record s { pf = (append_to_pf (entry_of r) s.pf).1 }, sent))
      × Holds (append_to_pf (entry_of r) s.pf).1 (es ++ entry_of r ∷ [])
execute_command-refused client r es s has h storable is_set other =
    let own = sending client r in
    (
      (effect_of r own s.db).2,
      execute_write_lem client r s has (ap need_pf is_set)
          ∙ kept (effect_of r own s.db) (effect_of-Refuses r own s.db is_set other),
      (append_to_pf-Holds h (entry_of r) storable).1,
    )
  where
    kept :
        (d : Effect)
        → Refuses s.db d
        → (let o : Outcome (Code × Server × List Sent) =
              ret (d.0, record s { db = d.1; pf = (append_to_pf (entry_of r) s.pf).1 }, d.2) in
            o)
          ≡ ret (err, record s { pf = (append_to_pf (entry_of r) s.pf).1 }, d.2)
    kept (err, db, sent) (failed, same) =
        ap
          (λ db'.
            (let o : Outcome (Code × Server × List Sent) =
                ret (err, record s { db = db'; pf = (append_to_pf (entry_of r) s.pf).1 }, sent) in
              o))
          same
    kept (ok, db, sent) (failed, same) = cc
