-- ===== src/Server/Replay.antt =====
-- A server that starts again has the database that it had.

use mathlib.Core.Path.{subst}
use cabinet.Base.{
  All, Bytes, Code, List, Option, [], ap, append-nil, arith, codes, err, false, inl, inr, length,
  map, none, ok, pos, refl, ret, some, sym, true, ℕ, ◌==◌, ◌<◌, ◌>>=◌, ◌∙◌, ◌∷◌, ◌≡◌, ◌⊎◌,
}
use cabinet.Client.{Client}
use cabinet.Database.{
  DataBase, Effect, ValueObj, answer, del_command, del_it, delete_found, delete_key, delete_value,
  erase_key, get_value, insert_found, insert_key, plain_obj, run_command, select_command,
  set_command, set_it, set_value, string_obj,
}
use cabinet.Entry.{Entry, InStream, empty_entry}
use cabinet.Entry.RoundTrip.{IsStorable}
use cabinet.Number.{int_half}
use cabinet.PersistenceFile.{after_visit, continue, read_while, reset_file_stream, rounds}
use cabinet.PersistenceFile.Abstract.{Holds}
use cabinet.PersistenceFile.Loop.{walk}
use cabinet.PersistenceFile.Refinement.{loop-Holds, reset-Holds, stream}
use cabinet.ProtocolStream.{
  ProtocolStream, newline, clear, fill_receive_buf, get_ready_for_next_command, new_stream,
  resolve_receive_buf,
}
use cabinet.ProtocolStream.Frame.{frame}
use cabinet.ProtocolStream.Loop.{IsPart}
use cabinet.ProtocolStream.RoundTrip.{received, resolve_receive_buf-frame, resolved}
use cabinet.Server.{
  Import, Server, after_execute, execute_command, execute_resolved, go_on_if_ok, import_entry,
  import_pf, pf_client, visit_entry,
}

-- A command by its name and its other arguments.
pub record Request : Type 0 where
  pub name : Bytes
  pub args : List Bytes

abbrev pub parts_of : Request → List Bytes
parts_of r = r.name ∷ r.args

-- Its text, and the entry that it is kept as.
abbrev pub text_of : Request → Bytes
text_of r = frame b'w' (parts_of r)

abbrev pub entry_of : Request → Entry
entry_of r = record { index = pos 0; term = pos 0; content = text_of r }

-- A `set` with a key and a value, or a `del` with a key.
abbrev pub IsWrite : Request → Type 0
IsWrite r =
    ((select_command r.name ≡ set_it) × (length r.args ≡ 2))
    ⊎ ((select_command r.name ≡ del_it) × (length r.args ≡ 1))

-- A write that the file and the wire format can hold.
pub record IsKept (r : Request) : Type 0 where
  pub write : IsWrite r
  pub storable : IsStorable (entry_of r)
  pub few : length (parts_of r) < int_half
  pub fit : All IsPart (parts_of r)

-- The command succeeds, and leaves the same database as it does for the other client.
abbrev pub Same : Effect → Effect → Type 0
Same d d' = (d.0 ≡ ok) × (d.1 ≡ d'.1)

module _ (client other : Client) (name : Bytes) (db : DataBase) where
  set_value-Same :
      (key value : Bytes) (o : Option ValueObj)
      → get_value key db ≡ o
      → Same (set_value client key value db o) (set_value other key value db o)
  set_value-Same key value none free =
      ((unfold insert_key in ap (λ o. (insert_found key (string_obj value) db o).0) free), refl)
  set_value-Same key value (some plain_obj) found = (refl, refl)
  set_value-Same key value (some (string_obj old)) found = (refl, refl)

  set_command-Same :
      (args : List Bytes)
      → length args ≡ 2
      → Same
          (run_command set_it client (name ∷ args) db)
          (run_command set_it other (name ∷ args) db)
  unfolding run_command set_command
  set_command-Same [] two = cc
  set_command-Same (key ∷ []) two = absurd (omega arith)
  set_command-Same (key ∷ value ∷ []) two = set_value-Same key value (get_value key db) refl
  set_command-Same (key ∷ value ∷ more ∷ args) two = absurd (omega arith)

  abbrev deleted_by : Bytes → Client → Option ValueObj → Effect
  deleted_by key c o = elim o [
    | none ↦ (ok, db, answer c (codes "Pardon?"))
    | some v ↦ delete_value c (delete_key key db)
  ]

  del_value-Same :
      (key : Bytes) (o : Option ValueObj)
      → get_value key db ≡ o
      → Same (deleted_by key client o) (deleted_by key other o)
  del_value-Same key none free = (refl, refl)
  del_value-Same key (some v) found = rw (deleted found) (refl, refl)
    where
      deleted : get_value key db ≡ some v → delete_key key db ≡ (ok, erase_key key db)
      deleted f = unfold delete_key in ap (delete_found key db) f

  del_command-Same :
      (args : List Bytes)
      → length args ≡ 1
      → Same
          (run_command del_it client (name ∷ args) db)
          (run_command del_it other (name ∷ args) db)
  unfolding run_command del_command
  del_command-Same [] one = cc
  del_command-Same (key ∷ []) one = del_value-Same key (get_value key db) refl
  del_command-Same (key ∷ more ∷ args) one = absurd (omega arith)

-- What a request does to the database, for any client.
abbrev pub effect_of : Request → Client → DataBase → Effect
effect_of r client db = run_command (select_command r.name) client (parts_of r) db

pub effect_of-Same :
    (r : Request) (client other : Client) (db : DataBase)
    → IsWrite r
    → Same (effect_of r client db) (effect_of r other db)
effect_of-Same r client other db (inl (is_set, two)) =
    subst
      (λ command.
        Same (run_command command client (parts_of r) db)
          (run_command command other (parts_of r) db))
      (sym is_set) (set_command-Same client other r.name db r.args two)
effect_of-Same r client other db (inr (is_del, one)) =
    subst
      (λ command.
        Same (run_command command client (parts_of r) db)
          (run_command command other (parts_of r) db))
      (sym is_del) (del_command-Same client other r.name db r.args one)

-- The database after these requests of this client.
unfoldable pub replay : Client → List Request → DataBase → DataBase
unfolding select_command run_command
replay client [] db = db
replay client (r ∷ rs) db = replay client rs (effect_of r client db).1

abbrev pub start : ProtocolStream
start = new_stream true false (codes "none")

-- The stream of the import once it has read a request.
abbrev pub holding : Request → ProtocolStream
holding r = resolved start b'w' (parts_of r) []

start-received : (text : Bytes) → fill_receive_buf text start ≡ received start text
start-received text = unfold get_ready_for_next_command fill_receive_buf in refl

clear-holding : (r : Request) → clear (holding r) ≡ start
clear-holding r = unfold clear in refl

-- The parser reads a command of any type whole.
pub resolve_frame :
    (type : ℕ) (r : Request)
    → (type == newline) ≡ false
    → length (parts_of r) < int_half
    → All IsPart (parts_of r)
    → resolve_receive_buf (fill_receive_buf (frame type (parts_of r)) start)
      ≡ ret (ok, resolved start type (parts_of r) [])
resolve_frame type r typed few fit =
    ap resolve_receive_buf (
      start-received (frame type (parts_of r))
      ∙ ap (received start) (sym (append-nil (frame type (parts_of r)))))
    ∙ resolve_receive_buf-frame start type r.name r.args [] refl refl typed few fit

pub resolve_request :
    (r : Request)
    → length (parts_of r) < int_half
    → All IsPart (parts_of r)
    → resolve_receive_buf (fill_receive_buf (text_of r) start) ≡ ret (ok, holding r)
resolve_request r few fit = resolve_frame b'w' r refl few fit

-- How a command of a client ends that the file does not keep.
pub execute_lem :
    (r : Request) (stream : ProtocolStream) (s : Server)
    → stream.argv ≡ parts_of r
    → execute_command (pf_client stream) s ≡ (
        let (code, db, sent) =
          run_command (select_command r.name) (pf_client stream) (parts_of r) s.db in
        ret (code, record s { db = db }, sent))
execute_lem r stream s argv = unfold execute_command in rw argv refl

after_execute-Same :
    (stream : ProtocolStream) (s : Server) (d d' : Effect)
    → Same d d'
    → after_execute stream (d.0, record s { db = d.1 }, d.2)
      ≡ ret (ok, clear stream, record s { db = d'.1 })
after_execute-Same stream s (ok, db, sent) d' (done, same) =
    ap (λ db'. (let i : Import = ret (ok, clear stream, record s { db = db' }) in i)) same
after_execute-Same stream s (err, db, sent) d' (done, same) = cc

pub import_entry_lem :
    (e : Entry) (s : Server)
    → import_entry e start s
      ≡ (resolve_receive_buf (fill_receive_buf e.content start) >>= execute_resolved s)
import_entry_lem e s = unfold import_entry in refl

import_entry-request :
    (client : Client) (r : Request) (s : Server)
    → IsKept r
    → import_entry (entry_of r) start s
      ≡ ret (ok, start, record s { db = (effect_of r client s.db).1 })
import_entry-request client r s k =
    let own = pf_client (holding r) in
    import_entry_lem (entry_of r) s
    ∙ ap (λ o. o >>= execute_resolved s) (resolve_request r k.few k.fit)
    ∙ ap (λ o. o >>= after_execute (holding r)) (execute_lem r (holding r) s refl)
    ∙ after_execute-Same (holding r) s (effect_of r own s.db) (effect_of r client s.db)
        (effect_of-Same r own client s.db k.write)
    ∙ ap (λ stream. ended stream (effect_of r client s.db).1) (clear-holding r)
  where
    ended : ProtocolStream → DataBase → Import
    ended stream db = ret (ok, stream, record s { db = db })

visit_request :
    (client : Client) (r : Request) (s : Server)
    → IsKept r
    → visit_entry (entry_of r) (ret (ok, start, s))
      ≡ continue (ret (ok, start, record s { db = (effect_of r client s.db).1 }))
visit_request client r s k =
    unfold visit_entry in ap go_on_if_ok (import_entry-request client r s k)

-- The loop of the import, on the entries of the file.
pub walk-replay :
    (client : Client) (rs : List Request) (e : Entry) (s : Server)
    → All IsKept rs
    → (walk visit_entry (map entry_of rs) e (ret (ok, start, s))).1
      ≡ ret (ok, start, record s { db = replay client rs s.db })
unfolding walk replay
walk-replay client [] e s k = refl
walk-replay client (r ∷ rs) e s k =
    let s' : Server = record s { db = (effect_of r client s.db).1 } in
    ap (λ v. (after_visit v (entry_of r) (walk visit_entry (map entry_of rs) (entry_of r))).1)
      (visit_request client r s k.0)
    ∙ walk-replay client rs (entry_of r) s' k.1

pub All-IsStorable : (rs : List Request) → All IsKept rs → All IsStorable (map entry_of rs)
All-IsStorable [] k = tt
All-IsStorable (r ∷ rs) k = (k.0.storable, All-IsStorable rs k.1)

abbrev pub import_from : Server → Code × InStream → Import
import_from s (code, file) =
    (read_while (rounds file) visit_entry file empty_entry (ret (ok, start, s))).1

pub import_pf_lem : (s : Server) → import_pf s ≡ import_from s (reset_file_stream s.pf)
import_pf_lem s = unfold import_pf in refl

-- A server whose file holds the entries of these requests, each a `set` with a key and a value or a
-- `del` with a key that file and wire can hold, imports all of them: the import ends with
-- `CABINET_OK`, and the database is the one that the requests lead to, for whatever client.
pub import_pf-replay :
    (client : Client) (rs : List Request) (s : Server)
    → Holds s.pf (map entry_of rs)
    → All IsKept rs
    → import_pf s ≡ ret (ok, start, record s { db = replay client rs s.db })
import_pf-replay client rs s h k =
    import_pf_lem s
    ∙ ap (import_from s) (reset-Holds h)
    ∙ ap (λ (r : Entry × Import). r.1) (loop-Holds h visit_entry empty_entry (ret (ok, start, s)))
    ∙ walk-replay client rs empty_entry s k
