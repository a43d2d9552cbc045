-- ===== src/Server/Restart.antt =====
-- A server that runs writes and starts again.

use mathlib.Core.Path.{subst}
use cabinet.Base.{
  All, All-append, Code, List, Outcome, [], ap, err, inl, inr, map, ok, refl, ret, sym, true, ◌++◌,
  ◌>>=◌, ◌∙◌, ◌∷◌, ◌≡◌,
}
use cabinet.Client.{Client, Sent, normal_client}
use cabinet.Database.{DataBase, Effect, need_pf, select_command}
use cabinet.Entry.{Entry}
use cabinet.PersistenceFile.{PersistenceFile, append_to_pf}
use cabinet.PersistenceFile.Abstract.{Holds}
use cabinet.PersistenceFile.Refinement.{append_to_pf-Holds}
use cabinet.Server.{Import, Server, execute_command, import_pf, pf_client}
use cabinet.Server.Replay.{
  IsKept, IsWrite, Request, Same, effect_of, effect_of-Same, entry_of, import_pf-replay, parts_of,
  replay, start, text_of,
}

-- The client with this request received.
abbrev pub sending : Client → Request → Client
sending client r = record client {
  category = normal_client;
  argv = parts_of r;
  cur_command_buf = text_of r;
}

-- The server runs these requests, one after the other.
unfoldable pub serve : List (Client × Request) → Server → Outcome Server
unfolding execute_command
serve [] s = ret s
serve ((client, r) ∷ xs) s = execute_command (sending client r) s >>= λ done. serve xs done.1

-- The command succeeds; the file then holds these entries, and the database is this one.
abbrev Leaves : List Entry → DataBase → Server → Type 0
Leaves es db s = Holds s.pf es × (s.db ≡ db) × (s.has_pf ≡ true)

pub execute_write_lem :
    (client : Client) (r : Request) (s : Server)
    → s.has_pf ≡ true
    → need_pf (select_command r.name) ≡ true
    → execute_command (sending client r) s ≡ (
        let (code, db, sent) = effect_of r (sending client r) s.db in
        ret (code, record s { db = db; pf = (append_to_pf (entry_of r) s.pf).1 }, sent))
execute_write_lem client r s has need = unfold execute_command in rw (has, need) refl

write-needs_pf : (r : Request) → IsWrite r → need_pf (select_command r.name) ≡ true
write-needs_pf r (inl (is_set, two)) = ap need_pf is_set
write-needs_pf r (inr (is_del, one)) = ap need_pf is_del

serve-cons :
    (own : Client) (r : Request) (xs : List (Client × Request)) (s s' : Server) (sent : List Sent)
    → execute_command (sending own r) s ≡ ret (ok, s', sent)
    → serve ((own, r) ∷ xs) s ≡ serve xs s'
serve-cons own r xs s s' sent e =
    unfold serve in
    ap (λ (o : Outcome (Code × Server × List Sent)). o >>= λ done. serve xs done.1) e

module _ (client : Client) where
  written :
      (es : List Entry) (s : Server) (pf : PersistenceFile) (d d' : Effect)
      → Holds pf es
      → s.has_pf ≡ true
      → Same d d'
      → (s' : Server) × (sent : List Sent) × ((let o : Outcome (Code × Server × List Sent) =
              ret (d.0, record s { db = d.1; pf = pf }, d.2) in
            o)
          ≡ ret (ok, s', sent))
        × Leaves es d'.1 s'
  written es s pf (ok, db, sent) d' h has (done, same) =
      (record s { db = db; pf = pf }, sent, refl, (h, same, has))
  written es s pf (err, db, sent) d' h has (done, same) = cc

  execute_write :
      (own : Client) (es : List Entry) (r : Request) (s : Server)
      → s.has_pf ≡ true
      → Holds s.pf es
      → IsKept r
      → (s' : Server) × (sent : List Sent) × (execute_command (sending own r) s
          ≡ ret (ok, s', sent))
        × Leaves (es ++ entry_of r ∷ []) (effect_of r client s.db).1 s'
  execute_write own es r s has h k = rw (execute_write_lem own r s has (write-needs_pf r k.write)) (
      written (es ++ entry_of r ∷ []) s (append_to_pf (entry_of r) s.pf).1
        (effect_of r (sending own r) s.db) (effect_of r client s.db)
        (append_to_pf-Holds h (entry_of r) k.storable).1 has
        (effect_of-Same r (sending own r) client s.db k.write))

  replay-concat :
      (rs : List Request) (r : Request) (db : DataBase)
      → replay client (rs ++ r ∷ []) db ≡ (effect_of r client (replay client rs db)).1
  unfolding replay
  replay-concat [] r db = refl
  replay-concat (x ∷ rs) r db = replay-concat rs r (effect_of x client db).1

  map-concat :
      (rs : List Request) (r : Request)
      → map entry_of (rs ++ r ∷ []) ≡ map entry_of rs ++ entry_of r ∷ []
  map-concat [] r = refl
  map-concat (x ∷ rs) r = ap (◌∷◌ (entry_of x)) (map-concat rs r)

  -- What a server that started with an empty database holds after these requests.
  serve-restores :
      (db0 : DataBase) (xs : List (Client × Request)) (rs : List Request) (s : Server)
      → All (λ (x : Client × Request). IsKept x.1) xs
      → All IsKept rs
      → Leaves (map entry_of rs) (replay client rs db0) s
      → (s' : Server) × (serve xs s ≡ ret s')
        × (import_pf (record s' { db = db0 }) ≡ ret (ok, start, s'))
  unfolding serve
  serve-restores db0 [] rs s ks kr (h, same, has) = (
    s,
    refl,
    import_pf-replay client rs (record s { db = db0 }) h kr
        ∙ ap (λ db. (let i : Import = ret (ok, start, record s { db = db }) in i)) (sym same),
  )
  serve-restores db0 ((own, r) ∷ xs) rs s ks kr (h, same, has) =
      let (s', sent, e, left) = execute_write own (map entry_of rs) r s has h ks.0 in
      let (t, runs, restored) =
        serve-restores db0 xs (rs ++ r ∷ []) s' ks.1 (All-append IsKept rs (r ∷ []) kr (ks.0, tt)) (
          subst (λ es. Holds s'.pf es) (sym (map-concat rs r)) left.0,
          left.1 ∙ ap (λ db. (effect_of r client db).1) same ∙ sym (replay-concat rs r db0),
          left.2,
        ) in
      (t, serve-cons own r xs s s' sent e ∙ runs, restored)

-- A server that keeps a file, which is empty, and runs any sequence of requests gets through all of
-- them, if each is a `set` with a key and a value or a `del` with a key, its text has no delimiter of
-- the file, and its number of parts and their lengths are below 2 ^ 31. If the server then starts
-- again with the database that it had at first, `importPF` ends with `CABINET_OK` and the database
-- that the requests led to.
pub serve-import_pf :
    (xs : List (Client × Request)) (s : Server)
    → s.has_pf ≡ true
    → Holds s.pf []
    → All (λ (x : Client × Request). IsKept x.1) xs
    → (s' : Server) × (serve xs s ≡ ret s')
      × (import_pf (record s' { db = s.db }) ≡ ret (ok, start, s'))
serve-import_pf xs s has h ks =
    serve-restores (pf_client start) s.db xs [] s ks tt (h, unfold replay in refl, has)
