-- ===== src/Tests/Servers.antt =====
-- Commands of a server, its file and its start.
use cabinet.Base.{
  All, List, [], arith, codes, err, if◌then◌else◌, inl, inr, length, map, minus_one, none, ok, pos,
  refl, ret, same_bytes, some, true, ◌∷◌, ◌≡◌, ◌≢◌,
}
use cabinet.Client.{Client, normal_client}
use cabinet.Database.{
  DataBase, answer, del_command, get_command, get_value, select_command, set_command, string_obj,
}
use cabinet.Database.Laws.{IsText, deletion_text, set_del_command-get}
use cabinet.Entry.{Entry, delimiter}
use cabinet.Entry.RoundTrip.{IsStorable}
use cabinet.Number.{digits, to_string}
use cabinet.Number.RoundTrip.{Lacks}
use cabinet.PersistenceFile.Abstract.{Holds, write_entries}
use cabinet.ProtocolStream.Frame.{frame, head_text, part_text, parts_text}
use cabinet.Server.{Server, import_pf}
use cabinet.Server.Refused.{import_pf-refused}
use cabinet.Server.Replay.{
  IsKept, Request, entry_of, holding, import_pf-replay, replay, start, text_of,
}
use cabinet.Server.Restart.{serve, serve-import_pf}

abbrev user : Client
user = record {
  client_id = pos 1;
  cluster_id = minus_one;
  category = normal_client;
  argv = [];
  cur_command_buf = [];
}

abbrev one_key : DataBase
one_key = (codes "a", string_obj (codes "1")) ∷ []

one_key-IsText : IsText (codes "a") one_key
unfolding get_value same_bytes
one_key-IsText e = cc e

set_del_command-get_example :
    (let done = set_command user (codes "set" ∷ codes "a" ∷ codes "2" ∷ []) one_key in
      (done.0 ≡ ok)
      × (get_value (codes "b") done.1 ≡ (
          if same_bytes (codes "a") (codes "b")
          then some (string_obj (codes "2"))
          else get_value (codes "b") one_key))
      × (get_command user (codes "set" ∷ codes "a" ∷ []) done.1
          ≡ (ok, done.1, answer user (codes "2"))))
    × (let done = del_command user (codes "set" ∷ codes "a" ∷ []) one_key in
        (done.0 ≡ ok)
        × (done.2 ≡ answer user (deletion_text (get_value (codes "a") one_key)))
        × (get_value (codes "b") done.1
            ≡ (if same_bytes (codes "a") (codes "b") then none else get_value (codes "b") one_key)))
set_del_command-get_example =
    set_del_command-get user (codes "set") (codes "a") (codes "2") one_key (codes "b")
      one_key-IsText

abbrev pub set_a : Request
set_a = record { name = codes "set"; args = codes "a" ∷ codes "1" ∷ [] }

abbrev del_a : Request
del_a = record { name = codes "del"; args = codes "a" ∷ [] }

-- A `set` without a value.
abbrev bad_set : Request
bad_set = record { name = codes "set"; args = codes "a" ∷ [] }

pub set_a-Lacks : Lacks delimiter (text_of set_a)
unfolding frame head_text parts_text part_text to_string digits
set_a-Lacks = (
  refl,
  (
    refl,
    (
      refl,
      (
        refl,
        (
          refl,
          (
            refl,
            (
              refl,
              (
                refl,
                (
                  refl,
                  (
                    refl,
                    (
                      refl,
                      (
                        refl,
                        (
                          refl,
                          (
                            refl,
                            (
                              refl,
                              (refl, (refl, (refl, (refl, (refl, (refl, (refl, (refl, tt)))))))),
                            ),
                          ),
                        ),
                      ),
                    ),
                  ),
                ),
              ),
            ),
          ),
        ),
      ),
    ),
  ),
)

del_a-Lacks : Lacks delimiter (text_of del_a)
unfolding frame head_text parts_text part_text to_string digits
del_a-Lacks = (
  refl,
  (
    refl,
    (
      refl,
      (
        refl,
        (
          refl,
          (
            refl,
            (
              refl,
              (
                refl,
                (refl, (refl, (refl, (refl, (refl, (refl, (refl, (refl, (refl, (refl, tt)))))))))),
              ),
            ),
          ),
        ),
      ),
    ),
  ),
)

bad_set-Lacks : Lacks delimiter (text_of bad_set)
unfolding frame head_text parts_text part_text to_string digits
bad_set-Lacks = (
  refl,
  (
    refl,
    (
      refl,
      (
        refl,
        (
          refl,
          (
            refl,
            (
              refl,
              (
                refl,
                (refl, (refl, (refl, (refl, (refl, (refl, (refl, (refl, (refl, (refl, tt)))))))))),
              ),
            ),
          ),
        ),
      ),
    ),
  ),
)

stored : (r : Request) → Lacks delimiter (text_of r) → IsStorable (entry_of r)
stored r clean = record { index_fits = refl; term_fits = refl; content_clean = clean }

set_a-IsKept : IsKept set_a
set_a-IsKept = record {
  write = inl (unfold select_command same_bytes in refl, refl);
  storable = stored set_a set_a-Lacks;
  few = omega arith;
  fit = (omega arith, (omega arith, (omega arith, tt)));
}

del_a-IsKept : IsKept del_a
del_a-IsKept = record {
  write = inr (unfold select_command same_bytes in refl, refl);
  storable = stored del_a del_a-Lacks;
  few = omega arith;
  fit = (omega arith, (omega arith, tt));
}

abbrev two_requests : List Request
two_requests = set_a ∷ del_a ∷ []

abbrev server_of : List Entry → Server
server_of es = record {
  db = one_key;
  pf = record { file = write_entries es; readable = true; writable = true };
  has_pf = true;
}

server-Holds : (es : List Entry) → All IsStorable es → Holds (server_of es).pf es
server-Holds es k = record { text = refl; storable = k; can_read = refl; can_write = refl }

import_pf-replay_example :
    import_pf (server_of (map entry_of two_requests))
    ≡ ret (
      ok,
      start,
      record (server_of (map entry_of two_requests)) { db = replay user two_requests one_key },
    )
import_pf-replay_example =
    import_pf-replay user two_requests (server_of (map entry_of two_requests))
      (server-Holds (map entry_of two_requests)
        (set_a-IsKept.storable, (del_a-IsKept.storable, tt)))
      (set_a-IsKept, (del_a-IsKept, tt))

serve-import_pf_example :
    (s : Server) × (serve ((user, set_a) ∷ (user, del_a) ∷ []) (server_of []) ≡ ret s)
    × (import_pf (record s { db = one_key }) ≡ ret (ok, start, s))
serve-import_pf_example =
    serve-import_pf ((user, set_a) ∷ (user, del_a) ∷ []) (server_of []) refl (server-Holds [] tt)
      (set_a-IsKept, (del_a-IsKept, tt))

bad_set-args : length bad_set.args ≢ 2
bad_set-args e = absurd (omega arith)

import_pf-refused_example :
    import_pf (server_of (entry_of bad_set ∷ entry_of set_a ∷ []))
    ≡ ret (err, holding bad_set, server_of (entry_of bad_set ∷ entry_of set_a ∷ []))
import_pf-refused_example =
    import_pf-refused bad_set (entry_of set_a ∷ [])
      (server_of (entry_of bad_set ∷ entry_of set_a ∷ []))
      (server-Holds (entry_of bad_set ∷ entry_of set_a ∷ [])
        (stored bad_set bad_set-Lacks, (set_a-IsKept.storable, tt)))
      (unfold select_command same_bytes in refl) bad_set-args (omega arith)
      (omega arith, (omega arith, tt))
