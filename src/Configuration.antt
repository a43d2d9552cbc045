-- ===== src/Configuration.antt =====
-- src/Configuration.h and src/Configuration.cpp, and what a node reads from its configuration:
-- `recognizeSiblings` of src/Siblings.cpp, `recognizeChildren` of src/Children.cpp and `initConfig`
-- of src/Cluster.cpp.
pub mod Init
pub mod Start
pub mod Ready
use mathlib.Core.Option
use cabinet.Base.{
  Bytes, Code, List, Option, Outcome, [], codes, drop, err, exit, false, if◌then◌else◌, insert,
  ltbℤ, none, ok, pos, pos_part, ret, same_bytes, some, suc, take, zero, ℕ, ℤ, ◌++◌, ◌+ℤ◌, ◌-ℤ◌,
  ◌==ℤ◌, ◌==◌, ◌∷◌,
}
use cabinet.Children.{Children}
use cabinet.Number.{stoi, to_string}
use cabinet.ProtocolStream.{newline}
use cabinet.Siblings.{Siblings}

-- `configuration`; the entry that was stored last for a key is the first with it. The map is never
-- iterated.
abbrev pub Configuration : Type 0
Configuration = List (Bytes × Bytes)

-- `find` and `operator[]`
unfoldable pub conf_value : Configuration → Bytes → Bytes
unfolding same_bytes
conf_value [] name = codes "undefine"
conf_value ((key, value) ∷ conf) name = if same_bytes key name then value else conf_value conf name

abbrev add_to_line : ℕ → List Bytes → List Bytes
add_to_line c [] = (c ∷ []) ∷ []
add_to_line c (l ∷ ls) = (c ∷ l) ∷ ls

-- What the calls of `getline` read, the last one at the end of the file.
unfoldable pub conf_lines : Bytes → List Bytes
conf_lines [] = [] ∷ []
conf_lines (c ∷ cs) =
    let rest = conf_lines cs in if c == newline then [] ∷ rest else add_to_line c rest

-- `find("=")`
unfoldable pub find_separator : Bytes → Option ℕ
find_separator [] = none
find_separator (c ∷ cs) = if c == b'=' then some 0 else Option.map suc (find_separator cs)

abbrev store_at : Bytes → Configuration → Option ℕ → Configuration
store_at line_buf conf none = conf
store_at line_buf conf (some n) = (take n line_buf, drop (suc n) line_buf) ∷ conf

-- What a line adds.
unfoldable pub store_line : Bytes → Configuration → Configuration
unfolding find_separator
store_line [] conf = conf
store_line (c ∷ cs) conf =
    if c == b'#' then conf else store_at (c ∷ cs) conf (find_separator (c ∷ cs))

unfoldable pub store_lines : List Bytes → Configuration → Configuration
unfolding store_line
store_lines [] conf = conf
store_lines (l ∷ ls) conf = store_lines ls (store_line l conf)

-- `loadConfiguration`; `none` is a file that can not be opened.
unfoldable pub load_configuration : Option Bytes → Configuration → Code × Configuration
unfolding conf_lines store_lines
load_configuration none conf = (err, conf)
load_configuration (some text) conf = (ok, store_lines (conf_lines text) conf)

-- `std::stoi(conf[name])`
abbrev pub conf_int : Configuration → Bytes → Option ℤ
conf_int conf name = stoi (conf_value conf name)

-- A turn of the loop of `recognizeSiblings`, with the port that was read.
abbrev pub with_sibling : Configuration → ℤ → ℤ → Siblings → Siblings
with_sibling conf id port s = record s {
  cluster_id_vector = s.cluster_id_vector ++ id ∷ [];
  ip_map = insert id (conf_value conf (codes "CLUSTER_IP_" ++ to_string id)) s.ip_map;
  port_map = insert id port s.port_map;
  next_index_map = insert id (pos 0) s.next_index_map;
  match_index_map = insert id (pos 0) s.match_index_map;
  connect_status = insert id false s.connect_status;
  client_map = insert id none s.client_map;
  connect_trying = insert id false s.connect_trying;
  already_append_entry = insert id false s.already_append_entry;
}

abbrev pub after_port : Option ℤ → (ℤ → Code × Siblings) → Code × Siblings → Code × Siblings
after_port none go_on failed = failed
after_port (some port) go_on failed = go_on port

-- The loop from `id` on, with the number of turns; an exception of `stoi` ends it.
unfoldable pub recognize_from : Configuration → ℕ → ℤ → Siblings → Code × Siblings
recognize_from conf zero id s = (ok, s)
recognize_from conf (suc n) id s =
    if id ==ℤ s.cluster_id
    then recognize_from conf n (id +ℤ pos 1) s
    else after_port (conf_int conf (codes "CLUSTER_PORT_" ++ to_string id))
        (λ port. recognize_from conf n (id +ℤ pos 1) (with_sibling conf id port s))
        (err, record s { cluster_id_vector = s.cluster_id_vector ++ id ∷ [] })

-- The numbers from `id_min` to `id_max`
abbrev pub turns : ℤ → ℤ → ℕ
turns id_min id_max = pos_part (id_max +ℤ pos 1 -ℤ id_min)

-- `recognizeSiblings`, where the three numbers were read; `none` is an exception.
unfoldable pub recognize_in :
    Configuration → Option ℤ → Option ℤ → Option ℤ → Siblings → Outcome (Code × Siblings)
unfolding recognize_from
recognize_in conf (some own) (some id_min) (some id_max) s =
    if ltbℤ id_min (pos 1)
    then exit
    else ret (recognize_from conf (turns id_min id_max) id_min (record s { cluster_id = own }))
recognize_in conf own id_min id_max s = ret (err, s)

unfoldable pub recognize_siblings : Configuration → Siblings → Outcome (Code × Siblings)
unfolding recognize_in
recognize_siblings conf s =
    recognize_in conf (conf_int conf (codes "CLUSTER_ID")) (conf_int conf (codes "CLUSTER_ID_MIN"))
      (conf_int conf (codes "CLUSTER_ID_MAX")) s

-- A turn of the loop of `recognizeChildren`; the port is read behind the rest.
abbrev pub with_server : Configuration → ℤ → Children → Children
with_server conf id ch = record ch {
  server_id_vector = ch.server_id_vector ++ id ∷ [];
  child_ptr_map = insert id none ch.child_ptr_map;
  connect_status = insert id false ch.connect_status;
  ip_map = insert id (conf_value conf (codes "CLUSTER_SERVER_IP_" ++ to_string id)) ch.ip_map;
}

abbrev pub after_server_port :
    ℤ → Children → Option ℤ → (Children → Code × Children) → Code × Children
after_server_port id ch none go_on = (err, ch)
after_server_port id ch (some port) go_on =
    go_on (record ch { port_map = insert id port ch.port_map })

unfoldable pub recognize_servers : Configuration → ℕ → ℤ → Children → Code × Children
recognize_servers conf zero id ch = (ok, ch)
recognize_servers conf (suc n) id ch =
    after_server_port id (with_server conf id ch)
      (conf_int conf (codes "CLUSTER_SERVER_PORT_" ++ to_string id))
      (recognize_servers conf n (id +ℤ pos 1))

abbrev pub recognize_total : Configuration → Option ℤ → Children → Code × Children
recognize_total conf none ch = (err, ch)
recognize_total conf (some total) ch = recognize_servers conf (pos_part total) (pos 1) ch

unfoldable pub recognize_children : Configuration → Children → Code × Children
unfolding recognize_servers
recognize_children conf ch = recognize_total conf (conf_int conf (codes "CLUSTER_SERVER_TOTAL")) ch
