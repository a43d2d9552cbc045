-- ===== src/Children.antt =====
-- src/Children.h and src/Children.cpp: the connections of a node to the servers, and which server
-- gets a command. `hash` is `std::hash<string>`; `reach` says to which servers `Util::connectTcp` gets
-- a connection, `watch` for which of these `EventPoll::createFileEvent` returns no error (an error of
-- `epoll_ctl` itself ends the process there), and `next` is `Cabinet::clientIdMax`.
pub mod Invariant
pub mod Routing
pub mod Flush
pub mod Connect
use cabinet.Base.{
  Bool, Bytes, Code, IntMap, List, Option, Outcome, [], at, codes, err, exit, false, if◌then◌else◌,
  insert, lebℤ, length, ltbℤ, minus_one, none, not, ok, or_exit, pos, ret, scale, some, true, ℕ, ℤ,
  ◌%◌, ◌&&◌, ◌+ℤ◌, ◌/◌, ◌==ℤ◌, ◌==◌, ◌>>=◌, ◌>>◌, ◌||◌, ◌∷◌,
}
use cabinet.Client.{Client, Sent, arg, server_client}
use cabinet.Cluster.{Cluster}
use cabinet.Entry.{Entry, empty_entry}
use cabinet.Parents.{same_client}
use cabinet.PersistenceFile.{find_entry}
use cabinet.ProtocolStream.{ProtocolStream, fill_receive_buf, new_stream, resolve_receive_buf}
use cabinet.ProtocolStream.RoundTrip.{resolved}
use cabinet.RequestVote.{Done}
use cabinet.Siblings.{is_some}

pub record Children : Type 0 where
  pub server_id_vector : List ℤ
  -- `none` is the null pointer
  pub child_ptr_map : IntMap (Option Client)
  pub connect_status : IntMap Bool
  pub ip_map : IntMap Bytes
  pub port_map : IntMap ℤ
  pub consistent_hash_and_server_id_map : IntMap ℤ

abbrev pub hash_value_max : ℕ
hash_value_max = 977

-- `std::find(...) != end()`
unfoldable pub is_one_of : ℤ → List ℤ → Bool
is_one_of id [] = false
is_one_of id (j ∷ ids) = j ==ℤ id || is_one_of id ids

-- `hashUnit * id`; the division is never by 0, as `id` is in the vector.
unfoldable pub hash_slot : List ℤ → ℤ → ℤ
hash_slot ids id = scale (hash_value_max / length ids) id

-- The state after `addChildren`, where it goes through.
abbrev pub with_child : ℤ → Client → Children → Children
with_child id child ch = record ch {
  child_ptr_map = insert id (some child) ch.child_ptr_map;
  connect_status = insert id true ch.connect_status;
  consistent_hash_and_server_id_map =
      insert (hash_slot ch.server_id_vector id) id ch.consistent_hash_and_server_id_map;
}

pub add_children : ℤ → Client → Children → Code × Children
unfolding is_one_of hash_slot at
add_children id child ch =
    if not (is_one_of id ch.server_id_vector)
    then (err, ch)
    else if is_some (at ch.child_ptr_map id none)
    then (err, ch)
    else (ok, with_child id child ch)

abbrev pub is_client : Client → Option Client → Bool
is_client child none = false
is_client child (some c) = same_client c child

-- `getChildrenId`; `CABINET_ERR` is -1
pub get_children_id : Client → IntMap (Option Client) → ℤ
get_children_id child [] = minus_one
get_children_id child ((id, c) ∷ m) =
    let rest = get_children_id child m in if is_client child c then id else rest

-- The search for the server in the consistent hash, and `erase` where it is found.
pub erase_server : ℤ → IntMap ℤ → IntMap ℤ
erase_server id [] = []
erase_server id ((k, j) ∷ m) = let rest = erase_server id m in if j ==ℤ id then m else (k, j) ∷ rest

-- The state after `deleteChildren`, where it goes through.
abbrev pub without_child : ℤ → Children → Children
without_child id ch = record ch {
  child_ptr_map = insert id none ch.child_ptr_map;
  connect_status = insert id false ch.connect_status;
  consistent_hash_and_server_id_map = erase_server id ch.consistent_hash_and_server_id_map;
}

unfoldable pub delete_children : Client → Children → Code × Children
unfolding get_children_id erase_server at
delete_children child ch =
    let id = get_children_id child ch.child_ptr_map in
    if id ==ℤ minus_one
    then (err, ch)
    else if not (is_client child (at ch.child_ptr_map id none))
    then (err, ch)
    else (ok, without_child id ch)

-- `satisfyWorkingBaseling`
unfoldable pub all_children_connected : Bool → Children → List ℤ → Bool
unfolding at
all_children_connected result ch [] = result
all_children_connected result ch (id ∷ ids) =
    all_children_connected (result && at ch.connect_status id false) ch ids

abbrev pub children_ready : Children → Bool
children_ready ch = all_children_connected true ch ch.server_id_vector

-- `createNormalClient` and `setCategory(SERVER_CLIENT)`; the stream, which `useWrapProtocolStream`
-- sets, is no part of this record.
abbrev pub new_child : ℤ → Client
new_child next = record {
  client_id = next;
  cluster_id = minus_one;
  category = server_client;
  argv = [];
  cur_command_buf = [];
}

-- The loop of `connectLostChildren`: it ends at the first server that it does not get.
abbrev pub after_add : ℤ → Code × Children → (Children → ℤ × Children) → ℤ × Children
after_add next (err, ch) go_on = (next, ch)
after_add next (ok, ch) go_on = go_on ch

pub connect_children : (ℤ → Bool) → (ℤ → Bool) → ℤ → List ℤ → Children → ℤ × Children
unfolding add_children at
connect_children reach watch next [] ch = (next, ch)
connect_children reach watch next (id ∷ ids) ch =
    if at ch.connect_status id false
    then connect_children reach watch next ids ch
    else if not (reach id)
    then (next, ch)
    else if not (watch id)
    then (next +ℤ pos 1, ch)
    else after_add (next +ℤ pos 1) (add_children id (new_child next) ch)
        (connect_children reach watch (next +ℤ pos 1) ids)

-- `connectLostChildren`: the next client number and the state after it
unfoldable pub connect_lost_children : (ℤ → Bool) → (ℤ → Bool) → ℤ → Children → ℤ × Children
unfolding connect_children all_children_connected
connect_lost_children reach watch next ch =
    if children_ready ch
    then (next, ch)
    else connect_children reach watch next ch.server_id_vector ch

-- The loop over the consistent hash: the first server whose slot is not below the hash, or -1
pub server_from : ℤ → IntMap ℤ → ℤ
server_from h [] = minus_one
server_from h ((k, id) ∷ m) = let rest = server_from h m in if lebℤ h k then id else rest

abbrev first_server : IntMap ℤ → ℤ
first_server [] = minus_one
first_server ((k, id) ∷ m) = id

-- From `find the server to return` on; the iteration over an empty map gives no server.
pub server_at : ℤ → IntMap ℤ → ℤ
unfolding server_from
server_at h m = let id = server_from h m in if id ==ℤ minus_one then first_server m else id

abbrev pub is_empty {ℓ} : {A : Type ℓ} → List A → Bool
is_empty [] = true
is_empty (x ∷ xs) = false

pub server_of_hash : ℤ → Children → Outcome (Option Client)
unfolding server_at at
server_of_hash h ch = if is_empty ch.consistent_hash_and_server_id_map then ret none else do
  let id = server_at h ch.consistent_hash_and_server_id_map
  or_exit (at ch.connect_status id false)
  ret (at ch.child_ptr_map id none)

-- The text that is hashed.
abbrev pub key_of : List Bytes → Outcome Bytes
key_of argv = if length argv == 1 then arg argv 0 else arg argv 1

abbrev pub respond_resolved :
    (Bytes → ℕ) → Children → Code × ProtocolStream → Outcome (Option Client)
respond_resolved hash ch (err, resolved) = ret none
respond_resolved hash ch (ok, resolved) =
    key_of resolved.argv >>= λ key. server_of_hash (pos (hash key % hash_value_max)) ch

-- `getRespondServer`; `none` is the null pointer
pub get_respond_server : (Bytes → ℕ) → Bytes → Children → Outcome (Option Client)
unfolding resolve_receive_buf fill_receive_buf server_of_hash
get_respond_server hash content ch =
    resolve_receive_buf (fill_receive_buf content (new_stream true false (codes "none")))
    >>= respond_resolved hash ch

-- The last part of `flushServer`: what is sent to the server that was found.
abbrev pub send_to : Cluster → Bytes → Option Client → Code × Cluster × List Sent
send_to c content none = (err, c, [])
send_to c content (some server) =
    (ok, c, record { receiver = server.client_id; text = content } ∷ [])

abbrev pub flush_found : (Bytes → ℕ) → Children → Cluster → Code × Entry → Done
flush_found hash ch c (err, e) = ret (err, c, [])
flush_found hash ch c (ok, e) =
    get_respond_server hash e.content ch >>= λ server. ret (send_to c e.content server)

-- `flushServer`
unfoldable pub flush_server : (Bytes → ℕ) → Children → Cluster → Done
unfolding find_entry get_respond_server
flush_server hash ch c =
    if c.commit_index ==ℤ c.last_applied
    then ret (ok, c, [])
    else if ltbℤ c.commit_index c.last_applied
    then exit
    else (let c' : Cluster = record c { last_applied = c.last_applied +ℤ pos 1 } in
        flush_found hash ch c' (find_entry c'.last_applied c'.pf empty_entry))

-- `FlushServerCommand::operator>>`: the same for one server; nothing calls it.
unfoldable send_flush : Client → Cluster → Done
unfolding find_entry
send_flush client c =
    if c.commit_index ==ℤ c.last_applied
    then ret (ok, c, [])
    else if ltbℤ c.commit_index c.last_applied
    then exit
    else (let c' : Cluster = record c { last_applied = c.last_applied +ℤ pos 1 } in
        let (found, e) = find_entry c'.last_applied c'.pf empty_entry in
        elim found [ err ↦ ret (err, c', []) | ok ↦ ret (send_to c' e.content (some client)) ])
