-- ===== src/Siblings.antt =====
-- src/Siblings.h and src/Siblings.cpp: what a node keeps of the other nodes.
-- `operator[]` at a missing key reads the default that C++ would put there. That it also inserts it
-- shows in nothing else: only `clusterIdClientPtrMap` is searched by `find`, and it is read only at
-- keys that were found.
pub mod Invariant
pub mod Commit
use cabinet.Base.{
  Bool, Bytes, Code, IntMap, List, Option, [], at, err, false, if◌then◌else◌, insert, leb, lebℤ,
  length, lookup, ltb, minus_one, none, not, ok, pos, some, true, ℕ, ℤ, ◌&&◌, ◌+ℤ◌, ◌+◌, ◌-ℤ◌, ◌/◌,
  ◌==ℤ◌, ◌∷◌,
}
use cabinet.Client.{Client}

pub record Siblings : Type 0 where
  pub cluster_id : ℤ
  pub cluster_id_vector : List ℤ
  pub ip_map : IntMap Bytes
  pub port_map : IntMap ℤ
  pub next_index_map : IntMap ℤ
  pub match_index_map : IntMap ℤ
  pub connect_status : IntMap Bool
  -- `clusterIdClientPtrMap`; `none` is the null pointer
  pub client_map : IntMap (Option Client)
  pub current_leader_id : ℤ
  pub connect_trying : IntMap Bool
  pub already_append_entry : IntMap Bool
  pub empty_append_entry : IntMap Bool

abbrev pub is_some {ℓ} : {A : Type ℓ} → Option A → Bool
is_some none = false
is_some (some a) = true

-- `validateClusterId`, and the same test written out
abbrev pub is_known : Siblings → ℤ → Bool
is_known s id = is_some (lookup id s.client_map)

-- `addSiblings`; `commit_index` is `cluster->getIndex()`
unfoldable pub add_siblings : ℤ → Client → Siblings → Code × Siblings
unfolding at
add_siblings commit_index sibling s =
    let id = sibling.cluster_id in
    if id ==ℤ minus_one
    then (err, s)
    else if not (is_known s id)
    then (err, s)
    else if at s.connect_status id false
    then (err, s)
    else if is_some (at s.client_map id none)
    then (err, s)
    else (
      ok,
      record s {
        client_map = insert id (some sibling) s.client_map;
        connect_status = insert id false s.connect_status;
        next_index_map = insert id (commit_index +ℤ pos 1) s.next_index_map;
        match_index_map = insert id (pos 0) s.match_index_map;
        connect_trying = insert id false s.connect_trying;
        already_append_entry = insert id false s.already_append_entry;
      },
    )

unfoldable pub set_leader_id : ℤ → Siblings → Siblings
set_leader_id id s = record s { current_leader_id = id }

-- `deleteSiblings`
unfoldable pub delete_siblings : Client → Siblings → Code × Siblings
unfolding at
delete_siblings sibling s =
    let id = sibling.cluster_id in
    if not (is_known s id)
    then (err, s)
    else if not (is_some (at s.client_map id none))
    then (err, s)
    else (
      ok,
      record s {
        client_map = insert id none s.client_map;
        connect_status = insert id false s.connect_status;
        next_index_map = insert id (pos 0) s.next_index_map;
        match_index_map = insert id (pos 0) s.match_index_map;
        connect_trying = insert id false s.connect_trying;
        already_append_entry = insert id false s.already_append_entry;
        current_leader_id = if id ==ℤ s.current_leader_id then minus_one else s.current_leader_id;
      },
    )

-- The loop of `getSiblingsNeedAppendEntry`; the pointer may be null as far as this code shows.
unfoldable pub need_append_entry : Siblings → List ℤ → List (Option Client)
unfolding at
need_append_entry s [] = []
need_append_entry s (id ∷ ids) =
    let rest = need_append_entry s ids in
    if at s.connect_status id false && not (at s.already_append_entry id false)
    then at s.client_map id none ∷ rest
    else rest

abbrev pub get_siblings_need_append_entry : Siblings → List (Option Client)
get_siblings_need_append_entry s = need_append_entry s s.cluster_id_vector

-- How many of these nodes pass a test, as the counting loops of the source do.
unfoldable pub count_from : ℕ → (ℤ → Bool) → List ℤ → ℕ
count_from n test [] = n
count_from n test (id ∷ ids) = count_from (if test id then n + 1 else n) test ids

-- `clusterTotalNumber` and `clusterHalfNumber`
abbrev pub cluster_total_number : Siblings → ℕ
cluster_total_number s = length s.cluster_id_vector + 1

abbrev pub cluster_half_number : Siblings → ℕ
cluster_half_number s = cluster_total_number s / 2 + 1

unfoldable pub satisfy_working_baseling : Siblings → Bool
unfolding count_from at
satisfy_working_baseling s =
    leb (cluster_half_number s)
      (count_from 1 (λ id. at s.connect_status id false) s.cluster_id_vector)

-- `haveConnectAllSiblings`
unfoldable pub all_connected : Bool → Siblings → List ℤ → Bool
unfolding at
all_connected val s [] = val
all_connected val s (id ∷ ids) = all_connected (val && at s.connect_status id false) s ids

-- `getSiblingNextIndex`; `CABINET_ERR` is -1
unfoldable pub get_sibling_next_index : ℤ → Siblings → ℤ
unfolding at
get_sibling_next_index id s = if is_known s id then at s.next_index_map id (pos 0) else minus_one

unfoldable pub increase_sibling_next_index : ℤ → Siblings → Code × Siblings
unfolding at
increase_sibling_next_index id s =
    if is_known s id
    then (
      ok,
      record s {
        next_index_map = insert id (at s.next_index_map id (pos 0) +ℤ pos 1) s.next_index_map;
      },
    )
    else (err, s)

unfoldable pub decrease_sibling_next_index : ℤ → Siblings → Code × Siblings
unfolding at
decrease_sibling_next_index id s =
    if is_known s id
    then (
      ok,
      record s {
        next_index_map = insert id (at s.next_index_map id (pos 0) -ℤ pos 1) s.next_index_map;
      },
    )
    else (err, s)

-- The loop of the `set…Batch` methods.
unfoldable pub insert_all {ℓ} : {V : Type ℓ} → V → List ℤ → IntMap V → IntMap V
insert_all v [] m = m
insert_all v (id ∷ ids) m = insert_all v ids (insert id v m)

unfoldable pub set_next_index_batch : ℤ → Siblings → Siblings
unfolding insert_all
set_next_index_batch n s = record s {
  next_index_map = insert_all n s.cluster_id_vector s.next_index_map;
}

unfoldable pub set_match_index_batch : ℤ → Siblings → Siblings
unfolding insert_all
set_match_index_batch n s = record s {
  match_index_map = insert_all n s.cluster_id_vector s.match_index_map;
}

unfoldable pub set_already_append_entry_batch : Bool → Siblings → Siblings
unfolding insert_all
set_already_append_entry_batch b s = record s {
  already_append_entry = insert_all b s.cluster_id_vector s.already_append_entry;
}

unfoldable pub set_match_index : ℤ → ℤ → Siblings → Siblings
set_match_index id n s =
    if is_known s id then record s { match_index_map = insert id n s.match_index_map } else s

unfoldable pub set_already_append_entry : ℤ → Bool → Siblings → Code × Siblings
set_already_append_entry id already s =
    if is_known s id
    then (ok, record s { already_append_entry = insert id already s.already_append_entry })
    else (err, s)

unfoldable pub set_empty_append_entry : ℤ → Bool → Siblings → Code × Siblings
set_empty_append_entry id empty s =
    if is_known s id
    then (ok, record s { empty_append_entry = insert id empty s.empty_append_entry })
    else (err, s)

-- `getEmptyAppendEntry`; `none` is `CABINET_ERR`
unfoldable pub get_empty_append_entry : ℤ → Siblings → Option Bool
unfolding at
get_empty_append_entry id s =
    if is_known s id then some (at s.empty_append_entry id false) else none

-- `getLeaderIPAndPort`; `none` is `CABINET_ERR`
unfoldable pub get_leader_ip_and_port : Siblings → Option (Bytes × ℤ)
unfolding at
get_leader_ip_and_port s =
    if s.current_leader_id ==ℤ minus_one
    then none
    else some (at s.ip_map s.current_leader_id [], at s.port_map s.current_leader_id (pos 0))

unfoldable pub confirm_connect_sibling : Client → Siblings → Code × Siblings
confirm_connect_sibling sibling s =
    if is_known s sibling.cluster_id
    then (
      ok,
      record s {
        connect_status = insert sibling.cluster_id true s.connect_status;
        connect_trying = insert sibling.cluster_id false s.connect_trying;
      },
    )
    else (err, s)

-- `checkIfEntryCouldCommit`: the commit index after it, from the one before
unfoldable pub check_if_entry_could_commit : ℤ → Siblings → ℤ → ℤ
unfolding count_from at
check_if_entry_could_commit index s commit_index =
    if lebℤ index commit_index
    then commit_index
    else if ltb
        (count_from 1 (λ id. lebℤ index (at s.match_index_map id (pos 0))) s.cluster_id_vector)
        (cluster_half_number s)
    then commit_index
    else index
