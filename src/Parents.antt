-- ===== src/Parents.antt =====
-- src/Parents.h and src/Parents.cpp: the connections of the cabinet clients, and which of them waits
-- for which log entry. A pointer to a client is compared by the client's number, which is unique.
pub mod Dealing
use cabinet.Base.{
  Bool, Code, IntMap, List, Option, [], erase, err, false, if◌then◌else◌, insert, lookup, ok, ℤ,
  ◌++◌, ◌==ℤ◌, ◌||◌, ◌∷◌,
}
use cabinet.Client.{Client}

pub record Parents : Type 0 where
  pub parents_queue : List Client
  pub dealing_index_parents_map : IntMap Client

abbrev pub same_client : Client → Client → Bool
same_client a b = a.client_id ==ℤ b.client_id

-- `findParentsInQueue(...) != end()`
unfoldable pub in_queue : Client → List Client → Bool
in_queue c [] = false
in_queue c (d ∷ ds) = same_client d c || in_queue c ds

-- `erase` of the first place where it is found
unfoldable pub remove_first : Client → List Client → List Client
remove_first c [] = []
remove_first c (d ∷ ds) = let rest = remove_first c ds in if same_client d c then ds else d ∷ rest

unfoldable pub add_parents : Client → Parents → Code × Parents
unfolding in_queue
add_parents c p =
    if in_queue c p.parents_queue
    then (err, p)
    else (ok, record p { parents_queue = p.parents_queue ++ c ∷ [] })

unfoldable pub delete_parents : Client → Parents → Code × Parents
unfolding in_queue remove_first
delete_parents c p =
    if in_queue c p.parents_queue
    then (ok, record p { parents_queue = remove_first c p.parents_queue })
    else (err, p)

unfoldable pub set_dealing_index : ℤ → Client → Parents → Code × Parents
unfolding in_queue
set_dealing_index index c p =
    if in_queue c p.parents_queue
    then (ok, record p { dealing_index_parents_map = insert index c p.dealing_index_parents_map })
    else (err, p)

-- `getParentsByDealingIndex`; `none` is the null pointer
unfoldable pub get_parents_by_dealing_index : ℤ → Parents → Option Client × Parents
get_parents_by_dealing_index index p = (
  lookup index p.dealing_index_parents_map,
  record p { dealing_index_parents_map = erase index p.dealing_index_parents_map },
)

unfoldable pub clear_dealing_index : Parents → Parents
clear_dealing_index p = record p { dealing_index_parents_map = [] }
