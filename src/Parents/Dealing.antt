-- ===== src/Parents/Dealing.antt =====
-- Which client gets the reply for a log entry.
use cabinet.Base.{
  ==ℤ_refl, [], arith, insert, lookup, lookup-erase, lookup-insert, none, ok, refl, some, ℤ, ◌≡◌,
}
use cabinet.Client.{Client}
use cabinet.Parents.{
  Parents, clear_dealing_index, delete_parents, get_parents_by_dealing_index, set_dealing_index,
}

lookup-nil : (i : ℤ) → lookup {V = Client} i [] ≡ none
lookup-nil i = unfold lookup in refl

-- Where `setDealingIndex` succeeds, the client that was set for an index is the one that is found
-- there, once: a second search, or one after `clearDealingIndex`, finds none.
pub dealing_once :
    (i : ℤ) (c : Client) (p : Parents)
    → (set_dealing_index i c p).0 ≡ ok
    → (let (found, p') = get_parents_by_dealing_index i (set_dealing_index i c p).1 in
        (found ≡ some c)
        × ((get_parents_by_dealing_index i p').0 ≡ none)
        × ((get_parents_by_dealing_index i (clear_dealing_index (set_dealing_index i c p).1)).0
            ≡ none))
unfolding set_dealing_index get_parents_by_dealing_index clear_dealing_index
dealing_once i c p h =
    let m = p.dealing_index_parents_map in
    ground (arith, ==ℤ_refl i, lookup-insert i i c m, lookup-erase i i (insert i c m), lookup-nil i)

-- Deleting a client does not take back what it waits for: an index that was set for it, with
-- success, still leads to it.
dealing_after_delete :
    (i : ℤ) (c : Client) (p : Parents)
    → (set_dealing_index i c p).0 ≡ ok
    → (let p' = (set_dealing_index i c p).1 in
        ((delete_parents c p').0 ≡ ok)
        × ((get_parents_by_dealing_index i (delete_parents c p').1).0 ≡ some c))
unfolding set_dealing_index get_parents_by_dealing_index delete_parents
dealing_after_delete i c p h =
    ground (arith, ==ℤ_refl i, lookup-insert i i c p.dealing_index_parents_map)

-- Where `setDealingIndex` succeeds, the client that was set for an index is the one that is found
-- there, once: a second search, or one after `clearDealingIndex`, finds none. Deleting the client,
-- which succeeds, does not take it back: the index still leads to it.
pub set_dealing_index-leads :
    (i : ℤ) (c : Client) (p : Parents)
    → (set_dealing_index i c p).0 ≡ ok
    → (let set = (set_dealing_index i c p).1 in
        let (found, p') = get_parents_by_dealing_index i set in
        (found ≡ some c)
        × ((get_parents_by_dealing_index i p').0 ≡ none)
        × ((get_parents_by_dealing_index i (clear_dealing_index set)).0 ≡ none)
        × ((delete_parents c set).0 ≡ ok)
        × ((get_parents_by_dealing_index i (delete_parents c set).1).0 ≡ some c))
set_dealing_index-leads i c p h =
    let (first, second, third) = dealing_once i c p h in
    let (fourth, fifth) = dealing_after_delete i c p h in (first, second, third, fourth, fifth)
