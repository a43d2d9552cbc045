-- ===== src/Children/Routing.antt =====
-- Which server gets a command: the connected one with the least slot not below the hash of the key,
-- and the one with the least slot of all where there is none.
use mathlib.Core.Path.{subst}
use cabinet.Base.{
  ==ℤ_iff, ==ℤ_refl, Bool-cases, IntMap, List, [], arith, at, false, inl, inr, lebℤ, lookup,
  minus_one, none, refl, ret, some, true, ℤ, ◌<ℤ◌, ◌==ℤ◌, ◌∷◌, ◌≡◌, ◌≤ℤ◌, ◌⊎◌,
}
use cabinet.Children.{Children, is_empty, is_one_of, server_at, server_from, server_of_hash}
use cabinet.Children.Invariant.{IsAbove, IsPlaced, IsServed, IsWired}
use cabinet.Client.{Client}
use cabinet.EventPoll.Safety.{other}

-- `P` holds of every key.
pub AllKeys : (ℤ → Type 0) → IntMap ℤ → Type 0
AllKeys P [] = Unit
AllKeys P ((k, id) ∷ m) = P k × AllKeys P m

-- The least key not below `h` is `k`.
abbrev pub IsNearest : ℤ → ℤ → IntMap ℤ → Type 0
IsNearest h k m = (h ≤ℤ k) × AllKeys (λ j. (j <ℤ h) ⊎ (k ≤ℤ j)) m

-- Every key is below `h`, and the least is `k`.
abbrev pub IsWrapped : ℤ → ℤ → IntMap ℤ → Type 0
IsWrapped h k m = AllKeys (λ j. (j <ℤ h) × (k ≤ℤ j)) m

-- The server that a consistent hash chooses, said without its search.
abbrev pub IsChosen : ℤ → ℤ → ℤ → IntMap ℤ → Type 0
IsChosen h k id m = (lookup k m ≡ some id) × (IsNearest h k m ⊎ IsWrapped h k m)

-- What the search finds, where `P` holds of the entries.
data Search (P : ℤ → ℤ → Type 0) (h : ℤ) (m : IntMap ℤ) : Type 0 where
  hit :
      (k id : ℤ)
      → server_from h m ≡ id
      → lookup k m ≡ some id
      → P k id
      → IsNearest h k m
      → Search P h m
  miss : server_from h m ≡ minus_one → AllKeys (λ j. j <ℤ h) m → Search P h m

above-keys : (h k : ℤ) (m : IntMap ℤ) → IsAbove k m → AllKeys (λ j. (j <ℤ h) ⊎ (k ≤ℤ j)) m
unfolding IsAbove AllKeys
above-keys h k [] above = tt
above-keys h k ((j, id) ∷ m) (below, above) = (inr (ground arith), above-keys h k m above)

module _ (P : ℤ → ℤ → Type 0) (h : ℤ) where
  Search-cons :
      (k id : ℤ) (m : IntMap ℤ)
      → lebℤ h k ≡ false
      → IsAbove k m
      → Search P h m
      → Search P h ((k, id) ∷ m)
  unfolding server_from lookup AllKeys IsAbove
  Search-cons k id m low above (miss none_found below) =
      miss (rw low none_found) (ground arith, below)
  Search-cons k id m low above (hit k' id' found has p (up, near)) =
      let differ : (k ==ℤ k') ≡ false = ground arith in
      hit k' id' (rw low found) (rw differ has) p (up, (inl (ground arith), near))

  search : (m : IntMap ℤ) → IsPlaced P m → Search P h m
  unfolding server_from lookup AllKeys IsPlaced
  search [] placed = miss refl tt
  search ((k, id) ∷ m) (p, above, placed) = elim (Bool-cases (lebℤ h k)) [
    | inl up ↦
        hit k id (rw up refl) (rw ==ℤ_refl refl) p
          (ground arith, (inr (ground arith), above-keys h k m above))
    | inr low ↦ Search-cons k id m low above (search m placed)
  ]

no_sentinel :
    (ids : List ℤ) (id : ℤ)
    → is_one_of minus_one ids ≡ false
    → is_one_of id ids ≡ true
    → (id ==ℤ minus_one) ≡ false
no_sentinel ids id none_there there = elim (Bool-cases (id ==ℤ minus_one)) [
  | inr other ↦ other
  | inl same ↦
      let here = subst (λ i. is_one_of i ids ≡ true) ((==ℤ_iff id minus_one).0 same) there in
      ground arith
]

wrapped : (h k : ℤ) (m : IntMap ℤ) → IsAbove k m → AllKeys (λ j. j <ℤ h) m → IsWrapped h k m
unfolding IsAbove AllKeys
wrapped h k [] above below = tt
wrapped h k ((j, id) ∷ m) (over, above) (under, below) =
    ((under, ground arith), wrapped h k m above below)

head_lookup : (k id : ℤ) (m : IntMap ℤ) → lookup k ((k, id) ∷ m) ≡ some id
unfolding lookup
head_lookup k id m = rw ==ℤ_refl refl

IsWrapped-cons :
    (h k id : ℤ) (m : IntMap ℤ)
    → IsAbove k m
    → AllKeys (λ j. j <ℤ h) ((k, id) ∷ m)
    → IsWrapped h k ((k, id) ∷ m)
unfolding AllKeys
IsWrapped-cons h k id m above (under, below) = ((under, ground arith), wrapped h k m above below)

head_placed :
    (P : ℤ → ℤ → Type 0) (k id : ℤ) (m : IntMap ℤ) → IsPlaced P ((k, id) ∷ m) → P k id × IsAbove k m
unfolding IsPlaced
head_placed P k id m (p, above, placed) = (p, above)

Search-IsServed :
    (h : ℤ) (ch : Children) (m : IntMap ℤ)
    → is_one_of minus_one ch.server_id_vector ≡ false
    → is_empty m ≡ false
    → IsPlaced (IsServed ch) m
    → Search (IsServed ch) h m
    → (k id : ℤ) × (server_at h m ≡ id) × IsChosen h k id m × IsServed ch k id
unfolding server_at
Search-IsServed h ch m sentinel filled placed (hit k id found has served near) =
    let other : (id ==ℤ minus_one) ≡ false = no_sentinel ch.server_id_vector id sentinel served.1 in
    (k, id, rw (found, other) refl, (has, inl near), served)
Search-IsServed h ch [] sentinel filled placed (miss none_found below) = ground arith
Search-IsServed h ch ((k, id) ∷ m) sentinel filled placed (miss none_found below) =
    let (served, above) = head_placed (IsServed ch) k id m placed in
    (
      k,
      id,
      rw none_found refl,
      (head_lookup k id m, inr (IsWrapped-cons h k id m above below)),
      served,
    )

-- The server that gets a command with the hash `h`, if the consistent hash holds only connected
-- servers of the configuration, each at its slot and in ascending order, -1 is no server's number,
-- and the consistent hash is not empty: `getRespondServer` does not stop the program, and returns
-- the connection of the connected server whose slot is the least that is not below `h`, or the least
-- of all if every slot is below `h`.
pub server_of_hash-IsChosen :
    (h : ℤ) (ch : Children)
    → IsWired ch
    → is_empty ch.consistent_hash_and_server_id_map ≡ false
    → (k id : ℤ) × (child : Client) × (server_of_hash h ch ≡ ret (some child))
      × (at ch.child_ptr_map id none ≡ some child)
      × (at ch.connect_status id false ≡ true)
      × IsChosen h k id ch.consistent_hash_and_server_id_map
unfolding server_of_hash
server_of_hash-IsChosen h ch wired filled =
    let m = ch.consistent_hash_and_server_id_map in
    let (k, id, given, chosen, served) =
      Search-IsServed h ch m wired.no_sentinel filled wired.placed
        (search (IsServed ch) h m wired.placed) in
    let (slot, inside, on, (child, has)) = served in
    (k, id, child, rw (filled, given, on, has) refl, has, on, chosen)
