-- ===== src/Children/Invariant.antt =====
-- The consistent hash of the servers holds the connected ones, at their slots, in ascending order.
use mathlib.Core.Path.{subst}
use cabinet.Base.{
  ==ℤ_iff, ==ℤ_refl, Bool, Bool-cases, Code, IntMap, List, [], ap, arith, at, err, false,
  if◌then◌else◌, inl, inr, insert, ltbℤ, minus_one, none, not, ok, pos, refl, some, true, ℤ, ◌+ℤ◌,
  ◌<ℤ◌, ◌==ℤ◌, ◌∙◌, ◌∷◌, ◌≡◌,
}
use cabinet.Children.{
  Children, add_children, after_add, children_ready, connect_children, connect_lost_children,
  delete_children, erase_server, get_children_id, hash_slot, is_client, is_one_of, new_child,
  with_child, without_child,
}
use cabinet.Client.{Client}
use cabinet.Siblings.{is_some}
use cabinet.Siblings.Invariant.{at-insert}

-- Every key of the map is above `k`.
unfoldable pub IsAbove : ℤ → IntMap ℤ → Type 0
IsAbove k [] = Unit
IsAbove k ((j, id) ∷ m) = (k <ℤ j) × IsAbove k m

-- The keys ascend, and `P` holds of every key with its value.
unfoldable pub IsPlaced : (ℤ → ℤ → Type 0) → IntMap ℤ → Type 0
unfolding IsAbove
IsPlaced P [] = Unit
IsPlaced P ((k, id) ∷ m) = P k id × IsAbove k m × IsPlaced P m

IsAbove-insert : (j k id : ℤ) (m : IntMap ℤ) → j <ℤ k → IsAbove j m → IsAbove j (insert k id m)
unfolding IsAbove insert
IsAbove-insert j k id [] less above = (less, tt)
IsAbove-insert j k id ((i, v) ∷ m) less (below, above) =
    let rest = IsAbove-insert j k id m less above in
    elim (Bool-cases (i ==ℤ k)) [
      | inl same ↦ rw same (less, above)
      | inr other ↦ elim (Bool-cases (ltbℤ k i)) [
        | inl lower ↦ rw (other, lower) (less, (below, above))
        | inr upper ↦ rw (other, upper) (below, rest)
      ]
    ]

IsAbove-trans : (j k : ℤ) (m : IntMap ℤ) → j <ℤ k → IsAbove k m → IsAbove j m
unfolding IsAbove
IsAbove-trans j k [] less above = tt
IsAbove-trans j k ((i, v) ∷ m) less (below, above) = (ground arith, IsAbove-trans j k m less above)

IsAbove-erase : (k id : ℤ) (m : IntMap ℤ) → IsAbove k m → IsAbove k (erase_server id m)
unfolding IsAbove erase_server
IsAbove-erase k id [] above = tt
IsAbove-erase k id ((j, v) ∷ m) (below, above) = elim (Bool-cases (v ==ℤ id)) [
  | inl same ↦ rw same above
  | inr other ↦ rw other (below, IsAbove-erase k id m above)
]

not_below : {j k : ℤ} → j ≡ k → k <ℤ j → ⊥
not_below {j} {k} same below = elim (Bool-cases (j ==ℤ k)) [
  | inl equal ↦ ground arith
  | inr other ↦ absurd (ground (arith, (==ℤ_iff j k).1 same))
]

module _ (P : ℤ → ℤ → Type 0) where
  IsPlaced-insert : (k id : ℤ) (m : IntMap ℤ) → P k id → IsPlaced P m → IsPlaced P (insert k id m)
  unfolding IsPlaced IsAbove insert
  IsPlaced-insert k id [] p placed = (p, tt, tt)
  IsPlaced-insert k id ((i, v) ∷ m) p (q, above, placed) = elim (Bool-cases (i ==ℤ k)) [
    | inl same ↦ rw same (p, subst (λ j. IsAbove j m) ((==ℤ_iff i k).0 same) above, placed)
    | inr other ↦ elim (Bool-cases (ltbℤ k i)) [
      | inl lower ↦
          rw (other, lower)
            (p, (ground arith, IsAbove-trans k i m (ground arith) above), (q, above, placed))
      | inr upper ↦
          rw (other, upper)
            (
              q,
              IsAbove-insert i k id m (ground (arith, ==ℤ_iff i k)) above,
              IsPlaced-insert k id m p placed,
            )
    ]
  ]

  module _ (Q : ℤ → ℤ → Type 0) where
    IsPlaced-map : (m : IntMap ℤ) → ((k id : ℤ) → P k id → Q k id) → IsPlaced P m → IsPlaced Q m
    unfolding IsPlaced
    IsPlaced-map [] f placed = tt
    IsPlaced-map ((k, id) ∷ m) f (p, above, placed) = (f k id p, above, IsPlaced-map m f placed)

    module _ (slot : ℤ → ℤ) (id : ℤ) (at_slot : (k j : ℤ) → P k j → k ≡ slot j)
        (keep : (k j : ℤ) → P k j → (j ==ℤ id) ≡ false → Q k j) where
      -- no other key has the value of the least one
      IsPlaced-keep : (m : IntMap ℤ) → IsAbove (slot id) m → IsPlaced P m → IsPlaced Q m
      unfolding IsPlaced IsAbove
      IsPlaced-keep [] above placed = tt
      IsPlaced-keep ((k, j) ∷ m) (below, over) (p, above, placed) = (
        keep k j p (elim (Bool-cases (j ==ℤ id)) [
          | inl same ↦
              let where_it_is : k ≡ slot id = at_slot k j p ∙ ap slot ((==ℤ_iff j id).0 same) in
              absurd (not_below where_it_is below)
          | inr other ↦ other
        ]),
        above,
        IsPlaced-keep m over placed,
      )

      IsPlaced-erase : (m : IntMap ℤ) → IsPlaced P m → IsPlaced Q (erase_server id m)
      unfolding IsPlaced erase_server
      IsPlaced-erase [] placed = tt
      IsPlaced-erase ((k, j) ∷ m) (p, above, placed) = elim (Bool-cases (j ==ℤ id)) [
        | inl same ↦ rw same (
            IsPlaced-keep m
              (subst (λ i. IsAbove i m) (at_slot k j p ∙ ap slot ((==ℤ_iff j id).0 same)) above)
              placed)
        | inr other ↦
            rw other (keep k j p other, IsAbove-erase k id m above, IsPlaced-erase m placed)
      ]

-- The node has a connection to the server `id`.
abbrev pub HasChild : ℤ → Children → Type 0
HasChild id ch = (child : Client) × (at ch.child_ptr_map id none ≡ some child)

-- What holds of a server in the consistent hash, and of its key.
abbrev pub IsServed : Children → ℤ → ℤ → Type 0
IsServed ch k id =
    (k ≡ hash_slot ch.server_id_vector id)
    × (is_one_of id ch.server_id_vector ≡ true)
    × (at ch.connect_status id false ≡ true)
    × HasChild id ch

-- The consistent hash holds connected servers of the configuration at their slots, and -1 is none
-- of these.
pub record IsWired (ch : Children) : Type 0 where
  pub no_sentinel : is_one_of minus_one ch.server_id_vector ≡ false
  pub placed : IsPlaced (IsServed ch) ch.consistent_hash_and_server_id_map

-- The state that an operation leaves, so that its branches are told apart from what they hold.
record LeavesWired (r : Code × Children) : Type 0 where
  wired : IsWired r.1

LeavesWired-if :
    (b : Bool) (u v : Code × Children)
    → LeavesWired u
    → (b ≡ false → LeavesWired v)
    → LeavesWired (if b then u else v)
LeavesWired-if true u v hu hv = hu
LeavesWired-if false u v hu hv = hv refl

pub at-same {ℓ} :
    {V : Type ℓ} (m : IntMap V) (default : V) (i : ℤ) (v : V) → at (insert i v m) i default ≡ v
at-same m default i v = rw (at-insert, ==ℤ_refl) refl

module _ (ch : Children) (wired : IsWired ch) where
  unchanged-LeavesWired : (code : Code) → LeavesWired (code, ch)
  unchanged-LeavesWired code = record { wired = wired }

  IsServed-with_child :
      (id : ℤ) (child : Client) (k j : ℤ) → IsServed ch k j → IsServed (with_child id child ch) k j
  IsServed-with_child id child k j (slot, inside, on, (c, has)) = elim (Bool-cases (id ==ℤ j)) [
    | inl same ↦ (slot, inside, rw (at-insert, same) refl, (child, rw (at-insert, same) refl))
    | inr other ↦ (slot, inside, rw (at-insert, other) on, (c, rw (at-insert, other) has))
  ]

  with_child-IsWired :
      (id : ℤ) (child : Client)
      → is_one_of id ch.server_id_vector ≡ true
      → IsWired (with_child id child ch)
  with_child-IsWired id child inside = record {
    no_sentinel = wired.no_sentinel;
    placed =
        IsPlaced-insert _ (hash_slot ch.server_id_vector id) id _
          (refl, inside, at-same _ false id true, (child, at-same _ none id (some child)))
          (IsPlaced-map _ _ _ (IsServed-with_child id child) wired.placed);
  }

  add_children-LeavesWired : (id : ℤ) (child : Client) → LeavesWired (add_children id child ch)
  unfolding add_children
  add_children-LeavesWired id child =
      LeavesWired-if (not (is_one_of id ch.server_id_vector)) _ _ (unchanged-LeavesWired err)
        (λ known.
          LeavesWired-if (is_some (at ch.child_ptr_map id none)) _ _ (unchanged-LeavesWired err)
            (λ free. record { wired = with_child-IsWired id child (ground arith) }))

  without_child-IsWired : (id : ℤ) → IsWired (without_child id ch)
  without_child-IsWired id = record {
    no_sentinel = wired.no_sentinel;
    placed =
        IsPlaced-erase _ _ (hash_slot ch.server_id_vector) id (λ k j served. served.0)
          (λ k j (slot, inside, on, (c, has)) other.
            let other' : (id ==ℤ j) ≡ false = ground arith in
            (slot, inside, rw (at-insert, other') on, (c, rw (at-insert, other') has)))
          ch.consistent_hash_and_server_id_map wired.placed;
  }

  delete_children-LeavesWired : (child : Client) → LeavesWired (delete_children child ch)
  unfolding delete_children
  delete_children-LeavesWired child =
      let id = get_children_id child ch.child_ptr_map in
      LeavesWired-if (id ==ℤ minus_one) _ _ (unchanged-LeavesWired err) (λ found.
        LeavesWired-if (not (is_client child (at ch.child_ptr_map id none))) _ _
          (unchanged-LeavesWired err) (λ same. record { wired = without_child-IsWired id }))

  pub add_children-IsWired : (id : ℤ) (child : Client) → IsWired (add_children id child ch).1
  add_children-IsWired id child = (add_children-LeavesWired id child).wired

-- What `addChildren` keeps, `connectLostChildren` keeps.
module _ (P : Children → Type 0)
    (step : (id : ℤ) (child : Client) (ch : Children) → P ch → P (add_children id child ch).1) where
  after_add-keeps :
      (next : ℤ) (r : Code × Children) (go_on : Children → ℤ × Children)
      → P r.1
      → ((ch : Children) → P ch → P (go_on ch).1)
      → P (after_add next r go_on).1
  after_add-keeps next (ok, ch) go_on p rest = rest ch p
  after_add-keeps next (err, ch) go_on p rest = p

  keeps-if : (b : Bool) (u v : ℤ × Children) → P u.1 → P v.1 → P (if b then u else v).1
  keeps-if true u v hu hv = hu
  keeps-if false u v hu hv = hv

  connect_children-keeps :
      (reach watch : ℤ → Bool) (next : ℤ) (ids : List ℤ) (ch : Children)
      → P ch
      → P (connect_children reach watch next ids ch).1
  unfolding connect_children
  connect_children-keeps reach watch next [] ch p = p
  connect_children-keeps reach watch next (id ∷ ids) ch p =
      keeps-if (at ch.connect_status id false) _ _
        (connect_children-keeps reach watch next ids ch p)
        (keeps-if (not (reach id)) _ _ p (
          keeps-if (not (watch id)) _ _ p (
            after_add-keeps _ (add_children id (new_child next) ch) _
              (step id (new_child next) ch p)
              (connect_children-keeps reach watch (next +ℤ pos 1) ids))))

  pub connect_lost-keeps :
      (reach watch : ℤ → Bool) (next : ℤ) (ch : Children)
      → P ch
      → P (connect_lost_children reach watch next ch).1
  unfolding connect_lost_children
  connect_lost-keeps reach watch next ch p =
      keeps-if (children_ready ch) _ _ p
        (connect_children-keeps reach watch next ch.server_id_vector ch p)

pub connect_lost-IsWired :
    (reach watch : ℤ → Bool) (next : ℤ) (ch : Children)
    → IsWired ch
    → IsWired (connect_lost_children reach watch next ch).1
connect_lost-IsWired =
    connect_lost-keeps IsWired (λ id child ch wired. add_children-IsWired ch wired id child)

-- If the consistent hash holds only connected servers of the configuration, each at its slot and in
-- ascending order of the slots, and -1 is no server's number, then `addChildren`, `deleteChildren`
-- and `connectLostChildren` leave a state of which the same holds, whichever servers are reached.
pub children-IsWired :
    (ch : Children) (id : ℤ) (child : Client) (reach watch : ℤ → Bool) (next : ℤ)
    → IsWired ch
    → IsWired (add_children id child ch).1
      × IsWired (delete_children child ch).1
      × IsWired (connect_lost_children reach watch next ch).1
children-IsWired ch id child reach watch next wired = (
  add_children-IsWired ch wired id child,
  (delete_children-LeavesWired ch wired child).wired,
  connect_lost-IsWired reach watch next ch wired,
)
