-- ===== src/Children/Connect.antt =====
-- The servers that are reached get connected.
use mathlib.Core.Path.{subst}
use cabinet.Base.{
  ==ℤ_refl, All, Bool, Bool-cases, List, [], ap, arith, at, false, inl, inr, none, ok, pos, refl,
  sym, true, ℤ, ◌+ℤ◌, ◌==ℤ◌, ◌∙◌, ◌∷◌, ◌≡◌,
}
use cabinet.Children.{
  Children, add_children, all_children_connected, children_ready, connect_children,
  connect_lost_children, is_one_of, new_child, with_child,
}
use cabinet.Children.Invariant.{at-same, connect_lost-keeps}
use cabinet.Client.{Client}
use cabinet.Siblings.{is_some}
use cabinet.Siblings.Invariant.{at-insert}

-- A server has a connection just if its status says so.
abbrev pub IsLinked : Children → Type 0
IsLinked ch = (id : ℤ) → at ch.connect_status id false ≡ is_some (at ch.child_ptr_map id none)

abbrev IsOn : Children → ℤ → Type 0
IsOn ch id = at ch.connect_status id false ≡ true

abbrev pub everywhere : ℤ → Bool
everywhere id = true

module _ (id : ℤ) (child : Client) (ch : Children) where
  with_child-IsLinked : IsLinked ch → IsLinked (with_child id child ch)
  with_child-IsLinked linked j = elim (Bool-cases (id ==ℤ j)) [
    | inl same ↦ rw (at-insert, at-insert, same) refl
    | inr other ↦ rw (at-insert, at-insert, other) (linked j)
  ]

  with_child-IsOn : (j : ℤ) → IsOn ch j → IsOn (with_child id child ch) j
  with_child-IsOn j on = elim (Bool-cases (id ==ℤ j)) [
    | inl same ↦ rw (at-insert, same) refl
    | inr other ↦ rw (at-insert, other) on
  ]

  add_children-ok :
      IsLinked ch
      → is_one_of id ch.server_id_vector ≡ true
      → at ch.connect_status id false ≡ false
      → add_children id child ch ≡ (ok, with_child id child ch)
  unfolding add_children
  add_children-ok linked inside off =
      let free : is_some (at ch.child_ptr_map id none) ≡ false = sym (linked id) ∙ off in
      rw (inside, free) refl

add_children-IsLinked :
    (id : ℤ) (child : Client) (ch : Children) → IsLinked ch → IsLinked (add_children id child ch).1
unfolding add_children
add_children-IsLinked id child ch linked = elim (Bool-cases (is_one_of id ch.server_id_vector)) [
  | inr other ↦ rw other linked
  | inl inside ↦ elim (Bool-cases (is_some (at ch.child_ptr_map id none))) [
    | inl taken ↦ rw (inside, taken) linked
    | inr free ↦ rw (inside, free) (with_child-IsLinked id child ch linked)
  ]
]

pub connect_lost-IsLinked :
    (reach watch : ℤ → Bool) (next : ℤ) (ch : Children)
    → IsLinked ch
    → IsLinked (connect_lost_children reach watch next ch).1
connect_lost-IsLinked = connect_lost-keeps IsLinked add_children-IsLinked

-- The state after the loop, when every server is reached.
record IsReached (ch : Children) (ids : List ℤ) (r : Children) : Type 0 where
  vector : r.server_id_vector ≡ ch.server_id_vector
  linked : IsLinked r
  kept : (id : ℤ) → IsOn ch id → IsOn r id
  reached : All (IsOn r) ids

connect_children-on :
    (next id : ℤ) (ids : List ℤ) (ch : Children)
    → IsOn ch id
    → connect_children everywhere everywhere next (id ∷ ids) ch
      ≡ connect_children everywhere everywhere next ids ch
unfolding connect_children
connect_children-on next id ids ch on = rw on refl

connect_children-off :
    (next id : ℤ) (ids : List ℤ) (ch : Children)
    → IsLinked ch
    → is_one_of id ch.server_id_vector ≡ true
    → at ch.connect_status id false ≡ false
    → connect_children everywhere everywhere next (id ∷ ids) ch
      ≡ connect_children everywhere everywhere
          (next +ℤ pos 1)
          ids
          (with_child id (new_child next) ch)
unfolding connect_children
connect_children-off next id ids ch linked inside off =
    rw (off, add_children-ok id (new_child next) ch linked inside off) refl

connect_children-IsReached :
    (next : ℤ) (ids : List ℤ) (ch : Children)
    → IsLinked ch
    → All (λ id. is_one_of id ch.server_id_vector ≡ true) ids
    → IsReached ch ids (connect_children everywhere everywhere next ids ch).1
connect_children-IsReached next [] ch linked inside =
    unfold connect_children in
    record { vector = refl; linked = linked; kept = λ id on. on; reached = tt }
connect_children-IsReached next (id ∷ ids) ch linked inside =
    elim (Bool-cases (at ch.connect_status id false)) [
      | inl on ↦
          let rest = connect_children-IsReached next ids ch linked inside.1 in
          subst (λ r. IsReached ch (id ∷ ids) r.1) (sym (connect_children-on next id ids ch on))
            (record {
              vector = rest.vector;
              linked = rest.linked;
              kept = rest.kept;
              reached = (rest.kept id on, rest.reached);
            })
      | inr off ↦
          let ch' = with_child id (new_child next) ch in
          let rest =
            connect_children-IsReached (next +ℤ pos 1) ids ch'
              (with_child-IsLinked id (new_child next) ch linked) inside.1 in
          subst (λ r. IsReached ch (id ∷ ids) r.1)
            (sym (connect_children-off next id ids ch linked inside.0 off))
            (record {
              vector = rest.vector;
              linked = rest.linked;
              kept = λ j on. rest.kept j (with_child-IsOn id (new_child next) ch j on);
              reached = (rest.kept id (at-same _ false id true), rest.reached);
            })
    ]

all_children_connected-true :
    (ch : Children) (ids : List ℤ) → All (IsOn ch) ids → all_children_connected true ch ids ≡ true
unfolding all_children_connected
all_children_connected-true ch [] on = refl
all_children_connected-true ch (id ∷ ids) (on, rest) =
    rw on (all_children_connected-true ch ids rest)

is_one_of-cons : (j id : ℤ) (ids : List ℤ) → is_one_of id ids ≡ true → is_one_of id (j ∷ ids) ≡ true
unfolding is_one_of
is_one_of-cons j id ids there = ground arith

All-is_one_of :
    (j : ℤ) (ids xs : List ℤ)
    → All (λ id. is_one_of id ids ≡ true) xs
    → All (λ id. is_one_of id (j ∷ ids) ≡ true) xs
All-is_one_of j ids [] there = tt
All-is_one_of j ids (x ∷ xs) (there, rest) =
    (is_one_of-cons j x ids there, All-is_one_of j ids xs rest)

is_one_of-own : (ids : List ℤ) → All (λ id. is_one_of id ids ≡ true) ids
unfolding is_one_of
is_one_of-own [] = tt
is_one_of-own (id ∷ ids) = (rw ==ℤ_refl refl, All-is_one_of id ids ids (is_one_of-own ids))

-- If every server has a connection just when its status says so, and `connectLostChildren` reaches
-- every server that it tries, then all servers of the configuration are connected after it, and every
-- server again has a connection just when its status says so.
pub connect_lost_children-ready :
    (next : ℤ) (ch : Children)
    → IsLinked ch
    → (let r = (connect_lost_children everywhere everywhere next ch).1 in
        (children_ready r ≡ true) × IsLinked r)
unfolding connect_lost_children
connect_lost_children-ready next ch linked = elim (Bool-cases (children_ready ch)) [
  | inl ready ↦ rw ready (ready, linked)
  | inr lost ↦
      let after =
        connect_children-IsReached next ch.server_id_vector ch linked
          (is_one_of-own ch.server_id_vector) in
      let r = (connect_children everywhere everywhere next ch.server_id_vector ch).1 in
      rw lost (
        ap (all_children_connected true r) after.vector
            ∙ all_children_connected-true r ch.server_id_vector after.reached,
        after.linked,
      )
]
