-- ===== src/Siblings/Invariant.antt =====
-- A sibling that counts as connected has a connection.
use cabinet.Base.{
  ==ℤ_iff, ==ℤ_refl, if_true, ok, Bool, Bool-cases, Code, IntMap, Option, ap, at, err, false,
  if◌then◌else◌, inl, inr, insert, lookup-insert, map-if, minus_one, none, not, refl, some, true,
  value_or, ℤ, ◌==ℤ◌, ◌∙◌, ◌≡◌,
}
use cabinet.Client.{Client}
use cabinet.EventPoll.Safety.{other}
use cabinet.Siblings.{
  Siblings, add_siblings, confirm_connect_sibling, delete_siblings, is_known, is_some,
}

-- The node has a connection to the sibling `id`.
abbrev pub HasClient : ℤ → Siblings → Type 0
HasClient id s = (client : Client) × (at s.client_map id none ≡ some client)

-- Every sibling whose status is connected has a connection.
abbrev pub IsSound : Siblings → Type 0
IsSound s = (id : ℤ) → at s.connect_status id false ≡ true → HasClient id s

pub at-insert {ℓ} :
    {V : Type ℓ} (m : IntMap V) (default : V) (i j : ℤ) (v : V)
    → at (insert i v m) j default ≡ (if i ==ℤ j then v else at m j default)
unfolding at
at-insert m default i j v =
    ap (value_or default) (lookup-insert i j v m) ∙ map-if (value_or default) (i ==ℤ j) _ _

-- The result of an operation, so that its branches are told apart from what they hold.
pub record LeavesSound (r : Code × Siblings) : Type 0 where
  pub sound : IsSound r.1

-- A sibling that gets a status, and a connection or none.
module _ (id : ℤ) (s : Siblings) (sound : IsSound s) where
  -- it is not connected
  pub off-LeavesSound :
      (client : Option Client) (r : Code × Siblings)
      → r.1.connect_status ≡ insert id false s.connect_status
      → r.1.client_map ≡ insert id client s.client_map
      → LeavesSound r
  off-LeavesSound client r status clients = record {
    sound = λ j on. elim (Bool-cases (id ==ℤ j)) [
      | inl same ↦ absurd (cc (rw (status, at-insert, same) at on))
      | inr other ↦
          let (c, found) = sound j (rw (status, at-insert, other) at on) in
          (c, rw (clients, at-insert, other) found)
    ];
  }

  -- it is connected, and had a connection before
  on-LeavesSound :
      (r : Code × Siblings)
      → HasClient id s
      → r.1.connect_status ≡ insert id true s.connect_status
      → r.1.client_map ≡ s.client_map
      → LeavesSound r
  on-LeavesSound r (c, has) status clients = record {
    sound = λ j on. elim (Bool-cases (id ==ℤ j)) [
      | inl same ↦ (c, rw (clients, ← (==ℤ_iff id j).0 same) has)
      | inr other ↦
          let (c', found) = sound j (rw (status, at-insert, other) at on) in (c', rw clients found)
    ];
  }

LeavesSound-if :
    (b : Bool) (u v : Code × Siblings)
    → LeavesSound u
    → LeavesSound v
    → LeavesSound (if b then u else v)
LeavesSound-if true u v hu hv = hu
LeavesSound-if false u v hu hv = hv

-- Where the result is `CABINET_OK`, the node has this client for its number.
abbrev pub AddsClient : Client → Code × Siblings → Type 0
AddsClient sibling (err, s) = Unit
AddsClient sibling (ok, s) = at s.client_map sibling.cluster_id none ≡ some sibling

AddsClient-if :
    (sibling : Client) (b : Bool) (u v : Code × Siblings)
    → AddsClient sibling u
    → AddsClient sibling v
    → AddsClient sibling (if b then u else v)
AddsClient-if sibling true u v hu hv = hu
AddsClient-if sibling false u v hu hv = hv

module _ (s : Siblings) (sound : IsSound s) where
  add_siblings-AddsClient :
      (commit_index : ℤ) (sibling : Client)
      → AddsClient sibling (add_siblings commit_index sibling s)
  unfolding add_siblings
  add_siblings-AddsClient commit_index sibling =
      let id = sibling.cluster_id in
      AddsClient-if sibling (id ==ℤ minus_one) _ _ tt (
        AddsClient-if sibling (not (is_known s id)) _ _ tt (
          AddsClient-if sibling (at s.connect_status id false) _ _ tt (
            AddsClient-if sibling (is_some (at s.client_map id none)) _ _ tt (
              at-insert s.client_map none id id (some sibling)
              ∙ if_true (id ==ℤ id) _ _ (==ℤ_refl id)))))

  pub add_siblings-LeavesSound :
      (commit_index : ℤ) (sibling : Client) → LeavesSound (add_siblings commit_index sibling s)
  unfolding add_siblings
  add_siblings-LeavesSound commit_index sibling =
      let id = sibling.cluster_id in
      let unchanged : LeavesSound (err, s) = record { sound = sound } in
      LeavesSound-if (id ==ℤ minus_one) _ _ unchanged (
        LeavesSound-if (not (is_known s id)) _ _ unchanged (
          LeavesSound-if (at s.connect_status id false) _ _ unchanged (
            LeavesSound-if (is_some (at s.client_map id none)) _ _ unchanged
              (off-LeavesSound id s sound (some sibling) _ refl refl))))

  delete_siblings-LeavesSound : (sibling : Client) → LeavesSound (delete_siblings sibling s)
  unfolding delete_siblings
  delete_siblings-LeavesSound sibling =
      let id = sibling.cluster_id in
      let unchanged : LeavesSound (err, s) = record { sound = sound } in
      LeavesSound-if (not (is_known s id)) _ _ unchanged (
        LeavesSound-if (not (is_some (at s.client_map id none))) _ _ unchanged
          (off-LeavesSound id s sound none _ refl refl))

  confirm-LeavesSound :
      (sibling : Client)
      → HasClient sibling.cluster_id s
      → LeavesSound (confirm_connect_sibling sibling s)
  unfolding confirm_connect_sibling
  confirm-LeavesSound sibling has =
      LeavesSound-if (is_known s sibling.cluster_id) _ _
        (on-LeavesSound sibling.cluster_id s sound _ has refl refl) (record { sound = sound })

  -- If every sibling that counts as connected has a connection, then this holds after `addSiblings` and
  -- after `deleteSiblings` of any client, and after `confirmConnectSibling` of one for whose number the
  -- node has a connection. Where `addSiblings` of a client succeeds, the node has a connection for its
  -- number, so that the client can be confirmed.
  pub siblings-IsSound :
      (commit_index : ℤ) (added deleted confirmed : Client)
      → HasClient confirmed.cluster_id s
      → IsSound (add_siblings commit_index added s).1
        × AddsClient added (add_siblings commit_index added s)
        × IsSound (delete_siblings deleted s).1
        × IsSound (confirm_connect_sibling confirmed s).1
  siblings-IsSound commit_index added deleted confirmed has = (
    (add_siblings-LeavesSound commit_index added).sound,
    add_siblings-AddsClient commit_index added,
    (delete_siblings-LeavesSound deleted).sound,
    (confirm-LeavesSound confirmed has).sound,
  )
