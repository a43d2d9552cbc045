-- ===== src/Configuration/Ready.antt =====
-- How `initConfig` ends.
use mathlib.Core.Path.{subst}
use cabinet.Base.{
  +ℤ_parts, -ℤ_parts, Bool-cases, Code, Option, Outcome, [], abort, ap, arith, at, codes,
  eq_of_parts, err, exit, inl, inr, length, lookup, ltbℤ, neg_part, negsuc, none, ok, pos, pos_part,
  refl, ret, some, suc, sym, undefined, zero, ℕ, ℤ, ◌+ℤ◌, ◌+◌, ◌-ℤ◌, ◌/◌, ◌>>=◌, ◌∙◌, ◌≡◌, ◌⊎◌,
}
use cabinet.Children.{Children, is_one_of}
use cabinet.Children.Connect.{IsLinked}
use cabinet.Children.Invariant.{IsPlaced, IsServed, IsWired}
use cabinet.Cluster.{follower}
use cabinet.Configuration.{
  Configuration, conf_int, recognize_children, recognize_in, recognize_siblings, recognize_total,
  turns,
}
use cabinet.Configuration.Init.{
  Numbers, half, init_config, new_children, new_siblings, quotient, read_fields, read_numbers,
  read_range, times, with_nodes, with_servers,
}
use cabinet.Configuration.Start.{
  IfOk, IsAmong, IsIdle, IsRecognized, others-among, recognize_from-IsRecognized,
  recognize_servers-IsIdle,
}
use cabinet.Node.{Node}
use cabinet.PersistenceFile.{PersistenceFile}
use cabinet.PersistenceFile.Contiguous.{next_index}
use cabinet.Siblings.{Siblings, cluster_half_number}
use cabinet.Siblings.Invariant.{IsSound}

-- A call ends with a value of which `P` holds, or calls `exit(1)`, or, if `U` holds, divides by 0.
abbrev pub EndsWith {ℓ} : {A : Type ℓ} → Type 0 → (A → Type 0) → Outcome A → Type 0
EndsWith U P (ret a) = P a
EndsWith U P exit = Unit
EndsWith U P abort = ⊥
EndsWith U P undefined = U

EndsWith-bind {ℓ κ} :
    {A : Type ℓ} {B : Type κ} (U : Type 0) (P : A → Type 0) (Q : B → Type 0) (m : Outcome A)
    (f : A → Outcome B)
    → EndsWith U P m
    → ((a : A) → P a → EndsWith U Q (f a))
    → EndsWith U Q (m >>= f)
EndsWith-bind U P Q (ret a) f h k = k a h
EndsWith-bind U P Q exit f h k = tt
EndsWith-bind U P Q abort f h k = absurd h
EndsWith-bind U P Q undefined f h k = h

quotient-EndsWith :
    (o : Option ℤ) (a : ℕ) (b : ℤ)
    → o ≡ some b
    → EndsWith (o ≡ some (pos 0)) (λ q. Unit {0}) (quotient a b)
quotient-EndsWith o a (pos zero) same = same
quotient-EndsWith o a (pos (suc n)) same = tt
quotient-EndsWith o a (negsuc n) same = tt

-- A node as it starts: a follower of term 0 with no connection that counts as connected, and a
-- majority of its nodes as the number of votes that wins.
pub record IsReady (n : Node) : Type 0 where
  pub role : n.cluster.role ≡ follower
  pub term : n.cluster.current_term ≡ pos 0
  pub baseline : n.cluster.win_vote_baseline ≡ pos (cluster_half_number n.cluster.siblings)
  pub sound : IsSound n.cluster.siblings
  pub wired : IsWired n.children
  pub linked : IsLinked n.children

nothing-IsPlaced : (P : ℤ → ℤ → Type 0) → IsPlaced P []
unfolding IsPlaced
nothing-IsPlaced P = tt

module _ (conf : Configuration) (own id_min id_max : ℤ) where
  -- The configuration gives the node's number and the range of the numbers, with its own among them.
  pub record IsConfigured : Type 0 where
    pub own_id : conf_int conf (codes "CLUSTER_ID") ≡ some own
    pub least_id : conf_int conf (codes "CLUSTER_ID_MIN") ≡ some id_min
    pub greatest_id : conf_int conf (codes "CLUSTER_ID_MAX") ≡ some id_max
    pub among : IsAmong own id_min (turns id_min id_max)

  abbrev pub NoTick : Type 0
  NoTick = conf_int conf (codes "CLUSTER_HZ") ≡ some (pos 0)

  abbrev HasBaseline : Numbers → Type 0
  HasBaseline numbers = numbers.win_vote_baseline ≡ half (id_max -ℤ id_min +ℤ pos 1) +ℤ pos 1

  read_range-EndsWith :
      (U : Type 0) (o timeout : ℤ) (most least : Option ℤ)
      → most ≡ some id_max
      → least ≡ some id_min
      → EndsWith U HasBaseline (read_range o timeout most least)
  read_range-EndsWith U o timeout none least hm hl = tt
  read_range-EndsWith U o timeout (some m) none hm hl = tt
  read_range-EndsWith U o timeout (some m) (some l) hm hl =
      let same_most : m ≡ id_max = cc in
      let same_least : l ≡ id_min = cc in
      ap (λ i. half (i -ℤ l +ℤ pos 1) +ℤ pos 1) same_most
      ∙ ap (λ i. half (id_max -ℤ i +ℤ pos 1) +ℤ pos 1) same_least

  read_fields-EndsWith :
      (own port hz ratio most least : Option ℤ)
      → most ≡ some id_max
      → least ≡ some id_min
      → EndsWith (hz ≡ some (pos 0)) HasBaseline (read_fields own port hz ratio most least)
  read_fields-EndsWith none port hz ratio most least hm hl = tt
  read_fields-EndsWith (some o) none hz ratio most least hm hl = tt
  read_fields-EndsWith (some o) (some p) none ratio most least hm hl = tt
  read_fields-EndsWith (some o) (some p) (some h) none most least hm hl = tt
  read_fields-EndsWith (some o) (some p) (some h) (some r) most least hm hl =
      EndsWith-bind (some h ≡ some (pos 0)) (λ tick. Unit {0}) HasBaseline (quotient 1000 h)
        (λ tick. read_range o (times tick r) most least) (quotient-EndsWith (some h) 1000 h refl)
        (λ tick done. read_range-EndsWith (some h ≡ some (pos 0)) o (times tick r) most least hm hl)

  abbrev own_siblings : Siblings
  own_siblings = record new_siblings { cluster_id = own }

  empty-IsSound : IsSound own_siblings
  unfolding at lookup
  empty-IsSound id on = cc

  sign : (x : ℤ) → (pos_part x ≡ 0) ⊎ (neg_part x ≡ 0)
  sign (pos n) = inr refl
  sign (negsuc n) = inl refl

  module _ (known : IsConfigured) where
    -- the number of turns is that of the nodes
    range-turns : id_max -ℤ id_min +ℤ pos 1 ≡ pos (turns id_min id_max)
    range-turns =
        let some_turn = others-among own id_min (turns id_min id_max) known.among in
        let x = id_max +ℤ pos 1 -ℤ id_min in
        eq_of_parts (id_max -ℤ id_min +ℤ pos 1) (pos (turns id_min id_max)) (elim (sign x) [
          | inl none_left ↦ absurd (omega (arith, none_left, some_turn))
          | inr none_less ↦ omega (
            arith,
            none_less,
            +ℤ_parts (id_max -ℤ id_min) (pos 1),
            -ℤ_parts id_max id_min,
            -ℤ_parts (id_max +ℤ pos 1) id_min,
            +ℤ_parts id_max (pos 1),
          )
        ])

    abbrev WellRecognized : Siblings → Type 0
    WellRecognized = IsRecognized own id_min (turns id_min id_max) own_siblings

    recognize_siblings-EndsWith :
        (U : Type 0) → EndsWith U (IfOk WellRecognized) (recognize_siblings conf new_siblings)
    unfolding recognize_siblings recognize_in
    recognize_siblings-EndsWith U =
        subst
          (λ o. EndsWith U (IfOk WellRecognized) (
            recognize_in conf o (conf_int conf (codes "CLUSTER_ID_MIN"))
              (conf_int conf (codes "CLUSTER_ID_MAX")) new_siblings))
          (sym known.own_id)
          (subst
            (λ o. EndsWith U (IfOk WellRecognized) (
              recognize_in conf (some own) o (conf_int conf (codes "CLUSTER_ID_MAX")) new_siblings))
            (sym known.least_id)
            (subst
              (λ o.
                EndsWith U (IfOk WellRecognized)
                  (recognize_in conf (some own) (some id_min) o new_siblings))
              (sym known.greatest_id)
              (elim (Bool-cases (ltbℤ id_min (pos 1))) [
                | inl low ↦ rw low tt
                | inr high ↦ rw high (
                    recognize_from-IsRecognized conf (turns id_min id_max) id_min own_siblings
                      empty-IsSound)
              ])))

    baseline-half :
        (numbers : Numbers) (s : Siblings)
        → HasBaseline numbers
        → WellRecognized s
        → numbers.win_vote_baseline ≡ pos (cluster_half_number s)
    baseline-half numbers s win recognized =
        let some_turn = others-among own id_min (turns id_min id_max) known.among in
        let total : turns id_min id_max ≡ length s.cluster_id_vector + 1 =
          omega (arith, some_turn, recognized.number) in
        win
        ∙ ap (λ x. half x +ℤ pos 1) range-turns
        ∙ ap (λ n. half (pos n) +ℤ pos 1) total
        ∙ next_index ((length s.cluster_id_vector + 1) / 2)
        ∙ ap pos (omega arith)

    with_servers-EndsWith :
        (pf : PersistenceFile) (numbers : Numbers) (s : Siblings) (r : Code × Children)
        → HasBaseline numbers
        → WellRecognized s
        → IfOk IsIdle r
        → EndsWith NoTick IsReady (with_servers pf numbers s r)
    with_servers-EndsWith pf numbers s (err, ch) win recognized idle = tt
    with_servers-EndsWith pf numbers s (ok, ch) win recognized idle = record {
      role = refl;
      term = refl;
      baseline = baseline-half numbers s win recognized;
      sound = recognized.sound;
      wired = record {
        no_sentinel = idle.no_sentinel;
        placed = subst (IsPlaced (IsServed ch)) (sym idle.empty) (nothing-IsPlaced (IsServed ch));
      };
      linked = idle.linked;
    }

    new_children-IsIdle : IsIdle new_children
    unfolding at lookup is_one_of
    new_children-IsIdle = record { linked = λ id. refl; no_sentinel = refl; empty = refl }

    recognize_total-IsIdle :
        (total : Option ℤ) → IfOk IsIdle (recognize_total conf total new_children)
    recognize_total-IsIdle none = tt
    recognize_total-IsIdle (some total) =
        recognize_servers-IsIdle conf (pos_part total) 0 (pos 1) new_children refl
          new_children-IsIdle

    recognize_children-IsIdle : IfOk IsIdle (recognize_children conf new_children)
    unfolding recognize_children
    recognize_children-IsIdle =
        recognize_total-IsIdle (conf_int conf (codes "CLUSTER_SERVER_TOTAL"))

    with_nodes-EndsWith :
        (pf : PersistenceFile) (numbers : Numbers) (r : Code × Siblings)
        → HasBaseline numbers
        → IfOk WellRecognized r
        → EndsWith NoTick IsReady (with_nodes pf conf numbers r)
    with_nodes-EndsWith pf numbers (err, s) win recognized = tt
    with_nodes-EndsWith pf numbers (ok, s) win recognized =
        with_servers-EndsWith pf numbers s (recognize_children conf new_children) win recognized
          recognize_children-IsIdle

    read_numbers-EndsWith : EndsWith NoTick HasBaseline (read_numbers conf)
    unfolding read_numbers
    read_numbers-EndsWith =
        read_fields-EndsWith (conf_int conf (codes "CLUSTER_ID"))
          (conf_int conf (codes "CLUSTER_PORT")) (conf_int conf (codes "CLUSTER_HZ"))
          (conf_int conf (codes "CLUSTER_ELECTION_TIMEOUT_RATIO"))
          (conf_int conf (codes "CLUSTER_ID_MAX")) (conf_int conf (codes "CLUSTER_ID_MIN"))
          known.greatest_id known.least_id

  -- If the configuration gives the node's number and a range of numbers with its own in it, then
  -- `initConfig` calls `exit(1)`, or divides by 0 and `CLUSTER_HZ` is 0, or makes a follower of term
  -- 0 that wins with more than half of the votes of itself and its siblings, and whose connections are in order: every
  -- connected sibling and just the connected servers have one, and the consistent hash holds none but
  -- connected servers, at their slots in ascending order.
  pub init_config-IsReady :
      (pf : PersistenceFile) → IsConfigured → EndsWith NoTick IsReady (init_config pf conf)
  unfolding init_config
  init_config-IsReady pf known =
      EndsWith-bind NoTick HasBaseline IsReady (read_numbers conf)
        (λ numbers. recognize_siblings conf new_siblings >>= with_nodes pf conf numbers)
        (read_numbers-EndsWith known)
        (λ numbers win.
          EndsWith-bind NoTick (IfOk (WellRecognized known)) IsReady
            (recognize_siblings conf new_siblings) (with_nodes pf conf numbers)
            (recognize_siblings-EndsWith known NoTick)
            (λ r recognized. with_nodes-EndsWith known pf numbers r win recognized))
