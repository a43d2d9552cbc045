-- ===== src/Configuration/Start.antt =====
-- A node starts with connections in order.
use mathlib.Core.Path.{subst}
use cabinet.Base.{
  +ℤ_parts, ==ℤ_iff, Bool-cases, Code, List, Option, [], ap, arith, codes, err, false, if_false,
  if_true, if◌then◌else◌, inl, inr, length, length-append, minus_one, none, ok, pos, refl, some,
  suc, sym, zero, ℕ, ℤ, ◌++◌, ◌+ℤ◌, ◌+◌, ◌<ℤ◌, ◌==ℤ◌, ◌∙◌, ◌∷◌, ◌≡◌, ◌≤ℤ◌,
}
use cabinet.Children.{Children, is_one_of}
use cabinet.Children.Connect.{IsLinked}
use cabinet.Configuration.{
  Configuration, after_port, after_server_port, conf_int, recognize_from, recognize_servers,
  with_server, with_sibling,
}
use cabinet.Number.{to_string}
use cabinet.PersistenceFile.Contiguous.{next_index}
use cabinet.Siblings.{Siblings}
use cabinet.Siblings.Invariant.{IsSound, at-insert, off-LeavesSound}

-- How many of the `n` numbers from `id` on are not the node's own.
pub others : ℤ → ℤ → ℕ → ℕ
others own id zero = 0
others own id (suc n) =
    let rest = others own (id +ℤ pos 1) n in if id ==ℤ own then rest else suc rest

others-above : (own id : ℤ) (n : ℕ) → own <ℤ id → others own id n ≡ n
unfolding others
others-above own id zero less = refl
others-above own id (suc n) less =
    let step = +ℤ_parts id (pos 1) in
    let rest = others-above own (id +ℤ pos 1) n (omega (arith, step)) in
    let differ : (id ==ℤ own) ≡ false = ground arith in rw differ (ap suc rest)

-- The numbers from `id` on, `n` of them, have the node's own among them.
abbrev pub IsAmong : ℤ → ℤ → ℕ → Type 0
IsAmong own id n = (id ≤ℤ own) × (own <ℤ id +ℤ pos n)

pub others-among : (own id : ℤ) (n : ℕ) → IsAmong own id n → suc (others own id n) ≡ n
unfolding others
others-among own id zero (low, high) = absurd (omega (arith, +ℤ_parts id (pos 0)))
others-among own id (suc n) (low, high) = elim (Bool-cases (id ==ℤ own)) [
  | inl same ↦ rw same (
      ap suc (
        others-above own (id +ℤ pos 1) n (
          subst (λ i. i <ℤ id +ℤ pos 1) ((==ℤ_iff id own).0 same)
            (omega (arith, +ℤ_parts id (pos 1))))))
  | inr differ ↦
      let away : id <ℤ own = ground arith in
      let rest = others-among own (id +ℤ pos 1) n (
        omega (arith, +ℤ_parts id (pos 1)),
        omega
            (arith, +ℤ_parts id (pos 1), +ℤ_parts (id +ℤ pos 1) (pos n), +ℤ_parts id (pos (suc n))),
      ) in
      rw differ (ap suc rest)
]

-- What `recognizeSiblings` leaves where it goes through.
pub record IsRecognized (own : ℤ) (id : ℤ) (n : ℕ) (s r : Siblings) : Type 0 where
  pub number : length r.cluster_id_vector ≡ length s.cluster_id_vector + others own id n
  pub sound : IsSound r

abbrev pub IfOk {ℓ} : {A : Type ℓ} → (A → Type 0) → Code × A → Type 0
IfOk P (ok, a) = P a
IfOk P (err, a) = Unit

with_sibling-IsSound :
    (conf : Configuration) (id port : ℤ) (s : Siblings)
    → IsSound s
    → IsSound (with_sibling conf id port s)
with_sibling-IsSound conf id port s sound =
    (off-LeavesSound id s sound none (ok, with_sibling conf id port s) refl refl).sound

after_port-IfOk :
    (P : Siblings → Type 0) (port : Option ℤ) (go_on : ℤ → Code × Siblings) (s : Siblings)
    → ((p : ℤ) → IfOk P (go_on p))
    → IfOk P (after_port port go_on (err, s))
after_port-IfOk P none go_on s h = tt
after_port-IfOk P (some p) go_on s h = h p

IfOk-map {ℓ} :
    {A : Type ℓ} (P Q : A → Type 0) (r : Code × A) → ((a : A) → P a → Q a) → IfOk P r → IfOk Q r
IfOk-map P Q (ok, a) f h = f a h
IfOk-map P Q (err, a) f h = tt

pub recognize_from-IsRecognized :
    (conf : Configuration) (n : ℕ) (id : ℤ) (s : Siblings)
    → IsSound s
    → IfOk (IsRecognized s.cluster_id id n s) (recognize_from conf n id s)
unfolding recognize_from others
recognize_from-IsRecognized conf zero id s sound = record { number = omega arith; sound = sound }
recognize_from-IsRecognized conf (suc n) id s sound = elim (Bool-cases (id ==ℤ s.cluster_id)) [
  | inl same ↦
      subst (IfOk (IsRecognized s.cluster_id id (suc n) s))
        (sym (if_true (id ==ℤ s.cluster_id) _ _ same))
        (IfOk-map (IsRecognized s.cluster_id (id +ℤ pos 1) n s)
          (IsRecognized s.cluster_id id (suc n) s) _
          (λ r h. record {
            number =
                h.number
                ∙ ap (λ k. length s.cluster_id_vector + k)
                    (sym (if_true (id ==ℤ s.cluster_id) _ _ same));
            sound = h.sound;
          })
          (recognize_from-IsRecognized conf n (id +ℤ pos 1) s sound))
  | inr differ ↦
      subst (IfOk (IsRecognized s.cluster_id id (suc n) s))
        (sym (if_false (id ==ℤ s.cluster_id) _ _ differ))
        (after_port-IfOk (IsRecognized s.cluster_id id (suc n) s)
          (conf_int conf (codes "CLUSTER_PORT_" ++ to_string id))
          (λ port. recognize_from conf n (id +ℤ pos 1) (with_sibling conf id port s))
          (record s { cluster_id_vector = s.cluster_id_vector ++ id ∷ [] })
          (λ port.
            let s' = with_sibling conf id port s in
            IfOk-map (IsRecognized s.cluster_id (id +ℤ pos 1) n s')
              (IsRecognized s.cluster_id id (suc n) s) _
              (λ r h. record {
                number =
                    h.number
                    ∙ omega (arith, length-append s.cluster_id_vector (id ∷ []))
                    ∙ ap (λ k. length s.cluster_id_vector + k)
                        (sym (if_false (id ==ℤ s.cluster_id) _ _ differ));
                sound = h.sound;
              })
              (recognize_from-IsRecognized conf n (id +ℤ pos 1) s'
                (with_sibling-IsSound conf id port s sound))))
]

-- No server is connected, and none has the number -1.
pub record IsIdle (ch : Children) : Type 0 where
  pub linked : IsLinked ch
  pub no_sentinel : is_one_of minus_one ch.server_id_vector ≡ false
  pub empty : ch.consistent_hash_and_server_id_map ≡ []

is_one_of-append :
    (j id : ℤ) (ids : List ℤ)
    → is_one_of j ids ≡ false
    → (id ==ℤ j) ≡ false
    → is_one_of j (ids ++ id ∷ []) ≡ false
unfolding is_one_of
is_one_of-append j id [] none_there differ = rw differ refl
is_one_of-append j id (i ∷ ids) none_there differ =
    let rest = is_one_of-append j id ids (ground arith) differ in ground arith

with_server-IsIdle :
    (conf : Configuration) (n : ℕ) (ch : Children)
    → IsIdle ch
    → IsIdle (with_server conf (pos (suc n)) ch)
with_server-IsIdle conf n ch idle = record {
  linked = λ j. elim (Bool-cases (pos (suc n) ==ℤ j)) [
    | inl same ↦ rw (at-insert, at-insert, same) refl
    | inr differ ↦ rw (at-insert, at-insert, differ) (idle.linked j)
  ];
  no_sentinel =
      is_one_of-append minus_one (pos (suc n)) ch.server_id_vector idle.no_sentinel (ground arith);
  empty = idle.empty;
}

after_server_port-IfOk :
    (id : ℤ) (ch : Children) (port : Option ℤ) (go_on : Children → Code × Children)
    → IsIdle ch
    → ((ch' : Children) → IsIdle ch' → IfOk IsIdle (go_on ch'))
    → IfOk IsIdle (after_server_port id ch port go_on)
after_server_port-IfOk id ch none go_on idle h = tt
after_server_port-IfOk id ch (some port) go_on idle h =
    h _ (record { linked = idle.linked; no_sentinel = idle.no_sentinel; empty = idle.empty })

pub recognize_servers-IsIdle :
    (conf : Configuration) (n k : ℕ) (id : ℤ) (ch : Children)
    → id ≡ pos (suc k)
    → IsIdle ch
    → IfOk IsIdle (recognize_servers conf n id ch)
unfolding recognize_servers
recognize_servers-IsIdle conf zero k id ch here idle = idle
recognize_servers-IsIdle conf (suc n) k id ch here idle =
    after_server_port-IfOk id (with_server conf id ch) _ _
      (subst (λ i. IsIdle (with_server conf i ch)) (sym here) (with_server-IsIdle conf k ch idle))
      (λ ch' idle'.
        recognize_servers-IsIdle conf n (suc k) (id +ℤ pos 1) ch'
          (ap (λ i. i +ℤ pos 1) here ∙ next_index (suc k)) idle')
