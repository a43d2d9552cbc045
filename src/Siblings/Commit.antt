-- ===== src/Siblings/Commit.antt =====
-- The commit index moves only forward, and only to an index that a majority of the nodes holds.
use cabinet.Base.{
  Bool-cases, List, [], ap, arith, at, if◌then◌else◌, inl, inr, lebℤ, length, ltb, pos, refl, suc,
  ℕ, ℤ, ◌*◌, ◌+◌, ◌<ℤ◌, ◌<◌, ◌∙◌, ◌∷◌, ◌≡◌, ◌≤ℤ◌, ◌≤◌, ◌⊎◌,
}
use cabinet.PersistenceFile.Abstract.{before}
use cabinet.Siblings.{Siblings, check_if_entry_could_commit, cluster_half_number, count_from}

-- How many of these siblings match the log up to `index`, counted one by one.
unfoldable pub holders : ℤ → Siblings → List ℤ → ℕ
unfolding at
holders index s [] = 0
holders index s (id ∷ ids) =
    (if lebℤ index (at s.match_index_map id (pos 0)) then 1 else 0) + holders index s ids

count_from-holders :
    (n : ℕ) (index : ℤ) (s : Siblings) (ids : List ℤ)
    → count_from n (λ id. lebℤ index (at s.match_index_map id (pos 0))) ids
      ≡ n + holders index s ids
unfolding count_from holders
count_from-holders n index s [] = omega arith
count_from-holders n index s (id ∷ ids) =
    elim (Bool-cases (lebℤ index (at s.match_index_map id (pos 0)))) [
      | inl held ↦ rw held (omega (arith, count_from-holders (n + 1) index s ids))
      | inr behind ↦ rw behind (omega (arith, count_from-holders n index s ids))
    ]

-- More than half of the cluster, this node included, holds the log up to `index`.
abbrev pub HasMajority : ℤ → Siblings → Type 0
HasMajority index s =
    suc (length s.cluster_id_vector) < 2 * suc (holders index s s.cluster_id_vector)

abbrev pub LacksMajority : ℤ → Siblings → Type 0
LacksMajority index s =
    2 * suc (holders index s s.cluster_id_vector) ≤ suc (length s.cluster_id_vector)

-- The promise of a check for `index`, from the commit index before to the one after.
pub record CommitSpec (index before after : ℤ) (s : Siblings) : Type 0 where
  pub forward : before ≤ℤ after
  pub decided :
      ((after ≡ index) × (before <ℤ index) × HasMajority index s)
      ⊎ ((after ≡ before) × ((index ≤ℤ before) ⊎ LacksMajority index s))

abbrev choose : ℤ → ℤ → ℕ → ℕ → ℤ
choose index before held half =
    if lebℤ index before then before else if ltb held half then before else index

check_if_entry_could_commit_lem :
    (index before : ℤ) (s : Siblings)
    → check_if_entry_could_commit index s before
      ≡ choose index before
          (count_from 1 (λ id. lebℤ index (at s.match_index_map id (pos 0))) s.cluster_id_vector)
          (cluster_half_number s)
check_if_entry_could_commit_lem index before s = unfold check_if_entry_could_commit in refl

check_if_entry_could_commit-choose :
    (index before : ℤ) (s : Siblings)
    → check_if_entry_could_commit index s before
      ≡ choose index before (1 + holders index s s.cluster_id_vector) (cluster_half_number s)
check_if_entry_could_commit-choose index before s =
    check_if_entry_could_commit_lem index before s
    ∙ ap (λ (n : ℕ). choose index before n (cluster_half_number s))
        (count_from-holders 1 index s s.cluster_id_vector)

choose-CommitSpec :
    (index before : ℤ) (s : Siblings)
    → CommitSpec index before
        (choose index before (1 + holders index s s.cluster_id_vector) (cluster_half_number s))
        s
choose-CommitSpec index before s = record { forward = ground arith; decided = ground arith }

-- A check for `index` never lowers the commit index. It raises it to `index` exactly if `index` is
-- above it and the node together with the siblings that match up to `index` is more than half of the
-- cluster, and leaves it as it was otherwise.
pub check_if_entry_could_commit-CommitSpec :
    (index before : ℤ) (s : Siblings)
    → CommitSpec index before (check_if_entry_could_commit index s before) s
check_if_entry_could_commit-CommitSpec index before s =
    rw check_if_entry_could_commit-choose (choose-CommitSpec index before s)
