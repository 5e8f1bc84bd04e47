-- ===== src/Merging/CommonAncestor.antt =====
-- bin/ledger/app/merging/common_ancestor.cc: the common ancestor of two commits. `PageStorage::GetCommit`
-- is a parameter. The set of commits is a list, the newest first. The loop runs on fuel; without it the
-- result is `aborted`.
pub mod Sets
pub mod Rounds
pub mod Pops
pub mod Found
pub mod Examples
use peridot.Base.{
  ℕ, zero, suc, ◌+◌, Bool, true, false, ◌&&◌, ◌||◌, List, [], ◌∷◌, ◌++◌, ltb, ◌==◌, if◌then◌else◌,
}
use peridot.Storage.Types.{Result, done, failed, aborted, ◌>>=◌}

pub record Commit : Type 0 where
  pub id : ℕ
  pub generation : ℕ
  pub parent_ids : List ℕ

-- `GenerationComparator`, the other way round.
abbrev pub newer : Commit → Commit → Bool
newer a b = if b.generation == a.generation then ltb b.id a.id else ltb b.generation a.generation

-- The insertion into the set.
pub insert : Commit → List Commit → List Commit
insert c [] = c ∷ []
insert c (d ∷ ds) =
    let later = insert c ds in
    if newer d c then d ∷ later else if newer c d then c ∷ d ∷ ds else d ∷ ds

-- The inner loop: the identifiers of the parents that are asked for, and the commits that remain.
pub pop_newest : ℕ → List Commit → List ℕ × List Commit
pop_newest expected [] = ([], [])
pop_newest expected (a ∷ []) = ([], a ∷ [])
pop_newest expected (a ∷ b ∷ rest) =
    let next = pop_newest expected (b ∷ rest) in
    if a.generation == expected then (a.parent_ids ++ next.0, next.1) else ([], a ∷ b ∷ rest)

pub insert_all : List Commit → List Commit → List Commit
unfolding insert
insert_all [] commits = commits
insert_all (p ∷ parents) commits = insert_all parents (insert p commits)

module _ (get_commit : ℕ → Result Commit) where
  pub get_commits : List ℕ → Result (List Commit)
  get_commits [] = done []
  get_commits (p ∷ ids) = get_commit p >>= (λ c. get_commits ids >>= (λ cs. done (c ∷ cs)))

  -- One round of the loop.
  pub replace_newest : List ℕ × List Commit → Result (List Commit)
  unfolding get_commits insert_all
  replace_newest (ids, commits) = get_commits ids >>= (λ parents. done (insert_all parents commits))

  pub find_loop : ℕ → List Commit → Result Commit
  unfolding pop_newest replace_newest
  find_loop fuel [] = aborted
  find_loop fuel (a ∷ []) = done a
  find_loop zero (a ∷ b ∷ rest) = aborted
  find_loop (suc fuel) (a ∷ b ∷ rest) =
      replace_newest (pop_newest a.generation (a ∷ b ∷ rest)) >>= find_loop fuel

  pub find_common_ancestor : ℕ → Commit → Commit → Result Commit
  unfolding insert find_loop
  find_common_ancestor fuel head1 head2 = find_loop fuel (insert head2 (insert head1 []))
