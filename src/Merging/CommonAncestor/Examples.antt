-- ===== src/Merging/CommonAncestor/Examples.antt =====
-- Tests and an example of the search for a common ancestor.
use peridot.Base.{
  All, ℕ, zero, suc, ◌≡◌, refl, sym, ◌∙◌, subst, List, [], ◌∷◌, ◌⊎◌, inl, inr, arith,
}
use peridot.Storage.Types.{Result, done, failed, not_found, Gives}
use peridot.Merging.CommonAncestor.{Commit, find_common_ancestor}
use peridot.Merging.CommonAncestor.Rounds.{ParentIn, IsHistory}
use peridot.Merging.CommonAncestor.Found.{Found, find_common_ancestor-Found}

abbrev commit : ℕ → ℕ → List ℕ → Commit
commit id generation parent_ids = record {
  id = id;
  generation = generation;
  parent_ids = parent_ids;
}

-- The first commit, two that follow it, and a merge of these.
abbrev get_commit : ℕ → Result Commit
get_commit zero = done (commit 0 0 [])
get_commit (suc zero) = done (commit 1 1 (0 ∷ []))
get_commit (suc (suc zero)) = done (commit 2 1 (0 ∷ []))
get_commit (suc (suc (suc zero))) = done (commit 3 2 (1 ∷ 2 ∷ []))
get_commit (suc (suc (suc (suc n)))) = failed not_found

abbrev AnyCommit : Commit → Type 0
AnyCommit c =
    (c ≡ commit 0 0 [])
    ⊎ (c ≡ commit 1 1 (0 ∷ []))
    ⊎ (c ≡ commit 2 1 (0 ∷ []))
    ⊎ (c ≡ commit 3 2 (1 ∷ 2 ∷ []))

Known-cases : (id : ℕ) (c : Commit) → get_commit id ≡ done c → AnyCommit c
Known-cases zero c h = ground (arith, h)
Known-cases (suc zero) c h = ground (arith, h)
Known-cases (suc (suc zero)) c h = ground (arith, h)
Known-cases (suc (suc (suc zero))) c h = ground (arith, h)
Known-cases (suc (suc (suc (suc n)))) c h = absurd (ground (arith, h))

abbrev FromParents : Commit → Type 0
FromParents c = All (ParentIn get_commit c.generation) c.parent_ids

earlier_parents : (c : Commit) → AnyCommit c → FromParents c
earlier_parents c (inl e) = subst FromParents (sym e) tt
earlier_parents c (inr (inl e)) =
    subst FromParents (sym e) ((commit 0 0 [], refl, refl, omega arith), tt)
earlier_parents c (inr (inr (inl e))) =
    subst FromParents (sym e) ((commit 0 0 [], refl, refl, omega arith), tt)
earlier_parents c (inr (inr (inr e))) = subst FromParents (sym e) (
  (commit 1 1 (0 ∷ []), refl, refl, omega arith),
  ((commit 2 1 (0 ∷ []), refl, refl, omega arith), tt),
)

first_of_no_parent : (c : Commit) → AnyCommit c → c.parent_ids ≡ [] → c.generation ≡ 0
first_of_no_parent c h q = ground (arith, h, q)

first_id : (c : Commit) → AnyCommit c → c.generation ≡ 0 → c.id ≡ 0
first_id c h q = ground (arith, h, q)

history : IsHistory get_commit
history = (
  λ c k. earlier_parents c (Known-cases c.id c k),
  λ c k q. first_of_no_parent c (Known-cases c.id c k) q,
  λ c d k l p q. first_id c (Known-cases c.id c k) p ∙ sym (first_id d (Known-cases d.id d l) q),
)

find_common_ancestor-Found_example :
    Gives
      (Found get_commit history (commit 3 2 (1 ∷ 2 ∷ [])) (commit 2 1 (0 ∷ [])))
      (find_common_ancestor get_commit 6 (commit 3 2 (1 ∷ 2 ∷ [])) (commit 2 1 (0 ∷ [])))
find_common_ancestor-Found_example =
    find_common_ancestor-Found get_commit history (commit 3 2 (1 ∷ 2 ∷ [])) (commit 2 1 (0 ∷ [])) 6
      refl refl (omega arith) (omega arith)

criss_cross :
    find_common_ancestor get_commit 9 (commit 4 2 (1 ∷ 2 ∷ [])) (commit 5 2 (1 ∷ 2 ∷ []))
    ≡ done (commit 0 0 [])
unfolding find_common_ancestor
criss_cross = refl

merged_and_parent :
    find_common_ancestor get_commit 9 (commit 3 2 (1 ∷ 2 ∷ [])) (commit 1 1 (0 ∷ []))
    ≡ done (commit 0 0 [])
unfolding find_common_ancestor
merged_and_parent = refl
