-- ===== src/Merging/CommonAncestor/Rounds.antt =====
-- A round of the loop in bin/ledger/app/merging/common_ancestor.cc.
use peridot.Base.{
  All, All-mono, Any, ℕ, ◌<◌, ◌≡◌, refl, sym, ap, ◌∙◌, true, List, [], ◌∷◌, inl, inr, arith,
}
use peridot.Storage.Types.{Result, done, Gives, Gives-bind}
use peridot.Merging.CommonAncestor.{Commit, newer, insert, insert_all, get_commits}
use peridot.Merging.CommonAncestor.Sets.{
  AreOrdered, insert-All, insert-AreOrdered, insert-kept, insert-new,
}

module _ (get_commit : ℕ → Result Commit) where
  -- The storage gives the commit under its identifier.
  abbrev pub Known : Commit → Type 0
  Known c = get_commit c.id ≡ done c

  -- A parent of a commit of a generation is known and of an earlier generation.
  abbrev pub ParentIn : ℕ → ℕ → Type 0
  ParentIn generation p =
      (c : Commit) × (get_commit p ≡ done c) × Known c × (c.generation < generation)

  -- What the storage keeps of commits: the parents of a known commit are known and of earlier
  -- generations, only a commit of generation 0 has no parent, and there is one such commit.
  abbrev pub IsHistory : Type 0
  IsHistory =
      ((c : Commit) → Known c → All (ParentIn c.generation) c.parent_ids)
      × ((c : Commit) → Known c → c.parent_ids ≡ [] → c.generation ≡ 0)
      × ((c d : Commit) → Known c → Known d → c.generation ≡ 0 → d.generation ≡ 0 → c.id ≡ d.id)

  -- A commit and its ancestors.
  pub data Ancestor (h : Commit) : Commit → Type 0 where
    itself : Ancestor h h
    parent_of :
        {a : Commit} {c : Commit}
        → Ancestor h a
        → Any (λ p. get_commit p ≡ done c) a.parent_ids
        → Ancestor h c

  pub same_commit : (c d : Commit) → Known c → Known d → d.id ≡ c.id → d ≡ c
  same_commit c d h k q = let e : done d ≡ done c = sym k ∙ ap get_commit q ∙ h in ground (arith, e)

  -- One of the commits of the set is an ancestor of the commit.
  abbrev pub Covers : Commit → List Commit → Type 0
  Covers h = Any (Ancestor h)

  abbrev pub Below : ℕ → List Commit → Type 0
  Below g = All (λ c. c.generation < g)

  -- The parents that are found for some identifiers.
  abbrev pub Matches : ℕ → List ℕ → List Commit → Type 0
  Matches g [] [] = Unit
  Matches g [] (c ∷ cs) = ⊥
  Matches g (p ∷ ids) [] = ⊥
  Matches g (p ∷ ids) (c ∷ cs) =
      (get_commit p ≡ done c) × Known c × (c.generation < g) × Matches g ids cs

  pub get_commits-Matches :
      (g : ℕ) (ids : List ℕ)
      → All (ParentIn g) ids
      → Gives (Matches g ids) (get_commits get_commit ids)
  unfolding get_commits
  get_commits-Matches g [] h = tt
  get_commits-Matches g (p ∷ ids) ((c, e, k, l), h) = rw e (
      Gives-bind (Matches g ids) _ (get_commits get_commit ids) _ (get_commits-Matches g ids h)
        (λ cs m. (e, k, l, m)))

  pub insert_all-Known :
      (g : ℕ) (ids : List ℕ) (parents cs : List Commit)
      → Matches g ids parents
      → AreOrdered cs × All Known cs
      → AreOrdered (insert_all parents cs) × All Known (insert_all parents cs)
  unfolding insert_all
  insert_all-Known g [] [] cs m h = h
  insert_all-Known g [] (c ∷ parents) cs m h = absurd m
  insert_all-Known g (p ∷ ids) [] cs m h = absurd m
  insert_all-Known g (p ∷ ids) (c ∷ parents) cs (e, k, l, m) (o, a) =
      insert_all-Known g ids parents (insert c cs) m
        (insert-AreOrdered c cs o, insert-All Known c cs k a)

  pub insert_all-Below :
      (g : ℕ) (ids : List ℕ) (parents cs : List Commit)
      → Matches g ids parents
      → Below g cs
      → Below g (insert_all parents cs)
  unfolding insert_all
  insert_all-Below g [] [] cs m h = h
  insert_all-Below g [] (c ∷ parents) cs m h = absurd m
  insert_all-Below g (p ∷ ids) [] cs m h = absurd m
  insert_all-Below g (p ∷ ids) (c ∷ parents) cs (e, k, l, m) h =
      insert_all-Below g ids parents (insert c cs) m (insert-All (λ z. z.generation < g) c cs l h)

  pub insert_all-kept :
      (P : Commit → Type 0) (parents cs : List Commit) → Any P cs → Any P (insert_all parents cs)
  unfolding insert_all
  insert_all-kept P [] cs h = h
  insert_all-kept P (c ∷ parents) cs h =
      insert_all-kept P parents (insert c cs) (insert-kept P c cs h)

  -- What holds of a parent that one of the identifiers gives.
  abbrev pub Parents : (Commit → Type 0) → List ℕ → Type 0
  Parents P = Any (λ p. (c : Commit) → get_commit p ≡ done c → P c)

  pub insert_all-new :
      (P : Commit → Type 0) (g : ℕ) (ids : List ℕ) (parents cs : List Commit)
      → Matches g ids parents
      → AreOrdered cs × All Known cs
      → Parents P ids
      → Any P (insert_all parents cs)
  unfolding insert_all
  insert_all-new P g [] parents cs m k h = absurd h
  insert_all-new P g (p ∷ ids) [] cs m k h = absurd m
  insert_all-new P g (p ∷ ids) (c ∷ parents) cs (e, k, l, m) (o, a) (inl h) =
      insert_all-kept P parents (insert c cs) (
        insert-new P c cs (h c e)
          (All-mono Known (λ d. d.id ≡ c.id → d ≡ c) cs a (λ d w. same_commit c d k w)))
  insert_all-new P g (p ∷ ids) (c ∷ parents) cs (e, k, l, m) (o, a) (inr h) =
      insert_all-new P g ids parents (insert c cs) m
        (insert-AreOrdered c cs o, insert-All Known c cs k a) h

  -- The newest commit stays the first.
  pub insert_all-first :
      (g : ℕ) (ids : List ℕ) (parents : List Commit) (a : Commit) (cs : List Commit)
      → Matches g ids parents
      → a.generation ≡ g
      → insert_all parents (a ∷ cs) ≡ a ∷ insert_all parents cs
  unfolding insert_all insert
  insert_all-first g [] [] a cs m q = refl
  insert_all-first g [] (c ∷ parents) a cs m q = absurd m
  insert_all-first g (p ∷ ids) [] a cs m q = absurd m
  insert_all-first g (p ∷ ids) (c ∷ parents) a cs (e, k, l, m) q =
      let n : newer a c ≡ true = ground arith in
      rw n (insert_all-first g ids parents a (insert c cs) m q)
