-- ===== src/Merging/CommonAncestor/Pops.antt =====
-- The inner loop of bin/ledger/app/merging/common_ancestor.cc.
use peridot.Base.{
  All, All-mono, All-append, Any, Any-left, Any-right, ℕ, suc, ◌<◌, ◌≡◌, refl, sym, true, false,
  List, [], ◌∷◌, ◌==◌, ◌⊎◌, inl, inr, arith, subst, Bool-cases,
}
use peridot.Storage.Types.{Result, done}
use peridot.Merging.CommonAncestor.{Commit, newer, pop_newest}
use peridot.Merging.CommonAncestor.Sets.{AreOrdered}
use peridot.Merging.CommonAncestor.Rounds.{
  Known, ParentIn, IsHistory, Ancestor, parent_of, Below, Parents,
}

module _ (get_commit : ℕ → Result Commit) (history : IsHistory get_commit) where
  abbrev K : Commit → Type 0
  K = Known get_commit

  pub older-Below :
      (g : ℕ) (a : Commit) (cs : List Commit)
      → a.generation < g
      → All (λ d. newer a d ≡ true) cs
      → All (λ c. c.generation < g) cs
  older-Below g a cs l h =
      All-mono (λ d. newer a d ≡ true) (λ c. c.generation < g) cs h (λ c w. ground arith)

  -- What remains when the commits of a generation are popped: earlier commits, or one of the generation.
  abbrev pub Remains : ℕ → List Commit → Type 0
  Remains g cs = Below get_commit g cs ⊎ ((x : Commit) × (cs ≡ x ∷ []) × (x.generation ≡ g))

  abbrev pub Popped : ℕ → List ℕ × List Commit → Type 0
  Popped g r = All (ParentIn get_commit g) r.0 × (AreOrdered r.1 × All K r.1) × Remains g r.1

  pub parents_in :
      (g : ℕ) (a : Commit) → K a → a.generation ≡ g → All (ParentIn get_commit g) a.parent_ids
  parents_in g a k q = subst (λ z. All (ParentIn get_commit z) a.parent_ids) q (history.0 a k)

  pub pop_newest-Popped :
      (g : ℕ) (cs : List Commit)
      → AreOrdered cs
      → All K cs
      → Below get_commit (suc g) cs
      → Popped g (pop_newest g cs)
  unfolding pop_newest
  pop_newest-Popped g [] o k l = (tt, (tt, tt), inl tt)
  pop_newest-Popped g (a ∷ []) o k l = elim (Bool-cases (a.generation == g)) [
    | inl e ↦ (tt, (o, k), inr (a, refl, ground arith))
    | inr n ↦ (tt, (o, k), inl (let z = l.0 in ground arith, tt))
  ]
  pop_newest-Popped g (a ∷ b ∷ rest) o k l = elim (Bool-cases (a.generation == g)) [
    | inl e ↦
        let (i, r, m) = pop_newest-Popped g (b ∷ rest) o.1 k.1 l.1 in
        rw e (
          All-append (ParentIn get_commit g) a.parent_ids (pop_newest g (b ∷ rest)).0
              (parents_in g a k.0 (ground arith)) i,
          r,
          m,
        )
    | inr n ↦
        let z = l.0 in
        let less : a.generation < g = ground arith in
        rw n (tt, (o, k), inl (less, older-Below g a (b ∷ rest) less o.0))
  ]

  pub pop_newest-Any :
      (P : Commit → Type 0) (g : ℕ) (cs : List Commit)
      → ((a : Commit) → K a → P a → a.generation ≡ g → Parents get_commit P a.parent_ids)
      → All K cs
      → Any P cs
      → Any P (pop_newest g cs).1 ⊎ Parents get_commit P (pop_newest g cs).0
  unfolding pop_newest
  pop_newest-Any P g [] f k h = absurd h
  pop_newest-Any P g (a ∷ []) f k h = inl h
  pop_newest-Any P g (a ∷ b ∷ rest) f k h = elim (Bool-cases (a.generation == g)) [
    | inl e ↦ rw e (elim h [
      | inl p ↦ inr (
          Any-left (λ p. (c : Commit) → get_commit p ≡ done c → P c) a.parent_ids
            (pop_newest g (b ∷ rest)).0 (f a k.0 p (ground arith)))
      | inr p ↦ elim (pop_newest-Any P g (b ∷ rest) f k.1 p) [
        | inl x ↦ inl x
        | inr y ↦ inr (
            Any-right (λ p. (c : Commit) → get_commit p ≡ done c → P c) a.parent_ids
              (pop_newest g (b ∷ rest)).0 y)
      ]
    ])
    | inr n ↦ rw n (inl h)
  ]

  pub pop_newest-Below :
      (g : ℕ) (cs : List Commit) → Below get_commit g cs → pop_newest g cs ≡ ([], cs)
  unfolding pop_newest
  pop_newest-Below g [] l = refl
  pop_newest-Below g (a ∷ []) l = refl
  pop_newest-Below g (a ∷ b ∷ rest) l =
      let z = l.0 in let n : (a.generation == g) ≡ false = ground arith in rw n refl

  pub pop_newest-rest :
      (g : ℕ) (a b : Commit) (rest : List Commit)
      → a.generation ≡ g
      → Below get_commit g (b ∷ rest)
      → Below get_commit g (pop_newest g (a ∷ b ∷ rest)).1
  unfolding pop_newest
  pop_newest-rest g a b rest q l =
      let e : (a.generation == g) ≡ true = ground arith in
      rw e (subst (λ z. Below get_commit g z.1) (sym (pop_newest-Below g (b ∷ rest) l)) l)

  -- A commit of a generation that is not 0 has a parent, an ancestor of what the commit is one of.
  pub step :
      (h : Commit) (g : ℕ) (a : Commit)
      → 0 < g
      → K a
      → Ancestor get_commit h a
      → a.generation ≡ g
      → Parents get_commit (Ancestor get_commit h) a.parent_ids
  step h g a l k v q = step_on a.parent_ids refl
    where
      step_on : (ids : List ℕ) → a.parent_ids ≡ ids → Parents get_commit (Ancestor get_commit h) ids
      step_on [] e = absurd (let z = history.1 a k e in omega arith)
      step_on (p ∷ ids) e =
          inl (λ c f. parent_of v (subst (Any (λ r. get_commit r ≡ done c)) (sym e) (inl f)))

  -- Of two commits in the set one has a parent.
  pub not_first : (a b : Commit) → K a → K b → newer a b ≡ true → 0 < a.generation
  not_first a b k l n = elim (Bool-cases (a.generation == 0)) [
    | inl e ↦ let q = history.2 a b k l (ground arith) (ground arith) in absurd (ground arith)
    | inr m ↦ ground arith
  ]
