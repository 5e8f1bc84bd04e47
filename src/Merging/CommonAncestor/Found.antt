-- ===== src/Merging/CommonAncestor/Found.antt =====
-- The loop of bin/ledger/app/merging/common_ancestor.cc ends at a common ancestor.
use peridot.Base.{
  All, All-mono, ℕ, zero, suc, ◌*◌, ◌≤◌, ◌<◌, ◌≡◌, sym, ap, ◌∙◌, List, [], ◌∷◌, ltb, ◌==◌, ◌⊎◌, inl,
  inr, arith, subst, Bool-cases,
}
use peridot.Storage.Types.{Result, ◌>>=◌, Gives, Gives-bind}
use peridot.Merging.CommonAncestor.{
  Commit, insert, insert_all, pop_newest, get_commits, replace_newest, find_loop,
  find_common_ancestor,
}
use peridot.Merging.CommonAncestor.Sets.{
  AreOrdered, insert-All, insert-AreOrdered, insert-kept, insert-new,
}
use peridot.Merging.CommonAncestor.Rounds.{
  Known, IsHistory, Ancestor, itself, Covers, Below, Matches, Parents, get_commits-Matches,
  insert_all-Known, insert_all-Below, insert_all-kept, insert_all-new, insert_all-first,
  same_commit,
}
use peridot.Merging.CommonAncestor.Pops.{
  pop_newest-Popped, pop_newest-Any, pop_newest-rest, step, not_first, older-Below, Remains,
}

module _ (get_commit : ℕ → Result Commit) (history : IsHistory get_commit)
    (head1 head2 : Commit) where
  abbrev K : Commit → Type 0
  K = Known get_commit

  -- What the loop keeps of the set: it is ordered, its commits are known, and some are ancestors of each head.
  abbrev IsActive : List Commit → Type 0
  IsActive cs = (AreOrdered cs × All K cs) × Covers get_commit head1 cs × Covers get_commit head2 cs

  abbrev pub Found : Commit → Type 0
  Found r = K r × Ancestor get_commit head1 r × Ancestor get_commit head2 r

  -- The only commit of the newest generation, and earlier ones.
  abbrev OneAt : ℕ → List Commit → Type 0
  OneAt g cs =
      (x : Commit) × (ys : List Commit) × (cs ≡ x ∷ ys) × (x.generation ≡ g) × Below get_commit g ys

  covered :
      (h : Commit) (g : ℕ) (ids : List ℕ) (parents rest : List Commit)
      → Matches get_commit g ids parents
      → AreOrdered rest × All K rest
      → Covers get_commit h rest ⊎ Parents get_commit (Ancestor get_commit h) ids
      → Covers get_commit h (insert_all parents rest)
  covered h g ids parents rest m k (inl c) =
      insert_all-kept get_commit (Ancestor get_commit h) parents rest c
  covered h g ids parents rest m k (inr p) =
      insert_all-new get_commit (Ancestor get_commit h) g ids parents rest m k p

  inserted-Remains :
      (g : ℕ) (ids : List ℕ) (parents rest : List Commit)
      → Matches get_commit g ids parents
      → Remains get_commit history g rest
      → Below get_commit g (insert_all parents rest) ⊎ OneAt g (insert_all parents rest)
  inserted-Remains g ids parents rest m (inl b) =
      inl (insert_all-Below get_commit g ids parents rest m b)
  inserted-Remains g ids parents rest m (inr (x, q, e)) = inr (
    x,
    insert_all parents [],
    ap (insert_all parents) q ∙ insert_all-first get_commit g ids parents x [] m e,
    e,
    insert_all-Below get_commit g ids parents [] m tt,
  )

  -- A round keeps what the loop keeps.
  round-IsActive :
      (g : ℕ) (a b : Commit) (rest : List Commit)
      → a.generation ≡ g
      → IsActive (a ∷ b ∷ rest)
      → Below get_commit (suc g) (a ∷ b ∷ rest)
      → Gives
          (λ cs.
            IsActive cs
            × (Below get_commit g cs ⊎ OneAt g cs)
            × (Below get_commit g (pop_newest g (a ∷ b ∷ rest)).1 → Below get_commit g cs))
          (replace_newest get_commit (pop_newest g (a ∷ b ∷ rest)))
  unfolding replace_newest
  round-IsActive g a b rest q ((o, k), u, v) l =
      let r = pop_newest g (a ∷ b ∷ rest) in
      let (i, s, m) = pop_newest-Popped get_commit history g (a ∷ b ∷ rest) o k l in
      let positive : 0 < g =
        subst (λ z. 0 < z) q (not_first get_commit history a b k.0 k.1.0 o.0.0) in
      Gives-bind (Matches get_commit g r.0) _ (get_commits get_commit r.0) _
        (get_commits-Matches get_commit g r.0 i)
        (λ parents w. (
          (
            insert_all-Known get_commit g r.0 parents r.1 w s,
            covered head1 g r.0 parents r.1 w s (
                pop_newest-Any get_commit history (Ancestor get_commit head1) g (a ∷ b ∷ rest)
                  (λ x y z e. step get_commit history head1 g x positive y z e) k u),
            covered head2 g r.0 parents r.1 w s (
                pop_newest-Any get_commit history (Ancestor get_commit head2) g (a ∷ b ∷ rest)
                  (λ x y z e. step get_commit history head2 g x positive y z e) k v),
          ),
          inserted-Remains g r.0 parents r.1 w m,
          λ z. insert_all-Below get_commit g r.0 parents r.1 w z,
        ))

  only-Found : (a : Commit) → IsActive (a ∷ []) → Found a
  only-Found a ((o, k), inl u, inl v) = (k.0, u, v)
  only-Found a ((o, k), inl u, inr v) = absurd v
  only-Found a ((o, k), inr u, v) = absurd u

  -- What the loop does with commits of generations below one, given that much fuel.
  abbrev Ends : ℕ → Type 0
  Ends g =
      (fuel : ℕ) (cs : List Commit)
      → g * 2 ≤ fuel
      → IsActive cs
      → Below get_commit g cs
      → Gives Found (find_loop get_commit fuel cs)

  find_one :
      (g fuel : ℕ) (x : Commit) (ys : List Commit)
      → Ends g
      → suc (g * 2) ≤ fuel
      → IsActive (x ∷ ys)
      → x.generation ≡ g
      → Below get_commit g ys
      → Gives Found (find_loop get_commit fuel (x ∷ ys))
  unfolding find_loop
  find_one g fuel x [] f h a q l = only-Found x a
  find_one g zero x (y ∷ ys) f h a q l = absurd (omega arith)
  find_one g (suc fuel) x (y ∷ ys) f h a q l =
      subst
        (λ z.
          Gives Found
            (replace_newest get_commit (pop_newest z (x ∷ y ∷ ys)) >>= find_loop get_commit fuel))
        (sym q)
        (Gives-bind _ _ (replace_newest get_commit (pop_newest g (x ∷ y ∷ ys))) _
          (round-IsActive g x y ys q a (omega arith, All-mono _ _ (y ∷ ys) l (λ c w. omega arith)))
          (λ cs k.
            f fuel cs (omega arith) k.0 (k.2 (pop_newest-rest get_commit history g x y ys q l))))

  find_newest :
      (g fuel : ℕ) (a b : Commit) (rest : List Commit)
      → Ends g
      → suc (suc (g * 2)) ≤ fuel
      → IsActive (a ∷ b ∷ rest)
      → Below get_commit (suc g) (a ∷ b ∷ rest)
      → a.generation ≡ g
      → Gives Found (find_loop get_commit fuel (a ∷ b ∷ rest))
  unfolding find_loop
  find_newest g zero a b rest f h v l q = absurd (omega arith)
  find_newest g (suc fuel) a b rest f h v l q =
      subst
        (λ z.
          Gives Found
            (replace_newest get_commit (pop_newest z (a ∷ b ∷ rest)) >>= find_loop get_commit fuel))
        (sym q)
        (Gives-bind _ _ (replace_newest get_commit (pop_newest g (a ∷ b ∷ rest))) _
          (round-IsActive g a b rest q v l)
          (λ cs k. elim k.1 [
            | inl below ↦ f fuel cs (omega arith) k.0 below
            | inr one ↦
                let (x, ys, e, p, m) = one in
                subst (λ z. Gives Found (find_loop get_commit fuel z)) (sym e)
                  (find_one g fuel x ys f (omega arith) (subst IsActive e k.0) p m)
          ]))

  find_below : (g : ℕ) → Ends g
  unfolding find_loop
  find_below zero fuel [] h v l = absurd v.1
  find_below zero fuel (a ∷ cs) h v l = absurd (let z = l.0 in omega arith)
  find_below (suc g) fuel [] h v l = absurd v.1
  find_below (suc g) fuel (a ∷ []) h v l = only-Found a v
  find_below (suc g) fuel (a ∷ b ∷ rest) h v l = elim (Bool-cases (a.generation == g)) [
    | inl e ↦ find_newest g fuel a b rest (find_below g) (omega arith) v l (ground arith)
    | inr n ↦
        let z = l.0 in
        let less : a.generation < g = ground arith in
        find_below g fuel (a ∷ b ∷ rest) (omega arith) v
          (less, older-Below get_commit history g a (b ∷ rest) less v.0.0.0)
  ]

  heads-IsActive : K head1 → K head2 → IsActive (insert head2 (head1 ∷ []))
  heads-IsActive k l = (
    (insert-AreOrdered head2 (head1 ∷ []) (tt, tt), insert-All K head2 (head1 ∷ []) l (k, tt)),
    insert-kept (Ancestor get_commit head1) head2 (head1 ∷ []) (inl itself),
    insert-new (Ancestor get_commit head2) head2 (head1 ∷ []) itself
        (λ q. same_commit get_commit head2 head1 l k q, tt),
  )

  find_heads :
      (g fuel : ℕ)
      → K head1
      → K head2
      → g * 2 ≤ fuel
      → head1.generation < g
      → head2.generation < g
      → Gives Found (find_loop get_commit fuel (insert head2 (head1 ∷ [])))
  find_heads g fuel k l h i j =
      find_below g fuel (insert head2 (head1 ∷ [])) h (heads-IsActive k l)
        (insert-All (λ c. c.generation < g) head2 (head1 ∷ []) j (i, tt))

  -- The search ends and finds a commit that is an ancestor of both heads, or the head itself, if the
  -- storage has the history of the heads. Two rounds for each generation up to the greater one of the
  -- heads are enough.
  pub find_common_ancestor-Found :
      (fuel : ℕ)
      → K head1
      → K head2
      → suc head1.generation * 2 ≤ fuel
      → suc head2.generation * 2 ≤ fuel
      → Gives Found (find_common_ancestor get_commit fuel head1 head2)
  unfolding find_common_ancestor insert
  find_common_ancestor-Found fuel k l h i =
      elim (Bool-cases (ltb head1.generation head2.generation)) [
        | inl a ↦ find_heads (suc head2.generation) fuel k l i (ground arith) (omega arith)
        | inr b ↦ find_heads (suc head1.generation) fuel k l h (omega arith) (ground arith)
      ]
