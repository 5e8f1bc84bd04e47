-- ===== src/Storage/BTree/Splits.antt =====
-- `Split` of bin/ledger/storage/impl/btree/builder.cc.
use peridot.Base.{
  ℕ, zero, suc, ◌≤◌, ◌<◌, ◌≡◌, ◌≢◌, refl, ap, sym, ◌∙◌, true, false, List, [], ◌∷◌, ◌++◌, arith,
  ltb, subst, Bool-cases, inl, inr,
}
use peridot.Storage.Types.{Entry, Result, Gives, Gives-bind, ◌>>=◌}
use peridot.Storage.BTree.{
  TreeNode, NodeBuilder, null_node, unloaded, node, Rows, last, row, is_null, Content, of_content,
  compute_content, key_absent, null_at_start, null_at_end, split_rows, split_content, split,
}
use peridot.Storage.BTree.Contents.{
  All-mono, IsSorted, IsSorted-parts, below, above, above_all, split_left, split_right,
}
use peridot.Storage.BTree.Shape.{
  IsRows, Is, IsContent, Is-of_content, compute_content-IsContent, Is-create_new_builder,
}

module _ (load : ℕ → Result TreeNode) (get_node_level : ℕ → ℕ) where
  -- Two trees with the entries below a key and those above it.
  abbrev pub SplitOf : ℕ → ℕ → List Entry → NodeBuilder × NodeBuilder → Type 0
  SplitOf n k es s =
      Is load get_node_level n s.0 (below k es) × Is load get_node_level n s.1 (above k es)

  module _ (k l : ℕ) (higher : l < get_node_level k) where
    abbrev R : Rows → List Entry → Type 0
    R = IsRows load get_node_level (Is load get_node_level l) l

    ne_key : (e : Entry) → get_node_level e.key ≡ l → e.key ≢ k
    ne_key e h q = let p = ap get_node_level q in omega arith

    pub key_absent_lem : (rows : Rows) (es : List Entry) → R rows es → key_absent k rows ≡ true
    unfolding key_absent
    key_absent_lem (last c) es h = refl
    key_absent_lem (row c e rest) es (xs, ys, q, h, v, r) =
        ground (arith, ne_key e v, key_absent_lem rest ys r)

    null_at_start_lem :
        (rows : Rows) (es : List Entry)
        → R rows es
        → IsSorted es
        → null_at_start k rows ≡ true
        → (below k es ≡ []) × (above k es ≡ es)
    unfolding null_at_start Is
    null_at_start_lem (last null_node) es h s n = rw h (refl, refl)
    null_at_start_lem (last (unloaded level oid)) es h s n = absurd (ground arith)
    null_at_start_lem (last (node is_new level oid rows)) es h s n = absurd (ground arith)
    null_at_start_lem (row null_node e rest) es (xs, ys, q, h, v, r) s n =
        let w = q ∙ ap (λ z. z ++ e ∷ ys) h in
        let lt : k < e.key = ground (arith, ne_key e v) in
        let s' = subst IsSorted w s in
        rw w (
          above_all k (e ∷ ys)
            (lt, All-mono (λ z. e.key < z.key) (λ z. k < z.key) ys s'.0 (λ z i. omega arith)))
    null_at_start_lem (row (unloaded level oid) e rest) es h s n = absurd (ground arith)
    null_at_start_lem (row (node is_new level oid rows) e rest) es h s n = absurd (ground arith)

    null_at_end_lem :
        (rows : Rows) (es : List Entry)
        → R rows es
        → IsSorted es
        → null_at_end k rows ≡ true
        → (below k es ≡ es) × (above k es ≡ [])
    unfolding null_at_end Is
    null_at_end_lem (last null_node) es h s n = rw h (refl, refl)
    null_at_end_lem (last (unloaded level oid)) es h s n = absurd (ground arith)
    null_at_end_lem (last (node is_new level oid rows)) es h s n = absurd (ground arith)
    null_at_end_lem (row c e rest) es (xs, ys, q, h, v, r) s n =
        let u = subst IsSorted q s in
        let (_, _, _, sy) = IsSorted-parts xs e ys u in
        let lt : e.key < k = ground arith in
        let (a, b) = null_at_end_lem rest ys r sy (ground arith) in
        let (i, j) = split_right k xs e ys lt u in rw q (i ∙ ap (λ z. xs ++ e ∷ z) a, j ∙ b)

    split_rows-R :
        (f : NodeBuilder → Result (NodeBuilder × NodeBuilder)) (rows : Rows) (es : List Entry)
        → ((c : NodeBuilder) (xs : List Entry)
            → Is load get_node_level l c xs
            → IsSorted xs
            → Gives (SplitOf l k xs) (f c))
        → R rows es
        → IsSorted es
        → Gives (λ s. R s.0 (below k es) × R s.1 (above k es)) (split_rows f k rows)
    unfolding split_rows
    split_rows-R f (last c) es g h s = Gives-bind (SplitOf l k es) _ (f c) _ (g c es h s) (λ t q. q)
    split_rows-R f (row c e rest) es g (xs, ys, q, h, v, r) s =
        let u = subst IsSorted q s in
        let (sx, _, _, sy) = IsSorted-parts xs e ys u in
        rw q (elim (Bool-cases (ltb e.key k)) [
          | inl lt ↦
              let less : e.key < k = ground arith in
              rw (lt, (split_right k xs e ys less u).0, (split_right k xs e ys less u).1)
                (Gives-bind (λ t. R t.0 (below k ys) × R t.1 (above k ys)) _ (split_rows f k rest) _
                  (split_rows-R f rest ys g r sy) (λ t w. ((xs, below k ys, refl, h, v, w.0), w.1)))
          | inr ge ↦
              let more : k < e.key = ground (arith, ne_key e v) in
              rw (ge, (split_left k xs e ys more u).0, (split_left k xs e ys more u).1)
                (Gives-bind (SplitOf l k xs) _ (f c) _ (g c xs h sx)
                  (λ t w. (w.0, (above k xs, ys, refl, w.1, v, r))))
        ])

    abbrev Splitter : (NodeBuilder → Result (NodeBuilder × NodeBuilder)) → Type 0
    Splitter f =
        (c : NodeBuilder) (xs : List Entry)
        → Is load get_node_level l c xs
        → IsSorted xs
        → Gives (SplitOf l k xs) (f c)

    -- With all entries on one side, the other side is the null tree.
    one_sided :
        (n : ℕ) (b : NodeBuilder) (es : List Entry)
        → Is load get_node_level n b es
        → ((below k es ≡ []) × (above k es ≡ es) → SplitOf n k es (null_node, b))
          × ((below k es ≡ es) × (above k es ≡ []) → SplitOf n k es (b, null_node))
    unfolding Is
    one_sided n b es h = (
      λ p. (p.0, subst (Is load get_node_level n b) (sym p.1) h),
      λ p. (subst (Is load get_node_level n b) (sym p.0) h, p.1),
    )

    split_content-Is :
        (f : NodeBuilder → Result (NodeBuilder × NodeBuilder)) (x : Content) (es : List Entry)
        → Splitter f
        → IsContent load get_node_level l es x
        → IsSorted es
        → Gives (SplitOf (suc l) k es) (split_content load f k x)
    unfolding split_content
    split_content-Is f x es g (q, r, z) s =
        let whole = Is-of_content load get_node_level l es x (q, r, z) in
        rw (key_absent_lem x.rows es r) (elim (Bool-cases (null_at_start k x.rows)) [
          | inl start ↦ rw start (
              (one_sided (suc l) (of_content x) es whole).0 (null_at_start_lem x.rows es r s start))
          | inr not_start ↦ elim (Bool-cases (null_at_end k x.rows)) [
            | inl end ↦
                rw (not_start, end)
                  ((one_sided (suc l) (of_content x) es whole).1
                    (null_at_end_lem x.rows es r s end))
            | inr not_end ↦
                rw (not_start, not_end, q)
                  (Gives-bind (λ t. R t.0 (below k es) × R t.1 (above k es)) (SplitOf (suc l) k es)
                    (split_rows f k x.rows) _ (split_rows-R f x.rows es g r s)
                    (λ t w. (
                      Is-create_new_builder load get_node_level l t.0 (below k es) w.0,
                      Is-create_new_builder load get_node_level l t.1 (above k es) w.1,
                    )))
          ]
        ])

  split_loaded :
      (l k : ℕ) (f : NodeBuilder → Result (NodeBuilder × NodeBuilder)) (b : NodeBuilder)
      (es : List Entry)
      → (higher : l < get_node_level k) → Splitter k l higher f
      → is_null b ≡ false
      → Is load get_node_level (suc l) b es
      → IsSorted es
      → Gives (SplitOf (suc l) k es) (compute_content load b >>= split_content load f k)
  split_loaded l k f b es higher g n i s =
      Gives-bind (IsContent load get_node_level l es) (SplitOf (suc l) k es)
        (compute_content load b) (split_content load f k)
        (compute_content-IsContent load get_node_level l b es n i)
        (λ x c. split_content-Is k l higher f x es g c s)

  -- A tree of so many levels is split at a key of a higher level into the tree of the smaller keys and
  -- that of the greater ones; it takes no more fuel than there are levels, and nothing fails.
  pub split-Is :
      (fuel n k : ℕ) (b : NodeBuilder) (es : List Entry)
      → n ≤ fuel
      → n ≤ get_node_level k
      → Is load get_node_level n b es
      → IsSorted es
      → Gives (SplitOf n k es) (split load fuel k b)
  unfolding split Is
  split-Is fuel n k null_node es h v i s = rw i (refl, refl)
  split-Is zero zero k (unloaded level oid) es h v i s = absurd i
  split-Is zero (suc l) k (unloaded level oid) es h v i s = absurd (omega arith)
  split-Is zero zero k (node is_new level oid rows) es h v i s = absurd i
  split-Is zero (suc l) k (node is_new level oid rows) es h v i s = absurd (omega arith)
  split-Is (suc fuel) zero k (unloaded level oid) es h v i s = absurd i
  split-Is (suc fuel) zero k (node is_new level oid rows) es h v i s = absurd i
  split-Is (suc fuel) (suc l) k (unloaded level oid) es h v i s =
      split_loaded l k (split load fuel k) (unloaded level oid) es v
        (λ c xs j t. split-Is fuel l k c xs (omega arith) (omega arith) j t) refl i s
  split-Is (suc fuel) (suc l) k (node is_new level oid rows) es h v i s =
      split_loaded l k (split load fuel k) (node is_new level oid rows) es v
        (λ c xs j t. split-Is fuel l k c xs (omega arith) (omega arith) j t) refl i s
