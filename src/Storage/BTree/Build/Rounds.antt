-- ===== src/Storage/BTree/Build/Rounds.antt =====
-- The rounds of `Build` (bin/ledger/storage/impl/btree/builder.cc) end, and the tree is stored.
use Prim.Native.Nat.{max}
use peridot.Base.{
  ℕ, zero, suc, ◌-◌, ◌≤◌, ◌<◌, ◌≡◌, refl, sym, ◌∙◌, true, false, List, ◌++◌, arith, subst, inl, inr,
  Bool-cases,
}
use peridot.Storage.Types.{Entry, Result, done, Gives, Gives-bind, Gives-mono}
use peridot.Storage.BTree.{
  TreeNode, NodeBuilder, null_node, unloaded, node, Rows, last, row, is_null, extract_content,
}
use peridot.Storage.BTree.Shape.{IsRows, Is}
use peridot.Storage.BTree.Build.{
  is_new_node, any_new, to_tree_node, add_node, build_round, build_rows, build_loop,
}
use peridot.Storage.BTree.Build.Content.{to_tree_node-IsRows, to_tree_node-IsMap}

-- How many rounds a tree needs at most.
mutual
  pub height : NodeBuilder → ℕ
  height null_node = 0
  height (unloaded level oid) = 0
  height (node false level oid rows) = 0
  height (node true level oid rows) = suc (height_rows rows)

  height_rows : Rows → ℕ
  height_rows (last c) = height c
  height_rows (row c e rest) = max (height c) (height_rows rest)

height_new : (b : NodeBuilder) → is_new_node b ≡ true → 0 < height b
unfolding height
height_new null_node h = absurd (ground arith)
height_new (unloaded level oid) h = absurd (ground arith)
height_new (node true level oid rows) h = omega arith
height_new (node false level oid rows) h = absurd (ground arith)

height_any_new : (rows : Rows) → any_new rows ≡ true → 0 < height_rows rows
unfolding height
height_any_new (last c) h = height_new c h
height_any_new (row c e rest) h = elim (Bool-cases (is_new_node c)) [
  | inl n ↦ omega (arith, height_new c n)
  | inr o ↦ omega (arith, height_any_new rest (ground arith))
]

module _ (load : ℕ → Result TreeNode) (get_node_level : ℕ → ℕ) where
  abbrev R : ℕ → Rows → List Entry → Type 0
  R l = IsRows load get_node_level (Is load get_node_level l) l

  mutual
    unfolding height Is

    pub height-le :
        (n : ℕ) (b : NodeBuilder) (es : List Entry) → Is load get_node_level n b es → height b ≤ n
    height-le n null_node es h = omega arith
    height-le n (unloaded level oid) es h = omega arith
    height-le n (node false level oid rows) es h = omega arith
    height-le zero (node true level oid rows) es h = absurd h
    height-le (suc l) (node true level oid rows) es h = omega (arith, height_rows-le l rows es h.1)

    height_rows-le : (l : ℕ) (rows : Rows) (es : List Entry) → R l rows es → height_rows rows ≤ l
    height_rows-le l (last c) es h = height-le l c es h
    height_rows-le l (row c e rest) es (xs, ys, q, h, v, r) =
        omega (arith, height-le l c xs h, height_rows-le l rest ys r)

  -- What the storage gives for an added node.
  module _ (add : TreeNode → Result ℕ)
      (keeps : (n : TreeNode) → Gives (λ oid. load oid ≡ done n) (add n)) where
    abbrev RoundOf : ℕ → NodeBuilder → List Entry → NodeBuilder × List ℕ → Type 0
    RoundOf n b es r =
        Is load get_node_level n r.0 es × (height r.0 ≤ height b - 1) × (is_null r.0 ≡ is_null b)

    add_node-Is :
        (l level : ℕ) (rows : Rows) (es : List Entry)
        → l < 256
        → level ≡ l
        → any_new rows ≡ false
        → R l rows es
        → Gives
            (λ r. Is load get_node_level (suc l) r.0 es × (height r.0 ≡ 0) × (is_null r.0 ≡ false))
            (add_node add level rows)
    unfolding add_node Is height
    add_node-Is l level rows es b q n h =
        Gives-bind (λ oid. load oid ≡ done (to_tree_node level rows)) _
          (add (to_tree_node level rows)) _ (keeps (to_tree_node level rows))
          (λ oid e. (
            (
              q,
              h,
              inr (
                to_tree_node level rows,
                e,
                q,
                to_tree_node-IsMap level rows,
                subst (λ z. R l (extract_content (to_tree_node z rows)) es) (sym q)
                    (to_tree_node-IsRows load get_node_level l rows es b n h),
              ),
            ),
            refl,
            refl,
          ))

    mutual
      unfolding build_round height Is

      build_round-Is :
          (n : ℕ) (b : NodeBuilder) (es : List Entry)
          → n ≤ 256
          → Is load get_node_level n b es
          → Gives (RoundOf n b es) (build_round add b)
      build_round-Is n null_node es s h = (h, omega arith, refl)
      build_round-Is n (unloaded level oid) es s h = (h, omega arith, refl)
      build_round-Is n (node false level oid rows) es s h = (h, omega arith, refl)
      build_round-Is zero (node true level oid rows) es s h = absurd h
      build_round-Is (suc l) (node true level oid rows) es s (q, h, w) =
          elim (Bool-cases (any_new rows)) [
            | inl more ↦ rw more (
                Gives-bind (λ r. R l r.0 es × (height_rows r.0 ≤ height_rows rows - 1)) _
                  (build_rows add rows) _ (build_rows-Is l rows es (omega arith) h)
                  (λ r k. ((q, k.0, inl refl), omega (arith, height_any_new rows more, k.1), refl)))
            | inr ready ↦ rw ready (
                Gives-mono
                  (λ r.
                    Is load get_node_level (suc l) r.0 es
                    × (height r.0 ≡ 0)
                    × (is_null r.0 ≡ false))
                  _ (add_node add level rows) (add_node-Is l level rows es (omega arith) q ready h)
                  (λ r k. (k.0, omega (arith, k.1), k.2)))
          ]

      build_rows-Is :
          (l : ℕ) (rows : Rows) (es : List Entry)
          → l ≤ 256
          → R l rows es
          → Gives (λ r. R l r.0 es × (height_rows r.0 ≤ height_rows rows - 1)) (build_rows add rows)
      build_rows-Is l (last c) es s h =
          Gives-bind (RoundOf l c es) _ (build_round add c) _ (build_round-Is l c es s h)
            (λ r k. (k.0, k.1))
      build_rows-Is l (row c e rest) es s (xs, ys, q, h, v, w) =
          Gives-bind (RoundOf l c xs) _ (build_round add c) _ (build_round-Is l c xs s h) (λ r k.
            Gives-bind (λ t. R l t.0 ys × (height_rows t.0 ≤ height_rows rest - 1)) _
              (build_rows add rest) _ (build_rows-Is l rest ys s w)
              (λ t m. ((xs, ys, q, k.0, v, m.0), omega (arith, k.1, m.1))))

    -- As many rounds as the tree has levels are enough, and the root is then an existing node.
    pub build_loop-Is :
        (rounds n : ℕ) (ids : List ℕ) (b : NodeBuilder) (es : List Entry)
        → n ≤ 256
        → height b ≤ rounds
        → is_null b ≡ false
        → Is load get_node_level n b es
        → Gives
            (λ r.
              Is load get_node_level n r.0 es × (is_new_node r.0 ≡ false) × (is_null r.0 ≡ false))
            (build_loop add rounds ids b)
    unfolding build_loop
    build_loop-Is zero n ids b es s h z i = elim (Bool-cases (is_new_node b)) [
      | inl new ↦ absurd (omega (arith, height_new b new))
      | inr old ↦ rw old (i, old, z)
    ]
    build_loop-Is (suc rounds) n ids b es s h z i = elim (Bool-cases (is_new_node b)) [
      | inl new ↦ rw new (
          Gives-bind (RoundOf n b es) _ (build_round add b) _ (build_round-Is n b es s i) (λ r k.
            build_loop-Is rounds n (ids ++ r.1) r.0 es s (omega (arith, k.1)) (k.2 ∙ z) k.0))
      | inr old ↦ rw old (i, old, z)
    ]
