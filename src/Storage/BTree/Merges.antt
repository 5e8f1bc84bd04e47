-- ===== src/Storage/BTree/Merges.antt =====
-- `Merge` and `Delete` of bin/ledger/storage/impl/btree/builder.cc.
use mathlib.Core.List.{append_assoc, append-nil}
use peridot.Base.{
  ℕ, zero, suc, ◌≤◌, ◌≡◌, refl, ap, sym, ◌∙◌, true, false, List, ◌∷◌, ◌++◌, arith, ◌==◌, subst, inl,
}
use peridot.Storage.Types.{Entry, Result, Gives, Gives-bind, Gives-mono, ◌>>=◌, check}
use peridot.Storage.BTree.{
  TreeNode, NodeBuilder, null_node, unloaded, node, Rows, last, row, is_null, level_of,
  compute_content, merge_rows, first_child, set_first_child, merge_content, merge,
}
use peridot.Storage.BTree.Shape.{IsRows, Is, IsContent, compute_content-IsContent, level_of-Is}

module _ (load : ℕ → Result TreeNode) (get_node_level : ℕ → ℕ) where
  abbrev pub MergeOf : ℕ → List Entry → List Entry → NodeBuilder → Type 0
  MergeOf n xs ys b = Is load get_node_level n b (xs ++ ys)

  -- What merges trees of so many levels.
  abbrev pub Merger : ℕ → (NodeBuilder → NodeBuilder → Result NodeBuilder) → Type 0
  Merger n f =
      (b c : NodeBuilder) (xs ys : List Entry)
      → Is load get_node_level n b xs
      → Is load get_node_level n c ys
      → Gives (MergeOf n xs ys) (f b c)

  abbrev R : ℕ → Rows → List Entry → Type 0
  R l = IsRows load get_node_level (Is load get_node_level l) l

  -- The first child is replaced by one that has more entries in front.
  pub first_child-R :
      (l : ℕ) (f : NodeBuilder → NodeBuilder → Result NodeBuilder) (c : NodeBuilder) (rows : Rows)
      (xs ys : List Entry)
      → Merger l f
      → Is load get_node_level l c xs
      → R l rows ys
      → Gives (λ m. R l (set_first_child m rows) (xs ++ ys)) (f c (first_child rows))
  unfolding first_child set_first_child
  first_child-R l f c (last d) xs ys g h r = g c d xs ys h r
  first_child-R l f c (row d e rest) xs ys g h (us, vs, q, i, v, r) =
      Gives-mono (MergeOf l xs us) _ (f c d) (g c d xs us h i)
        (λ m w. (xs ++ us, vs, ap (λ z. xs ++ z) q ∙ sym (append_assoc xs us (e ∷ vs)), w, v, r))

  merge_rows-R :
      (l : ℕ) (f : NodeBuilder → NodeBuilder → Result NodeBuilder) (rows other : Rows)
      (xs ys : List Entry)
      → Merger l f
      → R l rows xs
      → R l other ys
      → Gives (λ r. R l r (xs ++ ys)) (merge_rows f rows other)
  unfolding merge_rows
  merge_rows-R l f (last c) other xs ys g h r =
      Gives-bind (λ m. R l (set_first_child m other) (xs ++ ys)) _ (f c (first_child other)) _
        (first_child-R l f c other xs ys g h r) (λ m w. w)
  merge_rows-R l f (row c e rest) other xs ys g (us, vs, q, i, v, r) k =
      Gives-bind (λ m. R l m (vs ++ ys)) _ (merge_rows f rest other) _
        (merge_rows-R l f rest other vs ys g r k)
        (λ m w. (us, vs ++ ys, ap (λ z. z ++ ys) q ∙ append_assoc us (e ∷ vs) ys, i, v, w))

  merge_loaded :
      (l : ℕ) (f : NodeBuilder → NodeBuilder → Result NodeBuilder) (b c : NodeBuilder)
      (xs ys : List Entry)
      → Merger l f
      → is_null b ≡ false
      → is_null c ≡ false
      → Is load get_node_level (suc l) b xs
      → Is load get_node_level (suc l) c ys
      → Gives (MergeOf (suc l) xs ys) (
          check
            (level_of b == level_of c)
            (compute_content load b >>= (λ x. compute_content load c >>= merge_content load f x)))
  unfolding merge_content Is
  merge_loaded l f b c xs ys g nb nc i j =
      let p = level_of-Is load get_node_level (suc l) b xs nb i in
      let q = level_of-Is load get_node_level (suc l) c ys nc j in
      let same : (level_of b == level_of c) ≡ true = ground arith in
      rw same (
        Gives-bind (IsContent load get_node_level l xs) (MergeOf (suc l) xs ys)
          (compute_content load b) _ (compute_content-IsContent load get_node_level l b xs nb i)
          (λ x h.
            Gives-bind (IsContent load get_node_level l ys) (MergeOf (suc l) xs ys)
              (compute_content load c) _ (compute_content-IsContent load get_node_level l c ys nc j)
              (λ y k.
                Gives-bind (λ r. R l r (xs ++ ys)) (MergeOf (suc l) xs ys)
                  (merge_rows f x.rows y.rows) _ (merge_rows-R l f x.rows y.rows xs ys g h.1 k.1)
                  (λ r w. (h.0, w, inl refl)))))

  -- Two trees of so many levels are merged into the tree of the entries of the one and then those of the
  -- other; it takes no more fuel than there are levels, and nothing fails.
  pub merge-Merger : (fuel n : ℕ) → n ≤ fuel → Merger n (merge load fuel)
  unfolding merge Is
  merge-Merger fuel n h b null_node xs ys i j =
      subst (Is load get_node_level n b) (sym (append-nil xs) ∙ ap (λ z. xs ++ z) (sym j)) i
  merge-Merger fuel n h null_node (unloaded level oid) xs ys i j =
      subst (Is load get_node_level n (unloaded level oid)) (ap (λ z. z ++ ys) (sym i)) j
  merge-Merger fuel n h null_node (node is_new level oid rows) xs ys i j =
      subst (Is load get_node_level n (node is_new level oid rows)) (ap (λ z. z ++ ys) (sym i)) j
  merge-Merger fuel zero h (unloaded level oid) c xs ys i j = absurd i
  merge-Merger fuel zero h (node is_new level oid rows) c xs ys i j = absurd i
  merge-Merger zero (suc l) h b c xs ys i j = absurd (omega arith)
  merge-Merger (suc fuel) (suc l) h b c xs ys i j =
      merge_loaded l (merge load fuel) b c xs ys (merge-Merger fuel l (omega arith)) refl refl i j
