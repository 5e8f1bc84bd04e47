-- ===== src/Storage/BTree/Deletes.antt =====
-- `Delete` of bin/ledger/storage/impl/btree/builder.cc.
use peridot.Base.{
  ℕ, suc, ◌≤◌, ◌<◌, ◌≡◌, ◌≢◌, refl, ap, sym, ◌∙◌, Bool, true, false, Option, none, some, List, [],
  ◌∷◌, ◌++◌, arith, ltb, leb, ◌==◌, subst, Bool-cases, ◌⊎◌, inl, inr,
}
use peridot.Storage.Types.{Entry, Result, Gives, Gives-bind}
use peridot.Storage.BTree.{
  TreeNode, NodeBuilder, Rows, last, row, is_null, level_of, Content, compute_content, first_child,
  set_first_child, delete_rows, put_row, deleted_from, merge, delete, create_new_builder,
}
use peridot.Storage.BTree.Contents.{
  All-mono, IsSorted, IsSorted-parts, edit, edit_absent, edit_left, edit_right, edit_hit,
}
use peridot.Storage.BTree.Shape.{
  IsRows, Is, IsContent, Is-of_content, compute_content-IsContent, Is-create_new_builder, Is-levels,
  level_of-Is,
}
use peridot.Storage.BTree.Merges.{Merger, first_child-R, merge-Merger}

module _ (load : ℕ → Result TreeNode) (get_node_level : ℕ → ℕ) where
  -- What a change at a key makes of a tree: a tree that has at most as many levels, or as many as the
  -- key's; or the same tree, reported so; or, at a key of a higher level, the same tree with no report.
  pub data Outcome (n k : ℕ) (old es : List Entry) : NodeBuilder × Option Bool → Type 0 where
    mutated :
        {b : NodeBuilder} (m : ℕ)
        → (m ≡ n) ⊎ (m ≡ suc (get_node_level k))
        → Is load get_node_level m b es
        → Outcome n k old es (b, some true)
    kept :
        {b : NodeBuilder}
        → es ≡ old
        → Is load get_node_level n b es
        → Outcome n k old es (b, some false)
    unset :
        {b : NodeBuilder}
        → n ≤ get_node_level k
        → es ≡ old
        → Is load get_node_level n b es
        → Outcome n k old es (b, none)

  abbrev R : ℕ → Rows → List Entry → Type 0
  R l = IsRows load get_node_level (Is load get_node_level l) l

  -- The rows after a change, or the same rows if it changes nothing.
  abbrev pub FoundOf : ℕ → List Entry → List Entry → Option Rows → Type 0
  FoundOf l es es' none = es' ≡ es
  FoundOf l es es' (some rows) = R l rows es'

  pub put_row-FoundOf :
      (l : ℕ) (c : NodeBuilder) (e : Entry) (found : Option Rows) (xs ys ys' : List Entry)
      → Is load get_node_level l c xs
      → get_node_level e.key ≡ l
      → FoundOf l ys ys' found
      → FoundOf l (xs ++ e ∷ ys) (xs ++ e ∷ ys') (put_row c e found)
  put_row-FoundOf l c e none xs ys ys' i v h = ap (λ z. xs ++ e ∷ z) h
  put_row-FoundOf l c e (some rows) xs ys ys' i v h = (xs, ys', refl, i, v, h)

  -- A key is not in a tree of lower levels.
  pub absent :
      (n k : ℕ) (b : NodeBuilder) (es : List Entry)
      → n ≤ get_node_level k
      → Is load get_node_level n b es
      → IsSorted es
      → edit k [] es ≡ es
  absent n k b es h i s = edit_absent k es s (
      All-mono (λ e. get_node_level e.key < n) (λ e. e.key ≢ k) es
        (Is-levels load get_node_level n b es i)
        (λ e w q. let p = ap get_node_level q in omega arith))

  module _ (k l : ℕ) (at_level : get_node_level k ≡ l) where
    delete_rows-R :
        (f : NodeBuilder → NodeBuilder → Result NodeBuilder) (rows : Rows) (es : List Entry)
        → Merger load get_node_level l f
        → R l rows es
        → IsSorted es
        → Gives (FoundOf l es (edit k [] es)) (delete_rows f k rows)
    unfolding delete_rows
    delete_rows-R f (last c) es g h s = absent l k c es (omega arith) h s
    delete_rows-R f (row c e rest) es g (xs, ys, q, h, v, r) s =
        let u = subst IsSorted q s in
        let (sx, _, _, sy) = IsSorted-parts xs e ys u in
        rw q (elim (Bool-cases (ltb e.key k)) [
          | inl lt ↦
              let less : e.key < k = ground arith in
              rw (lt, edit_right k [] xs e ys less u)
                (Gives-bind (FoundOf l ys (edit k [] ys)) _ (delete_rows f k rest) _
                  (delete_rows-R f rest ys g r sy)
                  (λ found w. put_row-FoundOf l c e found xs ys (edit k [] ys) h v w))
          | inr ge ↦ elim (Bool-cases (e.key == k)) [
            | inl same ↦
                let hit : e.key ≡ k = ground arith in
                rw (ge, same, edit_hit k [] xs e ys hit u)
                  (Gives-bind (λ m. R l (set_first_child m rest) (xs ++ ys)) _
                    (f c (first_child rest)) _
                    (first_child-R load get_node_level l f c rest xs ys g h r) (λ m w. w))
            | inr differs ↦
                let more : k < e.key = ground arith in
                rw (ge, differs)
                  (edit_left k [] xs e ys more u
                    ∙ ap (λ z. z ++ e ∷ ys) (absent l k c xs (omega arith) h sx))
          ]
        ])

  pub new_content-Is :
      (l : ℕ) (x : Content) (rows : Rows) (es es' : List Entry)
      → IsContent load get_node_level l es x
      → R l rows es'
      → Is load get_node_level (suc l) (create_new_builder x.level rows) es'
  new_content-Is l x rows es es' c w =
      subst (λ i. Is load get_node_level (suc l) (create_new_builder i rows) es') (sym c.0)
        (Is-create_new_builder load get_node_level l rows es' w)

  deleted_from-Outcome :
      (l k : ℕ) (x : Content) (es es' : List Entry) (found : Option Rows)
      → IsContent load get_node_level l es x
      → FoundOf l es es' found
      → Outcome (suc l) k es es' (deleted_from x found)
  unfolding deleted_from
  deleted_from-Outcome l k x es es' none c w = kept w (
      Is-of_content load get_node_level l es' x
        (subst (λ z. IsContent load get_node_level l z x) (sym w) c))
  deleted_from-Outcome l k x es es' (some rows) c w =
      mutated (suc l) (inl refl) (new_content-Is l x rows es es' c w)

  -- A key is deleted from a tree that is not null and whose levels are at most the key's.
  pub delete-Is :
      (fuel l k : ℕ) (b : NodeBuilder) (es : List Entry)
      → l ≤ fuel
      → l ≤ get_node_level k
      → is_null b ≡ false
      → Is load get_node_level (suc l) b es
      → IsSorted es
      → Gives (Outcome (suc l) k es (edit k [] es)) (delete load fuel (get_node_level k) k b)
  unfolding delete
  delete-Is fuel l k b es h v n i s =
      let q : suc (level_of b) ≡ suc l = level_of-Is load get_node_level (suc l) b es n i in
      let t : leb (level_of b) (get_node_level k) ≡ true = ground arith in
      rw (n, t)
        (elim (Bool-cases (ltb (level_of b) (get_node_level k))) [
          | inl higher ↦
              let up : suc l ≤ get_node_level k = ground arith in
              rw higher (
                unset up (absent (suc l) k b es up i s)
                  (subst (Is load get_node_level (suc l) b) (sym (absent (suc l) k b es up i s)) i))
          | inr not_higher ↦
              let at_level : get_node_level k ≡ l = ground arith in
              rw not_higher (
                Gives-bind (IsContent load get_node_level l es) _ (compute_content load b) _
                  (compute_content-IsContent load get_node_level l b es n i)
                  (λ x c.
                    Gives-bind (FoundOf l es (edit k [] es)) _
                      (delete_rows (merge load fuel) k x.rows) _
                      (delete_rows-R k l at_level (merge load fuel) x.rows es
                        (merge-Merger load get_node_level fuel l h) c.1 s)
                      (λ found w. deleted_from-Outcome l k x es (edit k [] es) found c w)))
        ])
