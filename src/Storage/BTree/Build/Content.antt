-- ===== src/Storage/BTree/Build/Content.antt =====
-- A node that is added to the storage is read back with the same content
-- (bin/ledger/storage/impl/btree/builder.cc, `Build` and `ExtractContent`).
use peridot.Base.{
  ℕ, zero, suc, ◌+◌, ◌≤◌, ◌<◌, ◌≡◌, refl, sym, true, false, List, [], ◌∷◌, arith, subst, inl, inr,
}
use peridot.Storage.Types.{Entry, Result}
use peridot.Storage.BTree.{
  TreeNode, NodeBuilder, null_node, unloaded, node, Rows, last, row, extract_content, extract_rows,
  next_child, dec8,
}
use peridot.Storage.BTree.Shape.{IsRows, Is, IsMap}
use peridot.Storage.BTree.Build.{
  is_new_node, any_new, entries_of, put_child, children_of, to_tree_node,
}

-- The map has no child before its first index.
next_child-children_of :
    (level i j : ℕ) (rows : Rows)
    → i < j
    → next_child level i (children_of j rows) ≡ (null_node, children_of j rows)
unfolding next_child children_of
next_child-children_of level i j (last null_node) h = refl
next_child-children_of level i j (last (unloaded l oid)) h = ground arith
next_child-children_of level i j (last (node is_new l oid rows)) h = ground arith
next_child-children_of level i j (row null_node e rest) h =
    next_child-children_of level i (j + 1) rest (omega arith)
next_child-children_of level i j (row (unloaded l oid) e rest) h = ground arith
next_child-children_of level i j (row (node is_new l oid rows) e rest) h = ground arith

IsMap-mono : (i j : ℕ) (children : List (ℕ × ℕ)) → i ≤ j → IsMap j children → IsMap i children
IsMap-mono i j [] h m = tt
IsMap-mono i j ((k, oid) ∷ children) h m = (let l = m.0 in omega arith, m.1)

put_child-IsMap :
    (i : ℕ) (c : NodeBuilder) (rest : List (ℕ × ℕ))
    → IsMap (i + 1) rest
    → IsMap i (put_child i c rest)
put_child-IsMap i null_node rest m = IsMap-mono i (i + 1) rest (omega arith) m
put_child-IsMap i (unloaded l oid) rest m = (omega arith, m)
put_child-IsMap i (node is_new l oid rows) rest m = (omega arith, m)

children_of-IsMap : (i : ℕ) (rows : Rows) → IsMap i (children_of i rows)
unfolding children_of
children_of-IsMap i (last c) = put_child-IsMap i c [] tt
children_of-IsMap i (row c e rest) =
    put_child-IsMap i c (children_of (i + 1) rest) (children_of-IsMap (i + 1) rest)

pub to_tree_node-IsMap : (l : ℕ) (rows : Rows) → IsMap 0 (to_tree_node l rows).children
unfolding to_tree_node
to_tree_node-IsMap l rows = children_of-IsMap 0 rows

-- The child that is read for one that is not null.
abbrev child_read : ℕ → NodeBuilder → NodeBuilder
child_read level null_node = null_node
child_read level (unloaded l oid) = unloaded (dec8 level) oid
child_read level (node is_new l oid rows) = unloaded (dec8 level) oid

next_child-last :
    (level i : ℕ) (c : NodeBuilder) → (next_child level i (put_child i c [])).0 ≡ child_read level c
unfolding next_child
next_child-last level i null_node = refl
next_child-last level i (unloaded l oid) = ground arith
next_child-last level i (node is_new l oid rows) = ground arith

next_child-row :
    (level i : ℕ) (c : NodeBuilder) (rest : Rows)
    → next_child level i (put_child i c (children_of (i + 1) rest))
      ≡ (child_read level c, children_of (i + 1) rest)
unfolding next_child
next_child-row level i null_node rest = next_child-children_of level i (i + 1) rest (omega arith)
next_child-row level i (unloaded l oid) rest = ground arith
next_child-row level i (node is_new l oid rows) rest = ground arith

module _ (load : ℕ → Result TreeNode) (get_node_level : ℕ → ℕ) where
  child_read-Is :
      (l : ℕ) (c : NodeBuilder) (es : List Entry)
      → l < 256
      → is_new_node c ≡ false
      → Is load get_node_level l c es
      → Is load get_node_level l (child_read l c) es
  unfolding Is
  child_read-Is l null_node es b n h = h
  child_read-Is zero (unloaded level oid) es b n h = absurd h
  child_read-Is zero (node is_new level oid rows) es b n h = absurd h
  child_read-Is (suc l) (unloaded level oid) es b n h = (omega arith, h.1)
  child_read-Is (suc l) (node true level oid rows) es b n h = absurd (ground arith)
  child_read-Is (suc l) (node false level oid rows) es b n (q, r, inl e) = absurd (ground arith)
  child_read-Is (suc l) (node false level oid rows) es b n (q, r, inr s) = (omega arith, s)

  -- Rows with no new child are read back with their content from the entries and the map of children.
  extract_rows-IsRows :
      (l i : ℕ) (rows : Rows) (es : List Entry)
      → l < 256
      → any_new rows ≡ false
      → IsRows load get_node_level (Is load get_node_level l) l rows es
      → IsRows load get_node_level
          (Is load get_node_level l)
          l
          (extract_rows l i (entries_of rows) (children_of i rows))
          es
  unfolding extract_rows entries_of children_of
  extract_rows-IsRows l i (last c) es b n h =
      subst (λ z. Is load get_node_level l z es) (sym (next_child-last l i c))
        (child_read-Is l c es b n h)
  extract_rows-IsRows l i (row c e rest) es b n (xs, ys, q, h, v, r) =
      let step = next_child-row l i c rest in
      (
        xs,
        ys,
        q,
        subst (λ z. Is load get_node_level l z.0 xs) (sym step)
            (child_read-Is l c xs b (ground arith) h),
        v,
        subst
            (λ z.
              IsRows load get_node_level (Is load get_node_level l) l
                (extract_rows l (i + 1) (entries_of rest) z.1) ys)
            (sym step) (extract_rows-IsRows l (i + 1) rest ys b (ground arith) r),
      )

  -- Rows at a level below 256, with some entries and with no new child, have the same entries when they
  -- are extracted from the node that is stored for them.
  pub to_tree_node-IsRows :
      (l : ℕ) (rows : Rows) (es : List Entry)
      → l < 256
      → any_new rows ≡ false
      → IsRows load get_node_level (Is load get_node_level l) l rows es
      → IsRows load get_node_level
          (Is load get_node_level l)
          l
          (extract_content (to_tree_node l rows))
          es
  unfolding extract_content to_tree_node
  to_tree_node-IsRows l rows es b n h = extract_rows-IsRows l 0 rows es b n h
