-- ===== src/Storage/BTree/History.antt =====
-- Two histories of a tree in bin/ledger/storage/impl/btree/builder.cc that end with the same entries.
use peridot.Base.{ℕ, zero, suc, ◌<◌, ◌≡◌, refl, true, false, some, [], ◌∷◌, arith, ltb, ◌==◌}
use peridot.Storage.Types.{Entry, EntryChange, Result, done}
use peridot.Storage.BTree.{
  TreeNode, NodeBuilder, null_node, node, Rows, last, row, apply, apply_all, to_level,
}

abbrev put : Entry → EntryChange
put e = record { entry = e; deleted = false }

abbrev pub removal : Entry → EntryChange
removal e = record { entry = e; deleted = true }

-- The root of an empty page, as it is read from the storage.
abbrev pub empty_page : ℕ → NodeBuilder
empty_page oid = node false 0 oid (last null_node)

abbrev of_level_zero : Entry → NodeBuilder
of_level_zero x = node true 0 0 (row null_node x (last null_node))

module _ (load : ℕ → Result TreeNode) (get_node_level : ℕ → ℕ) where
  put_first :
      (fuel oid : ℕ) (e : Entry)
      → get_node_level e.key ≡ 1
      → apply load get_node_level (suc fuel) (put e) (empty_page oid)
        ≡ done (node true 1 0 (row null_node e (last (empty_page oid))), some true)
  unfolding apply to_level
  put_first fuel oid e q = rw q refl

  put_low :
      (fuel oid : ℕ) (x : Entry)
      → get_node_level x.key ≡ 0
      → apply load get_node_level (suc fuel) (put x) (empty_page oid)
        ≡ done (of_level_zero x, some true)
  unfolding apply to_level peridot.Storage.BTree.split
  put_low zero oid x p = rw p refl
  put_low (suc fuel) oid x p = rw p refl

  put_above :
      (fuel : ℕ) (x e : Entry)
      → get_node_level e.key ≡ 1
      → x.key < e.key
      → apply load get_node_level (suc fuel) (put e) (of_level_zero x)
        ≡ done (node true 1 0 (row (of_level_zero x) e (last null_node)), some true)
  unfolding apply to_level
  put_above fuel x e q less =
      let lower : ltb x.key e.key ≡ true = ground arith in rw (q, lower) refl

  remove_low :
      (fuel : ℕ) (x e : Entry)
      → get_node_level x.key ≡ 0
      → x.key < e.key
      → apply load get_node_level
          (suc (suc fuel))
          (removal x)
          (node true 1 0 (row (of_level_zero x) e (last null_node)))
        ≡ done (node true 1 0 (row null_node e (last null_node)), some true)
  unfolding apply to_level peridot.Storage.BTree.merge
  remove_low fuel x e p less =
      let upper : ltb e.key x.key ≡ false = ground arith in
      let different : (e.key == x.key) ≡ false = ground arith in
      let itself : ltb x.key x.key ≡ false = ground arith in
      let same : (x.key == x.key) ≡ true = ground arith in
      rw (p, upper, different, itself, same) refl

  -- The tree of an empty page depends on its history. A first key of level 1 keeps the empty node as its
  -- right child; after a key of level 0 below it was put before, and is deleted after, it has none.
  pub history_dependent :
      (oid : ℕ) (x e : Entry)
      → get_node_level x.key ≡ 0
      → get_node_level e.key ≡ 1
      → x.key < e.key
      → (apply_all load get_node_level 256 (put e ∷ []) (empty_page oid)
          ≡ done (node true 1 0 (row null_node e (last (empty_page oid)))))
        × (apply_all load get_node_level 256 (put x ∷ put e ∷ removal x ∷ []) (empty_page oid)
            ≡ done (node true 1 0 (row null_node e (last null_node))))
  unfolding apply_all
  history_dependent oid x e p q less = (
    rw (put_first 255 oid e q) refl,
    rw (put_low 255 oid x p, put_above 255 x e q less, remove_low 254 x e p less) refl,
  )
