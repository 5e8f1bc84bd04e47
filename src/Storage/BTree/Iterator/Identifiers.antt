-- ===== src/Storage/BTree/Iterator/Identifiers.antt =====
-- `GetObjectIdentifiers` of bin/ledger/storage/impl/btree/iterator.cc.
use peridot.Base.{ℕ, ◌≡◌, ◌<◌, refl, false, ltb, ◌==◌, Bool-cases, inl, inr, [], ◌∷◌, arith}
use peridot.Storage.Types.{Entry, Result, done}
use peridot.Storage.BTree.{TreeNode}
use peridot.Storage.BTree.Iterator.{get_object_identifiers}

-- The identifiers that are found leave out a node below the root that has a child but no entry. In a
-- tree of three such levels, with one entry at the root and one in the leaf, that is the node between.
pub empty_node_left_out :
    (load : ℕ → Result TreeNode) (root middle leaf : ℕ) (e x : Entry)
    → x.key < e.key
    → load root ≡ done (record { level = 2; entries = e ∷ []; children = (0, middle) ∷ [] })
    → load middle ≡ done (record { level = 1; entries = []; children = (0, leaf) ∷ [] })
    → load leaf ≡ done (record { level = 0; entries = x ∷ []; children = [] })
    → get_object_identifiers load 3 20 root
      ≡ done (root ∷ x.object_identifier ∷ leaf ∷ e.object_identifier ∷ root ∷ [])
unfolding get_object_identifiers
empty_node_left_out load root middle leaf e x less p q r =
    let a : ltb e.key 0 ≡ false = ground arith in
    let b : (e.key == 0) ≡ false = ground arith in
    let c : ltb x.key 0 ≡ false = ground arith in
    elim (Bool-cases (x.key == 0)) [
      | inl z ↦ rw (p, a, b, a, q, r, c, z, c) refl
      | inr z ↦ rw (p, a, b, a, q, r, c, z, c) refl
    ]
