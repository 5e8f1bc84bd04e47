-- ===== src/Storage/BTree/Build/Stores.antt =====
-- The tree that `Build` and `ApplyChanges` (bin/ledger/storage/impl/btree/builder.cc) leave in the storage.
use peridot.Base.{ℕ, zero, suc, ◌≤◌, ◌<◌, ◌≡◌, refl, true, false, List, [], arith, inl, inr}
use peridot.Storage.Types.{
  Entry, EntryChange, ok, Result, done, failed, aborted, Gives, Gives-bind, ◌>>=◌,
}
use peridot.Storage.BTree.{
  TreeNode, NodeBuilder, null_node, unloaded, node, is_null, extract_content, apply_all,
}
use peridot.Storage.BTree.Contents.{IsSorted}
use peridot.Storage.BTree.Shape.{Is, StoredBy}
use peridot.Storage.BTree.Applies.{IsTree, effects, apply_all-IsTree}
use peridot.Storage.BTree.Build.{
  is_new_node, identifier_of, build_loop, build, from_identifier, apply_changes_on_root,
  apply_changes,
}
use peridot.Storage.BTree.Build.Rounds.{height-le, build_loop-Is}

module _ (load : ℕ → Result TreeNode) (get_node_level : ℕ → ℕ) where
  -- What is read from the storage under an identifier is a tree with the entries.
  abbrev pub Stored : List Entry → ℕ → Type 0
  Stored es oid = Gives (IsTree load get_node_level es) (from_identifier load oid)

  pub node-Stored :
      (oid l : ℕ) (es : List Entry)
      → l < 256
      → StoredBy load get_node_level (Is load get_node_level l) l oid es
      → Stored es oid
  unfolding from_identifier Is
  node-Stored oid l es s (t, e, w, m, h) = rw e (suc l, omega arith, (w, h, inr (t, e, w, m, h)))

  read-node :
      (oid : ℕ) (es : List Entry) (m : Result TreeNode)
      → Gives
          (IsTree load get_node_level es)
          (m >>= (λ n. done (node false n.level oid (extract_content n))))
      → (l : ℕ) × (l < 256) × StoredBy load get_node_level (Is load get_node_level l) l oid es
  unfolding Is
  read-node oid es (done n) (zero, s, i) = absurd i
  read-node oid es (done n) (suc l, s, (q, r, inl f)) = absurd (ground arith)
  read-node oid es (done n) (suc l, s, (q, r, inr t)) = (l, omega arith, t)
  read-node oid es (failed s) h = absurd h
  read-node oid es aborted h = absurd h

  pub Stored-node :
      (oid : ℕ) (es : List Entry)
      → Stored es oid
      → (l : ℕ) × (l < 256) × StoredBy load get_node_level (Is load get_node_level l) l oid es
  unfolding from_identifier
  Stored-node oid es h = read-node oid es (load oid) h

  existing-Stored :
      (n : ℕ) (b : NodeBuilder) (es : List Entry)
      → n ≤ 256
      → is_new_node b ≡ false
      → is_null b ≡ false
      → Is load get_node_level n b es
      → Stored es (identifier_of b)
  unfolding Is
  existing-Stored n null_node es s o z i = absurd (ground arith)
  existing-Stored zero (unloaded level oid) es s o z i = absurd i
  existing-Stored (suc l) (unloaded level oid) es s o z (q, h) =
      node-Stored oid l es (omega arith) h
  existing-Stored zero (node is_new level oid rows) es s o z i = absurd i
  existing-Stored (suc l) (node true level oid rows) es s o z i = absurd (ground arith)
  existing-Stored (suc l) (node false level oid rows) es s o z (q, h, inl x) = absurd (ground arith)
  existing-Stored (suc l) (node false level oid rows) es s o z (q, h, inr k) =
      node-Stored oid l es (omega arith) k

  module _ (add : TreeNode → Result ℕ)
      (keeps : (n : TreeNode) → Gives (λ oid. load oid ≡ done n) (add n)) where
    looped-Stored :
        (n : ℕ) (b : NodeBuilder) (es : List Entry)
        → n ≤ 256
        → is_null b ≡ false
        → Is load get_node_level n b es
        → Gives
            (λ (r : ℕ × List ℕ). Stored es r.0)
            (build_loop add 256 [] b >>= (λ r. done (identifier_of r.0, r.1)))
    looped-Stored n b es s z i =
        Gives-bind
          (λ r. Is load get_node_level n r.0 es × (is_new_node r.0 ≡ false) × (is_null r.0 ≡ false))
          _ (build_loop add 256 [] b) _
          (build_loop-Is load get_node_level add keeps 256 n [] b es s
            (omega (arith, height-le load get_node_level n b es i)) z i)
          (λ r k. existing-Stored n r.0 es s k.1 k.2 k.0)

    -- Building a tree of at most 256 levels succeeds in at most 256 rounds, and the tree that is read back
    -- under the identifier that it gives has the same entries. A node that is added can be read.
    pub build-Stored :
        (b : NodeBuilder) (es : List Entry)
        → IsTree load get_node_level es b
        → Gives (λ (r : ℕ × List ℕ). Stored es r.0) (build add b)
    unfolding build Is extract_content
    build-Stored null_node es (n, s, i) =
        Gives-bind (λ oid. load oid ≡ done (record { level = 0; entries = []; children = [] })) _
          (add (record { level = 0; entries = []; children = [] })) _
          (keeps (record { level = 0; entries = []; children = [] }))
          (λ oid e.
            node-Stored oid 0 es (omega arith)
              (record { level = 0; entries = []; children = [] }, e, refl, tt, i))
    build-Stored (unloaded level oid) es (n, s, i) =
        looped-Stored n (unloaded level oid) es s refl i
    build-Stored (node is_new level oid rows) es (n, s, i) =
        looped-Stored n (node is_new level oid rows) es s refl i

    -- If the tree under an identifier has sorted entries, any changes of it succeed, and the tree under
    -- the identifier that they give has the entries that the changes make of those. The levels of keys are
    -- bytes, the iterator of the changes does not fail, and a node that is added can be read.
    pub apply_changes-Stored :
        ((key : ℕ) → get_node_level key < 256)
        → (changes : List EntryChange) (root : ℕ) (es : List Entry) → Stored es root
        → IsSorted es
        → Gives
            (λ r. Stored (effects load get_node_level changes es) r.0)
            (apply_changes add load get_node_level root changes ok)
    unfolding apply_changes apply_changes_on_root
    apply_changes-Stored bound changes root es h s =
        Gives-bind (IsTree load get_node_level es) _ (from_identifier load root) _ h (λ b i.
          Gives-bind (IsTree load get_node_level (effects load get_node_level changes es)) _
            (apply_all load get_node_level 256 changes b) _
            (apply_all-IsTree load get_node_level bound changes b es i s)
            (λ c j. build-Stored c (effects load get_node_level changes es) j))
