-- ===== src/Storage/BTree/Build.antt =====
-- `Build` of bin/ledger/storage/impl/btree/builder.cc: the new nodes of a tree are added to the storage,
-- in rounds: those that have no new child first. `TreeNode::FromEntries` is a parameter; the
-- identifiers of the added nodes are listed in the order of the calls.
pub mod Content
pub mod Rounds
pub mod Stores
use peridot.Base.{ℕ, zero, suc, ◌+◌, Bool, true, false, ◌||◌, List, [], ◌∷◌, ◌++◌, if◌then◌else◌}
use peridot.Storage.Types.{
  Entry, EntryChange, Status, ok, is_ok, Result, done, failed, aborted, ◌>>=◌, check,
}
use peridot.Storage.BTree.{
  TreeNode, NodeBuilder, null_node, unloaded, node, Rows, last, row, is_null, extract_content,
  apply_all,
}

abbrev pub is_new_node : NodeBuilder → Bool
is_new_node null_node = false
is_new_node (unloaded level oid) = false
is_new_node (node is_new level oid rows) = is_new

abbrev pub identifier_of : NodeBuilder → ℕ
identifier_of null_node = 0
identifier_of (unloaded level oid) = oid
identifier_of (node is_new level oid rows) = oid

abbrev pub any_new : Rows → Bool
any_new (last c) = is_new_node c
any_new (row c e rest) = is_new_node c || any_new rest

pub entries_of : Rows → List Entry
entries_of (last c) = []
entries_of (row c e rest) = e ∷ entries_of rest

-- The map of the children that are not null.
abbrev pub put_child : ℕ → NodeBuilder → List (ℕ × ℕ) → List (ℕ × ℕ)
put_child index c rest = if is_null c then rest else (index, identifier_of c) ∷ rest

pub children_of : ℕ → Rows → List (ℕ × ℕ)
children_of index (last c) = put_child index c []
children_of index (row c e rest) = put_child index c (children_of (index + 1) rest)

unfoldable pub to_tree_node : ℕ → Rows → TreeNode
unfolding entries_of children_of
to_tree_node level rows = record {
  level = level;
  entries = entries_of rows;
  children = children_of 0 rows;
}

module _ (load : ℕ → Result TreeNode) where
  pub from_identifier : ℕ → Result NodeBuilder
  unfolding extract_content
  from_identifier oid = load oid >>= (λ n. done (node false n.level oid (extract_content n)))

abbrev rebuilt : Bool → ℕ → ℕ → Rows × List ℕ → Result (NodeBuilder × List ℕ)
rebuilt is_new level oid (rows, ids) = done (node is_new level oid rows, ids)

module _ (add : TreeNode → Result ℕ) where
  pub add_node : ℕ → Rows → Result (NodeBuilder × List ℕ)
  unfolding to_tree_node
  add_node level rows =
      add (to_tree_node level rows) >>= (λ oid. done (node false level oid rows, oid ∷ []))

  -- One round of the loop: `CollectNodesToBuild`, and the calls for what it has collected.
  unfoldable mutual
    unfolding add_node

    pub build_round : NodeBuilder → Result (NodeBuilder × List ℕ)
    build_round null_node = done (null_node, [])
    build_round (unloaded level oid) = done (unloaded level oid, [])
    build_round (node false level oid rows) = done (node false level oid rows, [])
    build_round (node true level oid rows) =
        let below = build_rows rows >>= rebuilt true level oid in
        if any_new rows then below else add_node level rows

    pub build_rows : Rows → Result (Rows × List ℕ)
    build_rows (last c) = build_round c >>= (λ r. done (last r.0, r.1))
    build_rows (row c e rest) =
        build_round c >>= (λ r. build_rows rest >>= (λ s. done (row r.0 e s.0, r.1 ++ s.1)))

  -- The loop, with the number of rounds that it may take.
  pub build_loop : ℕ → List ℕ → NodeBuilder → Result (NodeBuilder × List ℕ)
  unfolding build_round
  build_loop zero ids b = if is_new_node b then aborted else done (b, ids)
  build_loop (suc rounds) ids b =
      let next = build_round b >>= (λ r. build_loop rounds (ids ++ r.1) r.0) in
      if is_new_node b then next else done (b, ids)

  -- The identifier of the root, and those of the new nodes.
  pub build : NodeBuilder → Result (ℕ × List ℕ)
  unfolding build_loop
  build null_node =
      add (record { level = 0; entries = []; children = [] }) >>= (λ oid. done (oid, oid ∷ []))
  build b = build_loop 256 [] b >>= (λ r. done (identifier_of r.0, r.1))

  module _ (load : ℕ → Result TreeNode) (get_node_level : ℕ → ℕ) where
    -- `status` is that of the iterator when it is no longer valid.
    pub apply_changes_on_root : List EntryChange → Status → NodeBuilder → Result (ℕ × List ℕ)
    unfolding apply_all build
    apply_changes_on_root changes status root =
        apply_all load get_node_level 256 changes root
        >>= (λ b. if is_ok status then build b else failed status)

    -- The coroutine of `ApplyChanges`.
    pub apply_changes : ℕ → List EntryChange → Status → Result (ℕ × List ℕ)
    unfolding from_identifier apply_changes_on_root
    apply_changes root_identifier changes status =
        from_identifier load root_identifier >>= apply_changes_on_root changes status
