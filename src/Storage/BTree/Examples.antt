-- ===== src/Storage/BTree/Examples.antt =====
-- Tests and examples of the tree builder.
mod Coding
use peridot.Base.{
  ℕ, ◌+◌, ◌%◌, ◌<◌, ◌≡◌, ◌↔◌, ◌==◌, refl, Bool, true, false, List, [], ◌∷◌, arith, if◌then◌else◌,
  inl, inr,
}
use peridot.Storage.Types.{
  KeyPriority, eager, lazy, Entry, EntryChange, Result, done, failed, ok, Gives,
}
use peridot.Storage.BTree.{
  TreeNode, NodeBuilder, null_node, unloaded, node, Rows, last, row, extract_content, apply_all,
  split, merge, to_level,
}
use peridot.Storage.BTree.Shape.{Is, IsRows}
use peridot.Storage.BTree.Splits.{SplitOf, split-Is}
use peridot.Storage.BTree.Applies.{IsTree, effects}
use peridot.Storage.BTree.Build.{apply_changes, build, to_tree_node}
use peridot.Storage.BTree.Build.Stores.{Stored, node-Stored, build-Stored, apply_changes-Stored}
use peridot.Storage.BTree.Contents.{IsSorted}
use peridot.Storage.BTree.Lookup.{find, latest, apply_all-latest}
use peridot.Storage.BTree.History.{empty_page, removal, history_dependent}
use peridot.Storage.BTree.Build.Content.{to_tree_node-IsRows}
use peridot.Storage.BTree.Iterator.Listing.{Lists, apply_changes-Lists}
use peridot.Storage.BTree.Level
use peridot.Storage.BTree.Level.{HasZeros, get_node_level-HasZeros}
use Coding.{add, load, load-add, load-zero, empty_node}

-- A key that is a multiple of 10 is of level 1.
abbrev get_node_level : ℕ → ℕ
get_node_level key = if key % 10 == 0 then 1 else 0

get_node_level-small : (key : ℕ) → get_node_level key < 256
get_node_level-small key = ground arith

abbrev entry : ℕ → ℕ → Entry
entry key value = record { key = key; object_identifier = value; priority = eager }

abbrev put : ℕ → ℕ → EntryChange
put key value = record { entry = entry key value; deleted = false }

abbrev delete : ℕ → EntryChange
delete key = record { entry = entry key 0; deleted = true }

abbrev leaf : ℕ → ℕ → NodeBuilder
leaf key value = node true 0 0 (row null_node (entry key value) (last null_node))

-- A key of level 1 splits the leaf; when it goes the two halves are merged.
put_two :
    apply_all load get_node_level 256 (put 5 1 ∷ put 15 2 ∷ []) null_node
    ≡ done (node true 0 0 (row null_node (entry 5 1) (row null_node (entry 15 2) (last null_node))))
unfolding apply_all
put_two = refl

put_splits :
    apply_all load get_node_level 256 (put 5 1 ∷ put 15 2 ∷ put 10 3 ∷ []) null_node
    ≡ done (node true 1 0 (row (leaf 5 1) (entry 10 3) (last (leaf 15 2))))
unfolding apply_all to_level
put_splits = refl

merged :
    apply_all load get_node_level 256 (put 5 1 ∷ put 15 2 ∷ put 10 3 ∷ delete 10 ∷ []) null_node
    ≡ done (
        node true 1 0 (
          last (
            node true 0 0
              (row null_node (entry 5 1) (row null_node (entry 15 2) (last null_node))))))
unfolding apply_all to_level merge
merged = refl

abbrev two_changes : List EntryChange
two_changes = put 10 3 ∷ delete 5 ∷ []

leaf_of :
    (key value : ℕ)
    → get_node_level key ≡ 0
    → Is load get_node_level 1 (leaf key value) (entry key value ∷ [])
unfolding Is
leaf_of key value h = (refl, ([], [], refl, refl, h, refl), inl refl)

leaf-IsTree : IsTree load get_node_level (entry 5 1 ∷ []) (leaf 5 1)
leaf-IsTree = (1, omega arith, leaf_of 5 1 refl)

abbrev Latest : NodeBuilder → Type 0
Latest c =
    (fs : List Entry) × IsTree load get_node_level fs c
    × IsSorted fs
    × ((k : ℕ) → find k fs ≡ latest k two_changes (find k (entry 5 1 ∷ [])))

apply_all-latest_example : Gives Latest (apply_all load get_node_level 256 two_changes (leaf 5 1))
apply_all-latest_example =
    apply_all-latest load get_node_level get_node_level-small two_changes (leaf 5 1)
      (entry 5 1 ∷ []) leaf-IsTree (tt, tt)

build-Stored_example :
    Gives
      (λ (r : ℕ × List ℕ). Stored load get_node_level (entry 5 1 ∷ []) r.0)
      (build add (leaf 5 1))
build-Stored_example =
    build-Stored load get_node_level add load-add (leaf 5 1) (entry 5 1 ∷ []) leaf-IsTree

empty-Stored : Stored load get_node_level [] 0
unfolding Is extract_content
empty-Stored =
    node-Stored load get_node_level 0 0 [] (omega arith) (empty_node, load-zero, refl, tt, refl)

history_dependent_example :
    (apply_all load get_node_level 256 (put 10 3 ∷ []) (empty_page 0)
      ≡ done (node true 1 0 (row null_node (entry 10 3) (last (empty_page 0)))))
    × (apply_all load get_node_level 256
          (put 5 1 ∷ put 10 3 ∷ removal (entry 5 1) ∷ [])
          (empty_page 0)
        ≡ done (node true 1 0 (row null_node (entry 10 3) (last null_node))))
history_dependent_example =
    history_dependent load get_node_level 0 (entry 5 1) (entry 10 3) refl refl (omega arith)

abbrev two_entries : List Entry
two_entries = entry 5 1 ∷ entry 15 2 ∷ []

abbrev wide_leaf : NodeBuilder
wide_leaf = node true 0 0 (row null_node (entry 5 1) (row null_node (entry 15 2) (last null_node)))

wide_leaf-Is : Is load get_node_level 1 wide_leaf two_entries
unfolding Is
wide_leaf-Is =
    (refl, ([], entry 15 2 ∷ [], refl, refl, refl, ([], [], refl, refl, refl, refl)), inl refl)

abbrev hash : ℕ → List ℕ
hash key = 0 ∷ 0 ∷ key ∷ 7 ∷ []

-- The first child is the empty node of the storage.
abbrev stored_rows : Rows
stored_rows = row (unloaded 0 0) (entry 10 3) (last null_node)

abbrev AreRows : Rows → Type 0
AreRows rows = IsRows load get_node_level (Is load get_node_level 1) 1 rows (entry 10 3 ∷ [])

stored_rows-IsRows : AreRows stored_rows
unfolding Is extract_content
stored_rows-IsRows = ([], [], refl, (refl, (empty_node, load-zero, refl, tt, refl)), refl, refl)

to_tree_node-IsRows_example : AreRows (extract_content (to_tree_node 1 stored_rows))
to_tree_node-IsRows_example =
    to_tree_node-IsRows load get_node_level 1 stored_rows (entry 10 3 ∷ []) (omega arith) refl
      stored_rows-IsRows

apply_changes-Lists_example :
    Gives
      (λ (r : ℕ × List ℕ).
        Lists load get_node_level 3 (λ v. true) (effects load get_node_level two_changes []) r.0)
      (apply_changes add load get_node_level 0 two_changes ok)
apply_changes-Lists_example =
    apply_changes-Lists load get_node_level add load-add get_node_level-small two_changes 0 3
      (λ v. true) [] empty-Stored tt
