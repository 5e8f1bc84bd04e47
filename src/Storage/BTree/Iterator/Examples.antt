-- ===== src/Storage/BTree/Iterator/Examples.antt =====
-- Tests and examples of the iteration of a tree.
use peridot.Base.{ℕ, ◌+◌, ◌≡◌, ◌==◌, refl, true, not, List, [], ◌∷◌, arith, if◌then◌else◌}
use peridot.Storage.Types.{eager, Entry, EntryAndNodeIdentifier, Result, done, failed, not_found}
use peridot.Storage.BTree.{TreeNode, extract_content}
use peridot.Storage.BTree.Shape.{Is, StoredBy}
use peridot.Storage.BTree.Build.Stores.{Stored, node-Stored}
use peridot.Storage.BTree.Iterator.{for_each_entry, get_object_identifiers, get_objects_from_sync}
use peridot.Storage.BTree.Iterator.Identifiers.{empty_node_left_out}
use peridot.Storage.BTree.Iterator.Listing.{Lists, for_each_entry-Lists}

abbrev entry : ℕ → Entry
entry key = record { key = key; object_identifier = key + 100; priority = eager }

abbrev root : TreeNode
root = record { level = 1; entries = entry 10 ∷ []; children = (0, 2) ∷ (1, 3) ∷ [] }

abbrev left : TreeNode
left = record { level = 0; entries = entry 5 ∷ []; children = [] }

abbrev right : TreeNode
right = record { level = 0; entries = entry 15 ∷ entry 17 ∷ []; children = [] }

-- The root has the identifier 1, and its children have 2 and 3.
abbrev load : ℕ → Result TreeNode
load oid =
    if oid == 1
    then done root
    else if oid == 2
    then done left
    else if oid == 3
    then done right
    else failed not_found

abbrev get_node_level : ℕ → ℕ
get_node_level key = if key == 10 then 1 else 0

abbrev at_node : ℕ → ℕ → EntryAndNodeIdentifier
at_node key node = record { entry = entry key; node_identifier = node }

from_ten :
    for_each_entry load 2 20 1 10 (λ v. true)
    ≡ done (at_node 10 1 ∷ at_node 15 3 ∷ at_node 17 3 ∷ [])
unfolding for_each_entry
from_ten = refl

from_six :
    for_each_entry load 2 20 1 6 (λ v. not (v.entry.key == 15))
    ≡ done (at_node 10 1 ∷ at_node 15 3 ∷ [])
unfolding for_each_entry
from_six = refl

missing_node : for_each_entry load 2 20 4 0 (λ v. true) ≡ failed not_found
unfolding for_each_entry
missing_node = refl

identifiers :
    get_object_identifiers load 2 20 1 ≡ done (1 ∷ 105 ∷ 2 ∷ 110 ∷ 1 ∷ 115 ∷ 3 ∷ 117 ∷ 3 ∷ [])
unfolding get_object_identifiers
identifiers = refl

eager_objects : get_objects_from_sync load 2 20 1 ≡ done (105 ∷ 110 ∷ 115 ∷ 117 ∷ [])
unfolding get_objects_from_sync
eager_objects = refl

abbrev all_entries : List Entry
all_entries = entry 5 ∷ entry 10 ∷ entry 15 ∷ entry 17 ∷ []

left-StoredBy : StoredBy load get_node_level (Is load get_node_level 0) 0 2 (entry 5 ∷ [])
unfolding Is extract_content
left-StoredBy = (left, refl, refl, tt, ([], [], refl, refl, refl, refl))

right-StoredBy :
    StoredBy load get_node_level (Is load get_node_level 0) 0 3 (entry 15 ∷ entry 17 ∷ [])
unfolding Is extract_content
right-StoredBy =
    (right, refl, refl, tt, ([], entry 17 ∷ [], refl, refl, refl, ([], [], refl, refl, refl, refl)))

root-Stored : Stored load get_node_level all_entries 1
unfolding Is extract_content
root-Stored = node-Stored load get_node_level 1 1 all_entries (omega arith) (
  root,
  refl,
  refl,
  (omega arith, (omega arith, tt)),
  (
    entry 5 ∷ [],
    entry 15 ∷ entry 17 ∷ [],
    refl,
    (refl, left-StoredBy),
    refl,
    (refl, right-StoredBy),
  ),
)

for_each_entry-Lists_example :
    Lists load get_node_level 6 (λ v. not (v.entry.key == 15)) all_entries 1
for_each_entry-Lists_example =
    for_each_entry-Lists load get_node_level 1 6 (λ v. not (v.entry.key == 15)) all_entries
      root-Stored
      (
        (omega arith, (omega arith, (omega arith, tt))),
        ((omega arith, (omega arith, tt)), ((omega arith, tt), (tt, tt))),
      )

-- A root of level 2 over a node with no entry over a leaf.
abbrev deep_load : ℕ → Result TreeNode
deep_load oid =
    if oid == 1
    then done (record { level = 2; entries = entry 10 ∷ []; children = (0, 2) ∷ [] })
    else if oid == 2
    then done (record { level = 1; entries = []; children = (0, 3) ∷ [] })
    else done (record { level = 0; entries = entry 5 ∷ []; children = [] })

empty_node_left_out_example :
    get_object_identifiers deep_load 3 20 1 ≡ done (1 ∷ 105 ∷ 3 ∷ 110 ∷ 1 ∷ [])
empty_node_left_out_example =
    empty_node_left_out deep_load 1 2 3 (entry 10) (entry 5) (omega arith) refl refl refl
