-- ===== src/Storage/BTree.antt =====
-- bin/ledger/storage/impl/btree/builder.cc: changes are applied to a tree whose nodes are read from the
-- storage when they are needed. `TreeNodeFromIdentifier` and the level of a key are parameters. The
-- n entries and the n + 1 children of a builder stand in one sequence of rows, a child, an entry, a
-- child and so on, so that `Validate` holds of their numbers; the entry or child that
-- `GetEntryOrChildIndex` gives is found by going through the rows, which are sorted. A level of a node
-- is one more than that of its children, so recursion is on fuel, the number of levels; without fuel
-- the result is `aborted`. Where a call fails the code drops the tree, so a failure has no tree.
pub mod Level
pub mod Contents
pub mod Shape
pub mod Splits
pub mod Merges
pub mod Deletes
pub mod Updates
pub mod Applies
pub mod Lookup
pub mod Build
pub mod History
pub mod Iterator
pub mod Examples
use peridot.Base.{
  ℕ, zero, suc, ◌+◌, ◌-◌, ◌%◌, Bool, true, false, not, ◌&&◌, ◌||◌, Option, none, some, List, [],
  ◌∷◌, ltb, leb, ◌==◌, if◌then◌else◌,
}
use peridot.Storage.Types.{
  KeyPriority, eager, lazy, Entry, EntryChange, Result, done, failed, aborted, ◌>>=◌, check,
}

-- `children` is a map from positions to identifiers, in order.
pub record TreeNode : Type 0 where
  pub level : ℕ
  pub entries : List Entry
  pub children : List (ℕ × ℕ)

-- `unloaded` is an existing node whose content is not computed. A `node` has its content; `is_new`
-- tells a new node from an existing one, whose identifier it has.
mutual
  pub data NodeBuilder : Type 0 where
    null_node : NodeBuilder
    unloaded : ℕ → ℕ → NodeBuilder
    node : Bool → ℕ → ℕ → Rows → NodeBuilder

  pub data Rows : Type 0 where
    last : NodeBuilder → Rows
    row : NodeBuilder → Entry → Rows → Rows

abbrev pub is_null : NodeBuilder → Bool
is_null null_node = true
is_null _ = false

abbrev pub level_of : NodeBuilder → ℕ
level_of null_node = 0
level_of (unloaded level oid) = level
level_of (node is_new level oid rows) = level

-- `entries.empty() && !children[0]`.
abbrev pub is_empty_row : Rows → Bool
is_empty_row (last c) = is_null c
is_empty_row (row c e rest) = false

-- A new node has no identifier yet: 0 stands for it.
unfoldable pub create_new_builder : ℕ → Rows → NodeBuilder
create_new_builder level rows = if is_empty_row rows then null_node else node true level 0 rows

-- `level - 1` of a `uint8_t`.
abbrev pub dec8 : ℕ → ℕ
dec8 n = (n + 255) % 256

-- The child at a position, if the map has one there, and the rest of the map.
pub next_child : ℕ → ℕ → List (ℕ × ℕ) → NodeBuilder × List (ℕ × ℕ)
next_child level index [] = (null_node, [])
next_child level index ((i, oid) ∷ rest) =
    if i == index then (unloaded (dec8 level) oid, rest) else (null_node, (i, oid) ∷ rest)

pub extract_rows : ℕ → ℕ → List Entry → List (ℕ × ℕ) → Rows
unfolding next_child
extract_rows level index [] children = last (next_child level index children).0
extract_rows level index (e ∷ entries) children =
    row (next_child level index children).0 e
      (extract_rows level (index + 1) entries (next_child level index children).1)

unfoldable pub extract_content : TreeNode → Rows
unfolding extract_rows
extract_content n = extract_rows n.level 0 n.entries n.children

-- `while (level_ < target_level)`, with the number of rounds left.
pub to_level_loop : ℕ → NodeBuilder → NodeBuilder
unfolding create_new_builder
to_level_loop zero b = b
to_level_loop (suc rounds) b = to_level_loop rounds (create_new_builder (level_of b + 1) (last b))

pub to_level : ℕ → NodeBuilder → Result NodeBuilder
unfolding to_level_loop
to_level target null_node = done null_node
to_level target b = check (leb (level_of b) target) (done (to_level_loop (target - level_of b) b))

-- Whether `key` is no entry at its index.
pub key_absent : ℕ → Rows → Bool
key_absent key (last c) = true
key_absent key (row c e rest) = if ltb e.key key then key_absent key rest else not (e.key == key)

-- `split_index == 0`, and the child there is null.
pub null_at_start : ℕ → Rows → Bool
null_at_start key (last c) = is_null c
null_at_start key (row c e rest) = not (ltb e.key key) && is_null c

-- `split_index == entries_.size()`, and the child there is null.
pub null_at_end : ℕ → Rows → Bool
null_at_end key (last c) = is_null c
null_at_end key (row c e rest) = ltb e.key key && null_at_end key rest

abbrev cons_left : NodeBuilder → Entry → Rows × Rows → Result (Rows × Rows)
cons_left c e (l, r) = done (row c e l, r)

-- The child at the index of `key` is split by `f`, and with it the rows.
pub split_rows :
    (NodeBuilder → Result (NodeBuilder × NodeBuilder)) → ℕ → Rows → Result (Rows × Rows)
split_rows f key (last c) = f c >>= λ s. done (last s.0, last s.1)
split_rows f key (row c e rest) =
    let right = split_rows f key rest >>= cons_left c e in
    if ltb e.key key then right else f c >>= λ s. done (last s.0, row s.1 e rest)

pub first_child : Rows → NodeBuilder
first_child (last c) = c
first_child (row c e rest) = c

pub set_first_child : NodeBuilder → Rows → Rows
set_first_child c (last d) = last c
set_first_child c (row d e rest) = row c e rest

-- The last child is merged by `f` with the first child of the other rows.
pub merge_rows : (NodeBuilder → NodeBuilder → Result NodeBuilder) → Rows → Rows → Result Rows
unfolding first_child set_first_child
merge_rows f (last c) other = f c (first_child other) >>= λ m. done (set_first_child m other)
merge_rows f (row c e rest) other = merge_rows f rest other >>= λ r. done (row c e r)

abbrev put_row : NodeBuilder → Entry → Option Rows → Option Rows
put_row c e none = none
put_row c e (some rows) = some (row c e rows)

-- `none` if the key is not found.
pub delete_rows : (NodeBuilder → NodeBuilder → Result NodeBuilder) → ℕ → Rows → Result (Option Rows)
unfolding first_child set_first_child
delete_rows f key (last c) = done none
delete_rows f key (row c e rest) =
    let right = delete_rows f key rest >>= (λ found. done (put_row c e found)) in
    let merged = f c (first_child rest) >>= (λ m. done (some (set_first_child m rest))) in
    if ltb e.key key then right else if e.key == key then merged else done none

abbrev pub same_priority : KeyPriority → KeyPriority → Bool
same_priority eager eager = true
same_priority lazy lazy = true
same_priority _ _ = false

abbrev pub is_same : Entry → Entry → Bool
is_same a b = a.object_identifier == b.object_identifier && same_priority a.priority b.priority

-- `none` if the entry is there already.
pub update_rows :
    (NodeBuilder → Result (NodeBuilder × NodeBuilder)) → Entry → Rows → Result (Option Rows)
update_rows f entry (last c) = f c >>= (λ s. done (some (row s.0 entry (last s.1))))
update_rows f entry (row c e rest) =
    let right = update_rows f entry rest >>= (λ found. done (put_row c e found)) in
    let replaced = record e {
      object_identifier = entry.object_identifier;
      priority = entry.priority;
    } in
    if ltb e.key entry.key
    then right
    else if e.key == entry.key
    then done (if is_same e entry then none else some (row c replaced rest))
    else f c >>= (λ s. done (some (row s.0 entry (row s.1 e rest))))

-- `did_mutate` is `none` where the code leaves it unset.
pub apply_rows :
    (NodeBuilder → Result (NodeBuilder × Option Bool)) → ℕ → Rows → Result (Rows × Option Bool)
apply_rows f key (last c) = f c >>= (λ r. done (last r.0, r.1))
apply_rows f key (row c e rest) =
    let right = apply_rows f key rest >>= (λ r. done (row c e r.0, r.1)) in
    if ltb e.key key
    then right
    else check (not (e.key == key)) (f c >>= (λ r. done (row r.0 e rest, r.1)))

-- A node whose content is computed.
pub record Content : Type 0 where
  pub is_new : Bool
  pub level : ℕ
  pub object_identifier : ℕ
  pub rows : Rows

abbrev pub of_content : Content → NodeBuilder
of_content x = node x.is_new x.level x.object_identifier x.rows

deleted_from : Content → Option Rows → NodeBuilder × Option Bool
unfolding create_new_builder
deleted_from x none = (of_content x, some false)
deleted_from x (some rows) = (create_new_builder x.level rows, some true)

updated : Content → Option Rows → NodeBuilder × Option Bool
updated x none = (of_content x, some false)
updated x (some rows) = (node true x.level 0 rows, some true)

-- After the change of a child: a parent for it where its level is too low, and the test for a null node.
raised : ℕ → NodeBuilder × Option Bool → Result (NodeBuilder × Option Bool)
raised level (c, some true) = to_level (dec8 level) c >>= (λ d. done (d, some true))
raised level (c, some false) = done (c, some false)
raised level (c, none) = aborted

applied : Content → Rows × Option Bool → NodeBuilder × Option Bool
unfolding create_new_builder
applied x (rows, some true) = (create_new_builder x.level rows, some true)
applied x (rows, m) = (node x.is_new x.level x.object_identifier rows, m)

module _ (load : ℕ → Result TreeNode) where
  pub compute_content : NodeBuilder → Result Content
  unfolding extract_content
  compute_content null_node = aborted
  compute_content (unloaded level oid) = load oid >>= (λ n.
      done (record {
        is_new = false;
        level = level;
        object_identifier = oid;
        rows = extract_content n;
      }))
  compute_content (node is_new level oid rows) =
      done (record { is_new = is_new; level = level; object_identifier = oid; rows = rows })

  pub split_content :
      (NodeBuilder → Result (NodeBuilder × NodeBuilder))
      → ℕ
      → Content
      → Result (NodeBuilder × NodeBuilder)
  unfolding key_absent null_at_start null_at_end split_rows create_new_builder
  split_content f key x = check (key_absent key x.rows) (
      if null_at_start key x.rows
      then done (null_node, of_content x)
      else if null_at_end key x.rows
      then done (of_content x, null_node)
      else split_rows f key x.rows
        >>= (λ s. done (create_new_builder x.level s.0, create_new_builder x.level s.1)))

  -- The builder that remains, and `right`.
  pub split : ℕ → ℕ → NodeBuilder → Result (NodeBuilder × NodeBuilder)
  unfolding compute_content split_content
  split fuel key null_node = done (null_node, null_node)
  split zero key b = aborted
  split (suc fuel) key b = compute_content b >>= split_content (split fuel key) key

  pub merge_content :
      (NodeBuilder → NodeBuilder → Result NodeBuilder) → Content → Content → Result NodeBuilder
  unfolding merge_rows
  merge_content f x y = merge_rows f x.rows y.rows >>= (λ rows. done (node true x.level 0 rows))

  pub merge : ℕ → NodeBuilder → NodeBuilder → Result NodeBuilder
  unfolding compute_content merge_content
  merge fuel b null_node = done b
  merge fuel null_node other = done other
  merge zero b other = aborted
  merge (suc fuel) b other =
      check (level_of b == level_of other)
        (compute_content b >>= (λ x. compute_content other >>= merge_content (merge fuel) x))

  -- `fuel` is the number of levels below the node, here and in `update`.
  pub delete : ℕ → ℕ → ℕ → NodeBuilder → Result (NodeBuilder × Option Bool)
  unfolding compute_content delete_rows deleted_from
  delete fuel key_level key b = check (not (is_null b) && leb (level_of b) key_level) (
      if ltb (level_of b) key_level
      then done (b, none)
      else compute_content b
        >>= (λ x. delete_rows (merge fuel) key x.rows >>= (λ found. done (deleted_from x found))))

  pub new_root : ℕ → Entry → NodeBuilder × NodeBuilder → Result (NodeBuilder × Option Bool)
  unfolding create_new_builder
  new_root change_level entry (left, right) = to_level (dec8 change_level) left >>= (λ l.
      to_level (dec8 change_level) right
      >>= (λ r. done (create_new_builder change_level (row l entry (last r)), some true)))

  pub update : ℕ → ℕ → Entry → NodeBuilder → Result (NodeBuilder × Option Bool)
  unfolding compute_content update_rows updated split new_root
  update fuel change_level entry b = check (not (is_null b) && leb (level_of b) change_level) (
      if ltb (level_of b) change_level
      then split (suc fuel) entry.key b >>= new_root change_level entry
      else compute_content b >>= (λ x.
        update_rows (split fuel entry.key) entry x.rows >>= (λ found. done (updated x found))))

  module _ (get_node_level : ℕ → ℕ) where
    pub apply_null : EntryChange → NodeBuilder × Option Bool
    unfolding create_new_builder
    apply_null change = if change.deleted then (null_node, some false) else (
      create_new_builder (get_node_level change.entry.key)
          (row null_node change.entry (last null_node)),
      some true,
    )

    pub apply_content :
        (NodeBuilder → Result (NodeBuilder × Option Bool))
        → ℕ
        → Content
        → Result (NodeBuilder × Option Bool)
    unfolding apply_rows raised applied
    apply_content f key x =
        apply_rows (λ c. f c >>= raised x.level) key x.rows >>= (λ r. done (applied x r))

    pub apply : ℕ → EntryChange → NodeBuilder → Result (NodeBuilder × Option Bool)
    unfolding apply_null compute_content apply_content delete update
    apply fuel change null_node = done (apply_null change)
    apply zero change b = aborted
    apply (suc fuel) change b =
        let below = compute_content b >>= apply_content (apply fuel change) change.entry.key in
        if ltb (get_node_level change.entry.key) (level_of b)
        then below
        else if change.deleted
        then delete fuel (get_node_level change.entry.key) change.entry.key b
        else update fuel (get_node_level change.entry.key) change.entry b

    -- The loop of `ApplyChangesOnRoot`.
    pub apply_all : ℕ → List EntryChange → NodeBuilder → Result NodeBuilder
    unfolding apply
    apply_all fuel [] b = done b
    apply_all fuel (change ∷ changes) b = apply fuel change b >>= (λ r. apply_all fuel changes r.0)
