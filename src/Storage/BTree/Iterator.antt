-- ===== src/Storage/BTree/Iterator.antt =====
-- bin/ledger/storage/impl/btree/iterator.cc: the entries of a stored tree are gone through in order.
-- The node of a frame of the stack stands with its identifier; `none` is a null child. The loops run on
-- fuel. Without it, where a check fails and where the stack is empty but used, the result is `aborted`.
pub mod Walks
pub mod Trees
pub mod Skips
pub mod Listing
pub mod Identifiers
pub mod Examples
use peridot.Base.{
  ℕ, zero, suc, ◌+◌, Bool, true, false, not, ◌&&◌, Option, none, some, List, [], ◌∷◌, ltb, leb,
  ◌==◌, if◌then◌else◌,
}
use peridot.Storage.Types.{
  Entry, EntryAndNodeIdentifier, KeyPriority, eager, lazy, Result, done, failed, aborted, ◌>>=◌,
  check,
}
use peridot.Storage.BTree.{TreeNode, same_priority}

pub record Frame : Type 0 where
  pub node : TreeNode
  pub identifier : ℕ
  pub index : ℕ

-- The top of the stack is its first frame.
pub record BTreeIterator : Type 0 where
  pub stack : List Frame
  pub descending : Bool

-- `children_identifiers().find`.
abbrev pub child_at : ℕ → List (ℕ × ℕ) → Option ℕ
child_at index [] = none
child_at index ((i, oid) ∷ children) = if i == index then some oid else child_at index children

abbrev pub entry_at : ℕ → List Entry → Option Entry
entry_at index [] = none
entry_at zero (e ∷ entries) = some e
entry_at (suc index) (e ∷ entries) = entry_at index entries

abbrev pub size : List Entry → ℕ
size [] = 0
size (e ∷ entries) = suc (size entries)

abbrev pub get_entry_or_child_index : List Entry → ℕ → ℕ
get_entry_or_child_index [] key = 0
get_entry_or_child_index (e ∷ entries) key =
    if ltb e.key key then suc (get_entry_or_child_index entries key) else 0

abbrev pub is_none : Option EntryAndNodeIdentifier → Bool
is_none none = true
is_none (some v) = false

abbrev pub identifiers_of : List EntryAndNodeIdentifier → List ℕ
identifiers_of [] = []
identifiers_of (v ∷ calls) = v.entry.object_identifier ∷ v.node_identifier ∷ identifiers_of calls

abbrev pub eager_of : List EntryAndNodeIdentifier → List ℕ
eager_of [] = []
eager_of (v ∷ calls) =
    if same_priority v.entry.priority eager
    then v.entry.object_identifier ∷ eager_of calls
    else eager_of calls

abbrev pub is_empty : List Frame → Bool
is_empty [] = true
is_empty (f ∷ frames) = false

abbrev pub finished : BTreeIterator → Bool
finished it = is_empty it.stack

abbrev pub with_node : ℕ → Option Entry → Option EntryAndNodeIdentifier
with_node oid none = none
with_node oid (some e) = some (record { entry = e; node_identifier = oid })

-- `HasValue`, `CurrentEntry` and `GetIdentifier`.
abbrev pub value_of : Bool → List Frame → Option EntryAndNodeIdentifier
value_of descending [] = none
value_of true (f ∷ frames) = none
value_of false (f ∷ frames) = with_node f.identifier (entry_at f.index f.node.entries)

abbrev pub value : BTreeIterator → Option EntryAndNodeIdentifier
value it = value_of it.descending it.stack

-- `GetNextChild` in the frame at the top.
abbrev pub get_next_child : Bool → Frame → Option ℕ
get_next_child descending f = child_at (if descending then f.index else f.index + 1) f.node.children

-- `SkipToIndex` in the frame at the top: whether it returns true, the index and `descending_`.
pub skip_to_index : ℕ → Bool → Frame → Bool × ℕ × Bool
skip_to_index key descending f =
    let skip_count = get_entry_or_child_index f.node.entries key in
    if ltb skip_count f.index
    then (true, f.index, descending)
    else elim (entry_at skip_count f.node.entries) [
      | none ↦ (false, skip_count, descending)
      | some e ↦ if e.key == key then (true, skip_count, false) else (false, skip_count, descending)
    ]

skip_in_frame : Bool → List Frame → Result BTreeIterator
skip_in_frame descending [] = aborted
skip_in_frame true (f ∷ frames) = done (record { stack = f ∷ frames; descending = false })
skip_in_frame false (f ∷ frames) =
    done (record { stack = record f { index = f.index + 1 } ∷ frames; descending = false })

pub skip_next_sub_tree : BTreeIterator → Result BTreeIterator
unfolding skip_in_frame
skip_next_sub_tree it = skip_in_frame it.descending it.stack

module _ (load : ℕ → Result TreeNode) where
  pub descend : ℕ → BTreeIterator → Result BTreeIterator
  descend oid it = check it.descending (
      load oid >>= (λ n.
        done (record it { stack = record { node = n; identifier = oid; index = 0 } ∷ it.stack })))

  pub init : ℕ → Result BTreeIterator
  unfolding descend
  init oid = descend oid (record { stack = []; descending = true })

  advance_child : Option ℕ → BTreeIterator → Result BTreeIterator
  unfolding descend
  advance_child none it = done (record it { descending = false })
  advance_child (some oid) it = descend oid it

  advance_frame : Bool → Frame → List Frame → Result BTreeIterator
  unfolding advance_child
  advance_frame true f frames =
      advance_child (get_next_child true f) (record { stack = f ∷ frames; descending = true })
  advance_frame false f frames =
      if leb (f.index + 1) (size f.node.entries)
      then done (record { stack = record f { index = f.index + 1 } ∷ frames; descending = true })
      else done (record { stack = frames; descending = false })

  advance_stack : Bool → List Frame → Result BTreeIterator
  unfolding advance_frame
  advance_stack descending [] = aborted
  advance_stack descending (f ∷ frames) = advance_frame descending f frames

  pub advance : BTreeIterator → Result BTreeIterator
  unfolding advance_stack
  advance it = advance_stack it.descending it.stack

  pub advance_to_value : ℕ → BTreeIterator → Result BTreeIterator
  unfolding advance
  advance_to_value zero it = aborted
  advance_to_value (suc fuel) it =
      if not (finished it) && is_none (value it)
      then advance it >>= advance_to_value fuel
      else done it

  skip_child :
      (BTreeIterator → Result BTreeIterator) → Option ℕ → BTreeIterator → Result BTreeIterator
  unfolding descend
  skip_child f none it = done it
  skip_child f (some oid) it = descend oid it >>= f

  skip_stack : (BTreeIterator → Result BTreeIterator) → ℕ → Bool → List Frame → Result BTreeIterator
  unfolding skip_to_index skip_child
  skip_stack next key descending [] = aborted
  skip_stack next key descending (f ∷ frames) =
      let (found, index, d) = skip_to_index key descending f in
      let g : Frame = record f { index = index } in
      let it : BTreeIterator = record { stack = g ∷ frames; descending = d } in
      if found then done it else skip_child next (get_next_child d g) it

  -- The loop of `SkipTo`.
  pub skip_loop : ℕ → ℕ → BTreeIterator → Result BTreeIterator
  unfolding skip_stack
  skip_loop zero key it = aborted
  skip_loop (suc fuel) key it = skip_stack (skip_loop fuel key) key it.descending it.stack

  pub skip_to : ℕ → ℕ → BTreeIterator → Result BTreeIterator
  unfolding skip_loop
  skip_to fuel key it = skip_loop fuel key (record it { descending = true })

  -- The calls of `on_next`, the last of which may return false.
  visit :
      (BTreeIterator → Result (List EntryAndNodeIdentifier))
      → (EntryAndNodeIdentifier → Bool)
      → Option EntryAndNodeIdentifier
      → BTreeIterator
      → Result (List EntryAndNodeIdentifier)
  unfolding advance
  visit next on_next none it = next it
  visit next on_next (some v) it =
      let rest = advance it >>= next >>= (λ calls. done (v ∷ calls)) in
      if on_next v then rest else done (v ∷ [])

  pub for_each_loop :
      ℕ → (EntryAndNodeIdentifier → Bool) → BTreeIterator → Result (List EntryAndNodeIdentifier)
  unfolding advance_to_value visit
  for_each_loop zero on_next it = aborted
  for_each_loop (suc fuel) on_next it =
      let rest =
        advance_to_value fuel it
        >>= (λ j. visit (for_each_loop fuel on_next) on_next (value j) j) in
      if finished it then done [] else rest

  -- `ForEachEntryInternal`: what `on_next` is called with.
  pub for_each_entry :
      ℕ → ℕ → ℕ → ℕ → (EntryAndNodeIdentifier → Bool) → Result (List EntryAndNodeIdentifier)
  unfolding init skip_to for_each_loop
  for_each_entry levels steps root_identifier min_key on_next =
      init root_identifier >>= skip_to levels min_key >>= for_each_loop steps on_next

  -- What `GetObjectIdentifiers` inserts in its set.
  pub get_object_identifiers : ℕ → ℕ → ℕ → Result (List ℕ)
  unfolding for_each_entry
  get_object_identifiers levels steps root_identifier =
      for_each_entry levels steps root_identifier 0 (λ v. true)
      >>= (λ calls. done (root_identifier ∷ identifiers_of calls))

  -- What `GetObjectsFromSync` asks the page storage for.
  pub get_objects_from_sync : ℕ → ℕ → ℕ → Result (List ℕ)
  unfolding for_each_entry
  get_objects_from_sync levels steps root_identifier =
      for_each_entry levels steps root_identifier 0 (λ v. true) >>= (λ calls. done (eager_of calls))
