-- ===== src/Storage/BTree/Lookup.antt =====
-- What is found under a key in the entries that bin/ledger/storage/impl/btree/builder.cc makes.
use peridot.Base.{
  ℕ, ◌<◌, ◌≡◌, refl, ap, ◌∙◌, Option, none, some, List, [], ◌∷◌, ◌++◌, arith, ltb, ◌==◌,
  if◌then◌else◌, Bool-cases, inl, inr,
}
use peridot.Storage.Types.{Entry, EntryChange, Result, Gives, Gives-mono}
use peridot.Storage.BTree.{TreeNode, NodeBuilder, apply_all}
use peridot.Storage.BTree.Contents.{IsSorted, below, above, edit, effect, effect-IsSorted, inserted}
use peridot.Storage.BTree.Applies.{effects, IsTree, apply_all-IsTree}

abbrev pub find : ℕ → List Entry → Option Entry
find key [] = none
find key (e ∷ es) = if e.key == key then some e else find key es

abbrev or_else : Option Entry → Option Entry → Option Entry
or_else none o = o
or_else (some e) o = some e

-- What one change leaves of what was found.
abbrev pub changed : ℕ → EntryChange → Option Entry → Option Entry
changed key change o =
    if change.entry.key == key then (if change.deleted then none else some change.entry) else o

-- What some changes leave of what was found, the last one of the key at the end.
abbrev pub latest : ℕ → List EntryChange → Option Entry → Option Entry
latest key [] o = o
latest key (change ∷ changes) o = latest key changes (changed key change o)

find-append : (k : ℕ) (xs ys : List Entry) → find k (xs ++ ys) ≡ or_else (find k xs) (find k ys)
find-append k [] ys = refl
find-append k (x ∷ xs) ys = elim (Bool-cases (x.key == k)) [
  | inl h ↦ rw h refl
  | inr n ↦ rw n (find-append k xs ys)
]

find-below :
    (k c : ℕ) (es : List Entry) → find k (below c es) ≡ (if ltb k c then find k es else none)
find-below k c [] = ground arith
find-below k c (e ∷ es) = let r = find-below k c es in ground arith

find-above :
    (k c : ℕ) (es : List Entry) → find k (above c es) ≡ (if ltb c k then find k es else none)
find-above k c [] = ground arith
find-above k c (e ∷ es) = let r = find-above k c es in ground arith

or_else-none : (o : Option Entry) → or_else o none ≡ o
or_else-none none = refl
or_else-none (some e) = refl

find-inserted : (k : ℕ) (change : EntryChange) → find k (inserted change) ≡ changed k change none
find-inserted k change = elim (Bool-cases change.deleted) [
  | inl d ↦ rw d (ground arith)
  | inr p ↦ rw p (ground arith)
]

pub find-effect :
    (k : ℕ) (change : EntryChange) (es : List Entry)
    → find k (effect change es) ≡ changed k change (find k es)
unfolding effect edit
find-effect k change es =
    let c = change.entry.key in
    let e = or_else-none (find k es) in
    rw
      (
        find-append k (below c es) (inserted change ++ above c es),
        find-append k (inserted change) (above c es),
        find-below k c es,
        find-above k c es,
        find-inserted k change,
      )
      (ground arith)

module _ (load : ℕ → Result TreeNode) (get_node_level : ℕ → ℕ) where
  find-effects :
      (k : ℕ) (changes : List EntryChange) (es : List Entry)
      → find k (effects load get_node_level changes es) ≡ latest k changes (find k es)
  find-effects k [] es = refl
  find-effects k (change ∷ changes) es =
      find-effects k changes (effect change es) ∙ ap (latest k changes) (find-effect k change es)

  pub effects-IsSorted :
      (changes : List EntryChange) (es : List Entry)
      → IsSorted es
      → IsSorted (effects load get_node_level changes es)
  effects-IsSorted [] es s = s
  effects-IsSorted (change ∷ changes) es s =
      effects-IsSorted changes (effect change es) (effect-IsSorted change es s)

  -- Any changes of a tree with sorted entries give a tree with sorted entries, in which each key has the entry of the last
  -- change of the key, none if that is a deletion, and its former entry if no change is of the key. The
  -- levels of keys are bytes.
  pub apply_all-latest :
      ((key : ℕ) → get_node_level key < 256)
      → (changes : List EntryChange) (b : NodeBuilder) (es : List Entry)
      → IsTree load get_node_level es b
      → IsSorted es
      → Gives
          (λ c.
            (fs : List Entry) × IsTree load get_node_level fs c
            × IsSorted fs
            × ((k : ℕ) → find k fs ≡ latest k changes (find k es)))
          (apply_all load get_node_level 256 changes b)
  apply_all-latest bound changes b es i s =
      Gives-mono (IsTree load get_node_level (effects load get_node_level changes es)) _
        (apply_all load get_node_level 256 changes b)
        (apply_all-IsTree load get_node_level bound changes b es i s)
        (λ c j. (
          effects load get_node_level changes es,
          j,
          effects-IsSorted changes es s,
          λ k. find-effects k changes es,
        ))
