-- ===== src/Storage/BTree/Iterator/Listing.antt =====
-- What `ForEachEntry` (bin/ledger/storage/impl/btree/iterator.cc) lists of a tree that
-- bin/ledger/storage/impl/btree/builder.cc has stored.
use mathlib.Core.List.{append-nil}
use peridot.Base.{
  ℕ, zero, suc, ◌+◌, ◌≤◌, ◌<◌, ◌≡◌, refl, ◌∙◌, Bool, true, false, none, some, List, [], ◌∷◌, inl,
  inr, arith, ◌==◌, if◌then◌else◌, Bool-cases, subst,
}
use peridot.Storage.Types.{
  Entry, EntryAndNodeIdentifier, EntryChange, ok, Result, done, Gives, Gives-done, Gives-mono,
}
use peridot.Storage.BTree.{
  TreeNode, NodeBuilder, null_node, unloaded, dec8, next_child, extract_rows, extract_content,
}
use peridot.Storage.BTree.Contents.{IsSorted}
use peridot.Storage.BTree.Shape.{IsRows, IsMap, Is}
use peridot.Storage.BTree.Applies.{effects}
use peridot.Storage.BTree.Lookup.{effects-IsSorted}
use peridot.Storage.BTree.Build.{apply_changes}
use peridot.Storage.BTree.Build.Stores.{Stored, Stored-node, apply_changes-Stored}
use peridot.Storage.BTree.Iterator.{child_at, skip_loop, for_each_entry}
use peridot.Storage.BTree.Iterator.Walks.{Walk, ended, told, for_each_loop-Walk}
use peridot.Storage.BTree.Iterator.Trees.{entries_of, iterator, frame, ChildAt, From, Tree, Walks}
use peridot.Storage.BTree.Iterator.Skips.{at_least, Tree-Skipped}

child_at-none :
    (i j : ℕ) (children : List (ℕ × ℕ)) → i < j → IsMap j children → child_at i children ≡ none
child_at-none i j [] h m = refl
child_at-none i j ((k, oid) ∷ children) h (a, m) =
    let r = child_at-none i (k + 1) children (omega arith) m in ground arith

next_child-IsMap :
    (level i : ℕ) (children : List (ℕ × ℕ))
    → IsMap i children
    → IsMap (i + 1) (next_child level i children).1
unfolding next_child
next_child-IsMap level i [] m = tt
next_child-IsMap level i ((k, oid) ∷ children) (a, m) = elim (Bool-cases (k == i)) [
  | inl e ↦ let q : k ≡ i = ground arith in rw e (subst (λ z. IsMap (z + 1) children) q m)
  | inr n ↦ rw n (ground arith, m)
]

-- The rest of the map has the later children.
next_child-later :
    (level i j : ℕ) (children : List (ℕ × ℕ))
    → i < j
    → child_at j (next_child level i children).1 ≡ child_at j children
unfolding next_child
next_child-later level i j [] h = refl
next_child-later level i j ((k, oid) ∷ children) h = elim (Bool-cases (k == i)) [
  | inl e ↦ let q : (k == j) ≡ false = ground arith in rw (e, q) refl
  | inr n ↦ rw n refl
]

module _ (load : ℕ → Result TreeNode) (get_node_level : ℕ → ℕ) where
  abbrev Unloads : (ℕ → List Entry → Type 0) → ℕ → Type 0
  Unloads P l =
      (level oid : ℕ) (es : List Entry)
      → Is load get_node_level l (unloaded level oid) es
      → P oid es

  null-ChildAt :
      (P : ℕ → List Entry → Type 0) (l : ℕ) (es : List Entry)
      → Is load get_node_level l null_node es
      → ChildAt load P none es
  unfolding Is
  null-ChildAt P l es h = h

  first_child-ChildAt :
      (P : ℕ → List Entry → Type 0) (l level i k oid : ℕ) (here : Bool) (children : List (ℕ × ℕ))
      (es : List Entry)
      → Unloads P l
      → (here ≡ false → child_at i children ≡ none)
      → Is load get_node_level l
          (if◌then◌else◌ {A = NodeBuilder × List (ℕ × ℕ)} here
            (unloaded (dec8 level) oid, children)
            (null_node, (k, oid) ∷ children)).0
          es
      → ChildAt load P (if here then some oid else child_at i children) es
  first_child-ChildAt P l level i k oid true children es g n h = g (dec8 level) oid es h
  first_child-ChildAt P l level i k oid false children es g n h =
      rw (n refl) (null-ChildAt P l es h)

  next_child-ChildAt :
      (P : ℕ → List Entry → Type 0) (l level i : ℕ) (children : List (ℕ × ℕ)) (es : List Entry)
      → Unloads P l
      → IsMap i children
      → Is load get_node_level l (next_child level i children).0 es
      → ChildAt load P (child_at i children) es
  unfolding next_child
  next_child-ChildAt P l level i [] es g m h = null-ChildAt P l es h
  next_child-ChildAt P l level i ((k, oid) ∷ children) es g (a, m) h =
      first_child-ChildAt P l level i k oid (k == i) children es g
        (λ n. child_at-none i (k + 1) children (ground arith) m) h

  extract_rows-From :
      (P : ℕ → List Entry → Type 0) (l level i : ℕ) (all children : List (ℕ × ℕ))
      (entries es : List Entry)
      → Unloads P l
      → IsMap i children
      → ((j : ℕ) → i ≤ j → child_at j children ≡ child_at j all)
      → IsRows load get_node_level
          (Is load get_node_level l)
          l
          (extract_rows level i entries children)
          es
      → From load P all i entries es
  unfolding extract_rows
  extract_rows-From P l level i all children [] es g m a h =
      subst (λ z. ChildAt load P z es) (a i (omega arith))
        (next_child-ChildAt P l level i children es g m h)
  extract_rows-From P l level i all children (e ∷ entries) es g m a (xs, ys, q, h, v, r) = (
    xs,
    ys,
    q,
    subst (λ z. ChildAt load P z xs) (a i (omega arith))
        (next_child-ChildAt P l level i children xs g m h),
    extract_rows-From P l level (i + 1) all (next_child level i children).1 entries ys g
        (next_child-IsMap level i children m)
        (λ j b. next_child-later level i j children (omega arith) ∙ a j (omega arith)) r,
  )

  pub unloaded-Tree : (l : ℕ) → Unloads (Tree load l) l
  unfolding Is Tree extract_content
  unloaded-Tree zero level oid es h = absurd h
  unloaded-Tree (suc l) level oid es (q, (n, e, v, m, r)) = (
    n,
    e,
    extract_rows-From (Tree load l) l n.level 0 n.children n.children n.entries es (unloaded-Tree l)
        m (λ j b. refl) r,
  )

  Stored-Tree :
      (oid : ℕ) (es : List Entry)
      → Stored load get_node_level es oid
      → (l : ℕ) × (l ≤ 256) × Tree load l oid es
  unfolding Is
  Stored-Tree oid es h =
      let (l, b, t) = Stored-node load get_node_level oid es h in
      (suc l, omega arith, unloaded-Tree (suc l) l oid es (refl, t))

  -- Some steps are enough to call a function with the entries from a key on, in order, until it stops.
  abbrev pub Lists : ℕ → (EntryAndNodeIdentifier → Bool) → List Entry → ℕ → Type 0
  Lists key on_next es oid =
      (steps : ℕ) × (vs : List EntryAndNodeIdentifier) × (entries_of vs ≡ at_least key es)
      × (for_each_entry load 256 steps oid key on_next ≡ done (told on_next vs))

  -- Of a stored tree with sorted entries all those from a key on are listed in order, until the function
  -- that is called with them stops.
  pub for_each_entry-Lists :
      (oid key : ℕ) (on_next : EntryAndNodeIdentifier → Bool) (es : List Entry)
      → Stored load get_node_level es oid
      → IsSorted es
      → Lists key on_next es oid
  unfolding for_each_entry
  for_each_entry-Lists oid key on_next es h s =
      let (l, b, t) = Stored-Tree oid es h in
      let (n, e, g) = Tree-Skipped load 256 l key oid es b t s [] in
      let (j, q, (vs, r, w)) =
        Gives-done (λ j. Walks load j [] (at_least key es))
          (skip_loop load 256 key (iterator true (frame n oid 0 ∷ []))) g in
      let (m, x) = w 0 [] (ended refl) in
      (
        m + 2,
        vs,
        r,
        rw (e, q)
            (for_each_loop-Walk load (m + 2) m on_next j vs (omega arith)
              (subst (Walk load m j) (append-nil vs) x)),
      )

  module _ (add : TreeNode → Result ℕ)
      (keeps : (n : TreeNode) → Gives (λ oid. load oid ≡ done n) (add n)) where
    -- After any changes of a stored tree with sorted entries, the entries that the changes make are listed
    -- in order from a key on, until the function that is called with them stops. The levels of keys are
    -- bytes, the iterator of the changes does not fail, and a node that is added can be read.
    pub apply_changes-Lists :
        ((key : ℕ) → get_node_level key < 256)
        → (changes : List EntryChange) (root key : ℕ) (on_next : EntryAndNodeIdentifier → Bool)
          (es : List Entry)
        → Stored load get_node_level es root
        → IsSorted es
        → Gives
            (λ (r : ℕ × List ℕ). Lists key on_next (effects load get_node_level changes es) r.0)
            (apply_changes add load get_node_level root changes ok)
    apply_changes-Lists bound changes root key on_next es h s =
        Gives-mono
          (λ (r : ℕ × List ℕ).
            Stored load get_node_level (effects load get_node_level changes es) r.0)
          _ (apply_changes add load get_node_level root changes ok)
          (apply_changes-Stored load get_node_level add keeps bound changes root es h s)
          (λ r t.
            for_each_entry-Lists r.0 key on_next (effects load get_node_level changes es) t
              (effects-IsSorted load get_node_level changes es s))
