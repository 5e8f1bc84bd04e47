-- ===== src/Storage/BTree/Iterator/Walks.antt =====
-- The steps of the iterator of bin/ledger/storage/impl/btree/iterator.cc, and its loops on them.
use peridot.Base.{
  ℕ, zero, suc, ◌+◌, ◌≤◌, ◌<◌, ◌≡◌, refl, Bool, true, false, none, some, List, [], ◌∷◌, ◌⊎◌, inl,
  inr, arith, if◌then◌else◌, Bool-cases,
}
use peridot.Storage.Types.{EntryAndNodeIdentifier, Result, done, Gives, Gives-done, Gives-mono}
use peridot.Storage.BTree.{TreeNode}
use peridot.Storage.BTree.Iterator.{
  Frame, BTreeIterator, finished, is_empty, value_of, value, advance, advance_to_value, visit,
  for_each_loop,
}

-- The calls of a function that asks to stop by returning false.
abbrev pub told :
    (EntryAndNodeIdentifier → Bool) → List EntryAndNodeIdentifier → List EntryAndNodeIdentifier
told on_next [] = []
told on_next (v ∷ vs) = if on_next v then v ∷ told on_next vs else v ∷ []

module _ (load : ℕ → Result TreeNode) where
  -- From an iterator to its end in so many steps, over some values.
  pub data Walk : ℕ → BTreeIterator → List EntryAndNodeIdentifier → Type 0 where
    ended : {it : BTreeIterator} → finished it ≡ true → Walk 0 it []
    silent :
        {m : ℕ} {it : BTreeIterator} {out : List EntryAndNodeIdentifier} (j : BTreeIterator)
        → finished it ≡ false
        → value it ≡ none
        → advance load it ≡ done j
        → Walk m j out
        → Walk (suc m) it out
    visits :
        {m : ℕ} {it : BTreeIterator} {out : List EntryAndNodeIdentifier}
        (v : EntryAndNodeIdentifier) (j : BTreeIterator)
        → finished it ≡ false
        → value it ≡ some v
        → advance load it ≡ done j
        → Walk m j out
        → Walk (suc m) it (v ∷ out)

  -- The end, or the next value, with the steps that are left after it.
  abbrev Arrived : ℕ → List EntryAndNodeIdentifier → BTreeIterator → Type 0
  Arrived m out j =
      ((finished j ≡ true) × (value j ≡ none) × (out ≡ []))
      ⊎ ((v : EntryAndNodeIdentifier) × (rest : List EntryAndNodeIdentifier) × (i : BTreeIterator)
          × (k : ℕ) × (value j ≡ some v)
          × (out ≡ v ∷ rest)
          × (advance load j ≡ done i)
          × (k < m)
          × Walk k i rest)

  Arrived-suc :
      (m : ℕ) (out : List EntryAndNodeIdentifier) (j : BTreeIterator)
      → Arrived m out j
      → Arrived (suc m) out j
  Arrived-suc m out j (inl h) = inl h
  Arrived-suc m out j (inr (v, rest, i, k, p, q, r, s, w)) =
      inr (v, rest, i, k, p, q, r, omega arith, w)

  stack-finished :
      (d : Bool) (frames : List Frame) → is_empty frames ≡ true → value_of d frames ≡ none
  stack-finished d [] h = refl
  stack-finished d (f ∷ frames) h = absurd (ground arith)

  value-finished : (it : BTreeIterator) → finished it ≡ true → value it ≡ none
  value-finished it h = stack-finished it.descending it.stack h

  advance_to_value-Walk :
      (fuel m : ℕ) (it : BTreeIterator) (out : List EntryAndNodeIdentifier)
      → m < fuel
      → Walk m it out
      → Gives (Arrived m out) (advance_to_value load fuel it)
  unfolding advance_to_value
  advance_to_value-Walk zero m it out h w = absurd (omega arith)
  advance_to_value-Walk (suc fuel) zero it out h (ended e) =
      rw e (inl (e, value-finished it e, refl))
  advance_to_value-Walk (suc fuel) (suc m) it out h (silent j e n a w) =
      rw (e, n, a)
        (Gives-mono (Arrived m out) _ (advance_to_value load fuel j)
          (advance_to_value-Walk fuel m j out (omega arith) w) (λ i k. Arrived-suc m out i k))
  advance_to_value-Walk (suc fuel) (suc m) it (v ∷ out) h (visits _ j e n a w) =
      rw (e, n) (inr (v, out, j, m, n, refl, a, omega arith, w))

  Walk-finished :
      (m : ℕ) (it : BTreeIterator) (out : List EntryAndNodeIdentifier)
      → finished it ≡ true
      → Walk m it out
      → out ≡ []
  Walk-finished zero it out f (ended e) = refl
  Walk-finished (suc m) it out f (silent j e n a w) = absurd (ground arith)
  Walk-finished (suc m) it (v ∷ out) f (visits _ j e n a w) = absurd (ground arith)

  for_each_loop-finished :
      (fuel : ℕ) (on_next : EntryAndNodeIdentifier → Bool) (it : BTreeIterator)
      → 0 < fuel
      → finished it ≡ true
      → for_each_loop load fuel on_next it ≡ done []
  unfolding for_each_loop
  for_each_loop-finished zero on_next it h f = absurd (omega arith)
  for_each_loop-finished (suc fuel) on_next it h f = rw f refl

  visit-Arrived :
      (fuel m : ℕ) (on_next : EntryAndNodeIdentifier → Bool) (j : BTreeIterator)
      (out : List EntryAndNodeIdentifier)
      → 0 < fuel
      → ((k : ℕ) (i : BTreeIterator) (rest : List EntryAndNodeIdentifier)
          → k < m
          → Walk k i rest
          → for_each_loop load fuel on_next i ≡ done (told on_next rest))
      → Arrived m out j
      → visit load (for_each_loop load fuel on_next) on_next (value j) j ≡ done (told on_next out)
  unfolding visit
  visit-Arrived fuel m on_next j out h g (inl (e, n, o)) =
      rw (n, o) (for_each_loop-finished fuel on_next j h e)
  visit-Arrived fuel m on_next j out h g (inr (v, rest, i, k, p, q, r, s, w)) =
      elim (Bool-cases (on_next v)) [
        | inl more ↦ rw (p, q, more, r, g k i rest s w) refl
        | inr stop ↦ rw (p, q, stop) refl
      ]

  -- The loop calls the function with the values in turn, if there is fuel for the steps.
  pub for_each_loop-Walk :
      (fuel m : ℕ) (on_next : EntryAndNodeIdentifier → Bool) (it : BTreeIterator)
      (out : List EntryAndNodeIdentifier)
      → m + 2 ≤ fuel
      → Walk m it out
      → for_each_loop load fuel on_next it ≡ done (told on_next out)
  unfolding for_each_loop
  for_each_loop-Walk zero m on_next it out h w = absurd (omega arith)
  for_each_loop-Walk (suc fuel) m on_next it out h w = elim (Bool-cases (finished it)) [
    | inl e ↦ rw (e, Walk-finished m it out e w) refl
    | inr n ↦
        let (j, q, a) =
          Gives-done (Arrived m out) (advance_to_value load fuel it)
            (advance_to_value-Walk fuel m it out (omega arith) w) in
        rw (n, q)
          (visit-Arrived fuel m on_next j out (omega arith)
            (λ k i rest s u. for_each_loop-Walk fuel k on_next i rest (omega arith) u) a)
  ]
