-- ===== src/Storage/BTree/Iterator/Skips.antt =====
-- `SkipTo` of bin/ledger/storage/impl/btree/iterator.cc: what is left to go through after it.
use mathlib.Core.List.{append_assoc, append-nil}
use peridot.Base.{
  ℕ, zero, suc, ◌+◌, ◌≤◌, ◌<◌, ◌≡◌, refl, ap, sym, ◌∙◌, true, false, Option, none, some, List, [],
  ◌∷◌, ◌++◌, inl, inr, arith, ltb, ◌==◌, if◌then◌else◌, Bool-cases, subst,
}
use peridot.Storage.Types.{Entry, Result, done, Gives, Gives-mono}
use peridot.Storage.BTree.{TreeNode}
use peridot.Storage.BTree.Contents.{All, All-mono, All-append, AllBelow, IsSorted, IsSorted-parts}
use peridot.Storage.BTree.Iterator.{
  Frame, child_at, entry_at, descend, get_entry_or_child_index, skip_to_index, skip_child,
  skip_stack, skip_loop,
}
use peridot.Storage.BTree.Iterator.Trees.{
  iterator, frame, Drops, Drops-at, Drops-next, Drops-all, ChildAt, From, From-mono, Tree, Walks,
  Walks-append, Entered, Tree-Entered, child-Walks, end-Walks, tail-Walks,
}

-- The entries from a key on.
abbrev pub at_least : ℕ → List Entry → List Entry
at_least key [] = []
at_least key (e ∷ es) = if ltb e.key key then at_least key es else e ∷ at_least key es

at_least-append :
    (k : ℕ) (xs ys : List Entry) → at_least k (xs ++ ys) ≡ at_least k xs ++ at_least k ys
at_least-append k [] ys = refl
at_least-append k (x ∷ xs) ys = let r = at_least-append k xs ys in ground arith

at_least-below : (k : ℕ) (xs : List Entry) → AllBelow k xs → at_least k xs ≡ []
at_least-below k [] h = refl
at_least-below k (x ∷ xs) h = let r = at_least-below k xs h.1 in let s = h.0 in ground arith

at_least-above : (k : ℕ) (xs : List Entry) → All (λ e. k ≤ e.key) xs → at_least k xs ≡ xs
at_least-above k [] h = refl
at_least-above k (x ∷ xs) h = let r = at_least-above k xs h.1 in let s = h.0 in ground arith

-- From an entry that is not below the key on, all is left.
at_least-mid :
    (k : ℕ) (xs : List Entry) (e : Entry) (ys : List Entry)
    → IsSorted (xs ++ e ∷ ys)
    → k ≤ e.key
    → at_least k (xs ++ e ∷ ys) ≡ at_least k xs ++ e ∷ ys
at_least-mid k xs e ys s h =
    let (_, _, a, _) = IsSorted-parts xs e ys s in
    at_least-append k xs (e ∷ ys)
    ∙ ap (λ z. at_least k xs ++ z)
        (at_least-above k (e ∷ ys) (h, All-mono _ _ ys a (λ z w. omega arith)))

module _ (load : ℕ → Result TreeNode) where
  abbrev NotBelow : ℕ → List Entry → Type 0
  NotBelow key [] = Unit
  NotBelow key (x ∷ rest) = ltb x.key key ≡ false

  -- The place of a key among the entries: what is before it is below the key.
  abbrev Place : ℕ → List Entry → List (ℕ × ℕ) → (ℕ → List Entry → Type 0) → List Entry → ℕ → Type 0
  Place key entries children P es i =
      (before : List Entry) × (rest : List Entry) × (fs : List Entry) × (es ≡ before ++ fs)
      × AllBelow key before
      × IsSorted fs
      × Drops i entries rest
      × From load P children i rest fs
      × NotBelow key rest

  place :
      (key i : ℕ) (P : ℕ → List Entry → Type 0) (children : List (ℕ × ℕ))
      (entries rest es : List Entry)
      → Drops i entries rest
      → IsSorted es
      → From load P children i rest es
      → Place key entries children P es (i + get_entry_or_child_index rest key)
  place key i P children entries [] es d s h =
      let e : i ≡ i + 0 = omega arith in
      subst (Place key entries children P es) e ([], [], es, refl, tt, s, d, h, tt)
  place key i P children entries (x ∷ rest) es d s (xs, ys, q, h, r) =
      elim (Bool-cases (ltb x.key key)) [
        | inl lower ↦
            let less : x.key < key = ground arith in
            let (_, below, _, sy) = IsSorted-parts xs x ys (subst IsSorted q s) in
            let (before, tail, fs, p, b, t, u, f, o) =
              place key (i + 1) P children entries rest ys (Drops-next i x entries rest d) sy r in
            let e : (i + 1) + get_entry_or_child_index rest key
                ≡ i + suc (get_entry_or_child_index rest key) =
              omega arith in
            rw lower (
              subst (Place key entries children P es) e (
                xs ++ x ∷ before,
                tail,
                fs,
                q ∙ ap (λ z. xs ++ x ∷ z) p ∙ sym (append_assoc xs (x ∷ before) fs),
                All-append (λ z. z.key < key) xs (x ∷ before)
                    (All-mono _ _ xs below (λ z w. omega arith)) (less, b),
                t,
                u,
                f,
                o,
              ))
        | inr not_lower ↦
            let e : i ≡ i + 0 = omega arith in
            rw not_lower (
              subst (Place key entries children P es) e
                ([], x ∷ rest, es, refl, tt, s, d, (xs, ys, q, h, r), not_lower))
      ]

  -- Skipping in the tree under an identifier leaves a walk over its entries from the key on.
  abbrev pub Skipped : ℕ → ℕ → ℕ → List Entry → Type 0
  Skipped fuel key oid es =
      (frames : List Frame)
      → (n : TreeNode) × (load oid ≡ done n)
        × Gives (λ j. Walks load j frames (at_least key es))
            (skip_loop load fuel key (iterator true (frame n oid 0 ∷ frames)))

  module _ (fuel key : ℕ) (n : TreeNode) (oid : ℕ) (frames : List Frame)
      (P : ℕ → List Entry → Type 0)
      (entered : (c : ℕ) (xs : List Entry) → P c xs → Entered load c xs)
      (skipped : (c : ℕ) (xs : List Entry) → P c xs → IsSorted xs → Skipped fuel key c xs) where
    skip_child-Walks :
        (i : ℕ) (o : Option ℕ) (xs zs : List Entry)
        → child_at i n.children ≡ o
        → ChildAt load P o xs
        → IsSorted xs
        → Walks load (iterator false (frame n oid i ∷ frames)) frames zs
        → Gives
            (λ j. Walks load j frames (at_least key xs ++ zs))
            (skip_child load (skip_loop load fuel key) o (iterator true (frame n oid i ∷ frames)))
    unfolding skip_child descend
    skip_child-Walks i none xs zs q h s w =
        Walks-append load (iterator true (frame n oid i ∷ frames)) (frame n oid i) frames
          (at_least key xs) zs
          (child-Walks load n oid frames i none (at_least key xs) q (ap (at_least key) h)) w
    skip_child-Walks i (some c) xs zs q h s w =
        let (t, e, g) = skipped c xs h s (frame n oid i ∷ frames) in
        rw e (
          Gives-mono (λ j. Walks load j (frame n oid i ∷ frames) (at_least key xs)) _
            (skip_loop load fuel key (iterator true (frame t c 0 ∷ frame n oid i ∷ frames))) g
            (λ j v. Walks-append load j (frame n oid i) frames (at_least key xs) zs v w))

    skip_to_index-end :
        (i : ℕ)
        → i ≡ get_entry_or_child_index n.entries key
        → entry_at i n.entries ≡ none
        → skip_to_index key true (frame n oid 0) ≡ (false, i, true)
    unfolding skip_to_index
    skip_to_index-end i q e =
        let z : ltb i 0 ≡ false = ground arith in
        rw (sym q, z, e) (ap (λ w. (false, w, true)) (sym q))

    skip_to_index-found :
        (i : ℕ) (x : Entry)
        → i ≡ get_entry_or_child_index n.entries key
        → entry_at i n.entries ≡ some x
        → (x.key == key) ≡ true
        → skip_to_index key true (frame n oid 0) ≡ (true, i, false)
    unfolding skip_to_index
    skip_to_index-found i x q e h =
        let z : ltb i 0 ≡ false = ground arith in
        rw (sym q, z, e, h) (ap (λ w. (true, w, false)) (sym q))

    skip_to_index-before :
        (i : ℕ) (x : Entry)
        → i ≡ get_entry_or_child_index n.entries key
        → entry_at i n.entries ≡ some x
        → (x.key == key) ≡ false
        → skip_to_index key true (frame n oid 0) ≡ (false, i, true)
    unfolding skip_to_index
    skip_to_index-before i x q e h =
        let z : ltb i 0 ≡ false = ground arith in
        rw (sym q, z, e, h) (ap (λ w. (false, w, true)) (sym q))

    found-Walks :
        (i : ℕ) (rest fs : List Entry)
        → i ≡ get_entry_or_child_index n.entries key
        → IsSorted fs
        → Drops i n.entries rest
        → From load P n.children i rest fs
        → NotBelow key rest
        → Gives
            (λ j. Walks load j frames (at_least key fs))
            (skip_stack load (skip_loop load fuel key) key true (frame n oid 0 ∷ frames))
    unfolding skip_stack
    found-Walks i [] fs q s d h o = rw (skip_to_index-end i q (Drops-at i n.entries [] d)) (
        subst
          (λ z.
            Gives (λ j. Walks load j frames z)
              (skip_child load (skip_loop load fuel key) (child_at i n.children)
                (iterator true (frame n oid i ∷ frames))))
          (append-nil (at_least key fs))
          (skip_child-Walks i (child_at i n.children) fs [] refl h s
            (end-Walks load n oid frames i d)))
    found-Walks i (x ∷ rest) fs q s d (xs, ys, p, h, r) o =
        let e = Drops-at i n.entries (x ∷ rest) d in
        let u = subst IsSorted p s in
        let (sx, below, _, _) = IsSorted-parts xs x ys u in
        let t =
          tail-Walks load n oid frames i x rest ys d
            (From-mono load P (Entered load) n.children (i + 1) rest ys entered r) in
        let m = at_least-mid key xs x ys u (ground arith) in
        elim (Bool-cases (x.key == key)) [
          | inl same ↦
              let b : at_least key xs ≡ [] =
                at_least-below key xs (All-mono _ _ xs below (λ z w. ground arith)) in
              rw (skip_to_index-found i x q e same, p, m, b) t
          | inr other ↦
              rw (skip_to_index-before i x q e other, p, m)
                (skip_child-Walks i (child_at i n.children) xs (x ∷ ys) refl h sx t)
        ]

    -- The index of the key in a node with sorted entries, and on from there.
    node-Walks :
        (es : List Entry)
        → From load P n.children 0 n.entries es
        → IsSorted es
        → Gives
            (λ j. Walks load j frames (at_least key es))
            (skip_stack load (skip_loop load fuel key) key true (frame n oid 0 ∷ frames))
    node-Walks es h s =
        let (before, rest, fs, p, b, t, d, f, o) =
          place key 0 P n.children n.entries n.entries es (Drops-all n.entries) s h in
        let e : at_least key es ≡ at_least key fs =
          ap (at_least key) p
          ∙ at_least-append key before fs
          ∙ ap (λ z. z ++ at_least key fs) (at_least-below key before b) in
        rw e
          (found-Walks (0 + get_entry_or_child_index n.entries key) rest fs (omega arith) t d f o)

  pub Tree-Skipped :
      (fuel l key oid : ℕ) (es : List Entry)
      → l ≤ fuel
      → Tree load l oid es
      → IsSorted es
      → Skipped fuel key oid es
  unfolding Tree skip_loop
  Tree-Skipped fuel zero key oid es b h s = absurd h
  Tree-Skipped zero (suc l) key oid es b h s = absurd (omega arith)
  Tree-Skipped (suc fuel) (suc l) key oid es b (n, e, h) s = λ frames. (
    n,
    e,
    node-Walks fuel key n oid frames (Tree load l) (Tree-Entered load l)
        (λ c xs t u. Tree-Skipped fuel l key c xs (omega arith) t u) es h s,
  )
