-- ===== src/Storage/BTree/Iterator/Trees.antt =====
-- The iterator of bin/ledger/storage/impl/btree/iterator.cc goes through a stored tree in order.
use peridot.Base.{
  ℕ, zero, suc, ◌+◌, ◌≡◌, refl, ap, sym, ◌∙◌, Bool, true, false, Option, none, some, List, [], ◌∷◌,
  ◌++◌, arith, leb, subst,
}
use mathlib.Core.List.{append_assoc, append-nil}
use peridot.Storage.Types.{Entry, EntryAndNodeIdentifier, Result, done}
use peridot.Storage.BTree.{TreeNode}
use peridot.Storage.BTree.Iterator.{
  Frame, BTreeIterator, child_at, entry_at, size, finished, value, advance,
}
use peridot.Storage.BTree.Iterator.Walks.{Walk, silent, visits}

abbrev pub entries_of : List EntryAndNodeIdentifier → List Entry
entries_of [] = []
entries_of (v ∷ vs) = v.entry ∷ entries_of vs

pub entries_of-append :
    (vs ws : List EntryAndNodeIdentifier) → entries_of (vs ++ ws) ≡ entries_of vs ++ entries_of ws
entries_of-append [] ws = refl
entries_of-append (v ∷ vs) ws = ap (λ z. v.entry ∷ z) (entries_of-append vs ws)

abbrev pub iterator : Bool → List Frame → BTreeIterator
iterator descending stack = record { stack = stack; descending = descending }

abbrev pub frame : TreeNode → ℕ → ℕ → Frame
frame n oid index = record { node = n; identifier = oid; index = index }

-- The entries from an index on.
abbrev pub Drops : ℕ → List Entry → List Entry → Type 0
Drops i entries rest =
    (size entries ≡ i + size rest) × ((j : ℕ) → entry_at (i + j) entries ≡ entry_at j rest)

pub Drops-at :
    (i : ℕ) (entries rest : List Entry)
    → Drops i entries rest
    → entry_at i entries ≡ entry_at 0 rest
Drops-at i entries rest (s, d) =
    let e : i + 0 ≡ i = omega arith in subst (λ z. entry_at z entries ≡ entry_at 0 rest) e (d 0)

pub Drops-next :
    (i : ℕ) (x : Entry) (entries rest : List Entry)
    → Drops i entries (x ∷ rest)
    → Drops (i + 1) entries rest
Drops-next i x entries rest (s, d) = (
  omega arith,
  λ j.
      (let e : i + suc j ≡ (i + 1) + j = omega arith in
        subst (λ z. entry_at z entries ≡ entry_at j rest) e (d (suc j))),
)

pub Drops-all : (entries : List Entry) → Drops 0 entries entries
Drops-all entries = (
  omega arith,
  λ j.
      (let e : 0 + j ≡ j = omega arith in
        subst (λ z. entry_at z entries ≡ entry_at j entries) (sym e) refl),
)

module _ (load : ℕ → Result TreeNode) where
  abbrev pub ChildAt : (ℕ → List Entry → Type 0) → Option ℕ → List Entry → Type 0
  ChildAt P none es = es ≡ []
  ChildAt P (some oid) es = P oid es

  -- The children and entries from an index on have the entries in order.
  abbrev pub From : (ℕ → List Entry → Type 0) → List (ℕ × ℕ) → ℕ → List Entry → List Entry → Type 0
  From P children i [] es = ChildAt P (child_at i children) es
  From P children i (e ∷ rest) es =
      (xs : List Entry) × (ys : List Entry) × (es ≡ xs ++ e ∷ ys)
      × ChildAt P (child_at i children) xs
      × From P children (i + 1) rest ys

  -- A tree of so many levels is stored under an identifier, and has the entries.
  unfoldable pub Tree : ℕ → ℕ → List Entry → Type 0
  Tree zero oid es = ⊥
  Tree (suc l) oid es =
      (n : TreeNode) × (load oid ≡ done n) × From (Tree l) n.children 0 n.entries es

  -- Values of the entries, and a walk over them and then over what follows on the stack.
  abbrev pub Walks : BTreeIterator → List Frame → List Entry → Type 0
  Walks it frames es =
      (vs : List EntryAndNodeIdentifier) × (entries_of vs ≡ es)
      × ((k : ℕ) (out : List EntryAndNodeIdentifier)
          → Walk load k (iterator false frames) out
          → (m : ℕ) × Walk load m it (vs ++ out))

  pub Walks-silent :
      (it j : BTreeIterator) (frames : List Frame) (es : List Entry)
      → finished it ≡ false
      → value it ≡ none
      → advance load it ≡ done j
      → Walks j frames es
      → Walks it frames es
  Walks-silent it j frames es f n a (vs, q, w) =
      (vs, q, λ k out u. (let (m, x) = w k out u in (suc m, silent j f n a x)))

  pub Walks-append :
      (it : BTreeIterator) (g : Frame) (frames : List Frame) (xs ys : List Entry)
      → Walks it (g ∷ frames) xs
      → Walks (iterator false (g ∷ frames)) frames ys
      → Walks it frames (xs ++ ys)
  Walks-append it g frames xs ys (vs, q, v) (ws, r, w) = (
    vs ++ ws,
    entries_of-append vs ws ∙ rw (q, r) refl,
    λ k out u.
        (let (m, x) = w k out u in
          let (p, y) = v m (ws ++ out) x in
          (p, subst (Walk load p it) (sym (append_assoc vs ws out)) y)),
  )

  -- Under an identifier there is a node from whose first child on there is a walk over the entries.
  abbrev pub Entered : ℕ → List Entry → Type 0
  Entered oid es =
      (frames : List Frame)
      → (n : TreeNode) × (load oid ≡ done n)
        × Walks (iterator true (frame n oid 0 ∷ frames)) frames es

  module _ (n : TreeNode) (oid : ℕ) (frames : List Frame) where
    pub child-Walks :
        (i : ℕ) (o : Option ℕ) (xs : List Entry)
        → child_at i n.children ≡ o
        → ChildAt Entered o xs
        → Walks (iterator true (frame n oid i ∷ frames)) (frame n oid i ∷ frames) xs
    unfolding advance
    child-Walks i none xs q h = (
      [],
      sym h,
      λ k out u. (suc k, silent (iterator false (frame n oid i ∷ frames)) refl refl (rw q refl) u),
    )
    child-Walks i (some c) xs q h =
        let (t, e, w) = h (frame n oid i ∷ frames) in
        Walks-silent (iterator true (frame n oid i ∷ frames))
          (iterator true (frame t c 0 ∷ frame n oid i ∷ frames)) (frame n oid i ∷ frames) xs refl
          refl (rw (q, e) refl) w

    pub end-Walks :
        (i : ℕ) → Drops i n.entries [] → Walks (iterator false (frame n oid i ∷ frames)) frames []
    unfolding advance
    end-Walks i (s, d) =
        let e : entry_at i n.entries ≡ none = Drops-at i n.entries [] (s, d) in
        let c : leb (i + 1) (size n.entries) ≡ false = ground arith in
        (
          [],
          refl,
          λ k out u. (suc k, silent (iterator false frames) refl (rw e refl) (rw c refl) u),
        )

    entry-Walks :
        (i : ℕ) (x : Entry) (rest ys : List Entry)
        → Drops i n.entries (x ∷ rest)
        → Walks (iterator true (frame n oid (i + 1) ∷ frames)) frames ys
        → Walks (iterator false (frame n oid i ∷ frames)) frames (x ∷ ys)
    unfolding advance
    entry-Walks i x rest ys (s, d) (vs, q, w) =
        let e : entry_at i n.entries ≡ some x = Drops-at i n.entries (x ∷ rest) (s, d) in
        let c : leb (i + 1) (size n.entries) ≡ true = ground arith in
        let v : EntryAndNodeIdentifier = record { entry = x; node_identifier = oid } in
        (
          v ∷ vs,
          ap (λ z. x ∷ z) q,
          λ k out u.
              (let (m, y) = w k out u in
                (
                  suc m,
                  visits v (iterator true (frame n oid (i + 1) ∷ frames)) refl (rw e refl)
                      (rw c refl) y,
                )),
        )

    -- From a child on, and from an entry on.
    pub rows-Walks :
        (i : ℕ) (rest es : List Entry)
        → Drops i n.entries rest
        → From Entered n.children i rest es
        → Walks (iterator true (frame n oid i ∷ frames)) frames es
    rows-Walks i [] es d h =
        subst (Walks (iterator true (frame n oid i ∷ frames)) frames) (append-nil es) (
          Walks-append (iterator true (frame n oid i ∷ frames)) (frame n oid i) frames es []
            (child-Walks i (child_at i n.children) es refl h) (end-Walks i d))
    rows-Walks i (x ∷ rest) es d (xs, ys, q, h, r) =
        subst (Walks (iterator true (frame n oid i ∷ frames)) frames) (sym q) (
          Walks-append (iterator true (frame n oid i ∷ frames)) (frame n oid i) frames xs (x ∷ ys)
            (child-Walks i (child_at i n.children) xs refl h)
            (entry-Walks i x rest ys d
              (rows-Walks (i + 1) rest ys (Drops-next i x n.entries rest d) r)))

    pub tail-Walks :
        (i : ℕ) (x : Entry) (rest ys : List Entry)
        → Drops i n.entries (x ∷ rest)
        → From Entered n.children (i + 1) rest ys
        → Walks (iterator false (frame n oid i ∷ frames)) frames (x ∷ ys)
    tail-Walks i x rest ys d r =
        entry-Walks i x rest ys d (rows-Walks (i + 1) rest ys (Drops-next i x n.entries rest d) r)

  ChildAt-mono :
      (P Q : ℕ → List Entry → Type 0) (o : Option ℕ) (es : List Entry)
      → ((oid : ℕ) (xs : List Entry) → P oid xs → Q oid xs)
      → ChildAt P o es
      → ChildAt Q o es
  ChildAt-mono P Q none es g h = h
  ChildAt-mono P Q (some oid) es g h = g oid es h

  pub From-mono :
      (P Q : ℕ → List Entry → Type 0) (children : List (ℕ × ℕ)) (i : ℕ) (rest es : List Entry)
      → ((oid : ℕ) (xs : List Entry) → P oid xs → Q oid xs)
      → From P children i rest es
      → From Q children i rest es
  From-mono P Q children i [] es g h = ChildAt-mono P Q (child_at i children) es g h
  From-mono P Q children i (x ∷ rest) es g (xs, ys, q, h, r) = (
    xs,
    ys,
    q,
    ChildAt-mono P Q (child_at i children) xs g h,
    From-mono P Q children (i + 1) rest ys g r,
  )

  pub Tree-Entered : (l oid : ℕ) (es : List Entry) → Tree l oid es → Entered oid es
  unfolding Tree
  Tree-Entered zero oid es h = absurd h
  Tree-Entered (suc l) oid es (n, e, h) = λ frames. (
    n,
    e,
    rows-Walks n oid frames 0 n.entries es (Drops-all n.entries)
        (From-mono (Tree l) Entered n.children 0 n.entries es (Tree-Entered l) h),
  )
