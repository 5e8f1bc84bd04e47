-- ===== src/Storage/BTree/Applies.antt =====
-- `Apply` of bin/ledger/storage/impl/btree/builder.cc, and a whole list of changes.
use peridot.Base.{
  ℕ, zero, suc, ◌≤◌, ◌<◌, ◌≡◌, ◌≢◌, refl, ap, sym, Bool, true, false, Option, none, some, List, [],
  ◌∷◌, ◌++◌, arith, ltb, ◌==◌, subst, Bool-cases, ◌⊎◌, inl, inr, if◌then◌else◌,
}
use peridot.Storage.Types.{Entry, EntryChange, Result, Gives, Gives-bind, ◌>>=◌}
use peridot.Storage.BTree.{
  TreeNode, NodeBuilder, null_node, unloaded, node, Rows, last, row, is_null, level_of, Content,
  compute_content, apply_rows, raised, applied, apply_null, apply_content, apply, apply_all, delete,
  update, to_level, dec8,
}
use peridot.Storage.BTree.Contents.{
  IsSorted, IsSorted-parts, edit, effect, inserted, edit_left, edit_right, effect-IsSorted,
}
use peridot.Storage.BTree.Shape.{
  IsRows, Is, StoredBy, IsContent, compute_content-IsContent, level_of-Is, to_level-Is,
}
use peridot.Storage.BTree.Deletes.{Outcome, mutated, kept, unset, delete-Is, new_content-Is}
use peridot.Storage.BTree.Updates.{update-Is}

module _ (load : ℕ → Result TreeNode) (get_node_level : ℕ → ℕ) where
  abbrev R : ℕ → Rows → List Entry → Type 0
  R l = IsRows load get_node_level (Is load get_node_level l) l

  -- What is reported of entries that were `old`: that they have been changed, or that they are the same.
  abbrev Reported : List Entry → List Entry → Option Bool → Type 0
  Reported old es m = (m ≡ some true) ⊎ ((m ≡ some false) × (es ≡ old))

  abbrev ChildOf : ℕ → List Entry → List Entry → NodeBuilder × Option Bool → Type 0
  ChildOf l old es r = Is load get_node_level l r.0 es × Reported old es r.1

  abbrev RowsOf : ℕ → List Entry → List Entry → Rows × Option Bool → Type 0
  RowsOf l old es r = R l r.0 es × Reported old es r.1

  -- The same entries on the one side of a row, or in its child.
  Reported-ap :
      (f : List Entry → List Entry) (old es : List Entry) (m : Option Bool)
      → Reported old es m
      → Reported (f old) (f es) m
  Reported-ap f old es m (inl h) = inl h
  Reported-ap f old es m (inr (h, q)) = inr (h, ap f q)

  apply_rows-R :
      (k l : ℕ) (mid : List Entry) (f : NodeBuilder → Result (NodeBuilder × Option Bool))
      (rows : Rows) (es : List Entry)
      → get_node_level k < l
      → ((c : NodeBuilder) (xs : List Entry)
          → Is load get_node_level l c xs
          → IsSorted xs
          → Gives (ChildOf l xs (edit k mid xs)) (f c))
      → R l rows es
      → IsSorted es
      → Gives (RowsOf l es (edit k mid es)) (apply_rows f k rows)
  unfolding apply_rows
  apply_rows-R k l mid f (last c) es v g h s =
      Gives-bind (ChildOf l es (edit k mid es)) _ (f c) _ (g c es h s) (λ r w. w)
  apply_rows-R k l mid f (row c e rest) es v g (xs, ys, q, h, p, r) s =
      let u = subst IsSorted q s in
      let (sx, _, _, sy) = IsSorted-parts xs e ys u in
      rw q (elim (Bool-cases (ltb e.key k)) [
        | inl lt ↦
            let less : e.key < k = ground arith in
            rw (lt, edit_right k mid xs e ys less u)
              (Gives-bind (RowsOf l ys (edit k mid ys)) _ (apply_rows f k rest) _
                (apply_rows-R k l mid f rest ys v g r sy)
                (λ t w. (
                  (xs, edit k mid ys, refl, h, p, w.0),
                  Reported-ap (λ z. xs ++ e ∷ z) ys (edit k mid ys) t.1 w.1,
                )))
        | inr ge ↦
            let differs : e.key ≢ k = λ d. (let z = ap get_node_level d in omega arith) in
            let test : (e.key == k) ≡ false = ground arith in
            let more : k < e.key = ground arith in
            rw (ge, test, edit_left k mid xs e ys more u)
              (Gives-bind (ChildOf l xs (edit k mid xs)) _ (f c) _ (g c xs h sx) (λ t w. (
                (edit k mid xs, ys, refl, w.0, p, r),
                Reported-ap (λ z. z ++ e ∷ ys) xs (edit k mid xs) t.1 w.1,
              )))
      ])

  raised-ChildOf :
      (k l : ℕ) (old es : List Entry) (r : NodeBuilder × Option Bool)
      → get_node_level k < l
      → l < 256
      → Outcome load get_node_level l k old es r
      → Gives (ChildOf l old es) (raised l r)
  unfolding raised
  raised-ChildOf k l old es r v b (mutated {b = c} m p i) =
      let e : suc (dec8 l) ≡ l = omega arith in
      Gives-bind (λ d. Is load get_node_level (suc (dec8 l)) d es) _ (to_level (dec8 l) c) _
        (to_level-Is load get_node_level m (dec8 l) c es (ground arith) i)
        (λ d j. (subst (λ z. Is load get_node_level z d es) e j, inl refl))
  raised-ChildOf k l old es r v b (kept q i) = (i, inr (refl, q))
  raised-ChildOf k l old es r v b (unset h q i) = absurd (omega arith)

  applied-Outcome :
      (k l : ℕ) (x : Content) (old es : List Entry) (r : Rows × Option Bool)
      → IsContent load get_node_level l old x
      → RowsOf l old es r
      → Outcome load get_node_level (suc l) k old es (applied x r)
  unfolding applied Is
  applied-Outcome k l x old es (rows, some true) c w =
      mutated (suc l) (inl refl) (new_content-Is load get_node_level l x rows old es c w.0)
  applied-Outcome k l x old es (rows, some false) c (w, inl q) = absurd (ground arith)
  applied-Outcome k l x old es (rows, some false) c (w, inr (q, e)) = kept e (
    c.0,
    w,
    subst
        (λ z.
          (x.is_new ≡ true)
          ⊎ StoredBy load get_node_level (Is load get_node_level l) l x.object_identifier z)
        (sym e) c.2,
  )
  applied-Outcome k l x old es (rows, none) c (w, inl q) = absurd (ground arith)
  applied-Outcome k l x old es (rows, none) c (w, inr (q, e)) = absurd (ground arith)

  abbrev changed : EntryChange → List Entry → List Entry
  changed change es = edit change.entry.key (inserted change) es

  apply_null-Outcome :
      (n : ℕ) (change : EntryChange)
      → Outcome load get_node_level n change.entry.key []
          (changed change [])
          (apply_null load get_node_level change)
  unfolding apply_null edit Is
  apply_null-Outcome n change = elim (Bool-cases change.deleted) [
    | inl d ↦ rw d (kept refl refl)
    | inr p ↦ rw p (
        mutated (suc (get_node_level change.entry.key)) (inr refl)
          (refl, ([], [], refl, refl, refl, refl), inl refl))
  ]

  apply_below :
      (l : ℕ) (change : EntryChange) (f : NodeBuilder → Result (NodeBuilder × Option Bool))
      (b : NodeBuilder) (es : List Entry)
      → get_node_level change.entry.key < l
      → l < 256
      → ((c : NodeBuilder) (xs : List Entry)
          → Is load get_node_level l c xs
          → IsSorted xs
          → Gives (Outcome load get_node_level l change.entry.key xs (changed change xs)) (f c))
      → is_null b ≡ false
      → Is load get_node_level (suc l) b es
      → IsSorted es
      → Gives
          (Outcome load get_node_level (suc l) change.entry.key es (changed change es))
          (compute_content load b >>= apply_content load get_node_level f change.entry.key)
  unfolding apply_content
  apply_below l change f b es v bound g n i s =
      let k = change.entry.key in
      Gives-bind (IsContent load get_node_level l es) _ (compute_content load b) _
        (compute_content-IsContent load get_node_level l b es n i)
        (λ x c.
          Gives-bind (RowsOf l es (changed change es)) _
            (apply_rows (λ d. f d >>= raised x.level) k x.rows) _
            (apply_rows-R k l (inserted change) (λ d. f d >>= raised x.level) x.rows es v
              (λ d xs j t.
                Gives-bind (Outcome load get_node_level l k xs (changed change xs)) _ (f d) _
                  (g d xs j t)
                  (λ r o.
                    subst (λ z. Gives (ChildOf l xs (changed change xs)) (raised z r)) (sym c.0)
                      (raised-ChildOf k l xs (changed change xs) r v bound o)))
              c.1 s)
            (λ r w. applied-Outcome k l x es (changed change es) r c w))

  apply_above :
      (fuel l : ℕ) (change : EntryChange) (b : NodeBuilder) (es : List Entry)
      → l ≤ fuel
      → l ≤ get_node_level change.entry.key
      → get_node_level change.entry.key < 256
      → is_null b ≡ false
      → Is load get_node_level (suc l) b es
      → IsSorted es
      → Gives (Outcome load get_node_level (suc l) change.entry.key es (changed change es)) (
          if change.deleted
          then delete load fuel (get_node_level change.entry.key) change.entry.key b
          else update load fuel (get_node_level change.entry.key) change.entry b)
  apply_above fuel l change b es h v bound n i s = elim (Bool-cases change.deleted) [
    | inl d ↦ rw d (delete-Is load get_node_level fuel l change.entry.key b es h v n i s)
    | inr p ↦ rw p (update-Is load get_node_level fuel l change.entry b es h v bound n i s)
  ]

  apply_loaded :
      (fuel l : ℕ) (change : EntryChange) (f : NodeBuilder → Result (NodeBuilder × Option Bool))
      (b : NodeBuilder) (es : List Entry)
      → l ≤ fuel
      → l < 256
      → get_node_level change.entry.key < 256
      → ((c : NodeBuilder) (xs : List Entry)
          → Is load get_node_level l c xs
          → IsSorted xs
          → Gives (Outcome load get_node_level l change.entry.key xs (changed change xs)) (f c))
      → is_null b ≡ false
      → Is load get_node_level (suc l) b es
      → IsSorted es
      → Gives (Outcome load get_node_level (suc l) change.entry.key es (changed change es)) (
          if ltb (get_node_level change.entry.key) (level_of b)
          then compute_content load b >>= apply_content load get_node_level f change.entry.key
          else if change.deleted
          then delete load fuel (get_node_level change.entry.key) change.entry.key b
          else update load fuel (get_node_level change.entry.key) change.entry b)
  apply_loaded fuel l change f b es h small bound g n i s =
      let q : suc (level_of b) ≡ suc l = level_of-Is load get_node_level (suc l) b es n i in
      elim (Bool-cases (ltb (get_node_level change.entry.key) (level_of b))) [
        | inl lower ↦ rw lower (apply_below l change f b es (ground arith) small g n i s)
        | inr not_lower ↦ rw not_lower (apply_above fuel l change b es h (ground arith) bound n i s)
      ]

  -- A change of a tree with sorted entries gives the tree with the changed entries, and fails no check,
  -- if there is as much fuel as levels and the levels are bytes.
  pub apply-Is :
      (fuel n : ℕ) (change : EntryChange) (b : NodeBuilder) (es : List Entry)
      → n ≤ fuel
      → n ≤ 256
      → get_node_level change.entry.key < 256
      → Is load get_node_level n b es
      → IsSorted es
      → Gives
          (Outcome load get_node_level n change.entry.key es (effect change es))
          (apply load get_node_level fuel change b)
  unfolding apply effect Is
  apply-Is fuel n change null_node es h small bound i s =
      subst
        (λ z.
          Outcome load get_node_level n change.entry.key z (changed change z)
            (apply_null load get_node_level change))
        (sym i) (apply_null-Outcome n change)
  apply-Is fuel zero change (unloaded level oid) es h small bound i s = absurd i
  apply-Is fuel zero change (node is_new level oid rows) es h small bound i s = absurd i
  apply-Is zero (suc l) change (unloaded level oid) es h small bound i s = absurd (omega arith)
  apply-Is zero (suc l) change (node is_new level oid rows) es h small bound i s =
      absurd (omega arith)
  apply-Is (suc fuel) (suc l) change (unloaded level oid) es h small bound i s =
      apply_loaded fuel l change (apply load get_node_level fuel change) (unloaded level oid) es
        (omega arith) (omega arith) bound
        (λ c xs j t. apply-Is fuel l change c xs (omega arith) (omega arith) bound j t) refl i s
  apply-Is (suc fuel) (suc l) change (node is_new level oid rows) es h small bound i s =
      apply_loaded fuel l change (apply load get_node_level fuel change)
        (node is_new level oid rows) es (omega arith) (omega arith) bound
        (λ c xs j t. apply-Is fuel l change c xs (omega arith) (omega arith) bound j t) refl i s

  -- The entries after some changes in turn.
  abbrev pub effects : List EntryChange → List Entry → List Entry
  effects [] es = es
  effects (change ∷ changes) es = effects changes (effect change es)

  -- A tree of at most 256 levels, as a byte allows, that has the entries.
  abbrev pub IsTree : List Entry → NodeBuilder → Type 0
  IsTree es b = (n : ℕ) × (n ≤ 256) × Is load get_node_level n b es

  Outcome-IsTree :
      (n k : ℕ) (old es : List Entry) (r : NodeBuilder × Option Bool)
      → n ≤ 256
      → get_node_level k < 256
      → Outcome load get_node_level n k old es r
      → IsTree es r.0
  Outcome-IsTree n k old es r h b (mutated m p i) = (m, ground arith, i)
  Outcome-IsTree n k old es r h b (kept q i) = (n, h, i)
  Outcome-IsTree n k old es r h b (unset v q i) = (n, h, i)

  -- Any changes of a tree with sorted entries succeed, and give the tree with the entries that the
  -- changes make of those: the B-tree implements a sorted map. The levels of keys are bytes, and the
  -- storage gives the nodes of the tree.
  pub apply_all-IsTree :
      ((key : ℕ) → get_node_level key < 256)
      → (changes : List EntryChange) (b : NodeBuilder) (es : List Entry) → IsTree es b
      → IsSorted es
      → Gives (IsTree (effects changes es)) (apply_all load get_node_level 256 changes b)
  unfolding apply_all
  apply_all-IsTree bound [] b es h s = h
  apply_all-IsTree bound (change ∷ changes) b es (n, h, i) s =
      Gives-bind (Outcome load get_node_level n change.entry.key es (effect change es)) _
        (apply load get_node_level 256 change b) _
        (apply-Is 256 n change b es h h (bound change.entry.key) i s)
        (λ r o.
          apply_all-IsTree bound changes r.0 (effect change es)
            (Outcome-IsTree n change.entry.key es (effect change es) r h (bound change.entry.key) o)
            (effect-IsSorted change es s))
