-- ===== src/Storage/BTree/Updates.antt =====
-- `Update` of bin/ledger/storage/impl/btree/builder.cc.
use mathlib.Core.List.{append_assoc}
use peridot.Base.{
  ℕ, suc, ◌≤◌, ◌<◌, ◌≡◌, refl, ap, sym, true, false, Option, none, some, List, [], ◌∷◌, ◌++◌, arith,
  ltb, leb, ◌==◌, subst, Bool-cases, inl, inr,
}
use peridot.Storage.Types.{Entry, Result, Gives, Gives-bind}
use peridot.Storage.BTree.{
  TreeNode, NodeBuilder, Rows, last, row, is_null, level_of, Content, compute_content, is_same,
  update_rows, updated, split, update, new_root, to_level, dec8,
}
use peridot.Storage.BTree.Contents.{
  IsSorted, IsSorted-parts, below, above, edit, edit_left, edit_right, edit_hit,
}
use peridot.Storage.BTree.Shape.{
  IsRows, Is, IsContent, Is-of_content, compute_content-IsContent, Is-create_new_builder,
  level_of-Is, to_level-Is,
}
use peridot.Storage.BTree.Splits.{SplitOf, split-Is}
use peridot.Storage.BTree.Deletes.{Outcome, mutated, kept, FoundOf, put_row-FoundOf}

module _ (load : ℕ → Result TreeNode) (get_node_level : ℕ → ℕ) where
  abbrev R : ℕ → Rows → List Entry → Type 0
  R l = IsRows load get_node_level (Is load get_node_level l) l

  module _ (entry : Entry) (l : ℕ) (at_level : get_node_level entry.key ≡ l) where
    abbrev edited : List Entry → List Entry
    edited es = edit entry.key (entry ∷ []) es

    is_same-eq : (e : Entry) → e.key ≡ entry.key → is_same e entry ≡ true → e ≡ entry
    is_same-eq e h s = ground arith

    replaced-eq :
        (e : Entry)
        → e.key ≡ entry.key
        → record e { object_identifier = entry.object_identifier; priority = entry.priority }
          ≡ entry
    replaced-eq e h = ground arith

    update_rows-R :
        (f : NodeBuilder → Result (NodeBuilder × NodeBuilder)) (rows : Rows) (es : List Entry)
        → ((c : NodeBuilder) (xs : List Entry)
            → Is load get_node_level l c xs
            → IsSorted xs
            → Gives (SplitOf load get_node_level l entry.key xs) (f c))
        → R l rows es
        → IsSorted es
        → Gives (FoundOf load get_node_level l es (edited es)) (update_rows f entry rows)
    unfolding update_rows edit
    update_rows-R f (last c) es g h s =
        Gives-bind (SplitOf load get_node_level l entry.key es) _ (f c) _ (g c es h s)
          (λ t w. (below entry.key es, above entry.key es, refl, w.0, at_level, w.1))
    update_rows-R f (row c e rest) es g (xs, ys, q, h, v, r) s =
        let u = subst IsSorted q s in
        let (sx, _, _, sy) = IsSorted-parts xs e ys u in
        rw q (elim (Bool-cases (ltb e.key entry.key)) [
          | inl lt ↦
              let less : e.key < entry.key = ground arith in
              rw (lt, edit_right entry.key (entry ∷ []) xs e ys less u)
                (Gives-bind (FoundOf load get_node_level l ys (edited ys)) _
                  (update_rows f entry rest) _ (update_rows-R f rest ys g r sy)
                  (λ found w.
                    put_row-FoundOf load get_node_level l c e found xs ys (edited ys) h v w))
          | inr ge ↦ elim (Bool-cases (e.key == entry.key)) [
            | inl same ↦
                let hit : e.key ≡ entry.key = ground arith in
                rw (ge, same, edit_hit entry.key (entry ∷ []) xs e ys hit u)
                  (elim (Bool-cases (is_same e entry)) [
                    | inl identical ↦
                        rw identical (ap (λ z. xs ++ z ∷ ys) (sym (is_same-eq e hit identical)))
                    | inr changes ↦
                        rw changes
                          (xs, ys, ap (λ z. xs ++ z ∷ ys) (sym (replaced-eq e hit)), h, v, r)
                  ])
            | inr differs ↦
                let more : entry.key < e.key = ground arith in
                rw (ge, differs, edit_left entry.key (entry ∷ []) xs e ys more u)
                  (Gives-bind (SplitOf load get_node_level l entry.key xs) _ (f c) _ (g c xs h sx)
                    (λ t w. (
                      below entry.key xs,
                      above entry.key xs ++ e ∷ ys,
                      append_assoc (below entry.key xs) (entry ∷ above entry.key xs) (e ∷ ys),
                      w.0,
                      at_level,
                      (above entry.key xs, ys, refl, w.1, v, r),
                    )))
          ]
        ])

    updated-Outcome :
        (x : Content) (es : List Entry) (found : Option Rows)
        → IsContent load get_node_level l es x
        → FoundOf load get_node_level l es (edited es) found
        → Outcome load get_node_level (suc l) entry.key es (edited es) (updated x found)
    unfolding updated Is
    updated-Outcome x es none c w = kept w (
        Is-of_content load get_node_level l (edited es) x
          (subst (λ z. IsContent load get_node_level l z x) (sym w) c))
    updated-Outcome x es (some rows) c w = mutated (suc l) (inl refl) (c.0, w, inl refl)

  -- A tree is split under a new root for a key of a higher level.
  new_root-Outcome :
      (n : ℕ) (entry : Entry) (es : List Entry) (s : NodeBuilder × NodeBuilder)
      → 0 < n
      → n ≤ get_node_level entry.key
      → get_node_level entry.key < 256
      → SplitOf load get_node_level n entry.key es s
      → Gives
          (Outcome load get_node_level n entry.key es (edit entry.key (entry ∷ []) es))
          (new_root load (get_node_level entry.key) entry s)
  unfolding new_root edit
  new_root-Outcome n entry es s p h b w =
      let kl = get_node_level entry.key in
      let e : suc (dec8 kl) ≡ kl = omega arith in
      let raise = λ (c : NodeBuilder) (xs : List Entry) (i : Is load get_node_level n c xs).
        to_level-Is load get_node_level n (dec8 kl) c xs (omega arith) i in
      Gives-bind (λ c. Is load get_node_level (suc (dec8 kl)) c (below entry.key es)) _
        (to_level (dec8 kl) s.0) _ (raise s.0 (below entry.key es) w.0)
        (λ left i.
          Gives-bind (λ c. Is load get_node_level (suc (dec8 kl)) c (above entry.key es)) _
            (to_level (dec8 kl) s.1) _ (raise s.1 (above entry.key es) w.1)
            (λ right j. mutated (suc kl) (inr refl) (
              Is-create_new_builder load get_node_level kl (row left entry (last right)) _ (
                below entry.key es,
                above entry.key es,
                refl,
                subst (λ m. Is load get_node_level m left (below entry.key es)) e i,
                refl,
                subst (λ m. Is load get_node_level m right (above entry.key es)) e j,
              ))))

  -- An entry is put into a tree that is not null and whose levels are at most the key's.
  pub update-Is :
      (fuel l : ℕ) (entry : Entry) (b : NodeBuilder) (es : List Entry)
      → l ≤ fuel
      → l ≤ get_node_level entry.key
      → get_node_level entry.key < 256
      → is_null b ≡ false
      → Is load get_node_level (suc l) b es
      → IsSorted es
      → Gives
          (Outcome load get_node_level (suc l) entry.key es (edit entry.key (entry ∷ []) es))
          (update load fuel (get_node_level entry.key) entry b)
  unfolding update
  update-Is fuel l entry b es h v bound n i s =
      let kl = get_node_level entry.key in
      let q : suc (level_of b) ≡ suc l = level_of-Is load get_node_level (suc l) b es n i in
      let t : leb (level_of b) kl ≡ true = ground arith in
      rw (n, t)
        (elim (Bool-cases (ltb (level_of b) kl)) [
          | inl higher ↦
              let up : suc l ≤ kl = ground arith in
              rw higher (
                Gives-bind (SplitOf load get_node_level (suc l) entry.key es) _
                  (split load (suc fuel) entry.key b) _
                  (split-Is load get_node_level (suc fuel) (suc l) entry.key b es (omega arith) up i
                    s)
                  (λ t w. new_root-Outcome (suc l) entry es t (omega arith) up bound w))
          | inr not_higher ↦
              let at_level : kl ≡ l = ground arith in
              rw not_higher (
                Gives-bind (IsContent load get_node_level l es) _ (compute_content load b) _
                  (compute_content-IsContent load get_node_level l b es n i)
                  (λ x c.
                    Gives-bind (FoundOf load get_node_level l es (edit entry.key (entry ∷ []) es)) _
                      (update_rows (split load fuel entry.key) entry x.rows) _
                      (update_rows-R entry l at_level (split load fuel entry.key) x.rows es
                        (λ d xs j z. split-Is load get_node_level fuel l entry.key d xs h v j z) c.1
                        s)
                      (λ found w. updated-Outcome entry l at_level x es found c w)))
        ])
