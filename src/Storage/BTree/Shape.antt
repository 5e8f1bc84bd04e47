-- ===== src/Storage/BTree/Shape.antt =====
-- What it means that a builder of bin/ledger/storage/impl/btree/builder.cc is a tree with given entries.
use peridot.Base.{
  ℕ, zero, suc, ◌+◌, ◌-◌, ◌≤◌, ◌<◌, ◌≡◌, refl, ap, true, false, List, [], ◌∷◌, ◌++◌, arith, leb,
  subst, ◌⊎◌, inl, inr,
}
use peridot.Storage.Types.{Entry, Result, done, Gives, check}
use peridot.Storage.BTree.{
  TreeNode, NodeBuilder, null_node, unloaded, node, Rows, last, row, is_null, level_of,
  create_new_builder, extract_content, to_level_loop, to_level, Content, of_content,
  compute_content,
}
use peridot.Storage.BTree.Contents.{All, All-append, All-mono}

-- The positions of a map of children rise, from one on.
abbrev pub IsMap : ℕ → List (ℕ × ℕ) → Type 0
IsMap index [] = Unit
IsMap index ((i, oid) ∷ children) = (index ≤ i) × IsMap (i + 1) children

module _ (load : ℕ → Result TreeNode) (get_node_level : ℕ → ℕ) where
  -- The rows of a node at a level, whose children satisfy `P`, have the entries in order, each of the
  -- level of the node.
  abbrev pub IsRows : (NodeBuilder → List Entry → Type 0) → ℕ → Rows → List Entry → Type 0
  IsRows P level (last c) es = P c es
  IsRows P level (row c e rest) es =
      (xs : List Entry) × (ys : List Entry) × (es ≡ xs ++ e ∷ ys)
      × P c xs
      × (get_node_level e.key ≡ level)
      × IsRows P level rest ys

  -- The storage gives a node with the entries under an identifier.
  abbrev pub StoredBy : (NodeBuilder → List Entry → Type 0) → ℕ → ℕ → List Entry → Type 0
  StoredBy P level oid es =
      (n : TreeNode) × (load oid ≡ done n)
      × (n.level ≡ level)
      × IsMap 0 n.children
      × IsRows P level (extract_content n) es

  -- A tree of so many levels has the entries, where an existing node is stored with them, and a node that is not loaded has the content that the
  -- storage gives for it.
  unfoldable pub Is : ℕ → NodeBuilder → List Entry → Type 0
  Is levels null_node es = es ≡ []
  Is zero (unloaded level oid) es = ⊥
  Is zero (node is_new level oid rows) es = ⊥
  Is (suc l) (unloaded level oid) es = (level ≡ l) × StoredBy (Is l) l oid es
  Is (suc l) (node is_new level oid rows) es =
      (level ≡ l) × IsRows (Is l) l rows es × ((is_new ≡ true) ⊎ StoredBy (Is l) l oid es)

  abbrev pub IsContent : ℕ → List Entry → Content → Type 0
  IsContent l es x =
      (x.level ≡ l)
      × IsRows (Is l) l x.rows es
      × ((x.is_new ≡ true) ⊎ StoredBy (Is l) l x.object_identifier es)

  pub Is-of_content :
      (l : ℕ) (es : List Entry) (x : Content) → IsContent l es x → Is (suc l) (of_content x) es
  unfolding Is
  Is-of_content l es x h = h

  pub compute_content-IsContent :
      (l : ℕ) (b : NodeBuilder) (es : List Entry)
      → is_null b ≡ false
      → Is (suc l) b es
      → Gives (IsContent l es) (compute_content load b)
  unfolding Is compute_content
  compute_content-IsContent l null_node es n h = absurd (ground arith)
  compute_content-IsContent l (unloaded level oid) es n (e, (t, r, w, m, q)) =
      rw r (e, q, inr (t, r, w, m, q))
  compute_content-IsContent l (node is_new level oid rows) es n h = h

  pub Is-create_new_builder :
      (l : ℕ) (rows : Rows) (es : List Entry)
      → IsRows (Is l) l rows es
      → Is (suc l) (create_new_builder l rows) es
  unfolding Is create_new_builder
  Is-create_new_builder l (last null_node) es h = h
  Is-create_new_builder l (last (unloaded level oid)) es h = (refl, h, inl refl)
  Is-create_new_builder l (last (node is_new level oid rows)) es h = (refl, h, inl refl)
  Is-create_new_builder l (row c e rest) es h = (refl, h, inl refl)

  pub level_of-Is :
      (n : ℕ) (b : NodeBuilder) (es : List Entry)
      → is_null b ≡ false
      → Is n b es
      → suc (level_of b) ≡ n
  unfolding Is
  level_of-Is n null_node es k h = absurd (ground arith)
  level_of-Is zero (unloaded level oid) es k h = absurd h
  level_of-Is zero (node is_new level oid rows) es k h = absurd h
  level_of-Is (suc l) (unloaded level oid) es k h = ap suc h.0
  level_of-Is (suc l) (node is_new level oid rows) es k h = ap suc h.0

  -- An entry lies at the level of its key, so a tree of so many levels has no key of a higher level.
  IsRows-levels :
      (P : NodeBuilder → List Entry → Type 0) (l : ℕ) (rows : Rows) (es : List Entry)
      → ((c : NodeBuilder) (xs : List Entry) → P c xs → All (λ e. get_node_level e.key < l) xs)
      → IsRows P l rows es
      → All (λ e. get_node_level e.key < suc l) es
  IsRows-levels P l (last c) es k h =
      All-mono (λ e. get_node_level e.key < l) (λ e. get_node_level e.key < suc l) es (k c es h)
        (λ e q. omega arith)
  IsRows-levels P l (row c e rest) es k (xs, ys, q, h, v, r) = rw q (
      All-append (λ e. get_node_level e.key < suc l) xs (e ∷ ys)
        (All-mono (λ e. get_node_level e.key < l) (λ e. get_node_level e.key < suc l) xs (k c xs h)
          (λ e w. omega arith))
        (omega arith, IsRows-levels P l rest ys k r))

  pub Is-levels :
      (n : ℕ) (b : NodeBuilder) (es : List Entry)
      → Is n b es
      → All (λ e. get_node_level e.key < n) es
  unfolding Is
  Is-levels n null_node es h = rw h tt
  Is-levels zero (unloaded level oid) es h = absurd h
  Is-levels zero (node is_new level oid rows) es h = absurd h
  Is-levels (suc l) (unloaded level oid) es (q, (t, r, w, m, h)) =
      IsRows-levels (Is l) l (extract_content t) es (Is-levels l) h
  Is-levels (suc l) (node is_new level oid rows) es h =
      IsRows-levels (Is l) l rows es (Is-levels l) h.1

  is_null-create_new_builder :
      (l : ℕ) (b : NodeBuilder)
      → is_null b ≡ false
      → is_null (create_new_builder l (last b)) ≡ false
  unfolding create_new_builder
  is_null-create_new_builder l b h = ground arith

  to_level_loop-Is :
      (rounds n m : ℕ) (b : NodeBuilder) (es : List Entry)
      → is_null b ≡ false
      → n + rounds ≡ m
      → Is n b es
      → Is m (to_level_loop rounds b) es
  unfolding to_level_loop
  to_level_loop-Is zero n m b es k e h = let q : n ≡ m = omega arith in subst (λ i. Is i b es) q h
  to_level_loop-Is (suc rounds) n m b es k e h =
      let q : n ≡ level_of b + 1 = omega (arith, level_of-Is n b es k h) in
      to_level_loop-Is rounds (suc n) m (create_new_builder (level_of b + 1) (last b)) es
        (is_null-create_new_builder (level_of b + 1) b k) (omega arith)
        (subst (λ i. Is (suc n) (create_new_builder i (last b)) es) q
          (Is-create_new_builder n (last b) es h))

  raised-Is :
      (n target : ℕ) (b : NodeBuilder) (es : List Entry)
      → is_null b ≡ false
      → n ≤ suc target
      → Is n b es
      → Gives
          (λ c. Is (suc target) c es)
          (check (leb (level_of b) target) (done (to_level_loop (target - level_of b) b)))
  raised-Is n target b es z k h =
      let q = level_of-Is n b es z h in
      let t : leb (level_of b) target ≡ true = ground arith in
      rw t (to_level_loop-Is (target - level_of b) n (suc target) b es z (omega arith) h)

  -- Raised to a level, a tree has the same entries.
  pub to_level-Is :
      (n target : ℕ) (b : NodeBuilder) (es : List Entry)
      → n ≤ suc target
      → Is n b es
      → Gives (λ c. Is (suc target) c es) (to_level target b)
  unfolding to_level Is
  to_level-Is n target null_node es k h = h
  to_level-Is n target (unloaded level oid) es k h =
      raised-Is n target (unloaded level oid) es refl k h
  to_level-Is n target (node is_new level oid rows) es k h =
      raised-Is n target (node is_new level oid rows) es refl k h
