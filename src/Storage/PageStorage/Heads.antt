-- ===== src/Storage/PageStorage/Heads.antt =====
-- The heads of a page, bin/ledger/storage/impl/page_storage_impl.cc: the commits without children.
use peridot.Base.{
  ℕ, Bool, true, false, not, List, [], ◌∷◌, ◌++◌, map, ◌≡◌, ◌≢◌, refl, sym, ap, ◌∙◌, inl, inr, ◌||◌,
  ◌&&◌, ==_iff, ◌==◌, All, contains, arith, Bool-cases, Option, subst,
}
use peridot.Storage.Types.{ok, not_found, done}
use peridot.Storage.Pieces.{ObjectReads, ChangeSource, from_local, from_sync}
use peridot.Storage.PageDb.{Db, Row, Write, put, delete, is_some, after, head_row, commit_row}
use peridot.Storage.PageStorage.{
  Commit, Adding, Outcome, add_commits, set_batch, has_head, set_head, erase_head,
}
use peridot.Storage.PageStorage.Rules.{
  IsKept, AnyCommit, All-AnyCommit, with_commit, commit_writes, head_puts,
}
use peridot.Storage.PageStorage.Outcomes.{add_commits-kept}
use peridot.Storage.PageStorage.Stored.{rows_after, contains-snoc}
use peridot.Storage.PageStorage.Synced.{is_new}

has_head-set_head :
    (i j t : ℕ) (hs : List (ℕ × ℕ)) → has_head i (set_head j t hs) ≡ (j == i || has_head i hs)
has_head-set_head i j t [] = refl
has_head-set_head i j t ((k, u) ∷ hs) = ground (arith, has_head-set_head i j t hs)

has_head-erase_head :
    (i j : ℕ) (hs : List (ℕ × ℕ)) → has_head i (erase_head j hs) ≡ (not (j == i) && has_head i hs)
has_head-erase_head i j [] = ground arith
has_head-erase_head i j ((k, u) ∷ hs) = ground (arith, has_head-erase_head i j hs)

head_puts-row :
    (i : ℕ) (v : Option ℕ) (hs : List (ℕ × ℕ)) (b : List Write)
    → is_some (after (head_puts hs b) (head_row i) v)
      ≡ (has_head i hs || is_some (after b (head_row i) v))
head_puts-row i v [] b = refl
head_puts-row i v ((j, t) ∷ hs) b = head_puts-row i v hs (put (head_row j) t ∷ b) ∙ ground arith

commit_writes-head :
    (source : ChangeSource) (c : Commit) (b : List Write) (i : ℕ) (v : Option ℕ)
    → after (commit_writes source c b) (head_row i) v ≡ after b (head_row i) v
commit_writes-head from_local c b i v = refl
commit_writes-head from_sync c b i v = refl

-- Whether a commit of a list has a parent.
abbrev pub is_parent : ℕ → List Commit → Bool
is_parent i [] = false
is_parent i (c ∷ cs) = contains c.parents i || is_parent i cs

pub is_parent-snoc :
    (i : ℕ) (c : Commit) (cs : List Commit)
    → is_parent i (cs ++ (c ∷ [])) ≡ (is_parent i cs || contains c.parents i)
is_parent-snoc i c [] = ground arith
is_parent-snoc i c (d ∷ ds) = ground (arith, is_parent-snoc i c ds)

module _ (db : Db) (i : ℕ) where
  abbrev was_head : Bool
  was_head = is_some (db.rows (head_row i))

  abbrev row_of : List Write → Bool
  row_of b = is_some (after b (head_row i) (db.rows (head_row i)))

  abbrev Childless : Commit → Type 0
  Childless c = contains c.parents i ≡ false

  abbrev is_sent : Adding → Bool
  is_sent a = contains (map (λ c. c.id) a.commits_to_send) i

  -- Exactly an old head or a new commit is a head, in the batch or in `heads_to_add`.
  abbrev Tips : List ℕ → Adding → Type 0
  Tips gone a = (has_head i a.heads_to_add || row_of a.batch) ≡ (is_sent a || was_head)

  abbrev TipsPut : Adding → Type 0
  TipsPut a =
      (row_of a.batch ≡ (is_sent a || was_head))
      × (has_head i a.heads_to_add ≡ true → row_of a.batch ≡ true)

  other : (p : ℕ) (ps : List ℕ) → contains ps i ≡ false → contains ps p ≡ true → (p == i) ≡ false
  other p ps h k = elim (Bool-cases (p == i)) [
    | inl e ↦
        let q : contains ps i ≡ true = subst (λ z. contains ps z ≡ true) ((==_iff p i).0 e) k in
        absurd (ground arith)
    | inr e ↦ e
  ]

  added_tip :
      (source : ChangeSource) (c : Commit) (a : Adding)
      → Tips [] a
      → Tips [] (with_commit source c a)
  added_tip source c a h =
      ap (λ z. has_head i (set_head c.id c.timestamp a.heads_to_add) || is_some z)
        (commit_writes-head source c a.batch i (db.rows (head_row i)))
      ∙ ground (
        arith,
        has_head-set_head i c.id c.timestamp a.heads_to_add,
        contains-snoc c a.commits_to_send i,
        h,
      )

  Tips-kept : (source : ChangeSource) → IsKept db source Childless Tips TipsPut
  Tips-kept source = record {
    opened = λ a h. ground (arith, h.0, h.1);
    marked = λ c a e h. h;
    erased = λ c p gone a g u e h.
        ground (arith, h, other p c.parents g u, has_head-erase_head i p a.heads_to_add);
    removed = λ c p gone a g u e h. ground (arith, h, other p c.parents g u);
    added = λ c gone a g e k y h. added_tip source c a h;
    orphaned = λ gone a h. h;
    closed = λ a h.
        let q = head_puts-row i (db.rows (head_row i)) a.heads_to_add a.batch in
        (q ∙ h, λ t. ground (arith, q, t));
    piece_put = λ s j a h. h;
    piece_deleted = λ s j a h. h;
  }

  -- The commit is no head that waits to be put, and no head at all if it is the parent of a new commit.
  abbrev Replaced : List ℕ → Adding → Type 0
  Replaced gone a =
      (has_head i a.heads_to_add ≡ false)
      × (contains gone i || is_parent i a.commits_to_send ≡ true → row_of a.batch ≡ false)

  removed_parent :
      (p : ℕ) (gone : List ℕ) (a : Adding)
      → Replaced gone a
      → Replaced (p ∷ gone) (set_batch a (delete (head_row p) ∷ a.batch))
  removed_parent p gone a h = (
    h.0,
    λ t. elim (Bool-cases (p == i)) [ inl e ↦ rw e refl | inr e ↦ ground (arith, e, t, h.1) ],
  )

  has_all :
      (ps gone : List ℕ)
      → All (λ p. contains gone p ≡ true) ps
      → contains ps i ≡ true
      → contains gone i ≡ true
  has_all [] gone h t = absurd (ground arith)
  has_all (p ∷ ps) gone h t = elim (Bool-cases (p == i)) [
    | inl e ↦ subst (λ z. contains gone z ≡ true) ((==_iff p i).0 e) h.0
    | inr e ↦ has_all ps gone h.1 (ground (arith, e, t))
  ]

  added_child :
      (source : ChangeSource) (c : Commit) (gone : List ℕ) (a : Adding)
      → (c.id == i) ≡ false
      → All (λ p. contains gone p ≡ true) c.parents
      → Replaced gone a
      → Replaced [] (with_commit source c a)
  added_child source c gone a e y h = (
    ground (arith, has_head-set_head i c.id c.timestamp a.heads_to_add, e, h.0),
    λ t.
        ap is_some (commit_writes-head source c a.batch i (db.rows (head_row i)))
        ∙ h.1 (ground (arith, t, is_parent-snoc i c a.commits_to_send, has_all c.parents gone y)),
  )

  no_head :
      (p : ℕ) (hs : List (ℕ × ℕ)) → has_head p hs ≡ true → has_head i hs ≡ false → (p == i) ≡ false
  no_head p hs h k = elim (Bool-cases (p == i)) [
    | inl e ↦
        let q : has_head i hs ≡ true = subst (λ z. has_head z hs ≡ true) ((==_iff p i).0 e) h in
        absurd (ground arith)
    | inr e ↦ e
  ]

  differs : (j : ℕ) → j ≢ i → (j == i) ≡ false
  differs j h = ground (arith, h)

  Replaced-kept :
      (source : ChangeSource)
      → ((r : Row) → db.read_status r ≢ not_found)
      → is_some (db.rows (commit_row i)) ≡ true
      → IsKept db source AnyCommit Replaced (λ a. Replaced [] a)
  Replaced-kept source honest known = record {
    opened = λ a h. h;
    marked = λ c a e h. h;
    erased = λ c p gone a g u e h. (
      ground (arith, h.0, has_head-erase_head i p a.heads_to_add),
      λ t. h.1 (ground (arith, t, no_head p a.heads_to_add e h.0)),
    );
    removed = λ c p gone a g u e h. removed_parent p gone a h;
    added = λ c gone a g e k y h.
        added_child source c gone a (differs c.id (is_new db i c honest known e)) y h;
    orphaned = λ gone a h. (h.0, λ t. h.1 (ground (arith, t)));
    closed = λ a h.
        let q = head_puts-row i (db.rows (head_row i)) a.heads_to_add a.batch in
        (h.0, λ t. ground (arith, q, h.0, h.1 t));
    piece_put = λ s j a h. h;
    piece_deleted = λ s j a h. h;
  }

-- No head is lost or made up: if the operation succeeds and no commit of the list has it as its parent, a
-- commit is a head afterwards exactly if it was one before or the watchers were told of it, in whatever
-- order the commits came.
pub add_commits-tips :
    (fuel : ℕ) (objects : ObjectReads) (db : Db) (source : ChangeSource) (commits : List Commit)
    (new_objects : List ℕ) (o : Outcome) (i : ℕ)
    → All (λ c. contains c.parents i ≡ false) commits
    → add_commits fuel objects db commits source new_objects ≡ done o
    → o.status ≡ ok
    → is_some (rows_after db o (head_row i))
      ≡ (contains (map (λ c. c.id) o.notified) i || is_some (db.rows (head_row i)))
add_commits-tips fuel objects db source commits new_objects o i h e s =
    let (a, k, q, n) =
      add_commits-kept fuel objects db source (Childless db i) (Tips db i) (TipsPut db i)
        (Tips-kept db i source) commits new_objects o h (refl, λ t. absurd (ground arith)) e s in
    rw q
      (k.0 ∙ ap (λ cs. contains (map (λ c. c.id) cs) i || is_some (db.rows (head_row i))) (sym n))

-- A commit that was stored is no head any more once the operation has added a child of it, in whatever
-- order the commits came, if a read that fails does not say that the row is not there.
pub add_commits-replaced :
    (fuel : ℕ) (objects : ObjectReads) (db : Db) (source : ChangeSource) (commits : List Commit)
    (new_objects : List ℕ) (o : Outcome) (i : ℕ)
    → ((r : Row) → db.read_status r ≢ not_found)
    → is_some (db.rows (commit_row i)) ≡ true
    → add_commits fuel objects db commits source new_objects ≡ done o
    → o.status ≡ ok
    → is_parent i o.notified ≡ true
    → is_some (rows_after db o (head_row i)) ≡ false
add_commits-replaced fuel objects db source commits new_objects o i honest known e s t =
    let (a, k, q, n) =
      add_commits-kept fuel objects db source AnyCommit (Replaced db i) (λ b. Replaced db i [] b)
        (Replaced-kept db i source honest known) commits new_objects o (All-AnyCommit commits)
        (refl, λ u. absurd (ground arith)) e s in
    rw q (k.1 (ground (arith, subst (λ cs. is_parent i cs ≡ true) n t)))
