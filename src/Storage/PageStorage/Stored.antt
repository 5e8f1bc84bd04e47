-- ===== src/Storage/PageStorage/Stored.antt =====
-- The stored commits of a page, bin/ledger/storage/impl/page_storage_impl.cc: their parents are stored,
-- and what is synced stays so.
use peridot.Base.{
  ℕ, Bool, true, false, List, [], ◌∷◌, ◌++◌, map, ◌≡◌, refl, sym, ap, ◌∙◌, inl, inr, ◌||◌, ◌==◌,
  All, All-mono, All-append, contains, arith, if◌then◌else◌, Option, none, some,
}
use peridot.Storage.Types.{ok, not_found, is_ok, done}
use peridot.Storage.Pieces.{ObjectReads, ChangeSource, from_local, from_sync}
use peridot.Storage.PageDb.{Db, Row, Write, is_some, after, found, commit_row}
use peridot.Storage.PageStorage.{
  Commit, Adding, is_first_commit, contains_commit, Outcome, add_commits,
}
use peridot.Storage.PageStorage.Rules.{
  IsKept, AnyCommit, All-AnyCommit, head_puts-keeps, IsThere, with_commit, commit_writes,
}
use peridot.Storage.PageStorage.Outcomes.{add_commits-kept}

-- The rows after an operation.
abbrev pub rows_after : Db → Outcome → Row → Option ℕ
rows_after db o r = after o.executed r (db.rows r)

abbrev pub IsStored : (Row → Option ℕ) → ℕ → Type 0
IsStored rows i = is_first_commit i || is_some (rows (commit_row i)) ≡ true

-- The commits are stored, and so are their parents.
abbrev pub IsClosed : (Row → Option ℕ) → List Commit → Type 0
IsClosed rows = All (λ c. IsStored rows c.id × All (IsStored rows) c.parents)

pub contains_commit-ok : (db : Db) (i : ℕ) → contains_commit db i ≡ ok → IsStored db.rows i
unfolding contains_commit
contains_commit-ok db i h =
    go (is_first_commit i) (is_ok (db.read_status (commit_row i))) (db.rows (commit_row i)) refl h
  where
    go :
        (f t : Bool) (v : Option ℕ)
        → is_ok (db.read_status (commit_row i)) ≡ t
        → (if f then ok else (if t then found v else (db.read_status (commit_row i), 0)).0) ≡ ok
        → f || is_some v ≡ true
    go true t v q e = refl
    go false t (some v) q e = refl
    go false true none q e = absurd (ground arith)
    go false false none q e = let r : false ≡ true = sym q ∙ ap is_ok e in r

pub contains-snoc :
    (c : Commit) (cs : List Commit) (i : ℕ)
    → contains (map (λ d. d.id) (cs ++ (c ∷ []))) i ≡ (c.id == i || contains (map (λ d. d.id) cs) i)
contains-snoc c [] i = ground arith
contains-snoc c (d ∷ ds) i = ground (arith, contains-snoc c ds i)

module _ (db : Db) where
  -- The rows of commits are those that were there and those of the commits to send, whose parents are there.
  pub record StoredIn (a : Adding) : Type 0 where
    pub row :
        (i : ℕ)
        → is_some (after a.batch (commit_row i) (db.rows (commit_row i)))
          ≡ contains a.added_commits i || is_some (db.rows (commit_row i))
    pub same : (i : ℕ) → contains (map (λ c. c.id) a.commits_to_send) i ≡ contains a.added_commits i
    pub sent :
        All
          (λ c. (contains a.added_commits c.id ≡ true) × All (IsThere db a.added_commits) c.parents)
          a.commits_to_send

  IsThere-later :
      (i : ℕ) (added ps : List ℕ) → All (IsThere db added) ps → All (IsThere db (i ∷ added)) ps
  IsThere-later i added ps h =
      All-mono (IsThere db added) (IsThere db (i ∷ added)) ps h
        (λ p l. elim l [ inl e ↦ inl (ground arith) | inr e ↦ inr e ])

  commit_writes-row :
      (source : ChangeSource) (c : Commit) (b : List Write) (i : ℕ) (v : Option ℕ)
      → is_some (after (commit_writes source c b) (commit_row i) v)
        ≡ (c.id == i || is_some (after b (commit_row i) v))
  commit_writes-row from_local c b i v = ground arith
  commit_writes-row from_sync c b i v = ground arith

  StoredIn-added :
      (source : ChangeSource) (c : Commit) (a : Adding)
      → contains_commit db c.id ≡ not_found
      → All (IsThere db a.added_commits) c.parents
      → StoredIn a
      → StoredIn (with_commit source c a)
  StoredIn-added source c a e k h = record {
    row = λ i.
        commit_writes-row source c a.batch i (db.rows (commit_row i)) ∙ ground (arith, h.row i);
    same = λ i. contains-snoc c a.commits_to_send i ∙ ap (λ z. c.id == i || z) (h.same i);
    sent =
        All-append
          (λ d.
            (contains (c.id ∷ a.added_commits) d.id ≡ true)
            × All (IsThere db (c.id ∷ a.added_commits)) d.parents)
          a.commits_to_send (c ∷ [])
          (All-mono _ _ a.commits_to_send h.sent
            (λ d l. (ground (arith, l.0), IsThere-later c.id a.added_commits d.parents l.1)))
          ((ground arith, IsThere-later c.id a.added_commits c.parents k), tt);
  }

  pub StoredIn-kept :
      (source : ChangeSource) → IsKept db source AnyCommit (λ gone a. StoredIn a) StoredIn
  StoredIn-kept source = record {
    opened = λ a h. h;
    marked = λ c a e h. record { row = h.row; same = h.same; sent = h.sent };
    erased = λ c p gone a g u e h. record { row = h.row; same = h.same; sent = h.sent };
    removed = λ c p gone a g u e h. record { row = h.row; same = h.same; sent = h.sent };
    added = λ c gone a g e k y h. StoredIn-added source c a e k h;
    orphaned = λ gone a h. h;
    closed = λ a.
        head_puts-keeps StoredIn a.heads_to_add a
          (λ i t b h. record { row = h.row; same = h.same; sent = h.sent });
    piece_put = λ s i a h. record { row = h.row; same = h.same; sent = h.sent };
    piece_deleted = λ s i a h. record { row = h.row; same = h.same; sent = h.sent };
  }

  pub IsThere-IsStored :
      (a : Adding) (o : Outcome) (p : ℕ)
      → StoredIn a
      → o.executed ≡ a.batch
      → IsThere db a.added_commits p
      → IsStored (rows_after db o) p
  IsThere-IsStored a o p h e (inl q) = rw e ground (arith, h.row p)
  IsThere-IsStored a o p h e (inr q) = rw e ground (arith, h.row p, contains_commit-ok db p q)

  IsStored-kept :
      (a : Adding) (o : Outcome) (i : ℕ)
      → StoredIn a
      → o.executed ≡ a.batch
      → IsStored db.rows i
      → IsStored (rows_after db o) i
  IsStored-kept a o i h e q = rw e ground (arith, h.row i)

module _ (fuel : ℕ) (objects : ObjectReads) (db : Db) (source : ChangeSource) where
  added_batch :
      (commits : List Commit) (new_objects : List ℕ) (o : Outcome)
      → add_commits fuel objects db commits source new_objects ≡ done o
      → o.status ≡ ok
      → (a : Adding) × StoredIn db a × (o.executed ≡ a.batch) × (o.notified ≡ a.commits_to_send)
  added_batch commits new_objects o =
      add_commits-kept fuel objects db source AnyCommit (λ gone a. StoredIn db a) (StoredIn db)
        (StoredIn-kept db source) commits new_objects o (All-AnyCommit commits)
        (record { row = λ i. refl; same = λ i. refl; sent = tt })

  -- If the operation succeeds, a commit is in the database exactly if it was there before or the watchers
  -- were told of it.
  pub add_commits-exact :
      (commits : List Commit) (new_objects : List ℕ) (o : Outcome)
      → add_commits fuel objects db commits source new_objects ≡ done o
      → o.status ≡ ok
      → (i : ℕ)
      → is_some (rows_after db o (commit_row i))
        ≡ contains (map (λ c. c.id) o.notified) i || is_some (db.rows (commit_row i))
  add_commits-exact commits new_objects o e s i =
      let (a, h, q, n) = added_batch commits new_objects o e s in
      rw q (
        h.row i
        ∙ ap (λ z. z || is_some (db.rows (commit_row i)))
            (sym (h.same i) ∙ ap (λ cs. contains (map (λ c. c.id) cs) i) (sym n)))

  -- Closed under parents stays closed under parents: if the operation succeeds, the commits that were
  -- stored together with their parents are still stored, and so are the commits that the watchers were told
  -- of and their parents, in whatever order they came.
  pub add_commits-IsClosed :
      (commits : List Commit) (new_objects : List ℕ) (o : Outcome) (old : List Commit)
      → add_commits fuel objects db commits source new_objects ≡ done o
      → o.status ≡ ok
      → IsClosed db.rows old
      → IsClosed (rows_after db o) (old ++ o.notified)
  add_commits-IsClosed commits new_objects o old e s h =
      let (a, k, q, n) = added_batch commits new_objects o e s in
      let stays : (i : ℕ) → IsStored db.rows i → IsStored (rows_after db o) i =
        λ i. IsStored-kept db a o i k q in
      All-append (λ c. IsStored (rows_after db o) c.id × All (IsStored (rows_after db o)) c.parents)
        old o.notified
        (All-mono _ _ old h (λ c l. (
          stays c.id l.0,
          All-mono (IsStored db.rows) (IsStored (rows_after db o)) c.parents l.1 stays,
        )))
        (rw n (
          All-mono _ _ a.commits_to_send k.sent (λ c l. (
            IsThere-IsStored db a o c.id k q (inl l.0),
            All-mono (IsThere db a.added_commits) (IsStored (rows_after db o)) c.parents l.1
                (λ p. IsThere-IsStored db a o p k q),
          ))))
