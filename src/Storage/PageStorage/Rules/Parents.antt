-- ===== src/Storage/PageStorage/Rules/Parents.antt =====
-- One commit of `SynchronousAddCommits`, bin/ledger/storage/impl/page_storage_impl.cc: its parents are
-- looked for and removed from the heads, and it is added.
use peridot.Base.{
  All, ℕ, Bool, true, false, List, [], ◌∷◌, ◌≡◌, refl, ◌∙◌, inl, inr, Bool-cases, contains, arith,
  subst, if◌then◌else◌,
}
use peridot.Storage.Types.{
  Status, ok, not_found, io_error, format_error, illegal_state, internal_io_error, interrupted,
  not_connected_error, no_such_child, object_digest_mismatch, not_implemented, done, Ends,
  Ends-bind, Ends-mono, ◌>>=◌,
}
use peridot.Storage.Pieces.{ChangeSource, from_local, from_sync}
use peridot.Storage.PageDb.{
  Db, Write, put, delete, head_row, commit_row, unsynced_row, write, remove_head,
  add_commit_storage_bytes, mark_commit_id_unsynced,
}
use peridot.Storage.PageStorage.{
  Commit, Adding, set_batch, has_head, contains_commit, parent_status, mark_unsynced, has_parent,
  remove_parent, remove_parents, add_new_commit,
}
use peridot.Storage.PageStorage.Rules.{write-Ends, IsThere, commit_writes, IsKept}

module _ (db : Db) (source : ChangeSource) (In : Commit → Type 0) (I : List ℕ → Adding → Type 0)
    (E : Adding → Type 0) (kept : IsKept db source In I E) where
  remove_parent-keeps :
      (c : Commit) (p : ℕ) (gone : List ℕ) (a : Adding)
      → In c
      → contains c.parents p ≡ true
      → I gone a
      → Ends (λ b. I (p ∷ gone) b × (b.added_commits ≡ a.added_commits)) (remove_parent db p a)
  unfolding remove_parent remove_head
  remove_parent-keeps c p gone a g u h = elim (Bool-cases (has_head p a.heads_to_add)) [
    | inl e ↦ rw e (kept.erased c p gone a g u e h, refl)
    | inr e ↦ rw e (
        Ends-bind (λ b. I (p ∷ gone) (set_batch a b))
          (λ b. I (p ∷ gone) b × (b.added_commits ≡ a.added_commits))
          (write db (delete (head_row p)) a.batch) (λ b. done (set_batch a b))
          (write-Ends db (λ b. I (p ∷ gone) (set_batch a b)) (delete (head_row p)) a.batch
            (kept.removed c p gone a g u e h))
          (λ b k. (k, refl)))
  ]

  parent_status-keeps :
      (p : ℕ) (a : Adding) (s : Status)
      → contains_commit db p ≡ s
      → Ends (λ t. t ≡ true → IsThere db a.added_commits p) (parent_status db s)
  parent_status-keeps p a ok e = λ t. inr e
  parent_status-keeps p a not_found e = λ t. absurd (ground arith)
  parent_status-keeps p a io_error e = tt
  parent_status-keeps p a format_error e = tt
  parent_status-keeps p a illegal_state e = tt
  parent_status-keeps p a internal_io_error e = tt
  parent_status-keeps p a interrupted e = tt
  parent_status-keeps p a not_connected_error e = tt
  parent_status-keeps p a no_such_child e = tt
  parent_status-keeps p a object_digest_mismatch e = tt
  parent_status-keeps p a not_implemented e = tt

  has_parent-IsThere :
      (p : ℕ) (a : Adding) → Ends (λ t. t ≡ true → IsThere db a.added_commits p) (has_parent db p a)
  unfolding has_parent
  has_parent-IsThere p a = go (contains a.added_commits p) refl
    where
      go :
          (t : Bool)
          → contains a.added_commits p ≡ t
          → Ends
              (λ u. u ≡ true → IsThere db a.added_commits p)
              (if t then done true else parent_status db (contains_commit db p))
      go true e = λ u. inl e
      go false e = parent_status-keeps p a (contains_commit db p) refl

  mark_unsynced-writes :
      (src : ChangeSource) (c : Commit) (b d : List Write)
      → d ≡ put (commit_row c.id) c.storage_bytes ∷ b
      → Ends (λ x. x ≡ commit_writes src c b) (mark_unsynced db src c d)
  unfolding mark_commit_id_unsynced
  mark_unsynced-writes from_local c b d e =
      write-Ends db (λ x. x ≡ commit_writes from_local c b) (put (unsynced_row c.id) c.generation) d
        (rw e refl)
  mark_unsynced-writes from_sync c b d e = e

  -- After parents were looked for; `ended` are those that were removed in the end.
  abbrev pub AfterParents : List ℕ → List ℕ → Adding → Bool × Adding → Type 0
  AfterParents ps gone a (found, b) =
      (ended : List ℕ) × I ended b
      × (b.added_commits ≡ a.added_commits)
      × ((q : ℕ) → contains gone q ≡ true → contains ended q ≡ true)
      × (found ≡ true → All (IsThere db a.added_commits) ps × All (λ p. contains ended p ≡ true) ps)

  remove_rest :
      (c : Commit) (p : ℕ) (ps gone : List ℕ) (a : Adding) (there : Bool)
      → In c
      → contains c.parents p ≡ true
      → ((b : Adding)
          → I (p ∷ gone) b
          → Ends (AfterParents ps (p ∷ gone) b) (remove_parents db ps b))
      → I gone a
      → (there ≡ true → IsThere db a.added_commits p)
      → Ends (AfterParents (p ∷ ps) gone a) (
          if there then (remove_parent db p a >>= λ b. remove_parents db ps b) else done (false, a))
  remove_rest c p ps gone a false g u ih h k = (gone, h, refl, λ q e. e, λ t. absurd (ground arith))
  remove_rest c p ps gone a true g u ih h k =
      Ends-bind (λ b. I (p ∷ gone) b × (b.added_commits ≡ a.added_commits))
        (AfterParents (p ∷ ps) gone a) (remove_parent db p a) (λ b. remove_parents db ps b)
        (remove_parent-keeps c p gone a g u h)
        (λ b l.
          Ends-mono (AfterParents ps (p ∷ gone) b) (AfterParents (p ∷ ps) gone a)
            (remove_parents db ps b) (ih b l.0)
            (λ d m. (
              m.0,
              m.1,
              m.2 ∙ l.1,
              λ q e. m.3 q (ground (arith, e)),
              λ t. (
                (k refl, subst (λ xs. All (IsThere db xs) ps) l.1 (m.4 t).0),
                (m.3 p (ground arith), (m.4 t).1),
              ),
            )))

  pub remove_parents-keeps :
      (c : Commit) (ps gone : List ℕ) (a : Adding)
      → In c
      → All (λ p. contains c.parents p ≡ true) ps
      → I gone a
      → Ends (AfterParents ps gone a) (remove_parents db ps a)
  unfolding remove_parents
  remove_parents-keeps c [] gone a g u h = (gone, h, refl, λ q e. e, λ t. (tt, tt))
  remove_parents-keeps c (p ∷ ps) gone a g u h =
      Ends-bind (λ t. t ≡ true → IsThere db a.added_commits p) (AfterParents (p ∷ ps) gone a)
        (has_parent db p a)
        (λ there.
          if there then (remove_parent db p a >>= λ b. remove_parents db ps b) else done (false, a))
        (has_parent-IsThere p a)
        (λ there k.
          remove_rest c p ps gone a there g u.0 (λ b. remove_parents-keeps c ps (p ∷ gone) b g u.1)
            h k)

  pub add_new_commit-keeps :
      (c : Commit) (gone : List ℕ) (a : Adding)
      → In c
      → contains_commit db c.id ≡ not_found
      → All (IsThere db a.added_commits) c.parents
      → All (λ p. contains gone p ≡ true) c.parents
      → I gone a
      → Ends (λ b. I [] b) (add_new_commit db source c a)
  unfolding add_new_commit add_commit_storage_bytes
  add_new_commit-keeps c gone a g e k y h =
      Ends-bind (λ b. b ≡ put (commit_row c.id) c.storage_bytes ∷ a.batch) (λ b. I [] b)
        (write db (put (commit_row c.id) c.storage_bytes) a.batch) _
        (write-Ends db (λ b. b ≡ put (commit_row c.id) c.storage_bytes ∷ a.batch)
          (put (commit_row c.id) c.storage_bytes) a.batch refl)
        (λ b q.
          Ends-bind (λ d. d ≡ commit_writes source c a.batch) (λ b. I [] b)
            (mark_unsynced db source c b) _ (mark_unsynced-writes source c a.batch b q)
            (λ d w. rw w (kept.added c gone a g e k y h)))
