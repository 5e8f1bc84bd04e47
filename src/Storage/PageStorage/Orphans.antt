-- ===== src/Storage/PageStorage/Orphans.antt =====
-- A commit whose parent does not come: bin/ledger/storage/impl/page_storage_impl.cc.
use peridot.Base.{
  ℕ, suc, Bool, true, false, List, [], ◌∷◌, ◌≡◌, ◌≢◌, refl, ap, ◌∙◌, inl, inr, ◌==◌, ==_iff, All,
  All-at, Any, contains, arith, subst, length, is_empty, Bool-cases,
}
use peridot.Storage.Types.{ok, not_found, illegal_state, is_ok, failed, Meets-done, ◌>>=◌}
use peridot.Storage.Pieces.{ObjectReads, ChangeSource}
use peridot.Storage.PageDb.{Db, Row, Write, on_ok}
use peridot.Storage.PageStorage.{
  Commit, Adding, contains_commit, nothing_added, rounds, complete, add_commits,
}
use peridot.Storage.PageStorage.Rules.{IsKept, IsThere, head_puts-keeps}
use peridot.Storage.PageStorage.Rules.Rounds.{AfterRounds, rounds-keeps}
use peridot.Storage.PageStorage.Progress.{IsSettled}
use peridot.Storage.PageStorage.Retries.{Finished, rounds-Finished}

-- No commit of the list has the parent's identifier, and those of one identifier are equal.
abbrev pub IsAlone : Commit → ℕ → Commit → Type 0
IsAlone c p d = (d.id ≢ p) × (d.id ≡ c.id → d ≡ c)

module _ (db : Db) (source : ChangeSource) (c : Commit) (p : ℕ)
    (parent : contains c.parents p ≡ true) (missing : contains_commit db p ≡ not_found) where
  abbrev NotAdded : Adding → Type 0
  NotAdded a = (contains a.added_commits p ≡ false) × (contains a.added_commits c.id ≡ false)

  parent_there :
      (added ps : List ℕ)
      → All (IsThere db added) ps
      → contains ps p ≡ true
      → contains added p ≡ false
      → ⊥
  parent_there added [] h t k = absurd (ground arith)
  parent_there added (q ∷ qs) h t k = elim (Bool-cases (q == p)) [
    | inl e ↦ elim (subst (IsThere db added) ((==_iff q p).0 e) h.0) [
      | inl x ↦ absurd (ground arith)
      | inr x ↦ absurd (ground (arith, missing))
    ]
    | inr e ↦ parent_there added qs h.1 (ground (arith, e, t)) k
  ]

  NotAdded-kept : IsKept db source (IsAlone c p) (λ gone a. NotAdded a) NotAdded
  NotAdded-kept = record {
    opened = λ a h. h;
    marked = λ d a e h. h;
    erased = λ d q gone a g u e h. h;
    removed = λ d q gone a g u e h. h;
    added = λ d gone a g e k y h. (
      ground (arith, g.0, h.0),
      elim (Bool-cases (d.id == c.id)) [
        | inl t ↦
            let s : d ≡ c = g.1 ((==_iff d.id c.id).0 t) in
            absurd (
              parent_there a.added_commits c.parents
                (subst (λ z. All (IsThere db a.added_commits) z.parents) s k) parent h.0)
        | inr t ↦ rw t h.1
      ],
    );
    orphaned = λ gone a h. h;
    closed = λ a. head_puts-keeps NotAdded a.heads_to_add a (λ i t b h. h);
    piece_put = λ s i a h. h;
    piece_deleted = λ s i a h. h;
  }

  illegal :
      (fuel : ℕ) (objects : ObjectReads) (new_objects : List ℕ) (left : List Commit) (f : Bool)
      (a : Adding)
      → Any (λ d. d ≡ c) left
      → (f ≡ false → is_empty left ≡ true)
      → complete fuel objects db new_objects (left, f, a) ≡ failed illegal_state
  unfolding complete
  illegal fuel objects new_objects [] f a x h = absurd x
  illegal fuel objects new_objects (d ∷ left) true a x h = refl
  illegal fuel objects new_objects (d ∷ left) false a x h = absurd (ground (arith, h))

-- If a parent of a new commit is neither stored nor in the list, the operation fails with ILLEGAL_STATE,
-- and nothing is written, provided that no call of the database fails and the commits with the commit's
-- identifier are equal to it.
pub add_commits-orphan :
    (fuel : ℕ) (objects : ObjectReads) (db : Db) (source : ChangeSource) (commits : List Commit)
    (new_objects : List ℕ) (c : Commit) (p : ℕ)
    → Any (λ d. d ≡ c) commits
    → All (λ d. (d.id ≢ p) × (d.id ≡ c.id → d ≡ c)) commits
    → contains c.parents p ≡ true
    → contains_commit db p ≡ not_found
    → contains_commit db c.id ≡ not_found
    → ((r : Row) → is_ok (db.read_status r) ≡ true)
    → ((b : List Write) → is_ok (db.batch_status b) ≡ true)
    → db.start_status ≡ ok
    → add_commits fuel objects db commits source new_objects ≡ failed illegal_state
unfolding add_commits
add_commits-orphan fuel objects db source commits new_objects c p x alone parent missing new reads
      writes start =
    let kept = NotAdded-kept db source c p parent missing in
    let ((left, f, a), e, k, l) =
      Meets-done (Finished db (IsAlone c p) [] commits)
        (AfterRounds db source (IsAlone c p) (λ gone b. NotAdded db source c p parent missing b)
          (NotAdded db source c p parent missing) kept)
        (rounds db source (suc (length commits)) commits false nothing_added)
        (rounds-Finished db source ⊥ (λ r. inl (reads r)) (λ b. inl (writes b)) (IsAlone c p)
          (suc (length commits)) commits false nothing_added (omega arith) alone)
        (rounds-keeps db source (IsAlone c p) (λ gone b. NotAdded db source c p parent missing b)
          (NotAdded db source c p parent missing) kept (suc (length commits)) commits false
          nothing_added (omega arith) alone (refl, refl)) in
    let still : Any (λ d. d ≡ c) left =
      elim (All-at (IsSettled db a.added_commits left) commits k.0 x) [
        | inl o ↦ absurd (ground (arith, o, new))
        | inr o ↦ elim o [ inl t ↦ absurd (ground (arith, t, l.0.1)) | inr t ↦ t ]
      ] in
    ap
      (λ s. on_ok s nothing_added >>= λ b.
        rounds db source (suc (length commits)) commits false b >>= λ r.
        complete fuel objects db new_objects r)
      start
    ∙ ap (λ m. m >>= λ r. complete fuel objects db new_objects r) e
    ∙ illegal db source c p parent missing fuel objects new_objects left f a still l.1
