-- ===== src/Storage/PageStorage/Progress.antt =====
-- What the rounds of `SynchronousAddCommits`, bin/ledger/storage/impl/page_storage_impl.cc, leave: only
-- commits of which a parent is missing. `F` says that the database may fail.
use peridot.Base.{
  ℕ, Bool, true, false, List, [], ◌∷◌, ◌++◌, ◌≡◌, ◌≢◌, refl, sym, ap, ◌∙◌, ◌⊎◌, inl, inr, ◌<◌, ◌≤◌,
  ◌+◌, All, All-mono, All-append, Any, Any-left, Any-right, contains, arith, Option, none, some,
  subst, if◌then◌else◌, length, length-snoc,
}
use peridot.Storage.Types.{
  Status, ok, not_found, io_error, format_error, illegal_state, internal_io_error, interrupted,
  not_connected_error, no_such_child, object_digest_mismatch, not_implemented, is_ok, done, failed,
  Meets, Meets-bind, Meets-mono, ◌>>=◌,
}
use peridot.Storage.Pieces.{ChangeSource}
use peridot.Storage.PageDb.{Db, Row, Write, delete, found, head_row, commit_row, write, remove_head}
use peridot.Storage.PageStorage.{
  Commit, Adding, Round, set_batch, erase_head, has_head, is_first_commit, contains_commit,
  parent_status, has_parent, remove_parent, remove_parents,
}

-- A list in front of another one, the other way round.
abbrev pub rev_onto : List Commit → List Commit → List Commit
rev_onto [] ps = ps
rev_onto (c ∷ cs) ps = rev_onto cs (c ∷ ps)

pub rev_onto-length : (cs ps : List Commit) → length (rev_onto cs ps) ≡ length cs + length ps
rev_onto-length [] ps = omega arith
rev_onto-length (c ∷ cs) ps = omega (arith, rev_onto-length cs (c ∷ ps))

pub rev_onto-All :
    (P : Commit → Type 0) (cs ps : List Commit) → All P (rev_onto cs ps) → All P cs × All P ps
rev_onto-All P [] ps h = (tt, h)
rev_onto-All P (c ∷ cs) ps h = let k = rev_onto-All P cs (c ∷ ps) h in ((k.1.0, k.0), k.1.1)

module _ (db : Db) where
  -- A parent that is neither stored nor added.
  abbrev pub IsMissing : List ℕ → ℕ → Type 0
  IsMissing added p = (contains added p ≡ false) × (contains_commit db p ≡ not_found)

  -- A commit of which a parent is missing.
  abbrev pub IsOrphan : List ℕ → Commit → Type 0
  IsOrphan added c = Any (IsMissing added) c.parents

  -- A commit that is stored, added or left.
  abbrev pub IsSettled : List ℕ → List Commit → Commit → Type 0
  IsSettled added left c =
      (contains_commit db c.id ≡ ok) ⊎ (contains added c.id ≡ true) ⊎ Any (λ d. d ≡ c) left

module _ (db : Db) (source : ChangeSource) (F : Type 0)
    (reads : (r : Row) → (is_ok (db.read_status r) ≡ true) ⊎ F)
    (writes : (b : List Write) → (is_ok (db.batch_status b) ≡ true) ⊎ F) where
  pub write-Meets :
      (P : List Write → Type 0) (w : Write) (b : List Write) → P (w ∷ b) → Meets F P (write db w b)
  unfolding write
  write-Meets P w b h = go (is_ok (db.batch_status (w ∷ b))) (writes (w ∷ b))
    where
      go :
          (t : Bool)
          → (t ≡ true) ⊎ F
          → Meets F P (if t then done (w ∷ b) else failed (db.batch_status (w ∷ b)))
      go true e = h
      go false (inl e) = absurd (ground arith)
      go false (inr f) = f

  -- An answer that says neither that a commit is there nor that it is not.
  pub error : (i : ℕ) (s : Status) → contains_commit db i ≡ s → s ≢ ok → s ≢ not_found → F
  unfolding contains_commit
  error i s e g h =
      go (is_first_commit i) (is_ok (db.read_status (commit_row i))) (db.rows (commit_row i))
        (reads (commit_row i)) e
    where
      go :
          (f t : Bool) (v : Option ℕ)
          → (t ≡ true) ⊎ F
          → (if f then ok else (if t then found v else (db.read_status (commit_row i), 0)).0) ≡ s
          → F
      go true t v k q = absurd (g (sym q))
      go false true (some v) k q = absurd (g (sym q))
      go false true none k q = absurd (h (sym q))
      go false false v (inl k) q = absurd (ground arith)
      go false false v (inr k) q = k

  remove_parent-same :
      (p : ℕ) (a : Adding) → Meets F (λ b. b.added_commits ≡ a.added_commits) (remove_parent db p a)
  unfolding remove_parent remove_head
  remove_parent-same p a = go (has_head p a.heads_to_add)
    where
      go :
          (t : Bool)
          → Meets F
              (λ b. b.added_commits ≡ a.added_commits)
              (if t
                then done (record a { heads_to_add = erase_head p a.heads_to_add })
                else (write db (delete (head_row p)) a.batch >>= λ b. done (set_batch a b)))
      go true = refl
      go false =
          Meets-bind F (λ b. Unit) (λ b. b.added_commits ≡ a.added_commits)
            (write db (delete (head_row p)) a.batch) _
            (write-Meets (λ b. Unit) (delete (head_row p)) a.batch tt) (λ b k. refl)

  parent_status-IsMissing :
      (p : ℕ) (a : Adding) (s : Status)
      → contains_commit db p ≡ s
      → contains a.added_commits p ≡ false
      → Meets F (λ t. t ≡ false → IsMissing db a.added_commits p) (parent_status db s)
  parent_status-IsMissing p a ok e h = λ t. absurd (ground arith)
  parent_status-IsMissing p a not_found e h = λ t. (h, e)
  parent_status-IsMissing p a io_error e h = error p io_error e (ground arith) (ground arith)
  parent_status-IsMissing p a format_error e h =
      error p format_error e (ground arith) (ground arith)
  parent_status-IsMissing p a illegal_state e h =
      error p illegal_state e (ground arith) (ground arith)
  parent_status-IsMissing p a internal_io_error e h =
      error p internal_io_error e (ground arith) (ground arith)
  parent_status-IsMissing p a interrupted e h = error p interrupted e (ground arith) (ground arith)
  parent_status-IsMissing p a not_connected_error e h =
      error p not_connected_error e (ground arith) (ground arith)
  parent_status-IsMissing p a no_such_child e h =
      error p no_such_child e (ground arith) (ground arith)
  parent_status-IsMissing p a object_digest_mismatch e h =
      error p object_digest_mismatch e (ground arith) (ground arith)
  parent_status-IsMissing p a not_implemented e h =
      error p not_implemented e (ground arith) (ground arith)

  has_parent-IsMissing :
      (p : ℕ) (a : Adding)
      → Meets F (λ t. t ≡ false → IsMissing db a.added_commits p) (has_parent db p a)
  unfolding has_parent
  has_parent-IsMissing p a = go (contains a.added_commits p) refl
    where
      go :
          (t : Bool)
          → contains a.added_commits p ≡ t
          → Meets F
              (λ u. u ≡ false → IsMissing db a.added_commits p)
              (if t then done true else parent_status db (contains_commit db p))
      go true e = λ u. absurd (ground arith)
      go false e = parent_status-IsMissing p a (contains_commit db p) refl e

  abbrev pub Looked : List ℕ → Adding → Bool × Adding → Type 0
  Looked ps a (there, b) =
      (b.added_commits ≡ a.added_commits) × (there ≡ false → Any (IsMissing db a.added_commits) ps)

  pub remove_parents-Looked :
      (ps : List ℕ) (a : Adding) → Meets F (Looked ps a) (remove_parents db ps a)
  unfolding remove_parents
  remove_parents-Looked [] a = (refl, λ t. absurd (ground arith))
  remove_parents-Looked (p ∷ ps) a =
      Meets-bind F (λ t. t ≡ false → IsMissing db a.added_commits p) (Looked (p ∷ ps) a)
        (has_parent db p a) _ (has_parent-IsMissing p a)
        (λ there k.
          elim there
              as (λ t.
                (t ≡ false → IsMissing db a.added_commits p)
                → Meets F (Looked (p ∷ ps) a) (
                    if t
                    then (remove_parent db p a >>= λ b. remove_parents db ps b)
                    else done (false, a))) [
                      | true ↦ λ m.
                          Meets-bind F (λ b. b.added_commits ≡ a.added_commits) (Looked (p ∷ ps) a)
                            (remove_parent db p a) _ (remove_parent-same p a)
                            (λ b l.
                              Meets-mono F (Looked ps b) (Looked (p ∷ ps) a)
                                (remove_parents db ps b) (remove_parents-Looked ps b)
                                (λ d n. (
                                  n.0 ∙ l,
                                  λ t. inr (subst (λ xs. Any (IsMissing db xs) ps) l (n.1 t)),
                                )))
                      | false ↦ λ m. (refl, λ t. inl (m refl))
                    ]
            k)

  module _ (In : Commit → Type 0) where
    -- What holds in a round, which began with some commits added, after some commits were tried.
    pub record Tried (before : List ℕ) (tried : List Commit) (r : Round) : Type 0 where
      pub settled : All (IsSettled db r.adding.added_commits r.remaining_commits) tried
      pub orphans :
          r.continue_trying ≡ false → All (IsOrphan db r.adding.added_commits) r.remaining_commits
      pub grows : (i : ℕ) → contains before i ≡ true → contains r.adding.added_commits i ≡ true
      pub input : All In r.remaining_commits
      pub bound : length r.remaining_commits ≤ length tried
      pub shorter : r.continue_trying ≡ true → length r.remaining_commits < length tried

    settled_later :
        (added : List ℕ) (i : ℕ) (left tried : List Commit)
        → All (IsSettled db added left) tried
        → All (IsSettled db (i ∷ added) left) tried
    settled_later added i left tried h =
        All-mono (IsSettled db added left) (IsSettled db (i ∷ added) left) tried h (λ c k. elim k [
          | inl e ↦ inl e
          | inr m ↦ elim m [ inl e ↦ inr (inl (ground (arith, e))) | inr e ↦ inr (inr e) ]
        ])

    settled_left :
        (added : List ℕ) (c : Commit) (left tried : List Commit)
        → All (IsSettled db added left) tried
        → All (IsSettled db added (left ++ (c ∷ []))) tried
    settled_left added c left tried h =
        All-mono (IsSettled db added left) (IsSettled db added (left ++ (c ∷ []))) tried h (λ d k.
          elim k [
            | inl e ↦ inl e
            | inr m ↦ elim m [
              | inl e ↦ inr (inl e)
              | inr e ↦ inr (inr (Any-left (λ z. z ≡ d) left (c ∷ []) e))
            ]
          ])

    pub added_Tried :
        (before : List ℕ) (tried : List Commit) (c : Commit) (r : Round) (a b : Adding)
        → a.added_commits ≡ r.adding.added_commits
        → b.added_commits ≡ c.id ∷ a.added_commits
        → Tried before tried r
        → Tried before (c ∷ tried) (record r { adding = b; continue_trying = true })
    added_Tried before tried c r a b e g h =
        let q : b.added_commits ≡ c.id ∷ r.adding.added_commits = g ∙ ap (λ xs. c.id ∷ xs) e in
        record {
          settled = (
            inr (inl (rw q (ground arith))),
            subst (λ xs. All (IsSettled db xs r.remaining_commits) tried) (sym q)
                (settled_later r.adding.added_commits c.id r.remaining_commits tried h.settled),
          );
          orphans = λ t. absurd (ground arith);
          grows = λ i t. rw q (ground (arith, h.grows i t));
          input = h.input;
          bound = omega (arith, h.bound);
          shorter = λ t. omega (arith, h.bound);
        }

    pub left_Tried :
        (before : List ℕ) (tried : List Commit) (c : Commit) (r : Round) (a : Adding)
        → In c
        → a.added_commits ≡ r.adding.added_commits
        → IsOrphan db r.adding.added_commits c
        → Tried before tried r
        → Tried before
            (c ∷ tried)
            (record r { adding = a; remaining_commits = r.remaining_commits ++ (c ∷ []) })
    left_Tried before tried c r a x e k h =
        let kept = settled_left r.adding.added_commits c r.remaining_commits tried h.settled in
        record {
          settled = (
            inr (inr (Any-right (λ d. d ≡ c) r.remaining_commits (c ∷ []) (inl refl))),
            subst (λ xs. All (IsSettled db xs (r.remaining_commits ++ (c ∷ []))) tried) (sym e)
                kept,
          );
          orphans = λ t.
              subst (λ xs. All (IsOrphan db xs) (r.remaining_commits ++ (c ∷ []))) (sym e)
                (All-append (IsOrphan db r.adding.added_commits) r.remaining_commits (c ∷ [])
                  (h.orphans t) (k, tt));
          grows = λ i t. rw e (h.grows i t);
          input = All-append In r.remaining_commits (c ∷ []) h.input (x, tt);
          bound = omega (arith, h.bound, length-snoc c r.remaining_commits);
          shorter = λ t. omega (arith, h.shorter t, length-snoc c r.remaining_commits);
        }

    pub known_Tried :
        (before : List ℕ) (tried : List Commit) (c : Commit) (r : Round) (b : List Write)
        → contains_commit db c.id ≡ ok
        → Tried before tried r
        → Tried before (c ∷ tried) (record r { adding = set_batch r.adding b })
    known_Tried before tried c r b e h = record {
      settled = (inl e, h.settled);
      orphans = h.orphans;
      grows = h.grows;
      input = h.input;
      bound = omega (arith, h.bound);
      shorter = λ t. omega (arith, h.shorter t);
    }
