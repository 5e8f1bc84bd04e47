-- ===== src/Storage/PageStorage/Complete.antt =====
-- Commits in any order are added, if their parents are there: bin/ledger/storage/impl/page_storage_impl.cc.
use peridot.Base.{
  ℕ, zero, suc, Bool, true, false, List, [], ◌∷◌, ◌≡◌, refl, ap, ◌∙◌, ◌⊎◌, inl, inr, ◌||◌, ◌<◌, All,
  All-mono, All-at, Any, Any-at, contains, arith, subst, length, Option, none, some, if◌then◌else◌,
}
use peridot.Storage.Types.{
  Status, ok, not_found, is_ok, done, Meets-done, Holds, Holds-bind, Holds-both, Holds-done, ◌>>=◌,
}
use peridot.Storage.Pieces.{ObjectReads, ChangeSource, mark_all_pieces_local}
use peridot.Storage.Pieces.Writes.{on_ok-Holds, mark_all_pieces_local-keeps}
use peridot.Storage.PageDb.{Db, Row, Write, is_some, found, on_ok, commit_row}
use peridot.Storage.PageStorage.{
  Commit, Adding, is_first_commit, contains_commit, nothing_added, set_batch, rounds, complete,
  execute, Outcome, add_commits,
}
use peridot.Storage.PageStorage.Rules.{AnyCommit, All-AnyCommit}
use peridot.Storage.PageStorage.Rules.Rounds.{AfterRounds, rounds-keeps}
use peridot.Storage.PageStorage.Stored.{
  IsStored, rows_after, StoredIn, StoredIn-kept, IsThere-IsStored,
}
use peridot.Storage.PageStorage.Progress.{IsMissing, IsOrphan, IsSettled}
use peridot.Storage.PageStorage.Retries.{Finished, rounds-Finished}

-- A commit of which each parent is stored or is an older commit of a list.
abbrev pub HasParents : Db → List Commit → Commit → Type 0
HasParents db cs c =
    All (λ p. IsStored db.rows p ⊎ Any (λ d. (d.id ≡ p) × (d.generation < c.generation)) cs)
      c.parents

stored-contained :
    (db : Db) (i : ℕ)
    → is_ok (db.read_status (commit_row i)) ≡ true
    → IsStored db.rows i
    → contains_commit db i ≡ ok
unfolding contains_commit
stored-contained db i h k =
    go (is_first_commit i) (is_ok (db.read_status (commit_row i))) (db.rows (commit_row i)) h k
  where
    go :
        (f t : Bool) (v : Option ℕ)
        → t ≡ true
        → f || is_some v ≡ true
        → (if f then ok else (if t then found v else (db.read_status (commit_row i), 0)).0) ≡ ok
    go true t v e q = refl
    go false true (some v) e q = refl
    go false true none e q = absurd (ground arith)
    go false false v e q = absurd (ground arith)

ok_not : (s : Status) → s ≡ ok → s ≡ not_found → ⊥
ok_not s h k = absurd (ground arith)

module _ (db : Db) (reads : (r : Row) → is_ok (db.read_status r) ≡ true) (cs : List Commit) where
  -- Since the generations of parents are smaller, nothing is left.
  none_left :
      (n : ℕ) (left : List Commit) (added : List ℕ)
      → All (IsSettled db added left) cs
      → All (IsOrphan db added) left
      → All (HasParents db cs) left
      → (c : Commit) → Any (λ d. d ≡ c) left
      → c.generation < n
      → ⊥
  none_left zero left added h k m c x l = absurd (omega (arith, l))
  none_left (suc n) left added h k m c x l =
      let (p, missing, at) =
        Any-at (IsMissing db added) c.parents (All-at (IsOrphan db added) left k x) in
      elim (All-at
        (λ q. IsStored db.rows q ⊎ Any (λ d. (d.id ≡ q) × (d.generation < c.generation)) cs)
        c.parents (All-at (HasParents db cs) left m x) at) [
          | inl stored ↦
              ok_not (contains_commit db p) (stored-contained db p (reads (commit_row p)) stored)
                missing.1
          | inr older ↦
              let (d, e, there) =
                Any-at (λ d. (d.id ≡ p) × (d.generation < c.generation)) cs older in
              elim (All-at (IsSettled db added left) cs h there) [
                | inl o ↦
                    ok_not (contains_commit db p) (subst (λ z. contains_commit db z ≡ ok) e.0 o)
                      missing.1
                | inr o ↦ elim o [
                  | inl o ↦
                      let q : contains added p ≡ true =
                        subst (λ z. contains added z ≡ true) e.0 o in
                      absurd (ground (arith, missing.0))
                  | inr o ↦ none_left n left added h k m d o (omega (arith, l, e.1))
                ]
              ]
        ]

  nothing_left :
      (left : List Commit) (added : List ℕ)
      → All (IsSettled db added left) cs
      → All (IsOrphan db added) left
      → All (HasParents db cs) left
      → left ≡ []
  nothing_left [] added h k m = refl
  nothing_left (c ∷ left) added h k m =
      absurd (none_left (suc c.generation) (c ∷ left) added h k m c (inl refl) (omega arith))

module _ (db : Db) (source : ChangeSource) where
  settled-IsStored :
      (a : Adding) (o : Outcome) (c : Commit)
      → StoredIn db a
      → o.executed ≡ a.batch
      → IsSettled db a.added_commits [] c
      → IsStored (rows_after db o) c.id
  settled-IsStored a o c h e (inl k) = IsThere-IsStored db a o c.id h e (inr k)
  settled-IsStored a o c h e (inr (inl k)) = IsThere-IsStored db a o c.id h e (inl k)
  settled-IsStored a o c h e (inr (inr k)) = absurd k

  rounds_complete :
      (cs : List Commit)
      → ((r : Row) → is_ok (db.read_status r) ≡ true)
      → ((b : List Write) → is_ok (db.batch_status b) ≡ true)
      → All (HasParents db cs) cs
      → (f : Bool) × (a : Adding) × (rounds db source (suc (length cs)) cs false nothing_added
          ≡ done ([], f, a))
        × StoredIn db a
        × All (IsSettled db a.added_commits []) cs
  rounds_complete cs reads writes h =
      let ((left, f, a), e, p, q) =
        Meets-done (Finished db (HasParents db cs) [] cs)
          (AfterRounds db source AnyCommit (λ gone a. StoredIn db a) (StoredIn db)
            (StoredIn-kept db source))
          (rounds db source (suc (length cs)) cs false nothing_added)
          (rounds-Finished db source ⊥ (λ r. inl (reads r)) (λ b. inl (writes b)) (HasParents db cs)
            (suc (length cs)) cs false nothing_added (omega arith) h)
          (rounds-keeps db source AnyCommit (λ gone a. StoredIn db a) (StoredIn db)
            (StoredIn-kept db source) (suc (length cs)) cs false nothing_added (omega arith)
            (All-AnyCommit cs) (record { row = λ i. refl; same = λ i. refl; sent = tt })) in
      let n = nothing_left db reads cs left a.added_commits p.0 p.1 p.2 in
      (
        f,
        a,
        e ∙ ap (λ xs. done (xs, f, a)) n,
        q.0,
        subst (λ xs. All (IsSettled db a.added_commits xs) cs) n p.0,
      )

-- Whatever their order, commits whose ancestry is there are all added: if every parent is stored or is
-- in the list with a smaller generation and no call of the database fails, the operation succeeds, and
-- every commit of the list is in the database.
pub add_commits_complete :
    (fuel : ℕ) (objects : ObjectReads) (db : Db) (source : ChangeSource) (commits : List Commit)
    → ((r : Row) → is_ok (db.read_status r) ≡ true)
    → ((b : List Write) → is_ok (db.batch_status b) ≡ true)
    → db.start_status ≡ ok
    → db.execute_status ≡ ok
    → All (HasParents db commits) commits
    → (o : Outcome) × (add_commits (suc fuel) objects db commits source [] ≡ done o)
      × (o.status ≡ ok)
      × All (λ c. IsStored (rows_after db o) c.id) commits
unfolding add_commits complete mark_all_pieces_local
add_commits_complete fuel objects db source commits reads writes start executed h =
    let (f, a, e, k, settled) = rounds_complete db source commits reads writes h in
    let o : Outcome = execute db a a.batch in
    let q : o.executed ≡ a.batch = rw executed refl in
    (
      o,
      ap
            (λ s. on_ok s nothing_added >>= λ b.
              rounds db source (suc (length commits)) commits false b >>= λ r.
              complete (suc fuel) objects db [] r)
            start
          ∙ ap (λ m. m >>= λ r. complete (suc fuel) objects db [] r) e,
      executed,
      All-mono (IsSettled db a.added_commits []) (λ c. IsStored (rows_after db o) c.id) commits
          settled (λ c u. settled-IsStored db source a o c k q u),
    )

module _ (fuel : ℕ) (objects : ObjectReads) (db : Db) (source : ChangeSource) where
  AllStored : List Commit → Outcome → Type 0
  AllStored commits o = o.status ≡ ok → All (λ c. IsStored (rows_after db o) c.id) commits

  complete-AllStored :
      (commits : List Commit) (new_objects : List ℕ) (left : List Commit) (f : Bool) (a : Adding)
      → StoredIn db a
      → All (IsSettled db a.added_commits left) commits
      → Holds (AllStored commits) (complete fuel objects db new_objects (left, f, a))
  unfolding complete AllStored
  complete-AllStored commits new_objects [] f a h k =
      Holds-bind (λ b. StoredIn db (set_batch a b)) (AllStored commits)
        (mark_all_pieces_local db objects fuel new_objects [] a.batch) _
        (mark_all_pieces_local-keeps db (λ b. StoredIn db (set_batch a b))
          (λ s i b l. record { row = l.row; same = l.same; sent = l.sent })
          (λ s i b l. record { row = l.row; same = l.same; sent = l.sent }) objects fuel new_objects
          [] a.batch h)
        (λ b l executed.
          All-mono (IsSettled db a.added_commits [])
            (λ c. IsStored (rows_after db (execute db a b)) c.id) commits k
            (λ c u.
              settled-IsStored db source (set_batch a b) (execute db a b) c l (rw executed refl) u))
  complete-AllStored commits new_objects (c ∷ left) false a h k = tt
  complete-AllStored commits new_objects (c ∷ left) true a h k = tt

  -- If the operation succeeds, every commit of the list is in the database afterwards.
  pub add_commits-all-IsStored :
      (commits : List Commit) (new_objects : List ℕ) (o : Outcome)
      → add_commits fuel objects db commits source new_objects ≡ done o
      → o.status ≡ ok
      → All (λ c. IsStored (rows_after db o) c.id) commits
  unfolding add_commits AllStored
  add_commits-all-IsStored commits new_objects o e =
      Holds-done (AllStored commits) (add_commits fuel objects db commits source new_objects) e (
        Holds-bind (λ a. a ≡ nothing_added) (AllStored commits)
          (on_ok db.start_status nothing_added) _
          (on_ok-Holds (λ a. a ≡ nothing_added) db.start_status nothing_added refl)
          (λ a q. rw q (
            Holds-bind
              (λ r.
                Finished db AnyCommit [] commits r
                × AfterRounds db source AnyCommit (λ gone b. StoredIn db b) (StoredIn db)
                    (StoredIn-kept db source) r)
              (AllStored commits)
              (rounds db source (suc (length commits)) commits false nothing_added) _
              (Holds-both (Finished db AnyCommit [] commits)
                (AfterRounds db source AnyCommit (λ gone b. StoredIn db b) (StoredIn db)
                  (StoredIn-kept db source))
                (rounds db source (suc (length commits)) commits false nothing_added)
                (rounds-Finished db source Unit (λ r. inr tt) (λ b. inr tt) AnyCommit
                  (suc (length commits)) commits false nothing_added (omega arith)
                  (All-AnyCommit commits))
                (rounds-keeps db source AnyCommit (λ gone b. StoredIn db b) (StoredIn db)
                  (StoredIn-kept db source) (suc (length commits)) commits false nothing_added
                  (omega arith) (All-AnyCommit commits)
                  (record { row = λ i. refl; same = λ i. refl; sent = tt })))
              (λ r h. complete-AllStored commits new_objects r.0 r.1 r.2 h.1.0 h.0.0))))
