-- ===== src/Storage/Journal/Life.antt =====
-- What a journal (bin/ledger/storage/impl/journal_impl.cc) does over its life.
use peridot.Base.{
  ℕ, ◌+◌, ◌≤◌, ◌≡◌, refl, ◌⊎◌, inl, inr, Bool, true, false, not, Option, none, some, List, [], ◌∷◌,
  ◌++◌, arith, total, Bool-cases, bind-some, is_empty, ◌==◌, dcheck, if◌then◌else◌, subst,
}
use peridot.Storage.Types.{Status, ok, illegal_state, is_ok, EntryChange}
use peridot.Storage.Journal.{
  explicit, CommitInfo, Committed, parent, created, Call, remove_journal, add_commit_from_local,
  Journal, Answers, is_closed, put, delete, rollback, commit, get_objects_to_sync, Outcome,
  add_commit, rollback_internal, parents_known, create_commit_from_changes, changes_applied,
  commit_objects, no_change, get_parents, sorted_ids, Op, puts, deletes, commits, rolls_back,
  after_commit, step, run,
}

-- The ways in which `Commit` can end.
data CommitCase (a : Answers) (j : Journal) : Outcome → Type 0 where
  refused : (s : Status) → is_ok s ≡ false → CommitCase a j (s, none, j)
  unchanged :
      (p : CommitInfo) (o : Outcome)
      → is_closed j ≡ false
      → o ≡ (a.removed, some (parent p), (rollback_internal a j).1)
      → CommitCase a j o
  added :
      (root : ℕ) (parents objects new_nodes : List ℕ) (o : Outcome)
      → is_closed j ≡ false
      → get_objects_to_sync a ≡ (ok, objects)
      → o ≡ add_commit root parents (objects ++ new_nodes) a j
      → CommitCase a j o

no_change-Case :
    (p : CommitInfo) (a : Answers) (j : Journal)
    → is_closed j ≡ false
    → CommitCase a j (no_change p (rollback_internal a j))
unfolding no_change rollback_internal
no_change-Case p a j h = unchanged p (no_change p (rollback_internal a j)) h (ground arith)

commit_objects-Case :
    (root : ℕ) (new_nodes : List ℕ) (parents : List CommitInfo) (w : Status × List ℕ) (a : Answers)
    (j : Journal)
    → is_closed j ≡ false
    → get_objects_to_sync a ≡ w
    → CommitCase a j (commit_objects root new_nodes parents w a j)
unfolding commit_objects
commit_objects-Case root new_nodes parents (ok, objects) a j h e =
    added root (sorted_ids parents) objects new_nodes
      (add_commit root (sorted_ids parents) (objects ++ new_nodes) a j) h e refl
commit_objects-Case root new_nodes parents (s, objects) a j h e = refused s refl

-- No debug check has failed unless the outcome is one of these.
Ends : Answers → Journal → Option Outcome → Type 0
Ends a j none = Unit
Ends a j (some o) = CommitCase a j o

Ends-eq :
    (a : Answers) (j : Journal) (m : Option Outcome) (o : Outcome)
    → m ≡ some o
    → Ends a j m
    → CommitCase a j o
unfolding Ends
Ends-eq a j m o e h = subst (Ends a j) e h

Ends-if :
    (a : Answers) (j : Journal) (b c : Bool) (x y : Outcome)
    → CommitCase a j x
    → CommitCase a j y
    → Ends a j (if b then dcheck c (some x) else some y)
unfolding Ends
Ends-if a j true true x y h k = h
Ends-if a j true false x y h k = tt
Ends-if a j false c x y h k = k

changes_applied-Ends :
    (parents : List CommitInfo) (w : Status × ℕ × List ℕ) (a : Answers) (j : Journal)
    → is_closed j ≡ false
    → Ends a j (changes_applied parents w a j)
unfolding changes_applied Ends
changes_applied-Ends (p ∷ []) (ok, root, new_nodes) a j h =
    Ends-if a j (p.root_identifier == root) (is_empty new_nodes)
      (no_change p (rollback_internal a j))
      (commit_objects root new_nodes (p ∷ []) (get_objects_to_sync a) a j) (no_change-Case p a j h)
      (commit_objects-Case root new_nodes (p ∷ []) (get_objects_to_sync a) a j h refl)
changes_applied-Ends parents (ok, root, new_nodes) a j h =
    commit_objects-Case root new_nodes parents (get_objects_to_sync a) a j h refl
changes_applied-Ends parents (s, root, new_nodes) a j h = refused s refl

create-Ends :
    (parents : List CommitInfo) (w : Status × List EntryChange) (a : Answers) (j : Journal)
    → is_closed j ≡ false
    → Ends a j (create_commit_from_changes parents w a j)
unfolding create_commit_from_changes Ends
create-Ends (p ∷ parents) (ok, changes) a j h =
    changes_applied-Ends (p ∷ parents) (a.apply_changes p.root_identifier changes) a j h
create-Ends [] (ok, changes) a j h = tt
create-Ends parents (s, changes) a j h = refused s refl

parents_known-Ends :
    (w : Status × List CommitInfo) (a : Answers) (j : Journal)
    → is_closed j ≡ false
    → Ends a j (parents_known w a j)
unfolding parents_known Ends
parents_known-Ends (ok, parents) a j h = create-Ends parents a.journal_entries a j h
parents_known-Ends (s, parents) a j h = refused s refl

Ends-refused : (a : Answers) (j : Journal) → Ends a j (some (illegal_state, none, j))
unfolding Ends
Ends-refused a j = refused illegal_state refl

commit-Ends : (a : Answers) (j : Journal) → Ends a j (commit a j)
unfolding commit
commit-Ends a j = elim (Bool-cases (is_closed j)) [
  | inl closed ↦ rw closed (Ends-refused a j)
  | inr not_yet ↦ rw not_yet (parents_known-Ends (get_parents a j) a j not_yet)
]

commit-Case : (a : Answers) (j : Journal) (o : Outcome) → commit a j ≡ some o → CommitCase a j o
commit-Case a j o e = Ends-eq a j (commit a j) o e (commit-Ends a j)

abbrev pub commits_made : Call → ℕ
commits_made (add_commit_from_local root parents objects) = 1
commits_made _ = 0

-- Everything but the removal of the journal itself.
abbrev pub writes : Call → ℕ
writes remove_journal = 0
writes _ = 1

abbrev pub flag : Bool → ℕ
flag true = 1
flag false = 0

abbrev OneCommit : Journal → Type 0
OneCommit j = total commits_made j.calls + flag j.valid ≤ 1

OneCommit-outcome :
    (a : Answers) (j : Journal) (o : Outcome) → OneCommit j → CommitCase a j o → OneCommit (o.2)
unfolding add_commit rollback_internal
OneCommit-outcome a j o h (refused s r) = h
OneCommit-outcome a j o h (unchanged p o' r e) = rw e (ground arith)
OneCommit-outcome a j o h (added root parents objects new_nodes o' r g e) = rw e (ground arith)

after_commit-some :
    (m : Option Outcome) (j' : Journal)
    → after_commit m ≡ some j'
    → (o : Outcome) × (m ≡ some o) × (o.2 ≡ j')
unfolding after_commit
after_commit-some none j' e = absurd (ground arith)
after_commit-some (some (s, c, j)) j' e = ((s, c, j), refl, ground arith)

OneCommit-step :
    (op : Op) (a : Answers) (j j' : Journal) → OneCommit j → step op a j ≡ some j' → OneCommit j'
unfolding step put delete rollback
OneCommit-step (puts key oid priority) a j j' h e = ground arith
OneCommit-step (deletes key) a j j' h e = ground arith
OneCommit-step rolls_back a j j' h e = ground arith
OneCommit-step commits a j j' h e =
    let (o, c, q) = after_commit-some (commit a j) j' e in
    subst OneCommit q (OneCommit-outcome a j o h (commit-Case a j o c))

-- What every operation keeps holds at the end of any run.
run-keeps :
    (P : Journal → Type 0)
    → ((op : Op) (a : Answers) (j j' : Journal) → P j → step op a j ≡ some j' → P j')
    → (ops : List (Op × Answers)) (j j' : Journal) → P j
    → run ops j ≡ some j'
    → P j'
unfolding run
run-keeps P keeps [] j j' h e = ground arith
run-keeps P keeps ((op, a) ∷ rest) j j' h e =
    let (t, q, r) = bind-some (step op a j) (run rest) e in
    run-keeps P keeps rest t j' (keeps op a j t h q) r

-- A journal makes at most one commit, whatever operations are called on it, and however they are
-- answered.
pub run_one_commit :
    (ops : List (Op × Answers)) (j j' : Journal)
    → total commits_made j.calls + flag j.valid ≤ 1
    → run ops j ≡ some j'
    → total commits_made j'.calls + flag j'.valid ≤ 1
run_one_commit ops j j' h e = run-keeps OneCommit OneCommit-step ops j j' h e

step_invalid : (op : Op) (a : Answers) (j : Journal) → j.valid ≡ false → step op a j ≡ some j
unfolding step put delete rollback commit after_commit
step_invalid (puts key oid priority) a j h = ground arith
step_invalid (deletes key) a j h = ground arith
step_invalid rolls_back a j h = ground arith
step_invalid commits a j h = ground arith

-- A journal that has been committed or rolled back refuses everything and changes nothing.
pub run_invalid : (ops : List (Op × Answers)) (j : Journal) → j.valid ≡ false → run ops j ≡ some j
unfolding run
run_invalid [] j h = refl
run_invalid ((op, a) ∷ rest) j h = rw (step_invalid op a j h) (run_invalid rest j h)

abbrev FailedWith : ℕ → Journal → Type 0
FailedWith n j = (j.type ≡ explicit) × (j.failed_operation ≡ true) × (total writes j.calls ≡ n)

FailedWith-step :
    (n : ℕ) (op : Op) (a : Answers) (j j' : Journal)
    → FailedWith n j
    → step op a j ≡ some j'
    → FailedWith n j'
unfolding step put delete rollback commit after_commit
FailedWith-step n (puts key oid priority) a j j' h e = ground arith
FailedWith-step n (deletes key) a j j' h e = ground arith
FailedWith-step n rolls_back a j j' h e = ground arith
FailedWith-step n commits a j j' h e = ground arith

-- Once a put or a delete of an explicit journal has failed, the journal is never committed and no
-- further entry is written: it can only be removed.
pub run_after_failure :
    (ops : List (Op × Answers)) (j j' : Journal)
    → j.type ≡ explicit
    → j.failed_operation ≡ true
    → run ops j ≡ some j'
    → total writes j'.calls ≡ total writes j.calls
run_after_failure ops j j' h f e =
    (run-keeps (FailedWith (total writes j.calls)) (FailedWith-step (total writes j.calls)) ops j j'
      (h, f, refl) e).2

outcome-of :
    (a : Answers) (j j' : Journal) (s : Status) (c : Option Committed)
    → CommitCase a j (s, c, j')
    → ((is_ok s ≡ false) × (c ≡ none) × (j' ≡ j))
      ⊎ ((p : CommitInfo) × (c ≡ some (parent p))
          × (s ≡ a.removed)
          × (j'.calls ≡ remove_journal ∷ j.calls)
          × (is_ok s ≡ not j'.valid))
      ⊎ ((root : ℕ) × (parents objects new_nodes : List ℕ) × (get_objects_to_sync a ≡ (ok, objects))
          × (s ≡ a.add_commit)
          × (j'.valid ≡ false)
          × (((is_ok s ≡ true)
                × (c ≡ some (created root parents))
                × (j'.calls
                    ≡ remove_journal
                      ∷ add_commit_from_local root parents (objects ++ new_nodes)
                      ∷ j.calls))
              ⊎ ((is_ok s ≡ false)
                  × (c ≡ none)
                  × (j'.calls
                      ≡ add_commit_from_local root parents (objects ++ new_nodes) ∷ j.calls))))
unfolding rollback_internal add_commit
outcome-of a j j' s c (refused s' r) = inl (r, refl, refl)
outcome-of a j j' s c (unchanged p o r e) =
    inr (inl (p, ground arith, ground arith, ground arith, ground arith))
outcome-of a j j' s c (added root parents objects new_nodes o r g e) =
    inr (inr (root, parents, objects, new_nodes, g, ground arith, ground arith, ground arith))

-- What `Commit` can call back with: an error with the journal as it was; a parent, with the status of
-- the removal of the journal, which is no longer valid if that is OK; or, once the storage has been
-- given the new commit with the objects to sync, an invalid journal, with the commit if its status is
-- OK, whether or not the journal could be removed.
pub commit_outcome :
    (a : Answers) (j j' : Journal) (s : Status) (c : Option Committed)
    → commit a j ≡ some (s, c, j')
    → ((is_ok s ≡ false) × (c ≡ none) × (j' ≡ j))
      ⊎ ((p : CommitInfo) × (c ≡ some (parent p))
          × (s ≡ a.removed)
          × (j'.calls ≡ remove_journal ∷ j.calls)
          × (is_ok s ≡ not j'.valid))
      ⊎ ((root : ℕ) × (parents objects new_nodes : List ℕ) × (get_objects_to_sync a ≡ (ok, objects))
          × (s ≡ a.add_commit)
          × (j'.valid ≡ false)
          × (((is_ok s ≡ true)
                × (c ≡ some (created root parents))
                × (j'.calls
                    ≡ remove_journal
                      ∷ add_commit_from_local root parents (objects ++ new_nodes)
                      ∷ j.calls))
              ⊎ ((is_ok s ≡ false)
                  × (c ≡ none)
                  × (j'.calls
                      ≡ add_commit_from_local root parents (objects ++ new_nodes) ∷ j.calls))))
commit_outcome a j j' s c e = outcome-of a j j' s c (commit-Case a j (s, c, j') e)
