-- ===== src/Storage/PageStorage/Rules.antt =====
-- What the changes of a batch keep in `SynchronousAddCommits`, bin/ledger/storage/impl/page_storage_impl.cc.
-- The children prove that it holds after the rounds.
pub mod Parents
pub mod Rounds
use peridot.Base.{
  All, All-mono, All-append, length-snoc, ℕ, zero, suc, Bool, true, false, List, [], ◌∷◌, ◌++◌, ◌≡◌,
  refl, sym, ◌∙◌, ◌⊎◌, inl, inr, ◌≤◌, ◌<◌, Bool-cases, contains, length, arith, subst,
  if◌then◌else◌, is_empty, ◌+◌, not, ◌||◌,
}
use peridot.Storage.Types.{
  Status, ok, not_found, io_error, format_error, illegal_state, internal_io_error, interrupted,
  not_connected_error, no_such_child, object_digest_mismatch, not_implemented, is_ok, done, Ends,
  Ends-bind, Ends-mono, ◌>>=◌,
}
use peridot.Storage.Pieces.{ChangeSource, from_local, from_sync}
use peridot.Storage.PageDb.{
  Db, Write, put, delete, on_ok, head_row, commit_row, unsynced_row, status_row, ObjectStatus,
  write, add_head, remove_head, add_commit_storage_bytes, mark_commit_id_synced,
  mark_commit_id_unsynced,
}
use peridot.Storage.PageStorage.{
  Commit, Adding, Round, set_batch, set_head, erase_head, has_head, contains_commit, parent_status,
  mark_unsynced, mark_synced, finish_commit, try_commit, has_parent, remove_parent, remove_parents,
  add_new_commit, add_commit, add_each, add_heads, one_round, rounds,
}

pub on_ok-Ends {ℓ} : {A : Type ℓ} (P : A → Type 0) (s : Status) (a : A) → P a → Ends P (on_ok s a)
on_ok-Ends P s a h = elim (Bool-cases (is_ok s)) [ inl e ↦ rw e h | inr e ↦ rw e tt ]

pub write-Ends :
    (db : Db) (P : List Write → Type 0) (w : Write) (b : List Write)
    → P (w ∷ b)
    → Ends P (write db w b)
unfolding write
write-Ends db P w b h = on_ok-Ends P (db.batch_status (w ∷ b)) (w ∷ b) h

-- The identifiers of a list are in it.
pub contains_self : (ps : List ℕ) → All (λ p. contains ps p ≡ true) ps
contains_self [] = tt
contains_self (p ∷ ps) = (
  ground arith,
  All-mono (λ q. contains ps q ≡ true) (λ q. contains (p ∷ ps) q ≡ true) ps (contains_self ps)
      (λ q e. ground (arith, e)),
)

-- A parent that is in the database or was added.
abbrev pub IsThere : Db → List ℕ → ℕ → Type 0
IsThere db added p = (contains added p ≡ true) ⊎ (contains_commit db p ≡ ok)

-- The writes for a new commit.
abbrev pub commit_writes : ChangeSource → Commit → List Write → List Write
commit_writes from_local c b =
    put (unsynced_row c.id) c.generation ∷ put (commit_row c.id) c.storage_bytes ∷ b
commit_writes from_sync c b = put (commit_row c.id) c.storage_bytes ∷ b

abbrev pub with_commit : ChangeSource → Commit → Adding → Adding
with_commit source c a = record {
  heads_to_add = set_head c.id c.timestamp a.heads_to_add;
  added_commits = c.id ∷ a.added_commits;
  commits_to_send = a.commits_to_send ++ (c ∷ []);
  batch = commit_writes source c a.batch;
}

-- The batch with the heads put into it.
abbrev pub head_puts : List (ℕ × ℕ) → List Write → List Write
head_puts [] b = b
head_puts ((i, t) ∷ hs) b = head_puts hs (put (head_row i) t ∷ b)

-- What every change of the batch keeps, for commits of which `In` holds: `I` inside of a round, where a
-- list has the parents that were removed for the commit at hand, and `E` at its ends and afterwards.
pub record IsKept (db : Db) (source : ChangeSource) (In : Commit → Type 0)
    (I : List ℕ → Adding → Type 0) (E : Adding → Type 0) : Type 0 where
  pub opened : (a : Adding) → E a → I [] a
  pub marked :
      (c : Commit) (a : Adding)
      → contains_commit db c.id ≡ ok
      → I [] a
      → I [] (set_batch a (delete (unsynced_row c.id) ∷ a.batch))
  pub erased :
      (c : Commit) (p : ℕ) (gone : List ℕ) (a : Adding)
      → In c
      → contains c.parents p ≡ true
      → has_head p a.heads_to_add ≡ true
      → I gone a
      → I (p ∷ gone) (record a { heads_to_add = erase_head p a.heads_to_add })
  pub removed :
      (c : Commit) (p : ℕ) (gone : List ℕ) (a : Adding)
      → In c
      → contains c.parents p ≡ true
      → has_head p a.heads_to_add ≡ false
      → I gone a
      → I (p ∷ gone) (set_batch a (delete (head_row p) ∷ a.batch))
  pub added :
      (c : Commit) (gone : List ℕ) (a : Adding)
      → In c
      → contains_commit db c.id ≡ not_found
      → All (IsThere db a.added_commits) c.parents
      → All (λ p. contains gone p ≡ true) c.parents
      → I gone a
      → I [] (with_commit source c a)
  pub orphaned : (gone : List ℕ) (a : Adding) → I gone a → I [] a
  pub closed : (a : Adding) → I [] a → E (set_batch a (head_puts a.heads_to_add a.batch))
  pub piece_put :
      (s : ObjectStatus) (i : ℕ) (a : Adding)
      → E a
      → E (set_batch a (put (status_row s i) 0 ∷ a.batch))
  pub piece_deleted :
      (s : ObjectStatus) (i : ℕ) (a : Adding)
      → E a
      → E (set_batch a (delete (status_row s i) ∷ a.batch))

-- Adding heads keeps what each added head keeps.
pub head_puts-keeps :
    (I : Adding → Type 0) (hs : List (ℕ × ℕ)) (a : Adding)
    → ((i t : ℕ) (b : Adding) → I b → I (set_batch b (put (head_row i) t ∷ b.batch)))
    → I a
    → I (set_batch a (head_puts hs a.batch))
head_puts-keeps I [] a k h = h
head_puts-keeps I ((i, t) ∷ hs) a k h =
    head_puts-keeps I hs (set_batch a (put (head_row i) t ∷ a.batch)) k (k i t a h)

-- Nothing is asked of the commits.
abbrev pub AnyCommit : Commit → Type 0
AnyCommit c = Unit

pub All-AnyCommit : (cs : List Commit) → All AnyCommit cs
All-AnyCommit [] = tt
All-AnyCommit (c ∷ cs) = (tt, All-AnyCommit cs)
