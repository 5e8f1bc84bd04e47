-- ===== src/Storage/PageStorage/FromSync.antt =====
-- bin/ledger/storage/impl/page_storage_impl.cc, `SynchronousAddCommitsFromSync`: commits that come from the
-- cloud. The lock is given back while the objects are fetched, so the commits are added to what is in the
-- database later, `later`. What `CommitImpl::FromStorageBytes` makes of bytes, and the status of the
-- waiter for the objects of some trees, are parameters.
pub mod Stored
pub mod Leaves
pub mod Examples
use peridot.Base.{
  ℕ, Bool, true, false, Option, none, some, List, [], ◌∷◌, ◌++◌, ltb, ◌==◌, ◌||◌, if◌then◌else◌,
  is_empty, map,
}
use peridot.Storage.Types.{
  Status, ok, not_found, io_error, format_error, illegal_state, internal_io_error, interrupted,
  not_connected_error, no_such_child, object_digest_mismatch, not_implemented, is_ok, Result, done,
  failed, aborted, ◌>>=◌,
}
use peridot.Storage.Pieces.{ObjectReads, from_sync}
use peridot.Storage.PageDb.{Db, Write, on_ok, mark_commit_id_synced, in_batch}
use peridot.Storage.PageStorage.{Commit, contains_commit, Outcome, add_commits}

pub record CommitIdAndBytes : Type 0 where
  pub id : ℕ
  pub bytes : ℕ

-- `leaves` is in the order of the identifiers; `marked` are the batches that were executed on the way.
pub record Received : Type 0 where
  pub commits : List Commit
  pub leaves : List Commit
  pub marked : List Write

abbrev pub nothing_received : Received
nothing_received = record { commits = []; leaves = []; marked = [] }

abbrev pub has_leaf : ℕ → List Commit → Bool
has_leaf i [] = false
has_leaf i (c ∷ cs) = c.id == i || has_leaf i cs

abbrev pub erase_leaf : ℕ → List Commit → List Commit
erase_leaf i [] = []
erase_leaf i (c ∷ cs) = if c.id == i then erase_leaf i cs else c ∷ erase_leaf i cs

abbrev pub erase_leaves : List ℕ → List Commit → List Commit
erase_leaves [] cs = cs
erase_leaves (p ∷ ps) cs = erase_leaves ps (erase_leaf p cs)

abbrev pub set_leaf : Commit → List Commit → List Commit
set_leaf c [] = c ∷ []
set_leaf c (d ∷ ds) =
    if d.id == c.id then c ∷ ds else if ltb c.id d.id then c ∷ d ∷ ds else d ∷ set_leaf c ds

-- A commit that is new, put behind the others.
abbrev pub receive_commit : Commit → Received → Received
receive_commit c r = record r {
  commits = r.commits ++ (c ∷ []);
  leaves = set_leaf c (erase_leaves c.parents r.leaves);
}

unfoldable pub mark_commit_synced : Db → ℕ → Result (List Write)
mark_commit_synced db id = in_batch db (λ b. mark_commit_id_synced db id b)

-- What was received, and whether the operation goes on.
abbrev pub after_mark : Received → Result (List Write) → Received × Result Bool
after_mark r (done b) = (record r { marked = b ++ r.marked }, done true)
after_mark r (failed s) = (r, failed s)
after_mark r aborted = (r, aborted)

abbrev pub after_parse : Received → Result Commit → Received × Result Bool
after_parse r (done c) = (receive_commit c r, done true)
after_parse r (failed s) = (r, failed s)
after_parse r aborted = (r, aborted)

-- `marked` are also what was written when a later call fails.
pub record SyncOutcome : Type 0 where
  pub marked : List Write
  pub result : Result Outcome

abbrev pub nothing_new : Outcome
nothing_new = record { status = ok; executed = []; notified = [] }

module _ (from_storage_bytes : ℕ → ℕ → Result Commit) (db : Db) where
  abbrev pub receive_status : CommitIdAndBytes → Received → Status → Received × Result Bool
  receive_status x r ok = after_mark r (mark_commit_synced db x.id)
  receive_status x r not_found = after_parse r (from_storage_bytes x.id x.bytes)
  receive_status x r s = (r, failed s)

  -- The body of the loop.
  unfoldable pub receive_one : CommitIdAndBytes → Received → Received × Result Bool
  receive_one x r = receive_status x r (contains_commit db x.id)

  abbrev pub go_on :
      (Received → Received × Result Bool) → Received × Result Bool → Received × Result Bool
  go_on rest (r, done t) = rest r
  go_on rest (r, failed s) = (r, failed s)
  go_on rest (r, aborted) = (r, aborted)

  unfoldable pub receive : List CommitIdAndBytes → Received → Received × Result Bool
  receive [] r = (r, done true)
  receive (x ∷ xs) r = go_on (λ t. receive xs t) (receive_one x r)

  module _ (get_objects_from_sync : List ℕ → Status) (fuel : ℕ) (objects : ObjectReads)
      (later : Db) where
    -- After the loop.
    abbrev pub add_received : Received → Result Outcome
    add_received r =
        if is_empty r.commits
        then done nothing_new
        else on_ok (get_objects_from_sync (map (λ c. c.root_identifier) r.leaves)) r.commits
          >>= λ commits. add_commits fuel objects later commits from_sync []

    abbrev pub after_receive : Received × Result Bool → SyncOutcome
    after_receive (r, done t) = record { marked = r.marked; result = add_received r }
    after_receive (r, failed s) = record { marked = r.marked; result = failed s }
    after_receive (r, aborted) = record { marked = r.marked; result = aborted }

    unfoldable pub add_commits_from_sync : List CommitIdAndBytes → SyncOutcome
    add_commits_from_sync xs = after_receive (receive xs nothing_received)
