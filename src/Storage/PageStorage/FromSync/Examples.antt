-- ===== src/Storage/PageStorage/FromSync/Examples.antt =====
-- Three commits from the cloud, of which one is known, bin/ledger/storage/impl/page_storage_impl.cc.
use peridot.Base.{ℕ, true, List, [], ◌∷◌, ◌≡◌, refl, ap, sym, ◌||◌, All, arith}
use peridot.Storage.Types.{ok, io_error, Result, done, failed}
use peridot.Storage.PageDb.{
  delete, unsynced_row, write, add_head, remove_head, add_commit_storage_bytes,
  mark_commit_id_synced, in_batch,
}
use peridot.Storage.Pieces.{mark_all_pieces_local}
use peridot.Storage.PageStorage.{
  Commit, contains_commit, has_parent, remove_parent, remove_parents, add_new_commit, add_commit,
  add_each, add_heads, one_round, rounds, complete, add_commits,
}
use peridot.Storage.PageStorage.Stored.{IsStored, rows_after}
use peridot.Storage.PageStorage.Heads.{is_parent}
use peridot.Storage.PageStorage.Examples.{objects, page, commit, in_order}
use peridot.Storage.PageStorage.FromSync.{
  CommitIdAndBytes, Received, nothing_received, has_leaf, mark_commit_synced, receive_one, receive,
  add_commits_from_sync,
}
use peridot.Storage.PageStorage.FromSync.Stored.{add_commits_from_sync-IsStored}
use peridot.Storage.PageStorage.FromSync.Leaves.{receive-leaves}

-- The bytes are the identifier of the parent.
abbrev parse : ℕ → ℕ → Result Commit
parse id bytes = done (commit id bytes)

abbrev came : ℕ → ℕ → CommitIdAndBytes
came id bytes = record { id = id; bytes = bytes }

abbrev three : List CommitIdAndBytes
three = came 1 0 ∷ came 2 1 ∷ came 3 2 ∷ []

abbrev received : Received
received = record {
  commits = commit 2 1 ∷ commit 3 2 ∷ [];
  leaves = commit 3 2 ∷ [];
  marked = delete (unsynced_row 1) ∷ [];
}

received-eq : (receive parse page three nothing_received) ≡ (received, done true)
unfolding receive receive_one contains_commit mark_commit_synced in_batch mark_commit_id_synced
    write
received-eq = refl

from_sync-done :
    add_commits_from_sync parse page (λ roots. ok) 1 objects page three
    ≡ record { marked = delete (unsynced_row 1) ∷ []; result = done in_order }
unfolding add_commits_from_sync receive receive_one contains_commit mark_commit_synced in_batch
    mark_commit_id_synced write add_commits rounds one_round add_each add_commit remove_parents
    has_parent remove_parent remove_head add_new_commit add_commit_storage_bytes add_heads add_head
    complete mark_all_pieces_local
from_sync-done = refl

-- If the trees cannot be fetched, no commit is added, but the known one stays marked.
from_sync-failed :
    add_commits_from_sync parse page (λ roots. io_error) 1 objects page three
    ≡ record { marked = delete (unsynced_row 1) ∷ []; result = failed io_error }
unfolding add_commits_from_sync receive receive_one contains_commit mark_commit_synced in_batch
    mark_commit_id_synced write
from_sync-failed = refl

parse_id : (i b : ℕ) (c : Commit) → parse i b ≡ done c → c.id ≡ i
parse_id i b c e = ground (arith, e)

add_commits_from_sync-IsStored_example : All (λ x. IsStored (rows_after page in_order) x.id) three
add_commits_from_sync-IsStored_example =
    add_commits_from_sync-IsStored parse page (λ roots. ok) 1 objects page three in_order parse_id
      (λ i h. h) (ap (λ z. z.result) from_sync-done) refl

leaves_fetched :
    All
      (λ c. has_leaf c.id received.leaves || is_parent c.id received.commits ≡ true)
      received.commits
leaves_fetched = receive-leaves parse page three received (ap (λ z. z.0) (sym received-eq))
