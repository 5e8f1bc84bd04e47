-- ===== src/Storage/PageStorage/Examples.antt =====
-- Commits that are added to a page of one commit, bin/ledger/storage/impl/page_storage_impl.cc.
use peridot.Base.{
  ℕ, true, false, [], ◌∷◌, ◌≡◌, refl, inl, inr, Option, none, some, if◌then◌else◌, ◌==◌, All,
  contains, arith, ◌||◌,
}
use peridot.Storage.Types.{ok, not_found, io_error, illegal_state, done, failed}
use peridot.Storage.Pieces.{ObjectReads, from_sync, value_hash, mark_all_pieces_local}
use peridot.Storage.PageDb.{
  Db, Row, put, delete, head_row, commit_row, unsynced_row, object_row, twice_prefixed_row,
  status_row, is_some, write, add_head, remove_head, add_commit_storage_bytes,
  mark_commit_id_unsynced,
}
use peridot.Storage.PageStorage.{
  Commit, Outcome, contains_commit, has_parent, remove_parent, remove_parents, add_new_commit,
  add_commit, add_each, add_heads, one_round, rounds, complete, add_commits, add_commit_from_local,
}
use peridot.Storage.PageStorage.Stored.{rows_after, IsStored, IsClosed, add_commits-IsClosed}
use peridot.Storage.PageStorage.Synced.{add_commits-stays_synced}
use peridot.Storage.PageStorage.Heads.{add_commits-tips, add_commits-replaced}
use peridot.Storage.PageStorage.Complete.{add_commits_complete}
use peridot.Storage.PageStorage.Orphans.{add_commits-orphan}

abbrev pub objects : ObjectReads
objects = record {
  digest_type = λ i. value_hash;
  get_data = λ i. done i;
  parse_file_index = λ i. done [];
  compute_object_digest = λ t i. i;
}

-- The commit 1 is stored, synced and the head.
abbrev rows : Row → Option ℕ
rows (commit_row i) = if i == 1 then some 10 else none
rows (head_row i) = if i == 1 then some 5 else none
rows (unsynced_row i) = none
rows (object_row i) = none
rows (twice_prefixed_row i) = none
rows (status_row s i) = none

abbrev pub page : Db
page = record {
  rows = rows;
  read_status = λ r. ok;
  batch_status = λ b. ok;
  start_status = ok;
  execute_status = ok;
}

abbrev pub commit : ℕ → ℕ → Commit
commit id parent = record {
  id = id;
  parents = parent ∷ [];
  generation = id;
  timestamp = 6;
  root_identifier = 0;
  storage_bytes = 20;
}

abbrev pub in_order : Outcome
in_order = record {
  status = ok;
  executed =
      put (head_row 3) 6 ∷ put (commit_row 3) 20 ∷ put (commit_row 2) 20 ∷ delete (head_row 1) ∷ [];
  notified = commit 2 1 ∷ commit 3 2 ∷ [];
}

-- The child comes first: the head of its parent is put at the end of the first round and stays.
abbrev out_of_order : Outcome
out_of_order = record {
  status = ok;
  executed =
      put (head_row 3) 6
      ∷ put (commit_row 3) 20
      ∷ put (head_row 2) 6
      ∷ put (commit_row 2) 20
      ∷ delete (head_row 1)
      ∷ [];
  notified = commit 2 1 ∷ commit 3 2 ∷ [];
}

in_order-done :
    add_commits 1 objects page (commit 2 1 ∷ commit 3 2 ∷ []) from_sync [] ≡ done in_order
unfolding add_commits rounds one_round add_each add_commit contains_commit remove_parents has_parent
    remove_parent remove_head add_new_commit add_commit_storage_bytes add_heads add_head write
    complete mark_all_pieces_local
in_order-done = refl

out_of_order-done :
    add_commits 1 objects page (commit 3 2 ∷ commit 2 1 ∷ []) from_sync [] ≡ done out_of_order
unfolding add_commits rounds one_round add_each add_commit contains_commit remove_parents has_parent
    remove_parent remove_head add_new_commit add_commit_storage_bytes add_heads add_head write
    complete mark_all_pieces_local
out_of_order-done = refl

in_order_heads :
    (is_some (rows_after page in_order (head_row 2)) ≡ false)
    × (is_some (rows_after page in_order (head_row 3)) ≡ true)
in_order_heads = (refl, refl)

out_of_order_heads :
    (is_some (rows_after page out_of_order (head_row 2)) ≡ true)
    × (is_some (rows_after page out_of_order (head_row 3)) ≡ true)
out_of_order_heads = (refl, refl)

-- The watchers are told of a commit that is not stored.
execute_fails :
    add_commit_from_local 1 objects (record page { execute_status = io_error }) (commit 2 1) []
    ≡ done (record { status = io_error; executed = []; notified = commit 2 1 ∷ [] })
unfolding add_commit_from_local add_commits rounds one_round add_each add_commit contains_commit
    remove_parents has_parent remove_parent remove_head add_new_commit add_commit_storage_bytes
    mark_commit_id_unsynced add_heads add_head write complete mark_all_pieces_local
execute_fails = refl

add_commits-IsClosed_example :
    IsClosed (rows_after page out_of_order) (commit 1 0 ∷ commit 2 1 ∷ commit 3 2 ∷ [])
add_commits-IsClosed_example =
    add_commits-IsClosed 1 objects page from_sync (commit 3 2 ∷ commit 2 1 ∷ []) [] out_of_order
      (commit 1 0 ∷ []) out_of_order-done refl ((refl, (refl, tt)), tt)

add_commits-stays_synced_example : rows_after page out_of_order (unsynced_row 1) ≡ none
add_commits-stays_synced_example =
    add_commits-stays_synced 1 objects page from_sync (commit 3 2 ∷ commit 2 1 ∷ []) [] out_of_order
      1 (λ r. ground arith) refl refl out_of_order-done refl

add_commits-tips_example :
    is_some (rows_after page out_of_order (head_row 3))
    ≡ (contains (2 ∷ 3 ∷ []) 3 || is_some (page.rows (head_row 3)))
add_commits-tips_example =
    add_commits-tips 1 objects page from_sync (commit 3 2 ∷ commit 2 1 ∷ []) [] out_of_order 3
      (refl, (refl, tt)) out_of_order-done refl

add_commits-replaced_example : is_some (rows_after page out_of_order (head_row 1)) ≡ false
add_commits-replaced_example =
    add_commits-replaced 1 objects page from_sync (commit 3 2 ∷ commit 2 1 ∷ []) [] out_of_order 1
      (λ r. ground arith) refl out_of_order-done refl refl

add_commits_complete_example :
    (o : Outcome) × (add_commits 1 objects page (commit 3 2 ∷ commit 2 1 ∷ []) from_sync []
      ≡ done o)
    × (o.status ≡ ok)
    × All (λ c. IsStored (rows_after page o) c.id) (commit 3 2 ∷ commit 2 1 ∷ [])
add_commits_complete_example =
    add_commits_complete 0 objects page from_sync (commit 3 2 ∷ commit 2 1 ∷ []) (λ r. refl)
      (λ b. refl) refl refl (((inr (inr (inl (refl, omega arith)))), tt), ((inl refl, tt), tt))

not_stored_3 : contains_commit page 3 ≡ not_found
unfolding contains_commit
not_stored_3 = refl

not_stored_4 : contains_commit page 4 ≡ not_found
unfolding contains_commit
not_stored_4 = refl

add_commits-orphan_example :
    add_commits 1 objects page (commit 4 3 ∷ commit 2 1 ∷ []) from_sync [] ≡ failed illegal_state
add_commits-orphan_example =
    add_commits-orphan 1 objects page from_sync (commit 4 3 ∷ commit 2 1 ∷ []) [] (commit 4 3) 3
      (inl refl)
      (
        ((λ e. ground (arith, e)), (λ e. refl)),
        (((λ e. ground (arith, e)), (λ e. absurd (ground (arith, e)))), tt),
      )
      refl not_stored_3 not_stored_4 (λ r. refl) (λ b. refl) refl
