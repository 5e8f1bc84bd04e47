-- ===== src/Storage/PageStorage.antt =====
-- bin/ledger/storage/impl/page_storage_impl.cc: how commits are added to a page. `commit_serializer_`
-- lets one such operation run at a time, so it is a function of what it finds in the database, `Db`. It
-- gives the batch that was executed and the commits that the watchers were told of. Commits are read
-- from the database, which does not change before the batch is executed.
pub mod Rules
pub mod Outcomes
pub mod Stored
pub mod Synced
pub mod Heads
pub mod Progress
pub mod Retries
pub mod Complete
pub mod Orphans
pub mod FromSync
pub mod Examples
use peridot.Base.{
  ℕ, zero, suc, Bool, true, false, not, ◌&&◌, ◌||◌, Option, none, some, List, [], ◌∷◌, ◌++◌, ltb,
  ◌==◌, if◌then◌else◌, contains, length, is_empty,
}
use peridot.Storage.Types.{
  Status, ok, not_found, io_error, format_error, illegal_state, internal_io_error, interrupted,
  not_connected_error, no_such_child, object_digest_mismatch, not_implemented, is_ok, Result, done,
  failed, aborted, check, ◌>>=◌,
}
use peridot.Storage.Pieces.{ObjectReads, ChangeSource, from_local, from_sync, mark_all_pieces_local}
use peridot.Storage.PageDb.{
  Db, Write, put, delete, local, on_ok, get_commit_storage_bytes, read_object, add_head,
  remove_head, add_commit_storage_bytes, mark_commit_id_synced, mark_commit_id_unsynced,
  set_object_status,
}

pub record Commit : Type 0 where
  pub id : ℕ
  pub parents : List ℕ
  pub generation : ℕ
  pub timestamp : ℕ
  pub root_identifier : ℕ
  pub storage_bytes : ℕ

-- `kFirstPageCommitId`, which is not stored.
abbrev pub is_first_commit : ℕ → Bool
is_first_commit id = id == 0

unfoldable pub contains_commit : Db → ℕ → Status
contains_commit db id = if is_first_commit id then ok else (get_commit_storage_bytes db id).0

-- `heads_to_add`, a map in the order of its keys.
abbrev pub has_head : ℕ → List (ℕ × ℕ) → Bool
has_head i [] = false
has_head i ((j, t) ∷ hs) = j == i || has_head i hs

abbrev pub erase_head : ℕ → List (ℕ × ℕ) → List (ℕ × ℕ)
erase_head i [] = []
erase_head i ((j, t) ∷ hs) = if j == i then erase_head i hs else (j, t) ∷ erase_head i hs

abbrev pub set_head : ℕ → ℕ → List (ℕ × ℕ) → List (ℕ × ℕ)
set_head i t [] = (i, t) ∷ []
set_head i t ((j, u) ∷ hs) =
    if j == i
    then (i, t) ∷ hs
    else if ltb i j
    then (i, t) ∷ (j, u) ∷ hs
    else (j, u) ∷ set_head i t hs

-- The variables of the loop of `SynchronousAddCommits` that outlive a round.
pub record Adding : Type 0 where
  pub heads_to_add : List (ℕ × ℕ)
  pub added_commits : List ℕ
  pub commits_to_send : List Commit
  pub batch : List Write

-- And those of one round.
pub record Round : Type 0 where
  pub adding : Adding
  pub remaining_commits : List Commit
  pub continue_trying : Bool

abbrev pub set_batch : Adding → List Write → Adding
set_batch a b = record a { batch = b }

abbrev pub mark_unsynced : Db → ChangeSource → Commit → List Write → Result (List Write)
mark_unsynced db from_local c b = mark_commit_id_unsynced db c.id c.generation b
mark_unsynced db from_sync c b = done b

abbrev pub mark_synced : Db → ChangeSource → Commit → List Write → Result (List Write)
mark_synced db from_local c b = done b
mark_synced db from_sync c b = mark_commit_id_synced db c.id b

module _ (db : Db) where
  -- Whether a parent is there, so that its child can be added.
  abbrev pub parent_status : Status → Result Bool
  parent_status ok = done true
  parent_status not_found = done false
  parent_status _ = failed internal_io_error

  unfoldable pub has_parent : ℕ → Adding → Result Bool
  has_parent p a =
      if contains a.added_commits p then done true else parent_status (contains_commit db p)

  unfoldable pub remove_parent : ℕ → Adding → Result Adding
  remove_parent p a =
      if has_head p a.heads_to_add
      then done (record a { heads_to_add = erase_head p a.heads_to_add })
      else remove_head db p a.batch >>= λ b. done (set_batch a b)

  -- Whether all parents are there; those before the first that is not are no heads any more.
  unfoldable pub remove_parents : List ℕ → Adding → Result (Bool × Adding)
  remove_parents [] a = done (true, a)
  remove_parents (p ∷ ps) a = has_parent p a >>= λ there.
      if there then (remove_parent p a >>= λ b. remove_parents ps b) else done (false, a)

  module _ (source : ChangeSource) where
    unfoldable pub add_new_commit : Commit → Adding → Result Adding
    add_new_commit c a = add_commit_storage_bytes db c.id c.storage_bytes a.batch >>= λ b.
        mark_unsynced db source c b >>= λ d. done (record {
          heads_to_add = set_head c.id c.timestamp a.heads_to_add;
          added_commits = c.id ∷ a.added_commits;
          commits_to_send = a.commits_to_send ++ (c ∷ []);
          batch = d;
        })

    abbrev pub finish_commit : Commit → Round → Bool → Adding → Result Round
    finish_commit c r true a =
        add_new_commit c a >>= λ b. done (record r { adding = b; continue_trying = true })
    finish_commit c r false a =
        done (record r { adding = a; remaining_commits = r.remaining_commits ++ (c ∷ []) })

    abbrev pub known_commit : Commit → Round → Result Round
    known_commit c r = mark_synced db source c r.adding.batch >>= λ b.
        done (record r { adding = set_batch r.adding b })

    abbrev pub try_commit : Commit → Round → Status → Result Round
    try_commit c r ok = known_commit c r
    try_commit c r not_found =
        remove_parents c.parents r.adding >>= λ found. finish_commit c r found.0 found.1
    try_commit c r s = failed s

    -- The body of the loop over `commits`.
    unfoldable pub add_commit : Commit → Round → Result Round
    add_commit c r = try_commit c r (contains_commit db c.id)

    unfoldable pub add_each : List Commit → Round → Result Round
    add_each [] r = done r
    add_each (c ∷ cs) r = add_commit c r >>= λ t. add_each cs t

    -- The loop that puts `heads_to_add` into the batch.
    unfoldable pub add_heads : List (ℕ × ℕ) → List Write → Result (List Write)
    add_heads [] b = done b
    add_heads ((i, t) ∷ hs) b = add_head db i t b >>= λ d. add_heads hs d

    unfoldable pub one_round : List Commit → Adding → Result Round
    one_round cs a =
        add_each cs (record { adding = a; remaining_commits = []; continue_trying = false })
        >>= λ r. add_heads r.adding.heads_to_add r.adding.batch >>= λ b.
            done (record r { adding = set_batch r.adding b })

    -- The loop on `continue_trying`: what is left, whether commits were out of order, and the rest.
    unfoldable pub rounds : ℕ → List Commit → Bool → Adding → Result (List Commit × Bool × Adding)
    rounds zero cs out_of_order a = aborted
    rounds (suc n) [] out_of_order a = done ([], out_of_order, a)
    rounds (suc n) (c ∷ cs) out_of_order a = one_round (c ∷ cs) a >>= λ r.
        let unordered = out_of_order || not (is_empty r.remaining_commits) in
        if r.continue_trying
        then rounds n r.remaining_commits unordered r.adding
        else done (r.remaining_commits, unordered, r.adding)

-- What `SynchronousAddCommits` returns, the batch that was executed, and the commits that were given
-- to `NotifyWatchers`, which leaves `commits_to_send_` empty.
pub record Outcome : Type 0 where
  pub status : Status
  pub executed : List Write
  pub notified : List Commit

abbrev executed_batch : Status → List Write → List Write
executed_batch s b = if is_ok s then b else []

abbrev pub execute : Db → Adding → List Write → Outcome
execute db a b = record {
  status = db.execute_status;
  executed = executed_batch db.execute_status b;
  notified = a.commits_to_send;
}

abbrev pub nothing_added : Adding
nothing_added = record { heads_to_add = []; added_commits = []; commits_to_send = []; batch = [] }

module _ (fuel : ℕ) (objects : ObjectReads) (db : Db) where
  -- After the loop: `found` is what it gives.
  unfoldable pub complete : List ℕ → List Commit × Bool × Adding → Result Outcome
  complete new_objects ([], out_of_order, a) =
      mark_all_pieces_local db objects fuel new_objects [] a.batch >>= λ b. done (execute db a b)
  complete new_objects (c ∷ cs, out_of_order, a) = check out_of_order (failed illegal_state)

  unfoldable pub add_commits : List Commit → ChangeSource → List ℕ → Result Outcome
  add_commits commits source new_objects = on_ok db.start_status nothing_added >>= λ a.
      rounds db source (suc (length commits)) commits false a >>= λ r. complete new_objects r

  unfoldable pub add_commit_from_local : Commit → List ℕ → Result Outcome
  add_commit_from_local commit new_objects = add_commits (commit ∷ []) from_local new_objects
