-- ===== src/Storage/PageDb.antt =====
-- bin/ledger/storage/impl: page_db_impl.cc and page_db_batch_impl.cc, the rows in which a page keeps
-- its commits and objects. A row of the database has a value or it has none. `Db` is what an operation
-- finds: the rows, and the answers to its calls, of which any may fail. A batch is the list of its
-- writes, the newest first; LevelDB, as storage/impl/db.h has it, makes them at once when the batch
-- is executed. Identifiers and values are numbers; the value of a status row is 0. An identifier stands for its digest.
use peridot.Base.{
  ℕ, Bool, true, false, not, ◌&&◌, Option, none, some, List, [], ◌∷◌, ltb, leb, ◌==◌, if◌then◌else◌,
}
use peridot.Storage.Types.{
  Status, ok, not_found, interrupted, is_ok, Result, done, failed, aborted, check, ◌>>=◌,
}

pub data ObjectStatus : Type 0 where
  unknown transient local synced : ObjectStatus

-- `twice_prefixed_row` is the object row of a digest that is itself the key of an object row.
pub data Row : Type 0 where
  head_row commit_row unsynced_row object_row twice_prefixed_row : ℕ → Row
  status_row : ObjectStatus → ℕ → Row

pub data Write : Type 0 where
  put : Row → ℕ → Write
  delete : Row → Write

-- `ObjectStatus` in its order.
abbrev pub rank : ObjectStatus → ℕ
rank unknown = 0
rank transient = 1
rank local = 2
rank synced = 3

abbrev pub same_row : Row → Row → Bool
same_row (head_row a) (head_row b) = a == b
same_row (commit_row a) (commit_row b) = a == b
same_row (unsynced_row a) (unsynced_row b) = a == b
same_row (object_row a) (object_row b) = a == b
same_row (twice_prefixed_row a) (twice_prefixed_row b) = a == b
same_row (status_row s a) (status_row t b) = rank s == rank t && a == b
same_row _ _ = false

-- What is in a row after the writes of a batch, if something was in it before.
abbrev pub after : List Write → Row → Option ℕ → Option ℕ
after [] r v = v
after (put q x ∷ ws) r v = if same_row q r then some x else after ws r v
after (delete q ∷ ws) r v = if same_row q r then none else after ws r v

pub record Db : Type 0 where
  pub rows : Row → Option ℕ
  pub read_status : Row → Status
  pub batch_status : List Write → Status
  pub start_status : Status
  pub execute_status : Status

abbrev pub is_some : Option ℕ → Bool
is_some none = false
is_some (some v) = true

abbrev pub on_ok {ℓ} : {A : Type ℓ} → Status → A → Result A
on_ok s a = if is_ok s then done a else failed s

abbrev pub found : Option ℕ → Status × ℕ
found none = (not_found, 0)
found (some v) = (ok, v)

-- `Db::Get`
abbrev pub get : Db → Row → Status × ℕ
get db r = if is_ok (db.read_status r) then found (db.rows r) else (db.read_status r, 0)

-- `Db::HasKey`
abbrev pub has_key : Db → Row → Result Bool
has_key db r = on_ok (db.read_status r) (is_some (db.rows r))

-- A write that is put into a batch.
unfoldable pub write : Db → Write → List Write → Result (List Write)
write db w batch = on_ok (db.batch_status (w ∷ batch)) (w ∷ batch)

module _ (db : Db) where
  abbrev pub get_commit_storage_bytes : ℕ → Status × ℕ
  get_commit_storage_bytes id = get db (commit_row id)

  abbrev pub read_object : ℕ → Status × ℕ
  read_object id = get db (object_row id)

  unfoldable pub add_head : ℕ → ℕ → List Write → Result (List Write)
  add_head head timestamp = write db (put (head_row head) timestamp)

  unfoldable pub remove_head : ℕ → List Write → Result (List Write)
  remove_head head = write db (delete (head_row head))

  unfoldable pub add_commit_storage_bytes : ℕ → ℕ → List Write → Result (List Write)
  add_commit_storage_bytes id bytes = write db (put (commit_row id) bytes)

  unfoldable pub mark_commit_id_synced : ℕ → List Write → Result (List Write)
  mark_commit_id_synced id = write db (delete (unsynced_row id))

  unfoldable pub mark_commit_id_unsynced : ℕ → ℕ → List Write → Result (List Write)
  mark_commit_id_unsynced id generation = write db (put (unsynced_row id) generation)

  unfoldable pub is_commit_synced : ℕ → Result Bool
  is_commit_synced id = has_key db (unsynced_row id) >>= λ has. done (not has)

  -- The statuses that are still to be tried.
  abbrev pub first_status : ℕ → List ObjectStatus → Result ObjectStatus
  first_status id [] = done unknown
  first_status id (s ∷ ss) =
      has_key db (status_row s id) >>= λ has. if has then done s else first_status id ss

  unfoldable pub get_object_status : ℕ → Result ObjectStatus
  get_object_status id = first_status id (synced ∷ transient ∷ local ∷ [])

  -- What a debug build makes of the answer of `HasObject`.
  abbrev pub checked : Status → Bool → List Write → Result (List Write)
  checked interrupted has batch = failed interrupted
  checked ok true batch = done batch
  checked _ _ _ = aborted

  unfoldable pub d_check_has_object : ℕ → List Write → Result (List Write)
  d_check_has_object id =
      checked (db.read_status (object_row id)) (is_some (db.rows (object_row id)))

  -- `UNKNOWN` has no row, its key is `FXL_NOTREACHED`.
  unfoldable pub change_object_status :
      ℕ → ObjectStatus → ObjectStatus → List Write → Result (List Write)
  change_object_status id s previous batch =
      if leb (rank s) (rank previous)
      then done batch
      else check (ltb (rank unknown) (rank previous)) (
          write db (delete (status_row previous id)) batch >>= λ b.
          write db (put (status_row s id) 0) b)

  unfoldable pub set_object_status : ℕ → ObjectStatus → List Write → Result (List Write)
  set_object_status id s batch = check (leb (rank local) (rank s)) (
      d_check_has_object id batch >>= λ b.
      get_object_status id >>= λ previous. change_object_status id s previous b)

  abbrev is_transient : ObjectStatus → Bool
  is_transient transient = true
  is_transient _ = false

  -- `WriteObject`, of which `content` is the data. It passes the key of the object's row to `HasObject`,
  -- which makes the key of a row out of it once more.
  unfoldable pub write_object : ℕ → ℕ → ObjectStatus → List Write → Result (List Write)
  write_object id content s batch = check (ltb (rank unknown) (rank s)) (
      has_key db (twice_prefixed_row id) >>= λ has.
      if has
      then if is_transient s then done batch else set_object_status id s batch
      else write db (put (object_row id) content) batch >>= λ b.
          write db (put (status_row s id) 0) b)

  -- A call of `PageDb` itself: one change in a batch of its own.
  unfoldable pub in_batch : (List Write → Result (List Write)) → Result (List Write)
  in_batch change =
      on_ok db.start_status [] >>= λ empty. change empty >>= λ batch. on_ok db.execute_status batch
