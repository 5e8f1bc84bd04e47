-- ===== src/CloudSync/BatchUpload.antt =====
-- bin/ledger/cloud_sync/impl/batch_upload.{h,cc}: upload of a batch of commits and of the unsynced
-- objects. A call of the storage, of the encryption service or of the cloud is an entry of
-- `pending`, and its callback is the matching clause of `resume`, which gets the reply as an
-- argument; a schedule says in which order the replies arrive. A failed `FXL_DCHECK` is `none`.
-- Identifiers of objects and of commits are numbers, of which the code asks only whether they are
-- equal. A waiter of `UploadCommits` is one entry, with the number of callbacks that it waits for: each
-- reply is that of one of its calls, and the first failure ends the wait, since a callback that a
-- waiter no longer waits for does nothing.
pub mod Invariant
pub mod Callbacks
pub mod Attempt
pub mod Schedule
pub mod Objects
pub mod Accounts
pub mod Errors
pub mod Examples
use Prim.Native.String.{String}
use peridot.Base.{
  ℕ, zero, suc, ◌-◌, Bool, true, false, not, ◌&&◌, Option, none, some, List, [], ◌∷◌, ltb, ◌==◌,
  if◌then◌else◌, inc32, ◌>>=◌, dcheck, contains, length, is_empty, keep, pick,
}

pub data ErrorType : Type 0 where
  permanent temporary : ErrorType

-- What the client is told: `on_done_()` or `on_error_(type)`.
pub data Report : Type 0 where
  done : Report
  error : ErrorType → Report

-- The requests whose callbacks have not run, with what their callbacks have captured.
pub data Pending : Type 0 where
  get_unsynced_pieces : Pending
  get_object_name : ℕ → Pending
  get_piece : ℕ → String → Pending
  encrypt_object : ℕ → String → Pending
  add_object : ℕ → String → String → Pending
  mark_piece_synced : ℕ → Pending
  get_unsynced_commits : Pending
  encrypt_commits : List ℕ → ℕ → Pending
  add_commits : List ℕ → Pending
  mark_commits_synced : List ℕ → ℕ → Pending

-- A reply: whether its status is OK, and what comes with it. `vmo` says whether the data could be
-- put in a VMO (`object->GetVmo`, `fsl::VmoFromString`), `object` is `object->GetIdentifier()`.
pub record Reply : Type 0 where
  pub ok : Bool
  pub vmo : Bool
  pub object : ℕ
  pub text : String
  pub ids : List ℕ

-- The head of `remaining` is the back of the vector.
pub record BatchUpload : Type 0 where
  pub commits : List ℕ
  pub max_concurrent_uploads : ℕ
  pub remaining : List ℕ
  pub current_uploads : ℕ
  pub current_objects_handled : ℕ
  pub started : Bool
  pub errored : Bool
  pub error_type : ErrorType
  pub pending : List Pending
  pub reports : List Report

abbrev pub send : Pending → BatchUpload → BatchUpload
send p s = record s { pending = p ∷ s.pending }

abbrev pub report : Report → BatchUpload → BatchUpload
report r s = record s { reports = r ∷ s.reports }

abbrev fail : ErrorType → BatchUpload → BatchUpload
fail t s = report (error t) (record s { errored = true })

unfoldable pub create : List ℕ → ℕ → BatchUpload
create commits max = record {
  commits = commits;
  max_concurrent_uploads = max;
  remaining = [];
  current_uploads = 0;
  current_objects_handled = 0;
  started = false;
  errored = false;
  error_type = temporary;
  pending = [];
  reports = [];
}

enqueue_for_retry_and_signal_error : ℕ → BatchUpload → Option BatchUpload
enqueue_for_retry_and_signal_error oid s = dcheck (ltb 0 s.current_objects_handled) (
    let handled = s.current_objects_handled - 1 in
    let s' = record s {
      current_objects_handled = handled;
      errored = true;
      remaining = oid ∷ s.remaining;
    } in
    some (if handled == 0 then report (error s.error_type) s' else s'))

-- The waiter for `EncryptCommit`, one call for each commit, when `left` calls are to be answered.
wait_for_encryption : List ℕ → ℕ → BatchUpload → BatchUpload
wait_for_encryption ids zero s = send (add_commits ids) s
wait_for_encryption ids left s = send (encrypt_commits ids left) s

-- The waiter for `MarkCommitSynced`, one call for each commit.
wait_for_marks : List ℕ → ℕ → BatchUpload → BatchUpload
wait_for_marks ids zero s = report done s
wait_for_marks ids left s = send (mark_commits_synced ids left) s

upload_commits : BatchUpload → Option BatchUpload
unfolding wait_for_encryption
upload_commits s =
    dcheck (not s.errored) (some (wait_for_encryption s.commits (length s.commits) s))

filter_and_upload_commits : BatchUpload → Option BatchUpload
filter_and_upload_commits s = some (send get_unsynced_commits s)

-- The callback of `GetUnsyncedCommits` in `FilterAndUploadCommits`: its status is not looked at.
filter_commits : List ℕ → BatchUpload → Option BatchUpload
unfolding upload_commits
filter_commits unsynced s =
    let s' = record s { commits = keep (contains unsynced) s.commits } in
    if is_empty s'.commits then some (report done s') else upload_commits s'

upload_encrypted_object : ℕ → String → String → Bool → BatchUpload → Option BatchUpload
unfolding enqueue_for_retry_and_signal_error
upload_encrypted_object oid name content vmo s =
    if vmo
    then some (send (add_object oid name content) s)
    else enqueue_for_retry_and_signal_error oid s

-- The callback of `EncryptObject` captures the identifier that the object itself has.
upload_object : String → ℕ → Bool → BatchUpload → Option BatchUpload
upload_object name object vmo s = dcheck vmo (some (send (encrypt_object object name) s))

get_object_content_and_upload : ℕ → String → BatchUpload → Option BatchUpload
get_object_content_and_upload oid name s = some (send (get_piece oid name) s)

pop_and_upload : List ℕ → BatchUpload → Option BatchUpload
pop_and_upload [] s = none
pop_and_upload (oid ∷ rest) s = dcheck (ltb s.current_uploads s.max_concurrent_uploads) (
    some (
      send (get_object_name oid) (record s {
        current_uploads = inc32 s.current_uploads;
        current_objects_handled = inc32 s.current_objects_handled;
        remaining = rest;
      })))

upload_next_object : BatchUpload → Option BatchUpload
unfolding pop_and_upload
upload_next_object s = pop_and_upload s.remaining s

-- The `while` loop of `StartObjectUpload`; each round takes one object away.
upload_loop : ℕ → BatchUpload → Option BatchUpload
upload_loop zero s = some s
upload_loop (suc fuel) s =
    elim (ltb s.current_uploads s.max_concurrent_uploads && not (is_empty s.remaining)) [
      | true ↦ upload_next_object s >>= upload_loop fuel
      | false ↦ some s
    ]

pub start_object_upload : BatchUpload → Option BatchUpload
unfolding filter_and_upload_commits
start_object_upload s = dcheck (s.current_uploads == 0) (
    if is_empty s.remaining
    then filter_and_upload_commits s
    else upload_loop (length s.remaining) s)

pub start : BatchUpload → Option BatchUpload
start s =
    dcheck (not s.started)
      (dcheck (not s.errored) (some (send get_unsynced_pieces (record s { started = true }))))

pub retry : BatchUpload → Option BatchUpload
unfolding start_object_upload
retry s =
    dcheck s.started (
      dcheck s.errored (start_object_upload (record s { errored = false; error_type = temporary })))

-- The callback of `AddObject`.
object_added : ℕ → Bool → BatchUpload → Option BatchUpload
unfolding enqueue_for_retry_and_signal_error
object_added oid ok s = dcheck (ltb 0 s.current_uploads) (
    let s' = record s { current_uploads = s.current_uploads - 1 } in
    if ok
    then some (send (mark_piece_synced oid) s')
    else enqueue_for_retry_and_signal_error oid s')

after_piece_synced : BatchUpload → Option BatchUpload
unfolding filter_and_upload_commits upload_next_object
after_piece_synced s =
    if s.errored && s.current_objects_handled == 0
    then some (report (error s.error_type) s)
    else if s.current_objects_handled == 0 && is_empty s.remaining
    then filter_and_upload_commits s
    else if not s.errored && not (is_empty s.remaining)
    then upload_next_object s
    else some s

-- The callback of `MarkPieceSynced`.
piece_synced : Bool → BatchUpload → Option BatchUpload
piece_synced ok s = dcheck (ltb 0 s.current_objects_handled) (
    let s' = record s { current_objects_handled = s.current_objects_handled - 1 } in
    after_piece_synced (if ok then s' else record s' { errored = true; error_type = permanent }))

-- The callback of a request, on its reply.
pub resume : Pending → Reply → BatchUpload → Option BatchUpload
unfolding enqueue_for_retry_and_signal_error get_object_content_and_upload upload_object
    upload_encrypted_object object_added piece_synced filter_commits wait_for_encryption
    wait_for_marks
resume get_unsynced_pieces r s =
    if r.ok then start_object_upload (record s { remaining = r.ids }) else some (fail permanent s)
resume (get_object_name oid) r s =
    if r.ok
    then get_object_content_and_upload oid r.text s
    else enqueue_for_retry_and_signal_error oid s
resume (get_piece oid name) r s = dcheck r.ok (upload_object name r.object r.vmo s)
resume (encrypt_object oid name) r s =
    if r.ok
    then upload_encrypted_object oid name r.text r.vmo s
    else enqueue_for_retry_and_signal_error oid s
resume (add_object oid name content) r s = object_added oid r.ok s
resume (mark_piece_synced oid) r s = piece_synced r.ok s
resume get_unsynced_commits r s = filter_commits r.ids s
resume (encrypt_commits ids left) r s =
    some (if r.ok then wait_for_encryption ids (left - 1) s else fail permanent s)
resume (add_commits ids) r s =
    dcheck (not s.errored)
      (some (if r.ok then wait_for_marks ids (length ids) s else fail temporary s))
resume (mark_commits_synced ids left) r s =
    some (if r.ok then wait_for_marks ids (left - 1) s else fail permanent s)

abbrev deliver : Option (Pending × List Pending) → Reply → BatchUpload → Option BatchUpload
deliver none r s = some s
deliver (some (p, rest)) r s = resume p r (record s { pending = rest })

-- The reply to the request at a position arrives; where there is none, nothing happens.
pub step : ℕ → Reply → BatchUpload → Option BatchUpload
step i r s = deliver (pick i s.pending) r s

pub run : List (ℕ × Reply) → BatchUpload → Option BatchUpload
run [] s = some s
run ((i, r) ∷ rest) s = step i r s >>= run rest
